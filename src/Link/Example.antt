-- ===== src/Link/Example.antt =====
-- raw_linux.go: DialRAW at 10.0.0.2:4000 and a RAWListener at 10.0.0.1:443, with settings to be chosen.
use rawcon.Common.{◌≡◌, refl, arith, false, none, some, [], ◌∷◌, replicate}
use rawcon.Common.Bytes.{Bytes}
use rawcon.Tcp.Checksum.{to4}
use rawcon.Tcp.Marshal.Layout.{encode_options}
use rawcon.Conn.{Raw, Socket}
use rawcon.Conn.Send.Segment.{IsReady}
use rawcon.Listener.{Listener, Draw}
use rawcon.Client.{RawConn}
use rawcon.Client.Dial.{Clock}
use rawcon.Client.Request.{RequestDraw}
use rawcon.Link.Handshake.{address_of}
use rawcon.Link.Handshake.Connects.{IsFresh, IsDialling}

abbrev pub server_ip : Bytes
server_ip = 10 ∷ 0 ∷ 0 ∷ 1 ∷ []

abbrev pub client_ip : Bytes
client_ip = 10 ∷ 0 ∷ 0 ∷ 2 ∷ []

server_ip-to4 : to4 server_ip ≡ some server_ip
unfolding to4
server_ip-to4 = refl

client_ip-to4 : to4 client_ip ≡ some client_ip
unfolding to4
client_ip-to4 = refl

abbrev pub socket : Socket
socket = record { sent = []; faults = [] }

-- As DialRAW makes it, with the sequence number 77.
abbrev pub new_conn : Raw → RawConn
new_conn r = record {
  r = r;
  layer = record {
    srcip = client_ip;
    dstip = server_ip;
    tcp = record {
      src_port = 4000;
      dst_port = 443;
      seqn = 77;
      ackn = 0;
      data_offset = 0;
      reserved = 0;
      ecn = 0;
      flags = 0;
      window = 12580;
      chksum = 0;
      urgent = 0;
      options = [];
      padding = [];
      payload = [];
      buffer = replicate 2048 0;
    };
  };
  dstport = 4000;
  hseqn = 0;
  mss = 0;
  socket = socket;
}

pub new_conn-IsReady : (r : Raw) → IsReady (new_conn r).layer
unfolding encode_options
new_conn-IsReady r = record {
  fits = record {
    range = record {
      src_port_range = omega arith;
      dst_port_range = omega arith;
      seqn_range = omega arith;
      ackn_range = omega arith;
      reserved_range = omega arith;
      ecn_range = omega arith;
      flags_range = omega arith;
      window_range = omega arith;
      urgent_range = omega arith;
    };
    wire = tt;
    short = omega arith;
  };
  from_ip = client_ip;
  to_ip = server_ip;
  from_ip4 = client_ip-to4;
  to_ip4 = server_ip-to4;
}

pub new_conn-IsDialling : (r : Raw) → IsDialling (new_conn r)
new_conn-IsDialling r = record { ready = new_conn-IsReady r; bare = refl; own = refl; calm = refl }

abbrev pub new_listener : Raw → Listener
new_listener r = record {
  r = r;
  laddr = record { ip = server_ip; port = 443 };
  newcons = λ a. none;
  conns = λ a. none;
  socket = socket;
}

pub new_listener-IsFresh : (r : Raw) → IsFresh (new_listener r) (address_of (new_conn r))
unfolding to4
new_listener-IsFresh r = record {
  own_ip = server_ip;
  own_ip4 = server_ip-to4;
  own_port = omega arith;
  fixed = refl;
  no_conn = refl;
  no_new = refl;
  calm = refl;
}

abbrev pub draw : Draw
draw = record {
  seqn = 5;
  filler = 0;
  random = [];
  fresh_id = [];
  now = 0;
  content = 0;
  srcip = none;
}

abbrev pub request_draw : RequestDraw
request_draw = record {
  host = 0;
  random_bytes = [];
  ticket_len = 0;
  now = 0;
  random = [];
  buffer = [];
  path = [];
  content = 0;
}

abbrev pub clock : Clock
clock = record { deadline_fails = λ i. false; late = λ i. false }
