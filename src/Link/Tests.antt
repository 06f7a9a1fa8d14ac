-- ===== src/Link/Tests.antt =====
-- raw_linux.go: a RAWConn at 10.0.0.2:4000 and a RAWListener at 10.0.0.1:443, both with TLS.
use rawcon.Common.{ℕ, ◌<◌, ◌≡◌, ◌≢◌, refl, arith, true, false, none, some, List, [], ◌∷◌}
use rawcon.Common.Go.{ok, stuck}
use rawcon.Common.Bytes.{Bytes}
use rawcon.Tcp.{TcpLayer}
use rawcon.Tcp.Checksum.{to4}
use rawcon.Tcp.Decode.{decode_tcp_layer}
use rawcon.Tcp.Marshal.Layout.{encode_options}
use rawcon.Tcp.RoundTrip.{FitsWire}
use rawcon.Conn.{Addr, PktLayers, ConnInfo, Raw, Socket, established, addr_eq}
use rawcon.Conn.Send.Segment.{IsReady, with_sent}
use rawcon.Listener.{Listener, Draw, deliver, insert}
use rawcon.Listener.Step.{put_conn, advance}
use rawcon.Listener.DoRead.{do_read_round}
use rawcon.Conn.Frame.{framed}
use rawcon.Listener.Write.{write_to}
use rawcon.Client.{RawConn, Incoming, failure, packet, bytes, write_data, read_from, acknowledge}
use rawcon.Client.Ends.{read_from-ne-stuck}
use rawcon.Client.Dial.{Clock, syn_loop, request_loop}
use rawcon.Client.Dial.RequestEnds.{dial_loops-ne-stuck}
use rawcon.Link.{IsShort-bare, write_data-delivered, write_to-received}

abbrev server_ip : Bytes
server_ip = 10 ∷ 0 ∷ 0 ∷ 1 ∷ []

abbrev client_ip : Bytes
client_ip = 10 ∷ 0 ∷ 0 ∷ 2 ∷ []

server_ip-to4 : to4 server_ip ≡ some server_ip
unfolding to4
server_ip-to4 = refl

client_ip-to4 : to4 client_ip ≡ some client_ip
unfolding to4
client_ip-to4 = refl

abbrev tcp_from : ℕ → ℕ → TcpLayer
tcp_from src dst = record {
  src_port = src;
  dst_port = dst;
  seqn = 78;
  ackn = 6;
  data_offset = 5;
  reserved = 0;
  ecn = 0;
  flags = 24;
  window = 12580;
  chksum = 0;
  urgent = 0;
  options = [];
  padding = [];
  payload = [];
  buffer = [];
}

tcp_from-FitsWire : (src dst : ℕ) → src < 65536 → dst < 65536 → FitsWire (tcp_from src dst)
unfolding encode_options
tcp_from-FitsWire src dst h k = record {
  range = record {
    src_port_range = h;
    dst_port_range = k;
    seqn_range = omega arith;
    ackn_range = omega arith;
    reserved_range = omega arith;
    ecn_range = omega arith;
    flags_range = omega arith;
    window_range = omega arith;
    urgent_range = omega arith;
  };
  wire = tt;
  short = omega arith;
}

abbrev client_layer : PktLayers
client_layer = record { srcip = client_ip; dstip = server_ip; tcp = tcp_from 4000 443 }

abbrev server_layer : PktLayers
server_layer = record { srcip = server_ip; dstip = client_ip; tcp = tcp_from 443 4000 }

client_layer-IsReady : IsReady client_layer
client_layer-IsReady = record {
  fits = tcp_from-FitsWire 4000 443 (omega arith) (omega arith);
  from_ip = client_ip;
  to_ip = server_ip;
  from_ip4 = client_ip-to4;
  to_ip4 = server_ip-to4;
}

server_layer-IsReady : IsReady server_layer
server_layer-IsReady = record {
  fits = tcp_from-FitsWire 443 4000 (omega arith) (omega arith);
  from_ip = server_ip;
  to_ip = client_ip;
  from_ip4 = server_ip-to4;
  to_ip4 = client_ip-to4;
}

abbrev with_tls : Raw
with_tls = record { mixed = false; no_http = false; tls = true; ign_rst = false }

abbrev socket : Socket
socket = record { sent = []; faults = [] }

abbrev conn : RawConn
conn = record {
  r = with_tls;
  layer = client_layer;
  dstport = 4000;
  hseqn = 1;
  mss = 1460;
  socket = socket;
}

abbrev client : Addr
client = record { ip = client_ip; port = 4000 }

abbrev up : ConnInfo
up = record {
  state = established;
  layer = server_layer;
  rep = none;
  hseqn = 1;
  mss = 1460;
  tls = true;
}

abbrev serving : Listener
serving = record {
  r = with_tls;
  laddr = record { ip = server_ip; port = 443 };
  newcons = λ a. none;
  conns = insert client up (λ a. none);
  socket = socket;
}

serving-client : serving.conns client ≡ some up
unfolding insert addr_eq
serving-client = refl

abbrev draw : Draw
draw = record {
  seqn = 5;
  filler = 0;
  random = [];
  fresh_id = [];
  now = 0;
  content = 0;
  srcip = none;
}

abbrev written : Bytes
written = 7 ∷ 8 ∷ 9 ∷ []

abbrev buffer : Bytes
buffer = 0 ∷ 0 ∷ 0 ∷ 0 ∷ 0 ∷ 0 ∷ 0 ∷ 0 ∷ []

write_data-delivered_example :
    (conn' : RawConn) × (segment : Bytes) × (tcp : TcpLayer) × (write_data buffer written conn
      ≡ ok (8, none, conn'))
    × (conn'.socket ≡ with_sent socket server_ip segment)
    × (decode_tcp_layer segment ≡ ok tcp)
    × (do_read_round 2 draw serving (packet client_ip segment ∷ [])
        ≡ ok (some (deliver (put_conn serving client (advance up tcp)) (7 ∷ 8 ∷ []) client), []))
write_data-delivered_example =
    write_data-delivered conn buffer written 2 draw serving client up [] client_layer-IsReady refl
      refl (omega arith) (IsShort-bare client_layer.tcp (framed written) refl (omega arith)) refl
      refl serving-client refl refl

write_to-received_example :
    (l' : Listener) × (segment : Bytes) × (tcp : TcpLayer) × (write_to buffer written client serving
      ≡ ok (8, none, l'))
    × (l'.socket ≡ with_sent socket client_ip segment)
    × (decode_tcp_layer segment ≡ ok tcp)
    × (read_from 1 2 conn (packet server_ip segment ∷ [])
        ≡ ok (bytes (7 ∷ 8 ∷ []) (record { ip = server_ip; port = 443 }), acknowledge tcp conn, []))
write_to-received_example =
    write_to-received serving buffer written client up conn 2 0 server_ip [] server_layer-IsReady
      refl refl (omega arith) (IsShort-bare server_layer.tcp (framed written) refl (omega arith))
      serving-client refl refl (λ e. omega arith)

abbrev arrivals : List Incoming
arrivals = failure true ∷ packet server_ip (1 ∷ 2 ∷ []) ∷ []

read_from-ne-stuck_example : read_from 3 2 conn arrivals ≢ stuck
read_from-ne-stuck_example = read_from-ne-stuck 2 conn arrivals

abbrev clock : Clock
clock = record { deadline_fails = λ i. false; late = λ i. true }

dial_loops-ne-stuck_example :
    (syn_loop 7 0 clock conn arrivals ≢ stuck)
    × (request_loop 3 0 0 true clock written (record { ackn = 1; seqn = 2 }) conn arrivals ≢ stuck)
dial_loops-ne-stuck_example =
    dial_loops-ne-stuck clock clock true written (record { ackn = 1; seqn = 2 }) conn arrivals
