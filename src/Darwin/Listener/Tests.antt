-- ===== src/Darwin/Listener/Tests.antt =====
-- raw_darwin.go, RAWListener: a stranger's SYN, and a hello with the record after it.
use rawcon.Common.{ℕ, ◌≡◌, refl, Bool, true, false, none, some, [], ◌∷◌, ◌++◌, replicate}
use rawcon.Common.Go.{Go, ok}
use rawcon.Common.Bytes.{Bytes}
use rawcon.Tcp.{Error}
use rawcon.Tcp.Decode.{get_mss_from_tcp_layer}
use rawcon.Conn.{Raw, wait_http_req}
use rawcon.Listener.{Draw}
use rawcon.Pcap.{Layers, ConnInfo, Handle}
use rawcon.Pcap.Listener
use rawcon.Pcap.Listener.{
  insert, delete, Listener, Round, continue, listener_of, on_stranger, sender,
}
use rawcon.Pcap.Listener.Peer.{peer}
use rawcon.Pcap.Listener.Runs.{new_listener}
use rawcon.Pcap.Listener.Spec.{Spec, shown_by, Trace, start, round}
use rawcon.Darwin.Listener.{on_packet, step}
use rawcon.Darwin.Listener.Refines.{DarwinReadFrom, DarwinReadFrom-Spec}

abbrev with_tls : Raw
with_tls = record { mixed = false; no_http = false; tls = true; ign_rst = false }

abbrev handle : Handle
handle = record { sent = []; faults = [] }

abbrev packet_of : Bool → Bool → Bool → ℕ → Bytes → Layers
packet_of syn ack psh seqn payload = record {
  eth = none;
  src_ip = 10 ∷ 0 ∷ 0 ∷ 2 ∷ [];
  dst_ip = 10 ∷ 0 ∷ 0 ∷ 1 ∷ [];
  id = 0;
  tcp = record {
    src_port = 4000;
    dst_port = 443;
    seqn = seqn;
    ackn = 6;
    window = 12580;
    syn = syn;
    ack = ack;
    psh = psh;
    fin = false;
    rst = false;
    options = [];
    padding = [];
  };
  payload = payload;
}

abbrev draw : Draw
draw = record {
  seqn = 5;
  filler = 0;
  random = [];
  fresh_id = [];
  now = 0;
  content = 0;
  srcip = none;
}

abbrev fresh : Listener
fresh = new_listener with_tls handle

abbrev round_of : Go Error Round → Round
round_of (ok r) = r
round_of _ = continue fresh

abbrev called : Round
called = round_of (step 100 7 draw fresh (packet_of true false false 78 []))

called-ok : step 100 7 draw fresh (packet_of true false false 78 []) ≡ ok called
unfolding step on_packet Listener.on_packet on_stranger get_mss_from_tcp_layer
called-ok = refl

called-Trace : Trace DarwinReadFrom with_tls handle (shown_by called ∷ []) (listener_of called)
called-Trace =
    round (sender (packet_of true false false 78 [])) called start
      (100, 7, draw, packet_of true false false 78 [], refl, called-ok)

DarwinReadFrom-Spec_example : Spec with_tls (shown_by called ∷ []) (peer (listener_of called))
DarwinReadFrom-Spec_example =
    DarwinReadFrom-Spec with_tls handle (shown_by called ∷ []) (listener_of called) called-Trace

-- A hello with forty cipher suites and no extension.
abbrev hello : Bytes
hello =
    22 ∷ 3 ∷ 1 ∷ 0 ∷ 125 ∷ 1 ∷ 0 ∷ 0 ∷ 121 ∷ 3 ∷ 3 ∷ replicate 32 7
    ++ (2 ∷ 1 ∷ 2 ∷ 0 ∷ 80 ∷ replicate 80 5 ++ (1 ∷ 0 ∷ []))

-- A peer of which the handshake is over, and the answer to its first hello could not be sent.
abbrev waiting : ConnInfo
waiting = record {
  state = wait_http_req;
  layer = packet_of false false false 6 [];
  rep = some (22 ∷ 3 ∷ 3 ∷ []);
  hseqn = 79;
  mss = 1460;
  tls = true;
}

abbrev greeted : Listener
greeted = record fresh {
  newcons = insert (sender (packet_of false true true 79 hello)) waiting (λ b. none);
}

abbrev answered : Round
answered = round_of (step 100 7 draw greeted (packet_of false true true 79 hello))

abbrev record_bytes : Bytes
record_bytes = 23 ∷ 3 ∷ 3 ∷ 0 ∷ 2 ∷ 7 ∷ 8 ∷ []
