-- ===== src/Pcap/Listener/Tests.antt =====
-- raw_other.go, RAWListener: a peer that comes up without HTTP, and its first TLS record.
use rawcon.Common.{◌≡◌, refl, arith, Bool, true, false, none, some, [], ◌∷◌}
use rawcon.Common.Go.{Go, ok}
use rawcon.Common.Bytes.{Bytes}
use rawcon.Tcp.{Error}
use rawcon.Tcp.Decode.{get_mss_from_tcp_layer}
use rawcon.Conn.{Raw, established, addr_eq}
use rawcon.Listener.{Draw}
use rawcon.Pcap.{
  Layers, ConnInfo, Handle, update_tcp, send_packet_with_layer, send_syn_ack_with_layer,
}
use rawcon.Pcap.Listener.{
  insert, Listener, Round, continue, deliver, listener_of, put_conn, advance, on_handshake,
  on_stranger, on_packet, sender, step,
}
use rawcon.Pcap.Listener.Peer.{peer}
use rawcon.Pcap.Listener.Refines.{ReadFrom, ReadFrom-Spec}
use rawcon.Pcap.Listener.Spec.{Spec, Trace, shown_by}
use rawcon.Pcap.Listener.Spec
use rawcon.Pcap.Listener.Runs.{new_listener, Reached, start, round, record-delivered_whole}

abbrev with_tls : Raw
with_tls = record { mixed = false; no_http = true; tls = true; ign_rst = false }

abbrev handle : Handle
handle = record { sent = []; faults = [] }

abbrev packet_of : Bool → Bool → Bool → Bytes → Layers
packet_of syn ack psh payload = record {
  eth = none;
  src_ip = 10 ∷ 0 ∷ 0 ∷ 2 ∷ [];
  dst_ip = 10 ∷ 0 ∷ 0 ∷ 1 ∷ [];
  id = 0;
  tcp = record {
    src_port = 4000;
    dst_port = 443;
    seqn = 78;
    ackn = 6;
    window = 12580;
    syn = syn;
    ack = ack;
    psh = psh;
    fin = false;
    rst = false;
    options = [];
    padding = [];
  };
  payload = payload;
}

abbrev draw : Draw
draw = record {
  seqn = 5;
  filler = 0;
  random = [];
  fresh_id = [];
  now = 0;
  content = 0;
  srcip = none;
}

abbrev fresh : Listener
fresh = new_listener with_tls handle

abbrev round_of : Go Error Round → Round
round_of (ok r) = r
round_of _ = continue fresh

abbrev called : Round
called = round_of (step 100 7 draw fresh (packet_of true false false []))

abbrev joined : Round
joined = round_of (step 100 7 draw (listener_of called) (packet_of false true false []))

called-ok : step 100 7 draw fresh (packet_of true false false []) ≡ ok called
unfolding step on_packet on_stranger get_mss_from_tcp_layer
called-ok = refl

joined-ok : step 100 7 draw (listener_of called) (packet_of false true false []) ≡ ok joined
unfolding step on_packet on_stranger get_mss_from_tcp_layer on_handshake insert addr_eq
    send_packet_with_layer send_syn_ack_with_layer update_tcp
joined-ok = refl

abbrev info_of : Round → ConnInfo → ConnInfo
info_of r other = elim ((listener_of r).conns (sender (packet_of true true true []))) [
  | some info ↦ info
  | none ↦ other
]

abbrev nobody : ConnInfo
nobody = record {
  state = established;
  layer = packet_of true true true [];
  rep = none;
  hseqn = 0;
  mss = 0;
  tls = true;
}

abbrev up : ConnInfo
up = info_of joined nobody

joined-known : (listener_of joined).conns (sender (packet_of true true true [])) ≡ some up
unfolding step on_packet on_stranger get_mss_from_tcp_layer on_handshake insert addr_eq
    send_packet_with_layer send_syn_ack_with_layer update_tcp
joined-known = refl

up-established : up.state ≡ established
unfolding step on_packet on_stranger get_mss_from_tcp_layer on_handshake insert addr_eq
    send_packet_with_layer send_syn_ack_with_layer update_tcp
up-established = refl

abbrev record_bytes : Bytes
record_bytes = 23 ∷ 3 ∷ 3 ∷ 0 ∷ 2 ∷ 7 ∷ 8 ∷ []

joined-Reached : Reached with_tls handle (listener_of joined)
joined-Reached =
    round 100 7 draw (packet_of false true false []) joined
      (round 100 7 draw (packet_of true false false []) called start called-ok) joined-ok

record-delivered_whole_example :
    step 100 7 draw (listener_of joined) (packet_of false true true record_bytes)
    ≡ ok (
        deliver
          (put_conn
            (listener_of joined)
            (sender (packet_of true true true []))
            (advance up (packet_of false true true record_bytes)))
          record_bytes
          (sender (packet_of true true true [])))
record-delivered_whole_example =
    record-delivered_whole with_tls handle 100 7 draw (listener_of joined)
      (packet_of false true true record_bytes) up joined-Reached joined-known up-established refl
      (λ e. omega arith)

called-Trace : Trace ReadFrom with_tls handle (shown_by called ∷ []) (listener_of called)
called-Trace =
    Spec.round (sender (packet_of true false false [])) called Spec.start
      (100, 7, draw, packet_of true false false [], refl, called-ok)

ReadFrom-Spec_example : Spec with_tls (shown_by called ∷ []) (peer (listener_of called))
ReadFrom-Spec_example =
    ReadFrom-Spec with_tls handle (shown_by called ∷ []) (listener_of called) called-Trace
