-- ===== src/Pcap/Client/Tests.antt =====
-- raw_other.go, DialRAW: a reset in the place of the answer to a SYN.
use rawcon.Common.{ℕ, ◌≡◌, ◌≢◌, refl, List, Bool, true, false, none, [], ◌∷◌}
use rawcon.Common.Go.{ok, stuck}
use rawcon.Common.Bytes.{Bytes}
use rawcon.Client.Request.{RequestDraw}
use rawcon.Pcap.{TcpHeader, Layers, update_tcp, send_packet_with_layer, send_syn_with_layer}
use rawcon.Pcap.Client.{
  RawConn, Incoming, timeout, packet, syn_loop, sent_by, connected, no_numbers,
}
use rawcon.Pcap.Client.Dial.{dial, request_loop}
use rawcon.Pcap.Client.DialEnds.{pcap_loops-ne-stuck}
use rawcon.Pcap.Client.Stray.{dial-stray}

abbrev header : ℕ → ℕ → Bool → TcpHeader
header src dst rst = record {
  src_port = src;
  dst_port = dst;
  seqn = 77;
  ackn = 0;
  window = 12580;
  syn = false;
  ack = rst;
  psh = false;
  fin = false;
  rst = rst;
  options = [];
  padding = [];
}

abbrev client_ip : Bytes
client_ip = 10 ∷ 0 ∷ 0 ∷ 2 ∷ []

abbrev server_ip : Bytes
server_ip = 10 ∷ 0 ∷ 0 ∷ 1 ∷ []

abbrev conn : RawConn
conn = record {
  r = record { mixed = false; no_http = true; tls = false; ign_rst = false };
  layer = record {
    eth = none;
    src_ip = client_ip;
    dst_ip = server_ip;
    id = 9;
    tcp = header 4000 443 false;
    payload = [];
  };
  hseqn = 0;
  mss = 0;
  handle = record { sent = []; faults = [] };
  dead = false;
}

abbrev refusal : Layers
refusal = record {
  eth = none;
  src_ip = server_ip;
  dst_ip = client_ip;
  id = 0;
  tcp = header 443 4000 true;
  payload = [];
}

abbrev draw : RequestDraw
draw = record {
  host = 0;
  random_bytes = [];
  ticket_len = 0;
  now = 0;
  random = [];
  buffer = [];
  path = [];
  content = 0;
}

syn-sent : (send_syn_with_layer conn.layer conn.handle).0 ≡ none
unfolding send_syn_with_layer send_packet_with_layer update_tcp
syn-sent = refl

dial-stray_example :
    dial (λ i. false) [] [] draw conn (packet refusal ∷ [])
    ≡ ok (connected (sent_by conn (send_syn_with_layer conn.layer conn.handle)).1 no_numbers [])
dial-stray_example =
    dial-stray (λ i. false) [] [] draw conn refusal [] refl syn-sent refl refl refl refl

abbrev arrivals : List Incoming
arrivals = timeout ∷ packet refusal ∷ []

pcap_loops-ne-stuck_example :
    (syn_loop 7 0 conn arrivals ≢ stuck)
    × (request_loop 3 0 0 true (λ i. true) (1 ∷ []) no_numbers conn arrivals ≢ stuck)
pcap_loops-ne-stuck_example = pcap_loops-ne-stuck (λ i. true) true (1 ∷ []) no_numbers conn arrivals
