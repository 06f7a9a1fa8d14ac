-- ===== src/Darwin/Client/Tests.antt =====
-- raw_darwin.go, RAWConn at 10.0.0.2:4000, dialled to 10.0.0.1:443.
use rawcon.Common.{ℕ, ◌≡◌, ◌≢◌, ◌↔◌, true, false, none, some, List, [], ◌∷◌}
use rawcon.Common.Go.{stuck}
use rawcon.Common.Bytes.{Bytes}
use rawcon.Pcap.{Layers}
use rawcon.Darwin.Client.{RawConn, Incoming, timeout, foreign, packet, got, read_layers, read_from}
use rawcon.Darwin.Client.Dial.{Clock, no_numbers, syn_loop, request_loop}
use rawcon.Darwin.Client.Ends.{darwin_loops-ne-stuck}
use rawcon.Darwin.Client.Reading.{Found, read_layers-got}

abbrev server_ip : Bytes
server_ip = 10 ∷ 0 ∷ 0 ∷ 1 ∷ []

abbrev client_ip : Bytes
client_ip = 10 ∷ 0 ∷ 0 ∷ 2 ∷ []

abbrev layers_of : Bytes → ℕ → Bytes → ℕ → Layers
layers_of src src_port dst dst_port = record {
  eth = none;
  src_ip = src;
  dst_ip = dst;
  id = 0;
  tcp = record {
    src_port = src_port;
    dst_port = dst_port;
    seqn = 78;
    ackn = 6;
    window = 12580;
    syn = false;
    ack = true;
    psh = true;
    fin = false;
    rst = false;
    options = [];
    padding = [];
  };
  payload = 7 ∷ 8 ∷ [];
}

abbrev conn : RawConn
conn = record {
  r = record { mixed = false; no_http = true; tls = false; ign_rst = true };
  layer = layers_of client_ip 4000 server_ip 443;
  hseqn = 0;
  mss = 0;
  handle = record { sent = []; faults = [] };
  sip = some server_ip;
  dip = some client_ip;
  sport = 443;
  dport = 4000;
  rtime = some 100;
  lastack = 0;
  lastacktime = none;
  connected = true;
}

-- A timeout in time, a packet of another port, and one of the connection.
abbrev mixed_in : List Incoming
mixed_in =
    timeout 99
    ∷ foreign
    ∷ packet (layers_of server_ip 80 client_ip 4000)
    ∷ packet (layers_of server_ip 443 client_ip 4000)
    ∷ []

read_layers-got_example :
    (read_layers conn mixed_in ≡ (got (layers_of server_ip 443 client_ip 4000), []))
    ↔ Found conn mixed_in (layers_of server_ip 443 client_ip 4000) []
read_layers-got_example = read_layers-got conn mixed_in (layers_of server_ip 443 client_ip 4000) []

abbrev clock : Clock
clock = record { deadline = λ i. 100; late = λ i. false }

darwin_loops-ne-stuck_example :
    (read_from 5 0 1500 (λ i. 100) conn mixed_in ≢ stuck)
    × (syn_loop 7 0 (λ i. 100) conn mixed_in ≢ stuck)
    × (request_loop 5 0 0 true clock [] no_numbers conn mixed_in ≢ stuck)
darwin_loops-ne-stuck_example =
    darwin_loops-ne-stuck 1500 (λ i. 100) (λ i. 100) true clock [] no_numbers conn mixed_in
