-- ===== src/Listener/Tests.antt =====
-- raw_linux.go, RAWListener: a peer whose handshake ends, and its first data, without HTTP.
use rawcon.Common.{
  arith, inr, ◌||◌, ℕ, ◌≡◌, refl, Bool, true, false, none, some, [], ◌∷◌, if◌then◌else◌,
}
use rawcon.Common.Go.{Go, ok}
use rawcon.Common.Bytes.{Bytes}
use rawcon.Tcp.{TcpLayer, Error, chk_flag, rst, fin}
use rawcon.Conn.{established, Addr, ConnInfo, addr_eq}
use rawcon.Listener.{insert, delete, Listener, Draw, Round, continue, deliver, listener_of}
use rawcon.Listener.Step.{
  put_conn, new_layer, fresh_info, advance, hand_on, on_data, on_data_in, on_handshake, on_packet,
  step,
}
use rawcon.Listener.Delivery.{step-delivers}
use rawcon.Listener.Peer.{peer, status_of, IsProper}
use rawcon.Listener.Invariant.{carried, step-Sound}
use rawcon.Listener.Invariant.Rules.{Sound}
use rawcon.Listener.Runs.{start, round, AllProper, run-AllProper}

abbrev client : Addr
client = record { ip = 10 ∷ 0 ∷ 0 ∷ 2 ∷ []; port = 4000 }

abbrev segment : ℕ → Bytes → TcpLayer
segment flags payload = record {
  src_port = 4000;
  dst_port = 443;
  seqn = 78;
  ackn = 6;
  data_offset = 5;
  reserved = 0;
  ecn = 0;
  flags = flags;
  window = 12580;
  chksum = 0;
  urgent = 0;
  options = [];
  padding = [];
  payload = payload;
  buffer = [];
}

abbrev draw : Draw
draw = record {
  seqn = 5;
  filler = 0;
  random = [];
  fresh_id = [];
  now = 0;
  content = 0;
  srcip = none;
}

abbrev half_open : ConnInfo
half_open = fresh_info (new_layer (10 ∷ 0 ∷ 0 ∷ 1 ∷ []) 443 client (segment 2 [])) 1460

abbrev waiting : Listener
waiting = record {
  r = record { mixed = false; no_http = true; tls = false; ign_rst = false };
  laddr = record { ip = 10 ∷ 0 ∷ 0 ∷ 1 ∷ []; port = 443 };
  newcons = insert client half_open (λ a. none);
  conns = λ a. none;
  socket = record { sent = []; faults = [] };
}

abbrev round_of : Go Error Round → Round
round_of (ok r) = r
round_of _ = continue waiting

abbrev first : Round
first = round_of (step 100 draw waiting client (segment 16 []))

abbrev second : Round
second = round_of (step 100 draw (listener_of first) client (segment 24 (7 ∷ 8 ∷ 9 ∷ [])))

first-ok : step 100 draw waiting client (segment 16 []) ≡ ok first
unfolding step on_packet on_handshake chk_flag insert addr_eq
first-ok = refl

second-ok : step 100 draw (listener_of first) client (segment 24 (7 ∷ 8 ∷ 9 ∷ [])) ≡ ok second
unfolding step on_packet on_handshake on_data on_data_in hand_on advance chk_flag insert delete
    addr_eq
second-ok = refl

abbrev delivered : Round → Bytes
delivered (deliver l b a) = b
delivered _ = []

-- The second round hands the bytes on.
second-delivers : delivered second ≡ 7 ∷ 8 ∷ 9 ∷ []
unfolding step on_packet on_handshake on_data on_data_in hand_on advance chk_flag insert delete
    addr_eq
second-delivers = refl

one_peer : (c : Bool) → IsProper (status_of (if c then some half_open else none) none)
one_peer true = tt
one_peer false = tt

waiting-AllProper : AllProper waiting
unfolding insert
waiting-AllProper b = one_peer (addr_eq client b)

waiting-IsProper : IsProper (peer waiting client)
waiting-IsProper = waiting-AllProper client

run-AllProper_example : AllProper (listener_of second)
run-AllProper_example =
    run-AllProper 100 waiting (listener_of second)
      (round draw client (segment 16 []) first first-ok
        (round draw client (segment 24 (7 ∷ 8 ∷ 9 ∷ [])) second second-ok start))
      waiting-AllProper

-- The same peer once it is established, over TLS.
abbrev up : ConnInfo
up = record half_open { state = established; tls = true }

abbrev serving : Listener
serving = record waiting { newcons = λ a. none; conns = insert client up (λ a. none) }

serving-client : serving.conns client ≡ some up
unfolding insert addr_eq
serving-client = refl

abbrev record_packet : TcpLayer
record_packet = segment 24 (23 ∷ 3 ∷ 3 ∷ 0 ∷ 3 ∷ 7 ∷ 8 ∷ 9 ∷ [])

record_packet-calm : (chk_flag record_packet rst || chk_flag record_packet fin) ≡ false
unfolding chk_flag
record_packet-calm = refl

serving-IsProper : IsProper (peer serving client)
unfolding insert addr_eq
serving-IsProper = tt

abbrev handed_on : Round
handed_on = deliver (put_conn serving client (advance up record_packet)) (7 ∷ 8 ∷ []) client

serving-step : step 2 draw serving client record_packet ≡ ok handed_on
serving-step =
    step-delivers 2 draw serving client up record_packet serving-client refl record_packet-calm
      (omega arith) (inr (omega arith))

step-Sound_example :
    Sound 2 serving client (carried (serving.conns client) record_packet.payload) handed_on
    × IsProper (peer (listener_of handed_on) client)
step-Sound_example =
    step-Sound 2 draw serving client record_packet handed_on serving-IsProper serving-step
