-- ===== src/Darwin/Client/Ends.antt =====
-- raw_darwin.go, RAWConn: how ReadFrom and the two loops of DialRAW end.
use rawcon.Common.{
  ℕ, zero, suc, ◌+◌, ◌<◌, ◌≤◌, ◌≢◌, arith, Bool, true, false, ◌&&◌, Option, none, some, List, [],
  ◌∷◌, ltb, leb, length, if◌then◌else◌,
}
use rawcon.Common.Go.{ok, stuck, Ends, Ends-bind, Ends-if, Ends-ne-stuck, ◌>>=◌}
use rawcon.Common.Bytes.{Bytes}
use rawcon.Tcp.{Error}
use rawcon.Tcp.Marshal.Ends.{get_mss-Ends}
use rawcon.Tcp.Decode.{get_mss_from_tcp_layer}
use rawcon.Conn.{ConnError}
use rawcon.Client.Dial.{send_failed, read_failed, Numbers, is_answer}
use rawcon.Client.Dial.RequestEnds.{is_answer-Ends}
use rawcon.Pcap.{Layers, send_syn_with_layer}
use rawcon.Darwin.Client.{
  RawConn, Incoming, timeout, read_error, foreign, packet, Read, got, failed, drained, accepts,
  waits, read_layers, sent_by, write, Received, on_read, read_from,
}
use rawcon.Darwin.Client.Dial.{
  Dialled, given_up, blocked, until, on_first, syn_loop, Turn, ends, again, on_request_layers,
  on_request_read, Clock, request_loop,
}

-- A read that finds something takes a packet.
abbrev Spent : List Incoming → Read × List Incoming → Type 0
Spent is (got cl, rest) = length rest < length is
Spent is (failed temporary, rest) = length rest < length is
Spent is (drained, rest) = Unit

Spent-cons :
    (is : List Incoming) (i : Incoming) (r : Read × List Incoming) → Spent is r → Spent (i ∷ is) r
Spent-cons is i (got cl, rest) h = omega arith
Spent-cons is i (failed temporary, rest) h = omega arith
Spent-cons is i (drained, rest) h = tt

Spent-if :
    (b : Bool) (is : List Incoming) (x y : Read × List Incoming)
    → Spent is x
    → Spent is y
    → Spent is (if b then x else y)
Spent-if true is x y h k = h
Spent-if false is x y h k = k

read_layers-Spent : (conn : RawConn) (is : List Incoming) → Spent is (read_layers conn is)
unfolding read_layers
read_layers-Spent conn [] = tt
read_layers-Spent conn (timeout now ∷ is) =
    Spent-if (waits conn.rtime now) (timeout now ∷ is) (read_layers conn is) (failed true, is)
      (Spent-cons is (timeout now) (read_layers conn is) (read_layers-Spent conn is)) (omega arith)
read_layers-Spent conn (read_error temporary ∷ is) = omega arith
read_layers-Spent conn (foreign ∷ is) =
    Spent-cons is foreign (read_layers conn is) (read_layers-Spent conn is)
read_layers-Spent conn (packet cl ∷ is) =
    Spent-if (accepts conn cl) (packet cl ∷ is) (got cl, is) (read_layers conn is) (omega arith)
      (Spent-cons is (packet cl) (read_layers conn is) (read_layers-Spent conn is))

read_from-Ends :
    (fuel i cap : ℕ) (now : ℕ → ℕ) (conn : RawConn) (is : List Incoming)
    → length is < fuel
    → Ends (read_from fuel i cap now conn is)
unfolding read_from on_read
read_from-Ends zero i size now conn is h = absurd (omega arith)
read_from-Ends (suc fuel) i size now conn is h =
    by_read (λ conn' rest shorter. read_from-Ends fuel (i + 1) size now conn' rest (omega arith))
      (read_layers conn is).0 (read_layers conn is).1 (read_layers-Spent conn is)
  where
    next :
        (rest : List Incoming) (out : Option Received × RawConn)
        → Ends (read_from fuel (i + 1) size now out.1 rest)
        → Ends {E = Error} {A = Received × RawConn × List Incoming} (elim out.0 [
          | some received ↦ ok (received, out.1, rest)
          | none ↦ read_from fuel (i + 1) size now out.1 rest
        ])
    next rest (some received, conn') k = tt
    next rest (none, conn') k = k

    by_read :
        ((conn' : RawConn) (rest : List Incoming)
          → length rest < length is
          → Ends (read_from fuel (i + 1) size now conn' rest))
        → (read : Read) (rest : List Incoming) → Spent is (read, rest)
        → Ends {E = Error} {A = Received × RawConn × List Incoming}
            (elim (on_read size (now i) read conn).0 [
              | some received ↦ ok (received, (on_read size (now i) read conn).1, rest)
              | none ↦ read_from fuel (i + 1) size now (on_read size (now i) read conn).1 rest
            ])
    by_read rec (got cl) rest spent =
        next rest (on_read size (now i) (got cl) conn)
          (rec (on_read size (now i) (got cl) conn).1 rest spent)
    by_read rec (failed temporary) rest spent = tt
    by_read rec drained rest spent = tt

on_first-Ends : (cl : Layers) (conn : RawConn) (is : List Incoming) → Ends (on_first cl conn is)
unfolding on_first
on_first-Ends cl conn is =
    Ends-if (cl.tcp.syn && cl.tcp.ack) _ _
      (λ _.
        Ends-bind (get_mss_from_tcp_layer cl.tcp.options) _ (get_mss-Ends cl.tcp.options)
          (λ _ _. tt))
      (λ _. tt)

syn_loop-Ends :
    (fuel retry : ℕ) (deadline : ℕ → ℕ) (conn : RawConn) (is : List Incoming)
    → 7 ≤ fuel + retry
    → retry ≤ 6
    → Ends (syn_loop fuel retry deadline conn is)
unfolding syn_loop
syn_loop-Ends zero retry deadline conn is h few = absurd (omega arith)
syn_loop-Ends (suc fuel) retry deadline conn is h few =
    Ends-if (ltb 5 retry) _ _ (λ _. tt)
      λ more.
        let r = sent_by conn (send_syn_with_layer conn.layer conn.handle) in
        let conn1 : RawConn = until (deadline retry) r.1 in
        sent r.0 r.1 conn1 (read_layers conn1 is).0 (read_layers conn1 is).1 (
          syn_loop-Ends fuel (retry + 1) deadline conn1 (read_layers conn1 is).1 (omega arith)
            (ground arith))
  where
    sent :
        (e : Option ConnError) (conn0 conn1 : RawConn) (read : Read) (rest : List Incoming)
        → Ends (syn_loop fuel (retry + 1) deadline conn1 rest)
        → Ends {E = Error} {A = Dialled} (elim e [
          | some e' ↦ ok (given_up (send_failed e') conn0)
          | none ↦ elim read [
            | got cl ↦ on_first cl conn1 rest
            | failed temporary ↦
                if temporary
                then syn_loop fuel (retry + 1) deadline conn1 rest
                else ok (given_up read_failed conn1)
            | drained ↦ ok (blocked conn1)
          ]
        ])
    sent (some e) conn0 conn1 read rest k = tt
    sent none conn0 conn1 (got cl) rest k = on_first-Ends cl conn1 rest
    sent none conn0 conn1 (failed true) rest k = k
    sent none conn0 conn1 (failed false) rest k = tt
    sent none conn0 conn1 drained rest k = tt

on_request_layers-Ends :
    (req : Bytes) (n : Numbers) (late : Bool) (cl : Layers) (conn : RawConn) (is : List Incoming)
    → Ends (on_request_layers req n late cl conn is)
unfolding on_request_layers
on_request_layers-Ends req n late cl conn is =
    Ends-if (cl.tcp.syn && cl.tcp.ack) _ _ (λ _. tt)
      λ _.
        Ends-bind
          (if cl.tcp.psh && cl.tcp.ack && leb 20 (length cl.payload)
            then is_answer conn.r cl.payload
            else ok false)
          _
          (Ends-if (cl.tcp.psh && cl.tcp.ack && leb 20 (length cl.payload)) _ _
            (λ _. is_answer-Ends conn.r cl.payload) (λ _. tt))
          (λ _ _. tt)

-- A turn goes on only with the call that is given for the next round.
turn-Ends :
    (turn : Turn) (next : Bool → RawConn → _)
    → ((due : Bool) (conn : RawConn) → Ends (next due conn))
    → Ends {E = Error} {A = Dialled} (elim turn [ ends d ↦ ok d | again due conn ↦ next due conn ])
turn-Ends (ends d) next k = tt
turn-Ends (again due conn) next k = k due conn

request_loop-Ends :
    (fuel i retry : ℕ) (needretry : Bool) (clock : Clock) (req : Bytes) (n : Numbers)
    (conn : RawConn) (is : List Incoming)
    → length is < fuel
    → Ends (request_loop fuel i retry needretry clock req n conn is)
unfolding request_loop on_request_read
request_loop-Ends zero i retry needretry clock req n conn is h = absurd (omega arith)
request_loop-Ends (suc fuel) i retry needretry clock req n conn is h =
    Ends-if (ltb 25 retry) _ _ (λ _. tt)
      λ _.
        let r = if needretry then write req conn else (none, conn) in
        let conn1 : RawConn = until (clock.deadline i) r.1 in
        sent
          (λ due conn' rest shorter.
            request_loop-Ends fuel (i + 1) _ due clock req n conn' rest (omega arith))
          r.0 r.1 conn1 (read_layers conn1 is).0 (read_layers conn1 is).1
          (read_layers-Spent conn1 is)
  where
    sent :
        ((due : Bool) (conn' : RawConn) (rest : List Incoming)
          → length rest < length is
          → Ends (
              request_loop fuel
                (i + 1)
                (if needretry then retry + 1 else retry)
                due
                clock
                req
                n
                conn'
                rest))
        → (e : Option ConnError) (conn0 conn1 : RawConn) (read : Read) (rest : List Incoming)
        → Spent is (read, rest)
        → Ends {E = Error} {A = Dialled} (elim e [
          | some e' ↦ ok (given_up (send_failed e') conn0)
          | none ↦ do
            turn ← on_request_read req n (clock.late i) read conn1 rest
            elim turn [
              | ends d ↦ ok d
              | again due conn' ↦
                  request_loop fuel
                    (i + 1)
                    (if needretry then retry + 1 else retry)
                    due
                    clock
                    req
                    n
                    conn'
                    rest
            ]
        ])
    sent rec (some e) conn0 conn1 read rest spent = tt
    sent rec none conn0 conn1 (got cl) rest spent =
        Ends-bind (on_request_layers req n (clock.late i) cl conn1 rest) _
          (on_request_layers-Ends req n (clock.late i) cl conn1 rest)
          (λ turn _. turn-Ends turn _ (λ due conn'. rec due conn' rest spent))
    sent rec none conn0 conn1 (failed true) rest spent = rec true conn1 rest spent
    sent rec none conn0 conn1 (failed false) rest spent = tt
    sent rec none conn0 conn1 drained rest spent = tt

-- On macOS, ReadFrom and both loops of DialRAW end, on whatever the sniffer gives: ReadFrom and the loop
-- of the request within one round more than it gives packets, timeouts and errors, and the loop of SYN
-- within seven rounds.
pub darwin_loops-ne-stuck :
    (cap : ℕ) (now deadline : ℕ → ℕ) (needretry : Bool) (clock : Clock) (req : Bytes) (n : Numbers)
    (conn : RawConn) (is : List Incoming)
    → (read_from (suc (length is)) 0 cap now conn is ≢ stuck)
      × (syn_loop 7 0 deadline conn is ≢ stuck)
      × (request_loop (suc (length is)) 0 0 needretry clock req n conn is ≢ stuck)
darwin_loops-ne-stuck size now deadline needretry clock req n conn is = (
  Ends-ne-stuck _ (read_from-Ends (suc (length is)) 0 size now conn is (omega arith)),
  Ends-ne-stuck _ (syn_loop-Ends 7 0 deadline conn is (omega arith) (omega arith)),
  Ends-ne-stuck _
      (request_loop-Ends (suc (length is)) 0 0 needretry clock req n conn is (omega arith)),
)
