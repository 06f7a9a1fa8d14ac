-- ===== src/Client/Dial/RequestEnds.antt =====
-- raw_linux.go, DialRAW: how the loop that sends the request ends.
use rawcon.Common.{
  ℕ, zero, suc, ◌+◌, ◌-◌, ◌<◌, ◌≡◌, ◌≢◌, ap, ◌⊎◌, inl, inr, arith, Bool, true, false, ◌&&◌, ltb,
  leb, Option, none, some, List, length, if◌then◌else◌,
}
use rawcon.Common.Go.{
  Go, ok, err, panic, stuck, ◌>>=◌, Safe, Ends, Ends-bind, Ends-if, Ends-ne-stuck,
}
use rawcon.Common.Bytes.{Bytes, slice_from, slice_from-Ends, slice_to, slice_to-Ends}
use rawcon.Tcp.{Error, syn, psh, ack, tcp_len, chk_flag}
use rawcon.Tls.{Reject}
use rawcon.Tls.Records.{parse_tls_server_hello_msg}
use rawcon.Tls.Records.Safety.{parse_hello-Safe}
use rawcon.Conn.{Raw, ConnError}
use rawcon.Listener.Step.{from_tls}
use rawcon.Client.{
  RawConn, Incoming, Read, got, reset, read_error, decode_error, drained, read_tcp_layer, send_ack,
}
use rawcon.Client.Dial.{
  Clock, send_failed, deadline_failed, failed, Turn, ends, again, Numbers, restore, syn_loop,
  is_answer, on_request_layer, on_request_read, send_request, request_loop,
}
use rawcon.Client.Ends.{send_ack-Ends, write-Ends, read_tcp_layer-Ends, read_tcp_layer-shorter}
use rawcon.Client.Dial.Ends.{syn_loop-Ends}

pub is_answer-Ends : (r : Raw) (payload : Bytes) → Ends (is_answer r payload)
unfolding is_answer
is_answer-Ends r payload =
    Ends-if r.tls _ _
      (λ _.
        Ends-bind (from_tls (parse_tls_server_hello_msg payload)) _
          (from_tls-Ends (parse_tls_server_hello_msg payload) (parse_hello-Safe payload).1)
          (λ _ _. tt))
      (λ _. Ends-bind (slice_to payload 4) _ (slice_to-Ends Error payload 4) λ head _.
        Ends-bind (slice_from payload (length payload - 4)) _ (slice_from-Ends Error payload _)
          (λ _ _. tt))
  where
    from_tls-Ends : {A : Type 0} (m : Go Reject A) → Safe m → Ends (from_tls m)
    from_tls-Ends (ok x) h = tt
    from_tls-Ends (err e) h = tt
    from_tls-Ends panic h = tt
    from_tls-Ends stuck h = absurd h

on_request_read-Ends :
    (req : Bytes) (n : Numbers) (late : Bool) (read : Read) (conn : RawConn) (is : List Incoming)
    → Ends (on_request_read req n late read conn is)
unfolding on_request_read on_request_layer
on_request_read-Ends req n late (got tcp a) conn is =
    Ends-if (chk_flag tcp (syn + ack)) _ _
      (λ _. Ends-bind (send_ack (restore n conn)) _ (send_ack-Ends _) λ r _. sent r.0 r.1)
      (λ _.
        Ends-bind
          (if chk_flag tcp (psh + ack) && leb tcp_len (length tcp.payload)
            then is_answer conn.r tcp.payload
            else ok false)
          _
          (Ends-if (chk_flag tcp (psh + ack) && leb tcp_len (length tcp.payload)) _ _
            (λ _. is_answer-Ends conn.r tcp.payload) (λ _. tt))
          (λ _ _. tt))
  where
    sent :
        (e : Option ConnError) (conn' : RawConn)
        → Ends {E = Error} (elim e [
          | some e' ↦ ok (ends (failed (send_failed e') conn'))
          | none ↦ ok (again false conn')
        ])
    sent none conn' = tt
    sent (some e) conn' = tt
on_request_read-Ends req n late (reset tcp a) conn is = tt
on_request_read-Ends req n late (read_error true) conn is = tt
on_request_read-Ends req n late (read_error false) conn is = tt
on_request_read-Ends req n late (decode_error e) conn is = tt
on_request_read-Ends req n late drained conn is = tt

drained_ends :
    (req : Bytes) (n : Numbers) (late : Bool) (conn : RawConn) (is : List Incoming) (due : Bool)
    (conn2 : RawConn)
    → on_request_read req n late drained conn is ≢ ok (again due conn2)
unfolding on_request_read
drained_ends req n late conn is due conn2 = λ e. no_again (ap turn_of e)
  where
    turn_of : Go Error Turn → Bool
    turn_of (ok (again due' conn')) = true
    turn_of _ = false

    no_again : false ≡ true → ⊥
    no_again e = cc

send_request-Ends :
    (needretry : Bool) (req : Bytes) (conn : RawConn) → Ends (send_request needretry req conn)
unfolding send_request
send_request-Ends true req conn = write-Ends req conn
send_request-Ends false req conn = tt

-- The rest of a round of the second loop, once the request is written where it is due.
request_read-Ends :
    (fuel i retry : ℕ) (needretry : Bool) (clock : Clock) (req : Bytes) (n : Numbers)
    (conn : RawConn) (is : List Incoming)
    → ((due : Bool) (conn2 : RawConn) (rest : List Incoming)
        → length rest < length is
        → Ends (
            request_loop fuel
              (i + 1)
              (if needretry then retry + 1 else retry)
              due
              clock
              req
              n
              conn2
              rest))
    → Ends (
        read_tcp_layer conn.r conn.dstport is >>= λ r.
        on_request_read req n (clock.late i) r.0 conn r.1 >>= λ turn. elim turn [
          | ends d ↦ ok d
          | again due conn2 ↦
              request_loop fuel
                (i + 1)
                (if needretry then retry + 1 else retry)
                due
                clock
                req
                n
                conn2
                r.1
        ])
request_read-Ends fuel i retry needretry clock req n conn is round =
    Ends-bind (read_tcp_layer conn.r conn.dstport is) _ (read_tcp_layer-Ends conn.r conn.dstport is)
      λ r found.
        Ends-bind (on_request_read req n (clock.late i) r.0 conn r.1) _
          (on_request_read-Ends req n (clock.late i) r.0 conn r.1)
          λ turn came.
            next r.0 r.1 (read_tcp_layer-shorter conn.r conn.dstport is r.0 r.1 found) turn came
  where
    waits :
        (rest : List Incoming) (due : Bool) (conn2 : RawConn)
        → on_request_read req n (clock.late i) drained conn rest ≢ ok (again due conn2)
    waits rest due conn2 = drained_ends req n (clock.late i) conn rest due conn2

    next :
        (read : Read) (rest : List Incoming)
        → (read ≡ drained) ⊎ (length rest < length is)
        → (turn : Turn) → on_request_read req n (clock.late i) read conn rest ≡ ok turn
        → Ends {E = Error} (elim turn [
          | ends d ↦ ok d
          | again due conn2 ↦
              request_loop fuel
                (i + 1)
                (if needretry then retry + 1 else retry)
                due
                clock
                req
                n
                conn2
                rest
        ])
    next read rest shorter (ends d) came = tt
    next read rest (inr shorter) (again due conn2) came = round due conn2 rest shorter
    next read rest (inl idle) (again due conn2) came =
        absurd (waits rest due conn2 (rw idle at came))

request_loop-Ends :
    (fuel i retry : ℕ) (needretry : Bool) (clock : Clock) (req : Bytes) (n : Numbers)
    (conn : RawConn) (is : List Incoming)
    → length is < fuel
    → Ends (request_loop fuel i retry needretry clock req n conn is)
unfolding request_loop
request_loop-Ends zero i retry needretry clock req n conn is h = absurd (omega arith)
request_loop-Ends (suc fuel) i retry needretry clock req n conn is h =
    Ends-if (ltb 25 retry) _ _ (λ _. tt)
      λ _.
        Ends-bind (send_request needretry req conn) _ (send_request-Ends needretry req conn) λ r _.
          sent
            (λ due conn2 rest shorter.
              request_loop-Ends fuel (i + 1) _ due clock req n conn2 rest (omega arith))
            r.0 r.1
  where
    sent :
        ((due : Bool) (conn2 : RawConn) (rest : List Incoming)
          → length rest < length is
          → Ends (
              request_loop fuel
                (i + 1)
                (if needretry then retry + 1 else retry)
                due
                clock
                req
                n
                conn2
                rest))
        → (e : Option ConnError) (conn1 : RawConn)
        → Ends {E = Error} (elim e [
          | some e' ↦ ok (failed (send_failed e') conn1)
          | none ↦ if clock.deadline_fails i then ok (failed deadline_failed conn1) else do
            (read, rest) ← read_tcp_layer conn1.r conn1.dstport is
            turn ← on_request_read req n (clock.late i) read conn1 rest
            elim turn [
              | ends d ↦ ok d
              | again due conn2 ↦
                  request_loop fuel
                    (i + 1)
                    (if needretry then retry + 1 else retry)
                    due
                    clock
                    req
                    n
                    conn2
                    rest
            ]
        ])
    sent round none conn1 =
        Ends-if (clock.deadline_fails i) _ _ (λ _. tt)
          (λ _. request_read-Ends fuel i retry needretry clock req n conn1 is round)
    sent round (some e) conn1 = tt

-- Both loops of DialRAW end, on any packets: the first within seven rounds, the last of which only finds
-- that there have been six, and the second, which goes on while packets come, within one round more than
-- there are packets.
pub dial_loops-ne-stuck :
    (first second : Clock) (needretry : Bool) (req : Bytes) (n : Numbers) (conn : RawConn)
    (is : List Incoming)
    → (syn_loop 7 0 first conn is ≢ stuck)
      × (request_loop (suc (length is)) 0 0 needretry second req n conn is ≢ stuck)
dial_loops-ne-stuck first second needretry req n conn is = (
  Ends-ne-stuck _ (syn_loop-Ends 7 0 first conn is (omega arith) (omega arith)),
  Ends-ne-stuck _
      (request_loop-Ends (suc (length is)) 0 0 needretry second req n conn is (omega arith)),
)
