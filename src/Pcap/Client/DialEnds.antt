-- ===== src/Pcap/Client/DialEnds.antt =====
-- raw_other.go, DialRAW without Dummy: how its two loops end.
use rawcon.Common.{
  ℕ, zero, suc, ◌+◌, ◌<◌, ◌≤◌, ◌≢◌, arith, Bool, true, false, ◌&&◌, Option, none, some, List, ltb,
  leb, length, if◌then◌else◌,
}
use rawcon.Common.Go.{ok, stuck, ◌>>=◌, Ends, Ends-bind, Ends-if, Ends-ne-stuck}
use rawcon.Common.Bytes.{Bytes}
use rawcon.Tcp.{Error}
use rawcon.Tcp.Marshal.Ends.{get_mss-Ends}
use rawcon.Tcp.Decode.{get_mss_from_tcp_layer}
use rawcon.Conn.{ConnError}
use rawcon.Client.Dial.{send_failed, read_failed, Numbers, is_answer}
use rawcon.Client.Dial.RequestEnds.{is_answer-Ends}
use rawcon.Pcap.{Layers, send_syn_with_layer}
use rawcon.Pcap.Client.{
  RawConn, Incoming, Read, got, failed, eof, drained, read_layers, sent_by, Dialled, given_up,
  blocked, on_first, syn_loop, write,
}
use rawcon.Pcap.Client.Dial.{Turn, ends, again, on_request_layers, on_request_read, request_loop}
use rawcon.Pcap.Client.Ends.{IsSpent, read_layers-Spent}

on_first-Ends : (cl : Layers) (conn : RawConn) (is : List Incoming) → Ends (on_first cl conn is)
unfolding on_first
on_first-Ends cl conn is =
    Ends-if (cl.tcp.syn && cl.tcp.ack) _ _
      (λ _.
        Ends-bind (get_mss_from_tcp_layer cl.tcp.options) _ (get_mss-Ends cl.tcp.options)
          (λ _ _. tt))
      (λ _. tt)

syn_loop-Ends :
    (fuel retry : ℕ) (conn : RawConn) (is : List Incoming)
    → 7 ≤ fuel + retry
    → retry ≤ 6
    → Ends (syn_loop fuel retry conn is)
unfolding syn_loop
syn_loop-Ends zero retry conn is h few = absurd (omega arith)
syn_loop-Ends (suc fuel) retry conn is h few =
    Ends-if (ltb 5 retry) _ _ (λ _. tt)
      λ more.
        let r = sent_by conn (send_syn_with_layer conn.layer conn.handle) in
        sent r.0 r.1 (read_layers r.1 is).0 (read_layers r.1 is).1 (read_layers r.1 is).2 (
          syn_loop-Ends fuel (retry + 1) (read_layers r.1 is).1 (read_layers r.1 is).2 (omega arith)
            (ground arith))
  where
    sent :
        (e : Option ConnError) (conn1 : RawConn) (read : Read) (conn2 : RawConn)
        (rest : List Incoming)
        → Ends (syn_loop fuel (retry + 1) conn2 rest)
        → Ends {E = Error} {A = Dialled} (elim e [
          | some e' ↦ ok (given_up (send_failed e') conn1)
          | none ↦ elim read [
            | got cl ↦ on_first cl conn2 rest
            | failed temporary ↦
                if temporary
                then syn_loop fuel (retry + 1) conn2 rest
                else ok (given_up read_failed conn2)
            | eof ↦ ok (given_up read_failed conn2)
            | drained ↦ ok (blocked conn2)
          ]
        ])
    sent (some e) conn1 read conn2 rest k = tt
    sent none conn1 (got cl) conn2 rest k = on_first-Ends cl conn2 rest
    sent none conn1 (failed true) conn2 rest k = k
    sent none conn1 (failed false) conn2 rest k = tt
    sent none conn1 eof conn2 rest k = tt
    sent none conn1 drained conn2 rest k = tt

on_request_layers-Ends :
    (req : Bytes) (n : Numbers) (late : Bool) (cl : Layers) (conn : RawConn) (is : List Incoming)
    → Ends (on_request_layers req n late cl conn is)
unfolding on_request_layers
on_request_layers-Ends req n late cl conn is =
    Ends-if (cl.tcp.syn && cl.tcp.ack) _ _ (λ _. tt)
      λ _.
        Ends-bind
          (if cl.tcp.psh && cl.tcp.ack && leb 20 (length cl.payload)
            then is_answer conn.r cl.payload
            else ok false)
          _
          (Ends-if (cl.tcp.psh && cl.tcp.ack && leb 20 (length cl.payload)) _ _
            (λ _. is_answer-Ends conn.r cl.payload) (λ _. tt))
          (λ _ _. tt)

request_loop-Ends :
    (fuel i retry : ℕ) (needretry : Bool) (late : ℕ → Bool) (req : Bytes) (n : Numbers)
    (conn : RawConn) (is : List Incoming)
    → length is < fuel
    → Ends (request_loop fuel i retry needretry late req n conn is)
unfolding request_loop on_request_read
request_loop-Ends zero i retry needretry late req n conn is h = absurd (omega arith)
request_loop-Ends (suc fuel) i retry needretry late req n conn is h =
    Ends-if (ltb 25 retry) _ _ (λ _. tt)
      λ _.
        let r = if needretry then write req conn else (none, conn) in
        sent
          (λ due conn' rest shorter.
            request_loop-Ends fuel (i + 1) _ due late req n conn' rest (omega arith))
          r.0 r.1 (read_layers r.1 is).0 (read_layers r.1 is).1 (read_layers r.1 is).2
          (read_layers-Spent r.1 is)
  where
    next :
        (rest : List Incoming) (turn : Turn)
        → ((due : Bool) (conn' : RawConn)
            → Ends (
                request_loop fuel
                  (i + 1)
                  (if needretry then retry + 1 else retry)
                  due
                  late
                  req
                  n
                  conn'
                  rest))
        → Ends {E = Error} {A = Dialled} (elim turn [
          | ends d ↦ ok d
          | again due conn' ↦
              request_loop fuel
                (i + 1)
                (if needretry then retry + 1 else retry)
                due
                late
                req
                n
                conn'
                rest
        ])
    next rest (ends d) k = tt
    next rest (again due conn') k = k due conn'

    sent :
        ((due : Bool) (conn' : RawConn) (rest : List Incoming)
          → length rest < length is
          → Ends (
              request_loop fuel
                (i + 1)
                (if needretry then retry + 1 else retry)
                due
                late
                req
                n
                conn'
                rest))
        → (e : Option ConnError) (conn1 : RawConn) (read : Read) (conn2 : RawConn)
          (rest : List Incoming)
        → IsSpent read rest is
        → Ends {E = Error} {A = Dialled} (elim e [
          | some e' ↦ ok (given_up (send_failed e') conn1)
          | none ↦ do
            turn ← on_request_read req n (late i) read conn2 rest
            elim turn [
              | ends d ↦ ok d
              | again due conn' ↦
                  request_loop fuel
                    (i + 1)
                    (if needretry then retry + 1 else retry)
                    due
                    late
                    req
                    n
                    conn'
                    rest
            ]
        ])
    sent rec (some e) conn1 read conn2 rest spent = tt
    sent rec none conn1 (got cl) conn2 rest spent =
        Ends-bind (on_request_layers req n (late i) cl conn2 rest) _
          (on_request_layers-Ends req n (late i) cl conn2 rest)
          (λ turn _. next rest turn (λ due conn'. rec due conn' rest spent))
    sent rec none conn1 (failed true) conn2 rest spent = rec true conn2 rest spent
    sent rec none conn1 (failed false) conn2 rest spent = tt
    sent rec none conn1 eof conn2 rest spent = tt
    sent rec none conn1 drained conn2 rest spent = tt

-- Both loops of DialRAW for other systems end, on whatever the capture gives: the first within seven
-- rounds, the last of which only finds that there have been six, and the second within one round more
-- than there are packets and errors.
pub pcap_loops-ne-stuck :
    (late : ℕ → Bool) (needretry : Bool) (req : Bytes) (n : Numbers) (conn : RawConn)
    (is : List Incoming)
    → (syn_loop 7 0 conn is ≢ stuck)
      × (request_loop (suc (length is)) 0 0 needretry late req n conn is ≢ stuck)
pcap_loops-ne-stuck late needretry req n conn is = (
  Ends-ne-stuck _ (syn_loop-Ends 7 0 conn is (omega arith) (omega arith)),
  Ends-ne-stuck _
      (request_loop-Ends (suc (length is)) 0 0 needretry late req n conn is (omega arith)),
)
