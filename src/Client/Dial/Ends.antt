-- ===== src/Client/Dial/Ends.antt =====
-- raw_linux.go, DialRAW: how the loop that sends SYN ends.
use rawcon.Common.{
  ℕ, zero, suc, ◌+◌, ◌≤◌, ◌≤◌, arith, true, false, ltb, Option, none, some, List, if◌then◌else◌,
}
use rawcon.Common.Go.{ok, ◌>>=◌, Ends, Ends-bind, Ends-if}
use rawcon.Tcp.{Error, syn, ack, chk_flag}
use rawcon.Tcp.Decode.{get_mss_from_tcp_layer}
use rawcon.Tcp.Marshal.Ends.{get_mss-Ends}
use rawcon.Conn.{ConnError}
use rawcon.Conn.Send.{send_packet_with_layer, send_with_syn_options, send_syn_with_layer}
use rawcon.Client.{
  RawConn, Incoming, Read, got, reset, read_error, decode_error, drained, read_tcp_layer, send_ack,
}
use rawcon.Client.Dial.{
  Clock, send_failed, deadline_failed, Dialled, connected, failed, synchronised, send_syn,
  on_syn_ack, on_syn_read, syn_loop,
}
use rawcon.Client.Ends.{send_packet-Ends, send_ack-Ends, read_tcp_layer-Ends}

send_syn-Ends : (conn : RawConn) → Ends (send_syn conn)
unfolding send_syn send_syn_with_layer send_with_syn_options
send_syn-Ends conn =
    Ends-bind (send_syn_with_layer conn.layer conn.socket) _
      (Ends-bind (send_packet_with_layer _ conn.socket) _ (send_packet-Ends _ conn.socket)
        (λ _ _. tt))
      (λ _ _. tt)

on_syn_read-Ends :
    (read : Read) (conn : RawConn) (is : List Incoming) → Ends (on_syn_read read conn is)
unfolding on_syn_read on_syn_ack
on_syn_read-Ends (got tcp a) conn is =
    Ends-if (chk_flag tcp (syn + ack)) _ _
      (λ _.
        Ends-bind (on_syn_ack tcp conn is) _
          (Ends-bind (get_mss_from_tcp_layer tcp.options) _ (get_mss-Ends tcp.options) λ mss _.
            Ends-bind (send_ack (synchronised tcp mss conn)) _ (send_ack-Ends _)
              λ r _. sent r.0 r.1)
          (λ _ _. tt))
      (λ _. tt)
  where
    sent :
        (e : Option ConnError) (conn' : RawConn)
        → Ends {E = Error} (elim e [
          | some e' ↦ ok (failed (send_failed e') conn')
          | none ↦ ok (connected conn' is)
        ])
    sent none conn' = tt
    sent (some e) conn' = tt
on_syn_read-Ends (reset tcp a) conn is = tt
on_syn_read-Ends (read_error true) conn is = tt
on_syn_read-Ends (read_error false) conn is = tt
on_syn_read-Ends (decode_error e) conn is = tt
on_syn_read-Ends drained conn is = tt

-- The rest of a round of the first loop, once the SYN is written.
syn_read-Ends :
    (fuel retry : ℕ) (clock : Clock) (conn : RawConn) (is : List Incoming)
    → ((rest : List Incoming) → Ends (syn_loop fuel (retry + 1) clock conn rest))
    → Ends (
        read_tcp_layer conn.r conn.dstport is >>= λ r. on_syn_read r.0 conn r.1 >>= λ next.
        elim next [ some d ↦ ok d | none ↦ syn_loop fuel (retry + 1) clock conn r.1 ])
syn_read-Ends fuel retry clock conn is round =
    Ends-bind (read_tcp_layer conn.r conn.dstport is) _ (read_tcp_layer-Ends conn.r conn.dstport is)
      λ r _.
        Ends-bind (on_syn_read r.0 conn r.1) _ (on_syn_read-Ends r.0 conn r.1)
          λ next _. again_or r.1 next
  where
    again_or :
        (rest : List Incoming) (next : Option Dialled)
        → Ends {E = Error}
            (elim next [ some d ↦ ok d | none ↦ syn_loop fuel (retry + 1) clock conn rest ])
    again_or rest none = round rest
    again_or rest (some d) = tt

pub syn_loop-Ends :
    (fuel retry : ℕ) (clock : Clock) (conn : RawConn) (is : List Incoming)
    → 7 ≤ fuel + retry
    → retry ≤ 6
    → Ends (syn_loop fuel retry clock conn is)
unfolding syn_loop
syn_loop-Ends zero retry clock conn is h few = absurd (omega arith)
syn_loop-Ends (suc fuel) retry clock conn is h few =
    Ends-if (ltb 5 retry) _ _ (λ _. tt)
      λ more. Ends-bind (send_syn conn) _ (send_syn-Ends conn) λ r _.
        sent
          (λ conn1 rest.
            syn_loop-Ends fuel (retry + 1) clock conn1 rest (omega arith) (ground arith))
          r.0 r.1
  where
    sent :
        ((conn1 : RawConn) (rest : List Incoming)
          → Ends (syn_loop fuel (retry + 1) clock conn1 rest))
        → (e : Option ConnError) (conn1 : RawConn)
        → Ends {E = Error} (elim e [
          | some e' ↦ ok (failed (send_failed e') conn1)
          | none ↦ if clock.deadline_fails retry then ok (failed deadline_failed conn1) else do
            (read, rest) ← read_tcp_layer conn1.r conn1.dstport is
            next ← on_syn_read read conn1 rest
            elim next [ some d ↦ ok d | none ↦ syn_loop fuel (retry + 1) clock conn1 rest ]
        ])
    sent round none conn1 =
        Ends-if (clock.deadline_fails retry) _ _ (λ _. tt)
          (λ _. syn_read-Ends fuel retry clock conn1 is (round conn1))
    sent round (some e) conn1 = tt
