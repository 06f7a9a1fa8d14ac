-- ===== src/Client/Dial.antt =====
-- raw_linux.go, DialRAW from the first SYN on: the loop that sends SYN and the loop that sends the request.
-- The packets that come in are a list, in which a read that meets its deadline is `failure true`.
pub mod Ends
pub mod RequestEnds
use rawcon.Common.{
  ℕ, zero, suc, ◌+◌, ◌-◌, Bool, true, false, not, ◌&&◌, ◌||◌, ◌==◌, Option, none, some, List, [],
  ◌∷◌, ◌++◌, ltb, leb, length, if◌then◌else◌,
}
use rawcon.Common.Go.{Go, ok, err, panic, stuck, ◌>>=◌}
use rawcon.Common.Bytes.{Bytes, u32, slice_from, slice_to}
use rawcon.Common.Text.{bytes_eq}
use rawcon.Tcp.{TcpLayer, Error, syn, psh, ack, tcp_len, chk_flag}
use rawcon.Tcp.Decode.{get_mss_from_tcp_layer}
use rawcon.Tls.Records.{parse_tls_server_hello_msg}
use rawcon.Conn.{Raw, PktLayers, ConnError, Socket}
use rawcon.Conn.Http.{codes, crlf}
use rawcon.Conn.Send.{send_syn_with_layer, send_fin_with_layer}
use rawcon.Listener.Step.{from_tls}
use rawcon.Client.{
  RawConn, Incoming, Read, got, reset, read_error, decode_error, drained, read_tcp_layer, set_tcp,
  sent_by, write, send_ack,
}

pub data DialError : Type 0 where
  retry_too_many_times deadline_failed read_failed : DialError
  send_failed : ConnError → DialError

-- How a loop ends; `blocked` waits for a packet that does not come.
pub data Dialled : Type 0 where
  connected : RawConn → List Incoming → Dialled
  failed : DialError → RawConn → Dialled
  blocked : RawConn → Dialled

-- Whether round `i` fails to set its deadline, and whether it ends 200 ms or more after the last request.
pub record Clock : Type 0 where
  pub deadline_fails : ℕ → Bool
  pub late : ℕ → Bool

unfoldable pub send_syn : RawConn → Go Error (Option ConnError × RawConn)
send_syn conn = do r ← send_syn_with_layer conn.layer conn.socket; ok (sent_by conn r)

-- The answer to the SYN: the numbers of both sides move past the two SYNs.
abbrev pub synchronised : TcpLayer → ℕ → RawConn → RawConn
synchronised tcp mss conn =
    record (set_tcp conn (record (conn.layer.tcp) {
      ackn = u32 (tcp.seqn + 1);
      seqn = u32 (conn.layer.tcp.seqn + 1);
    })) { mss = mss }

unfoldable pub on_syn_ack : TcpLayer → RawConn → List Incoming → Go Error Dialled
on_syn_ack tcp conn is = do
  mss ← get_mss_from_tcp_layer tcp.options
  (e, conn') ← send_ack (synchronised tcp mss conn)
  elim e [ some e' ↦ ok (failed (send_failed e') conn') | none ↦ ok (connected conn' is) ]

-- What a read makes of the first loop: `none` is its next round.
unfoldable pub on_syn_read : Read → RawConn → List Incoming → Go Error (Option Dialled)
on_syn_read (got tcp a) conn is =
    if chk_flag tcp (syn + ack) then (do d ← on_syn_ack tcp conn is; ok (some d)) else ok none
on_syn_read (reset tcp a) conn is = ok (some (failed read_failed conn))
on_syn_read (read_error true) conn is = ok none
on_syn_read (read_error false) conn is = ok (some (failed read_failed conn))
on_syn_read (decode_error e) conn is = ok (some (failed read_failed conn))
on_syn_read drained conn is = ok (some (blocked conn))

unfoldable pub syn_loop : ℕ → ℕ → Clock → RawConn → List Incoming → Go Error Dialled
syn_loop zero retry clock conn is = stuck
syn_loop (suc fuel) retry clock conn is =
    if ltb 5 retry then ok (failed retry_too_many_times conn) else do
      (e, conn1) ← send_syn conn
      elim e [
        | some e' ↦ ok (failed (send_failed e') conn1)
        | none ↦ if clock.deadline_fails retry then ok (failed deadline_failed conn1) else do
          (read, rest) ← read_tcp_layer conn1.r conn1.dstport is
          next ← on_syn_read read conn1 rest
          elim next [ some d ↦ ok d | none ↦ syn_loop fuel (retry + 1) clock conn1 rest ]
      ]

-- Whether a payload answers the request.
unfoldable pub is_answer : Raw → Bytes → Go Error Bool
is_answer r payload =
    if r.tls then (do res ← from_tls (parse_tls_server_hello_msg payload); ok res.0) else do
      head ← slice_to payload 4
      tail ← slice_from payload (length payload - 4)
      ok (bytes_eq head (codes "HTTP") && bytes_eq tail (crlf ++ crlf))

abbrev pub answered : Bytes → TcpLayer → RawConn → RawConn
answered req tcp conn =
    record (set_tcp conn (record (conn.layer.tcp) {
      seqn = u32 (conn.layer.tcp.seqn + length req);
      ackn = u32 (tcp.seqn + length tcp.payload);
    })) { hseqn = tcp.seqn }

-- The numbers after the handshake, which a repeated SYN-ACK brings back.
pub record Numbers : Type 0 where
  pub ackn : ℕ
  pub seqn : ℕ

abbrev pub restore : Numbers → RawConn → RawConn
restore n conn = set_tcp conn (record (conn.layer.tcp) { ackn = n.ackn; seqn = n.seqn })

-- What a round of the second loop comes to: an end, or the next round, with `needretry`.
pub data Turn : Type 0 where
  ends : Dialled → Turn
  again : Bool → RawConn → Turn

unfoldable pub on_request_layer :
    Bytes → Numbers → Bool → TcpLayer → RawConn → List Incoming → Go Error Turn
on_request_layer req n late tcp conn is =
    if chk_flag tcp (syn + ack)
    then (do
      (e, conn') ← send_ack (restore n conn)
      elim e [
        | some e' ↦ ok (ends (failed (send_failed e') conn'))
        | none ↦ ok (again false conn')
      ])
    else do
      right ←
          if chk_flag tcp (psh + ack) && leb tcp_len (length tcp.payload)
          then is_answer conn.r tcp.payload
          else ok false
      ok (if right then ends (connected (answered req tcp conn) is) else again late conn)

unfoldable pub on_request_read :
    Bytes → Numbers → Bool → Read → RawConn → List Incoming → Go Error Turn
on_request_read req n late (got tcp a) conn is = on_request_layer req n late tcp conn is
on_request_read req n late (reset tcp a) conn is = ok (ends (failed read_failed conn))
on_request_read req n late (read_error true) conn is = ok (again true conn)
on_request_read req n late (read_error false) conn is = ok (ends (failed read_failed conn))
on_request_read req n late (decode_error e) conn is = ok (ends (failed read_failed conn))
on_request_read req n late drained conn is = ok (ends (blocked conn))

-- The write at the top of a round, where it is due.
unfoldable pub send_request : Bool → Bytes → RawConn → Go Error (Option ConnError × RawConn)
send_request needretry req conn = if needretry then write req conn else ok (none, conn)

unfoldable pub request_loop :
    ℕ → ℕ → ℕ → Bool → Clock → Bytes → Numbers → RawConn → List Incoming → Go Error Dialled
request_loop zero i retry needretry clock req n conn is = stuck
request_loop (suc fuel) i retry needretry clock req n conn is =
    if ltb 25 retry then ok (failed retry_too_many_times conn) else do
      (e, conn1) ← send_request needretry req conn
      elim e [
        | some e' ↦ ok (failed (send_failed e') conn1)
        | none ↦ if clock.deadline_fails i then ok (failed deadline_failed conn1) else do
          (read, rest) ← read_tcp_layer conn1.r conn1.dstport is
          turn ← on_request_read req n (clock.late i) read conn1 rest
          elim turn [
            | ends d ↦ ok d
            | again due conn2 ↦
                request_loop fuel (i + 1) (if needretry then retry + 1 else retry) due clock req n
                  conn2 rest
          ]
      ]
