-- ===== src/Darwin/Client/Dial.antt =====
-- raw_darwin.go, DialRAW without Dummy, from its first SYN on: the two loops, and one after the other.
use rawcon.Common.{
  ℕ, zero, suc, ◌+◌, Bool, true, false, not, ◌&&◌, none, some, List, ltb, leb, length,
  if◌then◌else◌,
}
use rawcon.Common.Go.{Go, ok, stuck, ◌>>=◌}
use rawcon.Common.Bytes.{Bytes, u32}
use rawcon.Tcp.{Error}
use rawcon.Tcp.Decode.{get_mss_from_tcp_layer}
use rawcon.Client.Dial.{
  DialError, retry_too_many_times, send_failed, read_failed, Numbers, is_answer,
}
use rawcon.Client.Request.{RequestDraw, hosts_of, choose_host, request}
use rawcon.Pcap.{Layers, send_syn_with_layer}
use rawcon.Darwin.Client.{
  RawConn, Incoming, Read, got, failed, drained, read_layers, set_numbers, sent_by, send_ack, write,
}

-- How a loop of DialRAW ends, with the numbers that it keeps for a repeated SYN-ACK.
pub data Dialled : Type 0 where
  up : RawConn → Numbers → List Incoming → Dialled
  given_up : DialError → RawConn → Dialled
  blocked : RawConn → Dialled

abbrev pub no_numbers : Numbers
no_numbers = record { ackn = 0; seqn = 0 }

abbrev pub until : ℕ → RawConn → RawConn
until deadline conn = record conn { rtime = some deadline }

-- The first packet that is read: the `break` stands after the test for SYN and ACK, not inside it.
unfoldable pub on_first : Layers → RawConn → List Incoming → Go Error Dialled
on_first cl conn is =
    if cl.tcp.syn && cl.tcp.ack
    then (do
      let n : Numbers = record {
        ackn = u32 (cl.tcp.seqn + 1);
        seqn = u32 (conn.layer.tcp.seqn + 1);
      }
      mss ← get_mss_from_tcp_layer cl.tcp.options
      let r = send_ack (record (set_numbers conn n.ackn n.seqn) { mss = mss })
      ok (elim r.0 [ none ↦ up r.1 n is | some e ↦ given_up (send_failed e) r.1 ]))
    else ok (up conn no_numbers is)

-- `deadline i` is that of round `i`.
unfoldable pub syn_loop : ℕ → ℕ → (ℕ → ℕ) → RawConn → List Incoming → Go Error Dialled
syn_loop zero retry deadline conn is = stuck
syn_loop (suc fuel) retry deadline conn is =
    let r = sent_by conn (send_syn_with_layer conn.layer conn.handle) in
    let conn1 = until (deadline retry) r.1 in
    let read = read_layers conn1 is in
    let again = syn_loop fuel (retry + 1) deadline conn1 read.1 in
    if ltb 5 retry then ok (given_up retry_too_many_times conn) else elim r.0 [
      | some e ↦ ok (given_up (send_failed e) r.1)
      | none ↦ elim read.0 [
        | got cl ↦ on_first cl conn1 read.1
        | failed temporary ↦ if temporary then again else ok (given_up read_failed conn1)
        | drained ↦ ok (blocked conn1)
      ]
    ]

-- What a round comes to: an end, or the next round, with `needretry`.
pub data Turn : Type 0 where
  ends : Dialled → Turn
  again : Bool → RawConn → Turn

abbrev pub answered : Bytes → Layers → RawConn → RawConn
answered req cl conn =
    record (set_numbers conn (u32 (cl.tcp.seqn + length cl.payload))
      (u32 (conn.layer.tcp.seqn + length req))) { hseqn = cl.tcp.seqn }

-- `late`: whether 200 ms have passed since the request was last sent.
unfoldable pub on_request_layers :
    Bytes → Numbers → Bool → Layers → RawConn → List Incoming → Go Error Turn
on_request_layers req n late cl conn is =
    let r = send_ack (set_numbers conn n.ackn n.seqn) in
    if cl.tcp.syn && cl.tcp.ack
    then ok (elim r.0 [ none ↦ again false r.1 | some e ↦ ends (given_up (send_failed e) r.1) ])
    else do
      right ←
          if cl.tcp.psh && cl.tcp.ack && leb 20 (length cl.payload)
          then is_answer conn.r cl.payload
          else ok false
      ok (if right then ends (up (answered req cl conn) n is) else again late conn)

unfoldable pub on_request_read :
    Bytes → Numbers → Bool → Read → RawConn → List Incoming → Go Error Turn
on_request_read req n late (got cl) conn is = on_request_layers req n late cl conn is
on_request_read req n late (failed temporary) conn is =
    ok (if temporary then again true conn else ends (given_up read_failed conn))
on_request_read req n late drained conn is = ok (ends (blocked conn))

-- The clock of the second loop: the deadline of each round, and whether it is late.
pub record Clock : Type 0 where
  pub deadline : ℕ → ℕ
  pub late : ℕ → Bool

unfoldable pub request_loop :
    ℕ → ℕ → ℕ → Bool → Clock → Bytes → Numbers → RawConn → List Incoming → Go Error Dialled
request_loop zero i retry needretry clock req n conn is = stuck
request_loop (suc fuel) i retry needretry clock req n conn is =
    if ltb 25 retry then ok (given_up retry_too_many_times conn) else do
      let r = if needretry then write req conn else (none, conn)
      let conn1 = until (clock.deadline i) r.1
      let read = read_layers conn1 is
      elim r.0 [
        | some e ↦ ok (given_up (send_failed e) r.1)
        | none ↦ do
          turn ← on_request_read req n (clock.late i) read.0 conn1 read.1
          elim turn [
            | ends d ↦ ok d
            | again due conn2 ↦
                request_loop fuel (i + 1) (if needretry then retry + 1 else retry) due clock req n
                  conn2 read.1
          ]
      ]

unfoldable pub after_syn : ℕ → Clock → Bytes → List Bytes → RequestDraw → Dialled → Go Error Dialled
after_syn fuel clock host hosts draw (given_up e conn) = ok (given_up e conn)
after_syn fuel clock host hosts draw (blocked conn) = ok (blocked conn)
after_syn fuel clock host hosts draw (up conn n is) =
    if conn.r.no_http && not conn.r.tls then ok (up conn n is) else do
      req ← request conn.r (choose_host (hosts_of host hosts) draw.host) conn.sport draw
      request_loop fuel 0 0 true clock req n conn is

-- `defer` takes the deadline away.
abbrev pub no_deadline : Dialled → Dialled
no_deadline (up conn n is) = up (record conn { rtime = none }) n is
no_deadline (given_up e conn) = given_up e (record conn { rtime = none })
no_deadline (blocked conn) = blocked conn

-- The first loop runs at most six rounds; each round of the second one takes a packet.
unfoldable pub dial :
    (ℕ → ℕ) → Clock → Bytes → List Bytes → RequestDraw → RawConn → List Incoming → Go Error Dialled
dial deadline clock host hosts draw conn is = do
  d ← syn_loop 7 0 deadline conn is
  d' ← after_syn (suc (length is)) clock host hosts draw d
  ok (no_deadline d')
