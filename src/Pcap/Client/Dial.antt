-- ===== src/Pcap/Client/Dial.antt =====
-- raw_other.go, DialRAW without Dummy: the loop that sends the request, and the two loops one after the
-- other. Of Close, the mark that later reads see is modelled.
use rawcon.Common.{
  ℕ, zero, suc, ◌+◌, Bool, true, false, not, ◌&&◌, none, some, List, ltb, leb, length,
  if◌then◌else◌,
}
use rawcon.Common.Go.{Go, ok, stuck, ◌>>=◌}
use rawcon.Common.Bytes.{Bytes, u32}
use rawcon.Tcp.{Error}
use rawcon.Client.Dial.{retry_too_many_times, send_failed, read_failed, Numbers, is_answer}
use rawcon.Client.Request.{RequestDraw, hosts_of, choose_host, request}
use rawcon.Pcap.{Layers}
use rawcon.Pcap.Client.{
  RawConn, Incoming, Read, got, failed, eof, drained, close, read_layers, set_numbers, send_ack,
  write, Dialled, connected, given_up, blocked, syn_loop,
}

-- What a round comes to: an end, or the next round, with `needretry`.
pub data Turn : Type 0 where
  ends : Dialled → Turn
  again : Bool → RawConn → Turn

abbrev pub answered : Bytes → Layers → RawConn → RawConn
answered req cl conn =
    record (set_numbers conn (u32 (cl.tcp.seqn + length cl.payload))
      (u32 (conn.layer.tcp.seqn + length req))) { hseqn = cl.tcp.seqn }

-- `late`: whether 200 ms have passed since the request was last sent.
unfoldable pub on_request_layers :
    Bytes → Numbers → Bool → Layers → RawConn → List Incoming → Go Error Turn
on_request_layers req n late cl conn is =
    let r = send_ack (set_numbers conn n.ackn n.seqn) in
    if cl.tcp.syn && cl.tcp.ack
    then ok (elim r.0 [ none ↦ again false r.1 | some e ↦ ends (given_up (send_failed e) r.1) ])
    else do
      right ←
          if cl.tcp.psh && cl.tcp.ack && leb 20 (length cl.payload)
          then is_answer conn.r cl.payload
          else ok false
      ok (if right then ends (connected (answered req cl conn) n is) else again late conn)

unfoldable pub on_request_read :
    Bytes → Numbers → Bool → Read → RawConn → List Incoming → Go Error Turn
on_request_read req n late (got cl) conn is = on_request_layers req n late cl conn is
on_request_read req n late (failed temporary) conn is =
    ok (if temporary then again true conn else ends (given_up read_failed conn))
on_request_read req n late eof conn is = ok (ends (given_up read_failed conn))
on_request_read req n late drained conn is = ok (ends (blocked conn))

-- `late i` is about round `i`.
unfoldable pub request_loop :
    ℕ → ℕ → ℕ → Bool → (ℕ → Bool) → Bytes → Numbers → RawConn → List Incoming → Go Error Dialled
request_loop zero i retry needretry late req n conn is = stuck
request_loop (suc fuel) i retry needretry late req n conn is =
    if ltb 25 retry then ok (given_up retry_too_many_times conn) else do
      let r = if needretry then write req conn else (none, conn)
      let read = read_layers r.1 is
      elim r.0 [
        | some e ↦ ok (given_up (send_failed e) r.1)
        | none ↦ do
          turn ← on_request_read req n (late i) read.0 read.1 read.2
          elim turn [
            | ends d ↦ ok d
            | again due conn' ↦
                request_loop fuel (i + 1) (if needretry then retry + 1 else retry) due late req n
                  conn' read.2
          ]
      ]

unfoldable pub after_syn :
    ℕ → (ℕ → Bool) → Bytes → List Bytes → RequestDraw → Dialled → Go Error Dialled
after_syn fuel late host hosts draw (given_up e conn) = ok (given_up e conn)
after_syn fuel late host hosts draw (blocked conn) = ok (blocked conn)
after_syn fuel late host hosts draw (connected conn n is) =
    if conn.r.no_http && not conn.r.tls then ok (connected conn n is) else do
      req ←
          request conn.r (choose_host (hosts_of host hosts) draw.host) conn.layer.tcp.dst_port draw
      request_loop fuel 0 0 true late req n conn is

-- Close, of a connection that DialRAW gives up.
abbrev pub give_up : Dialled → Dialled
give_up (given_up e conn) = given_up e (close conn)
give_up (connected conn n is) = connected conn n is
give_up (blocked conn) = blocked conn

-- The first loop runs at most six rounds; each round of the second one takes a packet.
unfoldable pub dial :
    (ℕ → Bool) → Bytes → List Bytes → RequestDraw → RawConn → List Incoming → Go Error Dialled
dial late host hosts draw conn is = do
  d ← syn_loop 7 0 conn is
  d' ← after_syn (suc (length is)) late host hosts draw d
  ok (give_up d')
