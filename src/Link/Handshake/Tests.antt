-- ===== src/Link/Handshake/Tests.antt =====
-- raw_linux.go: a handshake and a first write without HTTP and TLS.
use rawcon.Common.{
  ◌≡◌, refl, arith, true, false, none, some, List, [], ◌∷◌, replicate, length-replicate,
}
use rawcon.Common.Go.{ok}
use rawcon.Common.Bytes.{Bytes}
use rawcon.Tcp.{TcpLayer}
use rawcon.Tcp.Decode.{decode_tcp_layer}
use rawcon.Conn.{Raw, ConnInfo}
use rawcon.Conn.Send.Segment.{with_sent}
use rawcon.Listener.{Listener, deliver}
use rawcon.Link.Stream.{Exchange, IsInStep}
use rawcon.Link.Handshake.Writes.{writes-delivered}
use rawcon.Listener.Step.{put_conn, advance}
use rawcon.Listener.DoRead.{do_read_round}
use rawcon.Link.Handshake.Taken.{Taken}
use rawcon.Client.{RawConn, packet, write_data}
use rawcon.Client.Dial.{connected}
use rawcon.Client.Request.{dial}
use rawcon.Link.Example.{
  client_ip, server_ip, new_conn, new_conn-IsDialling, new_listener, new_listener-IsFresh, draw,
  request_draw, clock,
}
use rawcon.Link.Handshake.{address_of}
use rawcon.Link.Handshake.Connects.{Session}
use rawcon.Link.Handshake.FirstData.{first_write-delivered}

abbrev bare : Raw
bare = record { mixed = false; no_http = true; tls = false; ign_rst = false }

first_write-delivered_example :
    (h : Session 1500 clock 0 draw draw (new_listener bare) (new_conn bare)) × Taken 1500 clock 0
      draw draw
      (new_listener bare)
      (new_conn bare)
      h
    × (conn3 : RawConn) × (segment : Bytes) × (tcp : TcpLayer) × (dial clock clock [] []
          request_draw
          (new_conn bare)
          (packet server_ip h.answer ∷ [])
        ≡ ok (connected h.conn2 []))
    × (write_data (replicate 8 0) (7 ∷ 8 ∷ 9 ∷ []) h.conn2 ≡ ok (3, none, conn3))
    × (decode_tcp_layer segment ≡ ok tcp)
    × (conn3.socket ≡ with_sent h.conn2.socket h.conn2.layer.dstip segment)
    × (do_read_round 1500 draw h.shaken (packet client_ip segment ∷ [])
        ≡ ok (
          some (
              deliver
                (put_conn h.shaken (address_of (new_conn bare)) (advance h.info tcp))
                (7 ∷ 8 ∷ 9 ∷ [])
                (address_of (new_conn bare))),
          [],
        ))
first_write-delivered_example =
    first_write-delivered 1500 clock clock draw draw draw (new_listener bare) (new_conn bare) [] []
      [] [] request_draw (replicate 8 0) (7 ∷ 8 ∷ 9 ∷ []) (new_listener-IsFresh bare)
      (new_conn-IsDialling bare) refl (omega arith) refl refl refl refl refl (omega arith)
      (omega arith)

abbrev pieces : List Bytes
pieces = (7 ∷ 8 ∷ []) ∷ (9 ∷ []) ∷ []

writes-delivered_example :
    (h : Session 1500 clock 0 draw draw (new_listener bare) (new_conn bare)) × Taken 1500 clock 0
      draw draw
      (new_listener bare)
      (new_conn bare)
      h
    × (dial clock clock [] [] request_draw (new_conn bare) (packet server_ip h.answer ∷ [])
        ≡ ok (connected h.conn2 []))
    × (conn2 : RawConn) × (l2 : Listener) × (info : ConnInfo) × Exchange 1500
        (address_of (new_conn bare))
        pieces
        h.conn2
        h.shaken
        conn2
        l2
    × IsInStep conn2 l2 (address_of (new_conn bare)) info
writes-delivered_example =
    writes-delivered pieces 1500 clock clock draw draw (λ i. draw) (new_listener bare)
      (new_conn bare) [] [] [] request_draw (λ n. replicate n 0) (new_listener-IsFresh bare)
      (new_conn-IsDialling bare) refl (omega arith) refl refl refl refl (λ n. length-replicate n 0)
      ((omega arith, omega arith), ((omega arith, omega arith), tt))
