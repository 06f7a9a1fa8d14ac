-- ===== src/Link/Disguise/Tests.antt =====
-- raw_linux.go: a session in the guise of HTTP, and its first write.
use rawcon.Common.{◌≡◌, ◌<◌, refl, arith, false, none, some, [], ◌∷◌, replicate, length}
use rawcon.Common.Go.{ok}
use rawcon.Common.Bytes.{Bytes}
use rawcon.Tcp.{TcpLayer}
use rawcon.Tcp.Decode.{decode_tcp_layer}
use rawcon.Conn.{Raw}
use rawcon.Conn.Http.{decimal, build_http_request}
use rawcon.Conn.Send.Segment.{with_sent}
use rawcon.Listener.{deliver}
use rawcon.Listener.Step.{put_conn}
use rawcon.Listener.DoRead.{do_read_round}
use rawcon.Listener.Delivery.{confirmed}
use rawcon.Client.{RawConn, packet, write_data}
use rawcon.Client.Request.{hosts_of, choose_host, http_request}
use rawcon.Link.Example.{
  client_ip, new_conn, new_conn-IsDialling, new_listener, new_listener-IsFresh, draw, request_draw,
  clock,
}
use rawcon.Link.Handshake.{address_of}
use rawcon.Link.Disguise.Connects.{Disguised, text_of, disguise-connects}
use rawcon.Link.Disguise.FirstData.{hidden_write-delivered}

abbrev as_http : Raw
as_http = record { mixed = false; no_http = false; tls = false; ign_rst = false }

-- a.b
abbrev name : Bytes
name = 97 ∷ 46 ∷ 98 ∷ []

text-short : length (text_of (new_conn as_http) name [] request_draw) < 1000
unfolding http_request build_http_request hosts_of choose_host decimal
text-short = omega arith

disguise-connects_example :
    Disguised 1500 clock clock draw draw draw
      (new_listener as_http)
      (new_conn as_http)
      name
      []
      request_draw
disguise-connects_example =
    disguise-connects 1500 clock clock draw draw draw (new_listener as_http) (new_conn as_http) name
      [] request_draw (new_listener-IsFresh as_http) (new_conn-IsDialling as_http) refl
      (omega arith) refl refl refl refl refl refl refl (omega (arith, text-short))

hidden_write-delivered_example :
    (d : Disguised 1500 clock clock draw draw draw
      (new_listener as_http)
      (new_conn as_http)
      name
      []
      request_draw)
    × (conn4 : RawConn) × (segment : Bytes) × (tcp : TcpLayer) × (write_data
          (replicate 8 0)
          (7 ∷ 8 ∷ 9 ∷ [])
          d.conn3
        ≡ ok (3, none, conn4))
    × (conn4.socket ≡ with_sent d.conn3.socket d.conn3.layer.dstip segment)
    × (decode_tcp_layer segment ≡ ok tcp)
    × (do_read_round 1500 draw d.served (packet client_ip segment ∷ [])
        ≡ ok (
          some (
              deliver
                (put_conn d.served (address_of (new_conn as_http)) (confirmed d.info tcp))
                (7 ∷ 8 ∷ 9 ∷ [])
                (address_of (new_conn as_http))),
          [],
        ))
hidden_write-delivered_example =
    hidden_write-delivered 1500 clock clock draw draw draw draw (new_listener as_http)
      (new_conn as_http) [] name [] request_draw (replicate 8 0) (7 ∷ 8 ∷ 9 ∷ [])
      (new_listener-IsFresh as_http) (new_conn-IsDialling as_http) refl (omega arith) refl refl refl
      refl refl refl refl (omega (arith, text-short)) refl (omega arith) (omega arith)
