-- ===== src/Link/Handshake/FirstData.antt =====
-- raw_linux.go: what a connection without disguise carries as soon as its handshake is over.
use rawcon.Common.{
  ℕ, ◌+◌, ◌<◌, ◌≤◌, ◌≡◌, refl, sym, ap, ◌∙◌, arith, true, false, none, some, List, ◌∷◌, length,
  take,
}
use rawcon.Common.Go.{ok}
use rawcon.Common.Bytes.{Bytes, IsU32}
use rawcon.Tcp.{TcpLayer}
use rawcon.Tcp.Decode.{decode_tcp_layer}
use rawcon.Conn.{Raw, Addr}
use rawcon.Listener.{Draw, Listener, deliver}
use rawcon.Listener.Step.{put_conn, advance}
use rawcon.Listener.DoRead.{do_read_round}
use rawcon.Client.{RawConn, Incoming, packet, write_data}
use rawcon.Client.Dial.{Clock, connected, syn_loop}
use rawcon.Client.Request.{RequestDraw, dial, after_syn, give_up}
use rawcon.Conn.Send.Segment.{with_sent}
use rawcon.Link.{payload_of, IsShort, IsShort-bare, write_data-delivered}
use rawcon.Link.Handshake.{address_of}
use rawcon.Link.Handshake.Taken.{Taken, Session-Taken}
use rawcon.Link.Handshake.Connects.{IsFresh, IsDialling, Session, handshake-connects}

-- DialRAW without disguise is over with its first loop.
pub dial-connected :
    (first second : Clock) (host : Bytes) (hosts : List Bytes) (req : RequestDraw)
    (conn conn2 : RawConn) (is rest : List Incoming)
    → syn_loop 7 0 first conn is ≡ ok (connected conn2 rest)
    → conn2.r.no_http ≡ true
    → conn2.r.tls ≡ false
    → dial first second host hosts req conn is ≡ ok (connected conn2 rest)
unfolding dial after_syn give_up
dial-connected first second host hosts req conn conn2 is rest looped no_http no_tls =
    rw (looped, no_http, no_tls) refl

-- A connection and a fresh listener on one fixed address and the port that the connection dials, without
-- disguise, where no write to a socket fails, the first deadline is set, and packets arrive in the order in
-- which they are sent: doRead takes the SYN, DialRAW takes the answer and returns a connection, doRead takes
-- its acknowledgement, and its next round hands on what the first Write of the connection sends, up to
-- 2008 bytes, as much of it as the caller's buffer takes.
pub first_write-delivered :
    (cap : ℕ) (first second : Clock) (draw draw2 draw3 : Draw) (l : Listener) (conn : RawConn)
    (is js : List Incoming) (host : Bytes) (hosts : List Bytes) (req : RequestDraw) (buf b : Bytes)
    → IsFresh l (address_of conn)
    → IsDialling conn
    → conn.layer.tcp.dst_port ≡ l.laddr.port
    → IsU32 draw.seqn
    → first.deadline_fails 0 ≡ false
    → l.r.no_http ≡ true
    → conn.r.no_http ≡ true
    → conn.r.tls ≡ false
    → length buf ≡ length b + 5
    → 0 < length b
    → length b ≤ 2008
    → (h : Session cap first 0 draw draw2 l conn) × Taken cap first 0 draw draw2 l conn h
      × (conn3 : RawConn) × (segment : Bytes) × (tcp : TcpLayer) × (dial first second host hosts req
            conn
            (packet l.laddr.ip h.answer ∷ is)
          ≡ ok (connected h.conn2 is))
      × (write_data buf b h.conn2 ≡ ok (length b, none, conn3))
      × (decode_tcp_layer segment ≡ ok tcp)
      × (conn3.socket ≡ with_sent h.conn2.socket h.conn2.layer.dstip segment)
      × (do_read_round cap draw3 h.shaken (packet conn.layer.srcip segment ∷ js)
          ≡ ok (
            some (
                deliver
                  (put_conn h.shaken (address_of conn) (advance h.info tcp))
                  (take cap b)
                  (address_of conn)),
            js,
          ))
first_write-delivered cap first second draw draw2 draw3 l conn is js host hosts req buf b fresh
      dialling to number on_time serves dials no_tls room some_data few =
    let h : Session cap first 0 draw draw2 l conn =
      handshake-connects cap 0 first draw draw2 l conn fresh dialling number (omega arith)
        on_time in
    let same = h.plain.1 in
    let no_tls2 : h.conn2.r.tls ≡ false = ap (λ (r : Raw). r.tls) same ∙ no_tls in
    let no_http2 : h.conn2.r.no_http ≡ true = ap (λ (r : Raw). r.no_http) same ∙ dials in
    let short : IsShort h.conn2.layer.tcp (payload_of h.conn2.r.tls b) =
      rw no_tls2 (IsShort-bare h.conn2.layer.tcp b h.no_options few) in
    let to_it : h.conn2.layer.tcp.dst_port ≡ h.shaken.laddr.port =
      h.ports.2 ∙ to ∙ ap (λ (a : Addr). a.port) (sym h.places.1) in
    let (conn3, segment, tcp, written, sent, read, delivered) =
      write_data-delivered h.conn2 buf b cap draw3 h.shaken (address_of conn) h.info js h.goes_on.0
        h.goes_on.1 room some_data short (sym h.from) to_it (rw serves at h.known)
        (rw serves at h.status) (h.plain.0 ∙ sym no_tls2) in
    (
      h,
      Session-Taken cap first 0 draw draw2 l conn h to,
      conn3,
      segment,
      tcp,
      dial-connected first second host hosts req conn h.conn2 _ is (h.connects 6 is) no_http2
          no_tls2,
      (rw no_tls2 at written),
      read,
      sent,
      delivered,
    )
