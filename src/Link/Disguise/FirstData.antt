-- ===== src/Link/Disguise/FirstData.antt =====
-- raw_linux.go: what a connection that is disguised as HTTP carries as soon as its request is answered.
use rawcon.Common.{
  ℕ, ◌+◌, ◌^◌, ◌<◌, ◌≤◌, ◌≡◌, ◌≢◌, refl, sym, ap, ◌∙◌, arith, false, none, some, inl, List, ◌∷◌,
  length, take,
}
use rawcon.Common.Go.{ok}
use rawcon.Common.Bytes.{Bytes, IsU32, u32}
use rawcon.Tcp.{TcpLayer}
use rawcon.Tcp.Decode.{decode_tcp_layer}
use rawcon.Tcp.RoundTrip.{received}
use rawcon.Conn.{Raw}
use rawcon.Conn.Send.Segment.{loaded, loaded-calm, with_sent}
use rawcon.Listener.{Draw, Listener, deliver}
use rawcon.Listener.Step.{put_conn}
use rawcon.Listener.DoRead.{do_read_round}
use rawcon.Listener.DoRead.Packet.{do_read_round-step}
use rawcon.Listener.Delivery.{data_of, confirmed, step-confirmed}
use rawcon.Client.{RawConn, Incoming, packet, write_data}
use rawcon.Client.Dial.{Clock}
use rawcon.Client.Request.{RequestDraw, hosts_of, choose_host}
use rawcon.Link.{IsShort-bare, loaded-IsTaken, payload_of, wrote, write_data-decoded, loaded_flags}
use rawcon.Link.Handshake.{address_of}
use rawcon.Link.Handshake.Connects.{IsFresh, IsDialling}
use rawcon.Link.Disguise.Connects.{Disguised, text_of, http_request-is_post, disguise-connects}

-- The request moves the sequence number away from its own.
moved-ne : (s n : ℕ) → IsU32 s → 0 < n → n < 2 ^ 32 → u32 (s + n) ≢ s
moved-ne s n range some_bytes short e = absurd (omega arith)

-- In the session `d` of a connection and a listener that are disguised as HTTP, under its conditions, no
-- write to a socket failing: what the first Write of the connection that DialRAW returns sends, up to 2008
-- bytes, is handed on by doRead's next round, as much of it as the caller's buffer takes, and the listener
-- has the peer for established, with its own sequence number moved past the response.
pub hidden_write-delivered :
    (cap : ℕ) (first second : Clock) (draw draw2 draw3 draw4 : Draw) (l : Listener) (conn : RawConn)
    (is : List Incoming) (host : Bytes) (hosts : List Bytes) (req : RequestDraw) (buf b : Bytes)
    → IsFresh l (address_of conn)
    → IsDialling conn
    → conn.layer.tcp.dst_port ≡ l.laddr.port
    → IsU32 draw.seqn
    → first.deadline_fails 0 ≡ false
    → second.deadline_fails 0 ≡ false
    → l.r.no_http ≡ false
    → l.r.tls ≡ false
    → l.r.mixed ≡ false
    → conn.r.no_http ≡ false
    → conn.r.tls ≡ false
    → length (text_of conn host hosts req) ≤ 2008
    → length buf ≡ length b + 5
    → 0 < length b
    → length b ≤ 2008
    → (d : Disguised cap first second draw draw2 draw3 l conn host hosts req) × (conn4 : RawConn)
      × (segment : Bytes) × (tcp : TcpLayer) × (write_data buf b d.conn3
          ≡ ok (length b, none, conn4))
      × (conn4.socket ≡ with_sent d.conn3.socket d.conn3.layer.dstip segment)
      × (decode_tcp_layer segment ≡ ok tcp)
      × (do_read_round cap draw4 d.served (packet conn.layer.srcip segment ∷ is)
          ≡ ok (
            some (
                deliver
                  (put_conn d.served (address_of conn) (confirmed d.info tcp))
                  (take cap b)
                  (address_of conn)),
            is,
          ))
hidden_write-delivered size first second draw draw2 draw3 draw4 l conn is host hosts req buf b fresh
      dialling to number on_time on_time2 hides no_tls unmixed asks plain short room some_data few =
    let d : Disguised size first second draw draw2 draw3 l conn host hosts req =
      disguise-connects size first second draw draw2 draw3 l conn host hosts req fresh dialling to
        number on_time on_time2 hides no_tls unmixed asks plain short in
    let plain3 : d.conn3.r.tls ≡ false = ap (λ (r : Raw). r.tls) d.status.2 ∙ plain in
    let (buffer, segment, c, written, read) =
      write_data-decoded d.conn3 buf b d.goes_on.0 d.goes_on.1 room in
    let payload : Bytes = payload_of d.conn3.r.tls b in
    let whole : payload ≡ b = ap (λ t. payload_of t b) plain3 in
    let text =
      http_request-is_post (choose_host (hosts_of host hosts) req.host) conn.layer.tcp.dst_port
        req in
    let some_text : 0 < length (text_of conn host hosts req) = omega (arith, text.0) in
    let new : d.conn3.layer.tcp.seqn ≢ d.info.hseqn = λ e.
      moved-ne d.info.hseqn (length (text_of conn host hosts req)) d.range some_text (omega arith)
        (sym d.moved ∙ e) in
    let tcp : TcpLayer = received (loaded payload d.conn3.layer.tcp) c in
    let handed =
      step-confirmed size draw4 d.served (address_of conn) d.info tcp d.known.0 d.status.0
        (loaded-calm payload d.conn3.layer.tcp c) (loaded_flags payload d.conn3.layer.tcp c).3 new
        (rw whole some_data) (inl d.status.1) in
    (
      d,
      wrote d.conn3 payload buffer segment,
      segment,
      tcp,
      written ∙ ap (λ n. ok (n, none, wrote d.conn3 payload buffer segment)) (ap length whole),
      refl,
      read,
      do_read_round-step size draw4 d.served (address_of conn) tcp segment is _ read
          (loaded-IsTaken (address_of conn) d.served.laddr.port payload d.conn3.layer.tcp c
            (sym d.ports.0) d.ports.1
            (IsShort-bare d.conn3.layer.tcp payload d.no_options (rw whole few)))
          (handed
            ∙ ap
                (λ x. ok (
                  deliver (put_conn d.served (address_of conn) (confirmed d.info tcp)) (take size x)
                    (address_of conn)))
                (ap (λ t. data_of t payload) d.status.1 ∙ whole)),
    )
