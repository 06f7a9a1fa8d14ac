-- ===== src/Link/Handshake/Writes.antt =====
-- raw_linux.go: all that a connection without disguise carries to its listener.
use rawcon.Common.{ℕ, ◌≡◌, sym, ap, ◌∙◌, arith, true, false, List, ◌∷◌, length, All}
use rawcon.Common.Go.{ok}
use rawcon.Common.Bytes.{Bytes, IsU32}
use rawcon.Conn.{Raw, Addr, ConnInfo}
use rawcon.Listener.{Draw, Listener}
use rawcon.Client.{RawConn, Incoming, packet}
use rawcon.Client.Dial.{Clock, connected}
use rawcon.Client.Request.{RequestDraw, dial}
use rawcon.Link.Stream.{IsInStep, Exchange, IsPiece, pieces-delivered}
use rawcon.Link.Handshake.{address_of}
use rawcon.Link.Handshake.Connects.{IsFresh, IsDialling, Session, handshake-connects}
use rawcon.Link.Handshake.Taken.{Taken, Session-Taken}
use rawcon.Link.Handshake.FirstData.{dial-connected}

-- A connection and a fresh listener on one fixed address and the port that the connection dials, without
-- disguise, where no write to a socket fails, the first deadline is set, and packets arrive in the order in
-- which they are sent: after the handshake, as doRead takes it and DialRAW returns from it, whatever pieces
-- of 1 to 2008 bytes the connection writes, each Write sends one segment, and if each is taken before the
-- next Write, doRead hands on each piece in its turn, as much of it as the caller's buffer takes. The peer
-- stays established, and the listener always expects the sequence number that the connection sends next.
pub writes-delivered :
    (bs : List Bytes) (cap : ℕ) (first second : Clock) (draw draw2 : Draw) (draws : ℕ → Draw)
    (l : Listener) (conn : RawConn) (is : List Incoming) (host : Bytes) (hosts : List Bytes)
    (req : RequestDraw) (get_buf : ℕ → Bytes)
    → IsFresh l (address_of conn)
    → IsDialling conn
    → conn.layer.tcp.dst_port ≡ l.laddr.port
    → IsU32 draw.seqn
    → first.deadline_fails 0 ≡ false
    → l.r.no_http ≡ true
    → conn.r.no_http ≡ true
    → conn.r.tls ≡ false
    → ((n : ℕ) → length (get_buf n) ≡ n)
    → All (IsPiece false) bs
    → (h : Session cap first 0 draw draw2 l conn) × Taken cap first 0 draw draw2 l conn h
      × (dial first second host hosts req conn (packet l.laddr.ip h.answer ∷ is)
          ≡ ok (connected h.conn2 is))
      × (conn2 : RawConn) × (l2 : Listener) × (info : ConnInfo) × Exchange cap
          (address_of conn)
          bs
          h.conn2
          h.shaken
          conn2
          l2
      × IsInStep conn2 l2 (address_of conn) info
writes-delivered bs cap first second draw draw2 draws l conn is host hosts req get_buf fresh
      dialling to number on_time serves dials no_tls sized fits =
    let h : Session cap first 0 draw draw2 l conn =
      handshake-connects cap 0 first draw draw2 l conn fresh dialling number (omega arith)
        on_time in
    let no_tls2 : h.conn2.r.tls ≡ false = ap (λ (r : Raw). r.tls) h.plain.1 ∙ no_tls in
    let no_http2 : h.conn2.r.no_http ≡ true = ap (λ (r : Raw). r.no_http) h.plain.1 ∙ dials in
    let start : IsInStep h.conn2 h.shaken (address_of conn) h.info = record {
      ready = h.goes_on.0;
      bare = h.no_options;
      calm = h.goes_on.1;
      from = sym h.from;
      to = h.ports.2 ∙ to ∙ ap (λ (a : Addr). a.port) (sym h.places.1);
      known = rw serves at h.known;
      up = rw serves at h.status;
      tls = h.plain.0 ∙ sym no_tls2;
      next = h.numbers.1;
    } in
    let (conn2, l2, info, exchanged, last) =
      pieces-delivered bs cap get_buf draws h.conn2 h.shaken (address_of conn) h.info sized start
        (rw no_tls2 fits) in
    (
      h,
      Session-Taken cap first 0 draw draw2 l conn h to,
      dial-connected first second host hosts req conn h.conn2 _ is (h.connects 6 is) no_http2
          no_tls2,
      conn2,
      l2,
      info,
      exchanged,
      last,
    )
