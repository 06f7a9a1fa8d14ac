-- ===== src/Link/Stream.antt =====
-- raw_linux.go: any number of Writes of a RAWConn, and the rounds of doRead that take what they send.
use rawcon.Common.{
  ℕ, ◌+◌, ◌<◌, ◌≤◌, ◌≡◌, refl, arith, Bool, true, ltb, none, some, List, [], ◌∷◌, length, take, All,
}
use rawcon.Common.Go.{ok}
use rawcon.Common.Bytes.{Bytes, u32}
use rawcon.Tcp.{TcpLayer}
use rawcon.Tcp.RoundTrip.{received}
use rawcon.Conn.{Addr, ConnInfo, established}
use rawcon.Conn.Send.Segment.{loaded, IsReady, with_sent, numbered-IsReady, marshalled-IsReady}
use rawcon.Listener.{Draw, Listener, deliver, insert}
use rawcon.Listener.Step.{put_conn, set_ackn, advance}
use rawcon.Listener.DoRead.{do_read_round}
use rawcon.Client.{RawConn, packet, write_data}
use rawcon.Link.{payload_of, payload_lem, wrote, IsShort-bare, write_data-handed}
use rawcon.Link.Handshake.{addr_eq_refl}

-- The connection is up at both ends, and the listener expects what the client sends next.
pub record IsInStep (conn : RawConn) (l : Listener) (a : Addr) (info : ConnInfo) : Type 0 where
  pub ready : IsReady conn.layer
  pub bare : conn.layer.tcp.options ≡ []
  pub calm : conn.socket.faults ≡ []
  pub from : a.port ≡ conn.layer.tcp.src_port
  pub to : conn.layer.tcp.dst_port ≡ l.laddr.port
  pub known : l.conns a ≡ some info
  pub up : info.state ≡ established
  pub tls : info.tls ≡ conn.r.tls
  pub next : info.layer.tcp.ackn ≡ conn.layer.tcp.seqn

-- Writes of the pieces, each of which goes out as one segment and is handed on by the next round before
-- the next Write.
pub data Exchange (cap : ℕ) (a : Addr)
    : List Bytes → RawConn → Listener → RawConn → Listener → Type 0 where
  rest : {conn : RawConn} {l : Listener} → Exchange cap a [] conn l conn l
  piece :
      {bs : List Bytes} {conn conn' conn2 : RawConn} {l l' l2 : Listener} (buf b segment : Bytes)
      (draw : Draw)
      → write_data buf b conn ≡ ok (length (payload_of conn.r.tls b), none, conn')
      → conn'.socket ≡ with_sent conn.socket conn.layer.dstip segment
      → do_read_round cap draw l (packet a.ip segment ∷ [])
        ≡ ok (some (deliver l' (take cap b) a), [])
      → Exchange cap a bs conn' l' conn2 l2
      → Exchange cap a (b ∷ bs) conn l conn2 l2

advance-next :
    (info : ConnInfo) (tcp : TcpLayer)
    → info.layer.tcp.ackn ≡ tcp.seqn
    → 0 < length tcp.payload
    → advance info tcp ≡ set_ackn info (u32 (tcp.seqn + length tcp.payload))
unfolding advance
advance-next info tcp same filled =
    let more : ltb info.layer.tcp.ackn (tcp.seqn + length tcp.payload) ≡ true = ground arith in
    rw more refl

-- A Write and the round for it keep the ends in step.
wrote-IsInStep :
    (conn : RawConn) (l : Listener) (a : Addr) (info : ConnInfo) (payload buffer segment : Bytes)
    (c : ℕ)
    → IsInStep conn l a info
    → 0 < length payload
    → let tcp = received (loaded payload conn.layer.tcp) c in
      IsInStep
        (wrote conn payload buffer segment)
        (put_conn l a (advance info tcp))
        a
        (advance info tcp)
unfolding insert
wrote-IsInStep conn l a info payload buffer segment c s filled =
    let tcp : TcpLayer = received (loaded payload conn.layer.tcp) c in
    let moved : ConnInfo = set_ackn info (u32 (tcp.seqn + length payload)) in
    let e : advance info tcp ≡ moved = advance-next info tcp s.next filled in
    let conn' : RawConn = wrote conn payload buffer segment in
    let kept : IsInStep conn' (put_conn l a moved) a moved = record {
      ready =
          numbered-IsReady _ (u32 (conn.layer.tcp.seqn + length payload)) conn.layer.tcp.ackn
            (marshalled-IsReady payload buffer conn.layer s.ready) (omega arith)
            s.ready.fits.range.ackn_range;
      bare = s.bare;
      calm = s.calm;
      from = s.from;
      to = s.to;
      known = rw (addr_eq_refl a) refl;
      up = s.up;
      tls = s.tls;
      next = refl;
    } in
    rw e kept

-- A piece that goes into one segment that `buf` holds.
abbrev pub IsPiece : Bool → Bytes → Type 0
IsPiece t b = (0 < length b) × (length (payload_of t b) ≤ 2008)

pub pieces-delivered :
    (bs : List Bytes) (cap : ℕ) (get_buf : ℕ → Bytes) (draws : ℕ → Draw) (conn : RawConn)
    (l : Listener) (a : Addr) (info : ConnInfo)
    → ((n : ℕ) → length (get_buf n) ≡ n)
    → IsInStep conn l a info
    → All (IsPiece conn.r.tls) bs
    → (conn2 : RawConn) × (l2 : Listener) × (info2 : ConnInfo) × Exchange cap a bs conn l conn2 l2
      × IsInStep conn2 l2 a info2
pieces-delivered [] cap get_buf draws conn l a info sized s fits = (conn, l, info, rest, s)
pieces-delivered (b ∷ bs) cap get_buf draws conn l a info sized s fits =
    let payload : Bytes = payload_of conn.r.tls b in
    let (buffer, segment, c, written, read, handed) =
      write_data-handed conn (get_buf (length b + 5)) b cap (draws (length bs)) l a info [] s.ready
        s.calm (sized (length b + 5)) fits.0.0 (IsShort-bare conn.layer.tcp payload s.bare fits.0.1)
        s.from s.to s.known s.up s.tls in
    let filled = (payload_lem conn.r.tls b fits.0.0).0 in
    let kept = wrote-IsInStep conn l a info payload buffer segment c s filled in
    let (conn2, l2, info2, others, last) =
      pieces-delivered bs cap get_buf draws (wrote conn payload buffer segment) _ a _ sized kept
        fits.1 in
    (
      conn2,
      l2,
      info2,
      piece (get_buf (length b + 5)) b segment (draws (length bs)) written refl handed others,
      last,
    )
