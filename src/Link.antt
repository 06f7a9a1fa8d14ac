-- ===== src/Link.antt =====
-- raw_linux.go: a RAWConn and a RAWListener at the two ends, and what one writes and the other reads.
pub mod Handshake
pub mod Disguise
pub mod Example
pub mod Stream
mod Tests
use rawcon.Common.{
  ℕ, suc, ◌+◌, ◌*◌, ◌<◌, ◌≤◌, ◌≡◌, ◌≢◌, refl, ap, ◌∙◌, arith, ◌⊎◌, inl, inr, Bool, true, false,
  ◌==◌, ltb, Option, none, some, List, [], ◌∷◌, length, take, drop, if◌then◌else◌,
}
use rawcon.Common.Go.{Go, ok}
use rawcon.Common.Bytes.{Bytes, u32}
use rawcon.Tcp.{TcpLayer, Error, fin, rst, syn, psh, ack, chk_flag}
use rawcon.Tcp.Decode.{decode_tcp_layer}
use rawcon.Tcp.RoundTrip.{received, marshalled}
use rawcon.Conn.{Addr, ConnInfo, established}
use rawcon.Conn.Frame.{tls_frame, framed, tls_frame-framed}
use rawcon.Conn.Send.Segment.{loaded, IsReady, with_sent, write_with_layer-decoded, loaded-calm}
use rawcon.Listener.{Draw, Listener, deliver}
use rawcon.Listener.Step.{put_conn, set_seqn, advance}
use rawcon.Listener.DoRead.{do_read_round}
use rawcon.Listener.DoRead.Packet.{IsTaken, do_read_round-step}
use rawcon.Client.Whole.{decode-in_buffer}
use rawcon.Tcp.Marshal.{header_len, pad_len}
use rawcon.Tcp.Marshal.Layout.{offset_of}
use rawcon.Listener.Delivery.{data_of, step-delivers}
use rawcon.Listener.Write.{write_peer, write_known, write_to}
use rawcon.Client.{
  RawConn, Incoming, packet, Received, bytes, write, write_data, advance_seqn, read_packet,
  read_tcp_layer, on_layer, on_read, read_from, acknowledge, source_of, layer_read, got,
}

-- What goes into the segment.
abbrev pub payload_of : Bool → Bytes → Bytes
payload_of true b = framed b
payload_of false b = b

data_of-payload_of : (t : Bool) (b : Bytes) → data_of t (payload_of t b) ≡ b
data_of-payload_of true b = refl
data_of-payload_of false b = refl

pub payload_lem :
    (t : Bool) (b : Bytes)
    → 0 < length b
    → (0 < length (payload_of t b)) × ((t ≡ false) ⊎ (5 ≤ length (payload_of t b)))
payload_lem true b some_data = (omega arith, inr (omega arith))
payload_lem false b some_data = (some_data, inl refl)

prepared_lem :
    (t : Bool) (buf b : Bytes)
    → length buf ≡ length b + 5
    → (if t then tls_frame buf b else ok b) ≡ ok (payload_of t b)
prepared_lem true buf b h = tls_frame-framed buf b h
prepared_lem false buf b h = refl

-- The connection after a Write of `payload`.
abbrev pub wrote : RawConn → Bytes → Bytes → Bytes → RawConn
wrote conn payload buffer segment = advance_seqn (length payload) (record conn {
  layer = record (conn.layer) { tcp = marshalled (loaded payload conn.layer.tcp) buffer };
  socket = with_sent conn.socket conn.layer.dstip segment;
})

pub write_data-decoded :
    (conn : RawConn) (buf b : Bytes)
    → IsReady conn.layer
    → conn.socket.faults ≡ []
    → length buf ≡ length b + 5
    → let payload = payload_of conn.r.tls b in
      (buffer segment : Bytes) × (c : ℕ) × (write_data buf b conn
        ≡ ok (length payload, none, wrote conn payload buffer segment))
      × (decode_tcp_layer segment ≡ ok (received (loaded payload conn.layer.tcp) c))
unfolding write_data write
write_data-decoded conn buf b ready calm room =
    let (buffer, segment, c, written, read) =
      write_with_layer-decoded (payload_of conn.r.tls b) conn.layer conn.socket ready calm in
    (buffer, segment, c, rw (prepared_lem conn.r.tls buf b room, written) refl, read)

-- The flags of a layer with PSH and ACK.
pub loaded_flags :
    (b : Bytes) (t : TcpLayer) (c : ℕ)
    → let tcp = received (loaded b t) c in
      (chk_flag tcp rst ≡ false)
      × (chk_flag tcp fin ≡ false)
      × (chk_flag tcp (syn + ack) ≡ false)
      × (chk_flag tcp (psh + ack) ≡ true)
unfolding chk_flag
loaded_flags b t c = (refl, refl, refl, refl)

pub loaded-IsTaken :
    (a : Addr) (port : ℕ) (b : Bytes) (t : TcpLayer) (c : ℕ)
    → a.port ≡ t.src_port
    → t.dst_port ≡ port
    → offset_of t * 4 + length b ≤ 2028
    → IsTaken a port (received (loaded b t) c)
loaded-IsTaken a port b t c from to short = record {
  from_port = from;
  to_port = to;
  no_reset = (loaded_flags b t c).0;
  short = short;
}

-- Where a segment with the payload fits into the 2028 bytes that `buf` has for it.
abbrev pub IsShort : TcpLayer → Bytes → Type 0
IsShort tcp payload = offset_of tcp * 4 + length payload ≤ 2028

-- A layer without options has a header of 20 bytes.
pub IsShort-bare : (tcp : TcpLayer) (b : Bytes) → tcp.options ≡ [] → length b ≤ 2008 → IsShort tcp b
unfolding header_len pad_len
IsShort-bare tcp b bare few = rw bare (omega arith)

-- What becomes of a Write, with the connection and the segment that it leaves.
pub write_data-handed :
    (conn : RawConn) (buf b : Bytes) (cap : ℕ) (draw : Draw) (l : Listener) (a : Addr)
    (info : ConnInfo) (is : List Incoming)
    → IsReady conn.layer
    → conn.socket.faults ≡ []
    → length buf ≡ length b + 5
    → 0 < length b
    → IsShort conn.layer.tcp (payload_of conn.r.tls b)
    → a.port ≡ conn.layer.tcp.src_port
    → conn.layer.tcp.dst_port ≡ l.laddr.port
    → l.conns a ≡ some info
    → info.state ≡ established
    → info.tls ≡ conn.r.tls
    → let payload = payload_of conn.r.tls b in
      (buffer segment : Bytes) × (c : ℕ) × (write_data buf b conn
        ≡ ok (length payload, none, wrote conn payload buffer segment))
      × (decode_tcp_layer segment ≡ ok (received (loaded payload conn.layer.tcp) c))
      × (do_read_round cap draw l (packet a.ip segment ∷ is)
          ≡ ok (
            some (
                deliver
                  (put_conn l a (advance info (received (loaded payload conn.layer.tcp) c)))
                  (take cap b)
                  a),
            is,
          ))
write_data-handed conn buf b cap draw l a info is ready calm room some_data short from to here up
      tls =
    let payload : Bytes = payload_of conn.r.tls b in
    let (buffer, segment, c, written, read) = write_data-decoded conn buf b ready calm room in
    let tcp : TcpLayer = received (loaded payload conn.layer.tcp) c in
    let (filled, fits) = payload_lem conn.r.tls b some_data in
    let handed =
      step-delivers cap draw l a info tcp here up (loaded-calm payload conn.layer.tcp c) filled
        (rw tls fits) in
    let whole : data_of info.tls payload ≡ b = rw tls (data_of-payload_of conn.r.tls b) in
    (
      buffer,
      segment,
      c,
      written,
      read,
      do_read_round-step cap draw l a tcp segment is _ read
          (loaded-IsTaken a l.laddr.port payload conn.layer.tcp c from to short)
          (handed ∙ ap (λ d. ok (deliver (put_conn l a (advance info tcp)) (take cap d) a)) whole),
    )

-- What Write of a RAWConn sends to a listener's port is one segment. If the listener has the sender among
-- its established peers, with TLS on both sides or on neither, and the buffer that it reads into holds
-- the segment, its next round, in which that is the next packet, hands on the data that was written, as
-- much as the caller's buffer takes. The buffer of GetBuf may hold anything.
pub write_data-delivered :
    (conn : RawConn) (buf b : Bytes) (cap : ℕ) (draw : Draw) (l : Listener) (a : Addr)
    (info : ConnInfo) (is : List Incoming)
    → IsReady conn.layer
    → conn.socket.faults ≡ []
    → length buf ≡ length b + 5
    → 0 < length b
    → IsShort conn.layer.tcp (payload_of conn.r.tls b)
    → a.port ≡ conn.layer.tcp.src_port
    → conn.layer.tcp.dst_port ≡ l.laddr.port
    → l.conns a ≡ some info
    → info.state ≡ established
    → info.tls ≡ conn.r.tls
    → (conn' : RawConn) × (segment : Bytes) × (tcp : TcpLayer) × (write_data buf b conn
        ≡ ok (length (payload_of conn.r.tls b), none, conn'))
      × (conn'.socket ≡ with_sent conn.socket conn.layer.dstip segment)
      × (decode_tcp_layer segment ≡ ok tcp)
      × (do_read_round cap draw l (packet a.ip segment ∷ is)
          ≡ ok (some (deliver (put_conn l a (advance info tcp)) (take cap b) a), is))
write_data-delivered conn buf b cap draw l a info is ready calm room some_data short from to here up
      tls =
    let payload : Bytes = payload_of conn.r.tls b in
    let (buffer, segment, c, written, read, handed) =
      write_data-handed conn buf b cap draw l a info is ready calm room some_data short from to here
        up tls in
    (
      wrote conn payload buffer segment,
      segment,
      received (loaded payload conn.layer.tcp) c,
      written,
      refl,
      read,
      handed,
    )

module _ (conn : RawConn) (cap : ℕ) (payload : Bytes) (t : TcpLayer) (c : ℕ) (ip : Bytes) where
  abbrev pub arrived : TcpLayer
  arrived = received (loaded payload t) c

  pub layer_read-arrived :
      t.dst_port ≡ conn.dstport
      → layer_read conn.r conn.dstport ip arrived ≡ some (got arrived (source_of ip arrived))
  layer_read-arrived port =
      let mine : (t.dst_port == conn.dstport) ≡ true = ground arith in
      let flags = loaded_flags payload t c in simp (mine, flags.0) refl

  on_layer-arrived :
      t.seqn ≢ conn.hseqn
      → 0 < length payload
      → (conn.r.tls ≡ false) ⊎ (5 ≤ length payload)
      → on_layer cap arrived (source_of ip arrived) conn
        ≡ ok (
          some (bytes (take cap (data_of conn.r.tls payload)) (source_of ip arrived)),
          acknowledge arrived conn,
        )
  unfolding on_layer
  on_layer-arrived fresh filled fits =
      let flags = loaded_flags payload t c in
      let new : (t.seqn == conn.hseqn) ≡ false = ground arith in
      let some_data : (length payload == 0) ≡ false = ground arith in
      simp (flags.1, flags.2, flags.3, new, some_data) (by_tls conn.r.tls fits)
    where
      by_tls :
          (tls : Bool)
          → (tls ≡ false) ⊎ (5 ≤ length payload)
          → Path
              (Go Error (Option Received × RawConn))
              (if tls
                then (if ltb (length payload) 5
                    then ok (none, acknowledge arrived conn)
                    else ok (
                      some (bytes (take cap (drop 5 payload)) (source_of ip arrived)),
                      acknowledge arrived conn,
                    ))
                else ok (
                  some (bytes (take cap payload) (source_of ip arrived)),
                  acknowledge arrived conn,
                ))
              (ok (
                some (bytes (take cap (data_of tls payload)) (source_of ip arrived)),
                acknowledge arrived conn,
              ))
      by_tls false h = refl
      by_tls true (inl h) = cc
      by_tls true (inr h) =
          let long : ltb (length payload) 5 ≡ false = ground arith in simp long refl

  read_from-arrived :
      (fuel : ℕ) (segment : Bytes) (is : List Incoming)
      → decode_tcp_layer segment ≡ ok arrived
      → IsShort t payload
      → t.dst_port ≡ conn.dstport
      → t.seqn ≢ conn.hseqn
      → 0 < length payload
      → (conn.r.tls ≡ false) ⊎ (5 ≤ length payload)
      → read_from (suc fuel) cap conn (packet ip segment ∷ is)
        ≡ ok (
          bytes (take cap (data_of conn.r.tls payload)) (source_of ip arrived),
          acknowledge arrived conn,
          is,
        )
  unfolding read_from read_tcp_layer read_packet on_read
  read_from-arrived fuel segment is read short port fresh filled fits =
      let whole = decode-in_buffer segment arrived read short in
      simp (whole, layer_read-arrived port, on_layer-arrived fresh filled fits) refl

-- The other way: what WriteTo sends to an established peer is one segment. If the buffer that the peer's
-- RAWConn reads into holds it, the first read that finds it waiting returns the data that was written, as
-- much as the caller's buffer takes, unless it carries the sequence number of the answer to the handshake.
pub write_to-received :
    (l : Listener) (buf b : Bytes) (a : Addr) (info : ConnInfo) (conn : RawConn) (cap fuel : ℕ)
    (ip : Bytes) (is : List Incoming)
    → IsReady info.layer
    → l.socket.faults ≡ []
    → length buf ≡ length b + 5
    → 0 < length b
    → IsShort info.layer.tcp (payload_of info.tls b)
    → l.conns a ≡ some info
    → info.tls ≡ conn.r.tls
    → info.layer.tcp.dst_port ≡ conn.dstport
    → info.layer.tcp.seqn ≢ conn.hseqn
    → (l' : Listener) × (segment : Bytes) × (tcp : TcpLayer) × (write_to buf b a l
        ≡ ok (length (payload_of info.tls b), none, l'))
      × (l'.socket ≡ with_sent l.socket info.layer.dstip segment)
      × (decode_tcp_layer segment ≡ ok tcp)
      × (read_from (suc fuel) cap conn (packet ip segment ∷ is)
          ≡ ok (
            bytes (take cap b) (record { ip = ip; port = info.layer.tcp.src_port }),
            acknowledge tcp conn,
            is,
          ))
unfolding write_to write_known write_peer
write_to-received l buf b a info conn cap fuel ip is ready calm room some_data short here tls port
      fresh =
    let payload : Bytes = payload_of info.tls b in
    let (buffer, segment, c, written, read) =
      write_with_layer-decoded payload info.layer l.socket ready calm in
    let tcp : TcpLayer = received (loaded payload info.layer.tcp) c in
    let (filled, fits) = payload_lem info.tls b some_data in
    let taken =
      read_from-arrived conn cap payload info.layer.tcp c ip fuel segment is read short port fresh
        filled (rw (← tls) fits) in
    let whole : data_of conn.r.tls payload ≡ b = rw (← tls) (data_of-payload_of info.tls b) in
    let info' = record info {
      layer = record (info.layer) { tcp = marshalled (loaded payload info.layer.tcp) buffer };
    } in
    let serving = record l { socket = with_sent l.socket info.layer.dstip segment } in
    (
      put_conn serving a (set_seqn info' (u32 (info'.layer.tcp.seqn + length payload))),
      segment,
      tcp,
      rw (here, prepared_lem info.tls buf b room, written) refl,
      refl,
      read,
      taken ∙ ap (λ d. ok (bytes (take cap d) (source_of ip tcp), acknowledge tcp conn, is)) whole,
    )
