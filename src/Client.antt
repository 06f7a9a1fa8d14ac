-- ===== src/Client.antt =====
-- raw_linux.go, RAWConn, the connection that DialRAW makes: Write, ReadTCPLayer and ReadFrom.
pub mod Ends
pub mod Whole
pub mod Dial
pub mod Request
use rawcon.Common.{
  ℕ, zero, suc, ◌+◌, ◌-◌, Bool, true, false, not, ◌&&◌, ◌||◌, ◌==◌, Option, none, some, List, [],
  ◌∷◌, ltb, length, take, drop, if◌then◌else◌,
}
use rawcon.Common.Go.{Go, ok, err, panic, stuck, ◌>>=◌}
use rawcon.Common.Bytes.{Bytes, u32}
use rawcon.Tcp.{TcpLayer, Error, fin, syn, rst, psh, ack, chk_flag}
use rawcon.Tcp.Decode.{decode_tcp_layer}
use rawcon.Conn.{
  Raw, Addr, PktLayers, ConnError, fin_received, reset_by_peer, read_failed, bad_packet, Socket,
}
use rawcon.Conn.Send.{write_with_layer, send_ack_with_layer}
use rawcon.Conn.Frame.{tls_frame}

pub record RawConn : Type 0 where
  pub r : Raw
  pub layer : PktLayers
  pub dstport : ℕ
  pub hseqn : ℕ  -- uint32
  pub mss : ℕ
  pub socket : Socket

-- What ReadFromIP gives: an error, which may be temporary (a deadline), or a packet.
pub data Incoming : Type 0 where
  failure : Bool → Incoming
  packet : Bytes → Bytes → Incoming

abbrev pub set_tcp : RawConn → TcpLayer → RawConn
set_tcp conn tcp = record conn { layer = record (conn.layer) { tcp = tcp } }

abbrev pub sent_by : RawConn → Option ConnError × PktLayers × Socket → Option ConnError × RawConn
sent_by conn r = (r.0, record conn { layer = r.1; socket = r.2 })

-- `write`: as writeWithLayer, with the connection's own layer.
unfoldable pub write : Bytes → RawConn → Go Error (Option ConnError × RawConn)
write b conn = do r ← write_with_layer b conn.layer conn.socket; ok (sent_by conn r)

unfoldable pub send_ack : RawConn → Go Error (Option ConnError × RawConn)
send_ack conn = do r ← send_ack_with_layer conn.layer conn.socket; ok (sent_by conn r)

abbrev pub advance_seqn : ℕ → RawConn → RawConn
advance_seqn n conn =
    set_tcp conn (record (conn.layer.tcp) { seqn = u32 (conn.layer.tcp.seqn + n) })

-- Write; `buf` is what GetBuf returns. The number of bytes is that of what was sent.
unfoldable pub write_data : Bytes → Bytes → RawConn → Go Error (ℕ × Option ConnError × RawConn)
write_data buf b conn = do
  data' ← if conn.r.tls then tls_frame buf b else ok b
  (e, conn') ← write data' conn
  ok (length data', e, advance_seqn (length data') conn')

-- What ReadTCPLayer returns. A reset comes with the layer and an error; `drained` is a wait for packets
-- that do not come.
pub data Read : Type 0 where
  got : TcpLayer → Addr → Read
  reset : TcpLayer → Addr → Read
  read_error : Bool → Read
  decode_error : Error → Read
  drained : Read

abbrev pub source_of : Bytes → TcpLayer → Addr
source_of ip tcp = record { ip = ip; port = tcp.src_port }

-- What one packet makes of the loop: `none` is its `continue`.
abbrev pub layer_read : Raw → ℕ → Bytes → TcpLayer → Option Read
layer_read r dstport ip tcp =
    if not (tcp.dst_port == dstport)
    then none
    else if chk_flag tcp rst
    then (if r.ign_rst then none else some (reset tcp (source_of ip tcp)))
    else some (got tcp (source_of ip tcp))

unfoldable pub read_packet : Raw → ℕ → Bytes → Go Error TcpLayer → Go Error (Option Read)
read_packet r dstport ip (ok tcp) = ok (layer_read r dstport ip tcp)
read_packet r dstport ip (err e) = ok (some (decode_error e))
read_packet r dstport ip panic = panic
read_packet r dstport ip stuck = stuck

-- The length of `buf`, which the header of the packet goes into as well.
abbrev pub buf_len : ℕ
buf_len = 2048

-- ReadFromIP puts as much of a packet into `buf` as it holds and takes off the IPv4 header, of 20 bytes
-- where it has no options; `b` is what follows that header.
unfoldable pub in_buffer : Bytes → Bytes
in_buffer b = take (buf_len - 20) b

unfoldable pub read_tcp_layer : Raw → ℕ → List Incoming → Go Error (Read × List Incoming)
read_tcp_layer r dstport [] = ok (drained, [])
read_tcp_layer r dstport (failure temporary ∷ is) = ok (read_error temporary, is)
read_tcp_layer r dstport (packet ip b ∷ is) = do
  one ← read_packet r dstport ip (decode_tcp_layer (in_buffer b))
  elim one [ none ↦ read_tcp_layer r dstport is | some read ↦ ok (read, is) ]

-- What ReadFrom returns: bytes and their source, an error, or nothing while it waits.
pub data Received : Type 0 where
  bytes : Bytes → Addr → Received
  failed : ConnError → Received
  waiting : Received

-- The acknowledgement number moves forward only.
unfoldable pub acknowledge : TcpLayer → RawConn → RawConn
acknowledge tcp conn =
    let n = length tcp.payload in
    if ltb conn.layer.tcp.ackn (tcp.seqn + n)
    then set_tcp conn (record (conn.layer.tcp) { ackn = u32 (tcp.seqn + n) })
    else conn

-- One layer in ReadFrom's loop: `none` is its `continue`.
unfoldable pub on_layer : ℕ → TcpLayer → Addr → RawConn → Go Error (Option Received × RawConn)
on_layer cap tcp addr conn =
    if chk_flag tcp fin
    then ok (some (failed fin_received), conn)
    else if chk_flag tcp (syn + ack)
    then (do
      (e, conn') ← send_ack conn
      elim e [ some e' ↦ ok (some (failed e'), conn') | none ↦ ok (none, conn') ])
    else if not (chk_flag tcp (psh + ack)) || tcp.seqn == conn.hseqn
    then ok (none, conn)
    else if length tcp.payload == 0
    then ok (some (bytes [] addr), conn)
    else if conn.r.tls
    then (if ltb (length tcp.payload) 5
        then ok (none, acknowledge tcp conn)
        else ok (some (bytes (take cap (drop 5 tcp.payload)) addr), acknowledge tcp conn))
    else ok (some (bytes (take cap tcp.payload) addr), acknowledge tcp conn)

unfoldable pub on_read : ℕ → Read → RawConn → Go Error (Option Received × RawConn)
on_read cap (got tcp addr) conn = on_layer cap tcp addr conn
on_read cap (reset tcp addr) conn = ok (some (failed reset_by_peer), conn)
on_read cap (read_error temporary) conn = ok (some (failed read_failed), conn)
on_read cap (decode_error e) conn = ok (some (failed bad_packet), conn)
on_read cap drained conn = ok (some waiting, conn)

-- ReadFrom; each round takes a packet, so their number is fuel enough.
unfoldable pub read_from :
    ℕ → ℕ → RawConn → List Incoming → Go Error (Received × RawConn × List Incoming)
read_from zero cap conn is = stuck
read_from (suc fuel) cap conn is = do
  (read, rest) ← read_tcp_layer conn.r conn.dstport is
  (out, conn') ← on_read cap read conn
  elim out [ some received ↦ ok (received, conn', rest) | none ↦ read_from fuel cap conn' rest ]
