-- ===== src/Darwin/Client.antt =====
-- raw_darwin.go, RAWConn: readLayers, Write, WriteTo and ReadFrom. Times are counted in nanoseconds.
pub mod Dial
pub mod Ends
pub mod Reading
mod Tests
use rawcon.Common.{
  ℕ, zero, suc, ◌+◌, ◌-◌, Bool, true, false, not, ◌&&◌, ◌||◌, ◌==◌, Option, none, some, List, [],
  ◌∷◌, ltb, length, take, drop, if◌then◌else◌,
}
use rawcon.Common.Go.{Go, ok, stuck, ◌>>=◌}
use rawcon.Common.Bytes.{Bytes, u32}
use rawcon.Common.Text.{bytes_eq}
use rawcon.Tcp.{Error}
use rawcon.Tcp.Checksum.{to4}
use rawcon.Conn.{Raw, Addr, ConnError}
use rawcon.Conn.Frame.{tls_frame}
use rawcon.Pcap.{Layers, Handle, send_ack_with_layer, write_with_layer}

-- `sip`, `dip`, `sport` and `dport` are those of the packets to read, nil or 0 for any. `connected`:
-- whether `udp` is set, as it is unless the system makes the connection.
pub record RawConn : Type 0 where
  pub r : Raw
  pub layer : Layers
  pub hseqn : ℕ  -- uint32
  pub mss : ℕ
  pub handle : Handle
  pub sip : Option Bytes
  pub dip : Option Bytes
  pub sport : ℕ
  pub dport : ℕ
  pub rtime : Option ℕ
  pub lastack : ℕ  -- uint32
  pub lastacktime : Option ℕ
  pub connected : Bool

-- What the sniffer gives: its timeout, with the time that it is then; another error, which may be
-- temporary; a packet without a link, an IPv4 or a TCP layer; or the layers of a packet.
pub data Incoming : Type 0 where
  timeout : ℕ → Incoming
  read_error : Bool → Incoming
  foreign : Incoming
  packet : Layers → Incoming

-- What readLayers returns; `drained` is a wait for packets that do not come.
pub data Read : Type 0 where
  got : Layers → Read
  failed : Bool → Read
  drained : Read

-- `net.IP.Equal`: an address of four bytes equals its form of sixteen.
abbrev pub same_ip : Option Bytes → Option Bytes → Bytes → Bytes → Bool
same_ip (some x) (some y) a b = bytes_eq x y
same_ip none none a b = bytes_eq a b
same_ip _ _ a b = false

unfoldable pub ip_equal : Bytes → Bytes → Bool
ip_equal a b = same_ip (to4 a) (to4 b) a b

abbrev pub ip_passes : Option Bytes → Bytes → Bool
ip_passes none ip = true
ip_passes (some own) ip = ip_equal own ip

abbrev pub port_passes : ℕ → ℕ → Bool
port_passes own port = own == 0 || own == port

-- The tests of readLayers on a packet with all of its layers.
unfoldable pub accepts : RawConn → Layers → Bool
accepts conn cl =
    ip_passes conn.sip cl.src_ip
    && ip_passes conn.dip cl.dst_ip
    && not (conn.r.ign_rst && cl.tcp.rst)
    && port_passes conn.sport cl.tcp.src_port
    && port_passes conn.dport cl.tcp.dst_port

-- Whether readPacket goes on after a timeout of the sniffer.
abbrev pub waits : Option ℕ → ℕ → Bool
waits none now = true
waits (some deadline) now = ltb now deadline

-- readLayers, with the loop of readPacket inside its own.
unfoldable pub read_layers : RawConn → List Incoming → Read × List Incoming
read_layers conn [] = (drained, [])
read_layers conn (timeout now ∷ is) =
    if waits conn.rtime now then read_layers conn is else (failed true, is)
read_layers conn (read_error temporary ∷ is) = (failed temporary, is)
read_layers conn (foreign ∷ is) = read_layers conn is
read_layers conn (packet cl ∷ is) = if accepts conn cl then (got cl, is) else read_layers conn is

abbrev pub set_numbers : RawConn → ℕ → ℕ → RawConn
set_numbers conn ackn seqn = record conn {
  layer = record (conn.layer) { tcp = record (conn.layer.tcp) { ackn = ackn; seqn = seqn } };
}

abbrev pub sent_by : RawConn → Option ConnError × Layers × Handle → Option ConnError × RawConn
sent_by conn r = (r.0, record conn { layer = r.1; handle = r.2 })

unfoldable pub send_ack : RawConn → Option ConnError × RawConn
send_ack conn = sent_by conn (send_ack_with_layer conn.layer conn.handle)

-- `write`, which does not move the sequence number.
unfoldable pub write : Bytes → RawConn → Option ConnError × RawConn
write b conn = sent_by conn (write_with_layer b conn.layer conn.handle)

-- Write; `buf` is what GetBuf returns.
unfoldable pub write_data : Bytes → Bytes → RawConn → Go Error (ℕ × Option ConnError × RawConn)
write_data buf b conn = do
  data' ← if conn.r.tls then tls_frame buf b else ok b
  let r = write data' conn
  let tcp = r.1.layer.tcp
  ok (length data', r.0, set_numbers r.1 tcp.ackn (u32 (tcp.seqn + length data')))

-- WriteTo sends to `addr` from then on.
unfoldable pub write_to : Bytes → Bytes → Addr → RawConn → Go Error (ℕ × Option ConnError × RawConn)
write_to buf b addr conn = write_data buf b (record conn {
  layer = record (conn.layer) {
    dst_ip = addr.ip;
    tcp = record (conn.layer.tcp) { dst_port = addr.port };
  };
})

-- Whether the last acknowledgement was sent less than 10 ms ago.
abbrev pub recent : Option ℕ → ℕ → Bool
recent none now = false
recent (some last) now = ltb (now - last) 10000000

-- trySendAck: the error of the send is dropped.
unfoldable pub try_send_ack : ℕ → RawConn → RawConn
try_send_ack now conn =
    if ltb conn.layer.tcp.ackn (u32 (conn.lastack + 16384)) && recent conn.lastacktime now
    then conn
    else (send_ack (record conn { lastack = conn.layer.tcp.ackn; lastacktime = some now })).1

-- What ReadFrom returns: bytes, an error, or nothing while it waits.
pub data Received : Type 0 where
  bytes : Bytes → Addr → Received
  lost : Option ConnError → Received
  waiting : Received

abbrev pub source_of : RawConn → Layers → Addr
source_of conn cl =
    if conn.connected
    then record { ip = conn.layer.dst_ip; port = conn.layer.tcp.dst_port }
    else record { ip = cl.src_ip; port = cl.tcp.src_port }

unfoldable pub acknowledge : Layers → RawConn → RawConn
acknowledge cl conn =
    let n = length cl.payload in
    if ltb conn.layer.tcp.ackn (cl.tcp.seqn + n)
    then set_numbers conn (u32 (cl.tcp.seqn + n)) conn.layer.tcp.seqn
    else conn

-- Data that are handed on are acknowledged.
unfoldable pub on_payload : ℕ → ℕ → Layers → RawConn → Option Received × RawConn
on_payload cap now cl conn =
    let acked = try_send_ack now (acknowledge cl conn) in
    if conn.r.tls
    then (if ltb (length cl.payload) 5
        then (none, acknowledge cl conn)
        else (some (bytes (take cap (drop 5 cl.payload)) (source_of conn cl)), acked))
    else (some (bytes (take cap cl.payload) (source_of conn cl)), acked)

-- One packet in ReadFrom's loop: `none` is its `continue`.
unfoldable pub on_layers : ℕ → ℕ → Layers → RawConn → Option Received × RawConn
on_layers cap now cl conn =
    let acked = send_ack conn in
    if cl.tcp.syn && cl.tcp.ack
    then (elim acked.0 [ none ↦ none | some e ↦ some (lost (some e)) ], acked.1)
    else if not cl.tcp.psh || not cl.tcp.ack || cl.tcp.seqn == conn.hseqn
    then (none, conn)
    else if length cl.payload == 0
    then (some (bytes [] (source_of conn cl)), conn)
    else on_payload cap now cl conn

unfoldable pub on_read : ℕ → ℕ → Read → RawConn → Option Received × RawConn
on_read cap now (got cl) conn = on_layers cap now cl conn
on_read cap now (failed temporary) conn = (some (lost none), conn)
on_read cap now drained conn = (some waiting, conn)

-- ReadFrom; each round takes a packet. `now i` is the time in round `i`.
unfoldable pub read_from :
    ℕ → ℕ → ℕ → (ℕ → ℕ) → RawConn → List Incoming → Go Error (Received × RawConn × List Incoming)
read_from zero i cap now conn is = stuck
read_from (suc fuel) i cap now conn is =
    let read = read_layers conn is in
    let out = on_read cap (now i) read.0 conn in
    elim out.0 [
      | some received ↦ ok (received, out.1, read.1)
      | none ↦ read_from fuel (i + 1) cap now out.1 read.1
    ]
