-- ===== src/Pcap/Client.antt =====
-- raw_other.go, RAWConn: readLayers, Write, ReadFrom, and DialRAW from its first SYN on, without Dummy.
pub mod Dial
pub mod Ends
pub mod DialEnds
pub mod Stray
mod Tests
use rawcon.Common.{
  ℕ, zero, suc, ◌+◌, Bool, true, false, not, ◌&&◌, ◌||◌, ◌==◌, Option, none, some, List, [], ◌∷◌,
  ltb, leb, length, take, drop, if◌then◌else◌,
}
use rawcon.Common.Go.{Go, ok, err, panic, stuck, ◌>>=◌}
use rawcon.Common.Bytes.{Bytes, u32}
use rawcon.Tcp.{Error}
use rawcon.Tcp.Decode.{get_mss_from_tcp_layer}
use rawcon.Conn.{Raw, Addr, ConnError, reset_by_peer, read_failed}
use rawcon.Conn.Frame.{tls_frame}
use rawcon.Client.Dial.{
  DialError, retry_too_many_times, send_failed, read_failed, Numbers, is_answer,
}
use rawcon.Client.Request.{RequestDraw, hosts_of, choose_host, request}
use rawcon.Pcap.{Layers, Handle, send_syn_with_layer, send_ack_with_layer, write_with_layer}

-- `dead`: `die` is closed.
pub record RawConn : Type 0 where
  pub r : Raw
  pub layer : Layers
  pub hseqn : ℕ  -- uint32
  pub mss : ℕ
  pub handle : Handle
  pub dead : Bool

-- What the capture gives: its timeout, another error, which may be temporary, a packet that
-- DecodeLayers refuses, or the layers of a packet.
pub data Incoming : Type 0 where
  timeout undecodable : Incoming
  read_error : Bool → Incoming
  packet : Layers → Incoming

-- What readLayers returns; `drained` is a wait for packets that do not come.
pub data Read : Type 0 where
  got : Layers → Read
  failed : Bool → Read
  eof drained : Read

-- Close, as far as later reads see it.
abbrev pub close : RawConn → RawConn
close conn = record conn { dead = true }

-- A packet that is not decoded closes the connection, and the loop goes on.
unfoldable pub read_loop : RawConn → List Incoming → Read × RawConn × List Incoming
read_loop conn [] = (drained, conn, [])
read_loop conn (timeout ∷ is) = read_loop conn is
read_loop conn (undecodable ∷ is) = read_loop (close conn) is
read_loop conn (read_error temporary ∷ is) = (failed temporary, close conn, is)
read_loop conn (packet cl ∷ is) =
    if cl.tcp.rst && conn.r.ign_rst then read_loop conn is else (got cl, conn, is)

unfoldable pub read_layers : RawConn → List Incoming → Read × RawConn × List Incoming
read_layers conn is = if conn.dead then (eof, conn, is) else read_loop conn is

abbrev pub set_numbers : RawConn → ℕ → ℕ → RawConn
set_numbers conn ackn seqn = record conn {
  layer = record (conn.layer) { tcp = record (conn.layer.tcp) { ackn = ackn; seqn = seqn } };
}

abbrev pub sent_by : RawConn → Option ConnError × Layers × Handle → Option ConnError × RawConn
sent_by conn r = (r.0, record conn { layer = r.1; handle = r.2 })

unfoldable pub send_ack : RawConn → Option ConnError × RawConn
send_ack conn = sent_by conn (send_ack_with_layer conn.layer conn.handle)

-- `write`, which does not move the sequence number.
unfoldable pub write : Bytes → RawConn → Option ConnError × RawConn
write b conn = sent_by conn (write_with_layer b conn.layer conn.handle)

-- Write; `buf` is what GetBuf returns.
unfoldable pub write_data : Bytes → Bytes → RawConn → Go Error (ℕ × Option ConnError × RawConn)
write_data buf b conn = do
  data' ← if conn.r.tls then tls_frame buf b else ok b
  let r = write data' conn
  let tcp = r.1.layer.tcp
  ok (length data', r.0, set_numbers r.1 tcp.ackn (u32 (tcp.seqn + length data')))

-- What ReadFrom returns: bytes, an error, or nothing while it waits. Of a connection that is dialled,
-- the address is that of its layer.
pub data Received : Type 0 where
  bytes : Bytes → Addr → Received
  lost : Option ConnError → Received
  waiting : Received

abbrev pub remote_addr : RawConn → Addr
remote_addr conn = record { ip = conn.layer.dst_ip; port = conn.layer.tcp.dst_port }

unfoldable pub acknowledge : Layers → RawConn → RawConn
acknowledge cl conn =
    let n = length cl.payload in
    if ltb conn.layer.tcp.ackn (cl.tcp.seqn + n)
    then set_numbers conn (u32 (cl.tcp.seqn + n)) conn.layer.tcp.seqn
    else conn

-- One packet in ReadFrom's loop: `none` is its `continue`.
unfoldable pub on_layers : ℕ → Layers → RawConn → Option Received × RawConn
on_layers cap cl conn =
    let acked = send_ack conn in
    if cl.tcp.syn && cl.tcp.ack
    then (elim acked.0 [ none ↦ none | some e ↦ some (lost (some e)) ], acked.1)
    else if not cl.tcp.psh || not cl.tcp.ack || cl.tcp.seqn == conn.hseqn
    then (none, conn)
    else if length cl.payload == 0
    then (some (bytes [] (remote_addr conn)), conn)
    else if conn.r.tls
    then (if ltb (length cl.payload) 5
        then (none, acknowledge cl conn)
        else (some (bytes (take cap (drop 5 cl.payload)) (remote_addr conn)), acknowledge cl conn))
    else (some (bytes (take cap cl.payload) (remote_addr conn)), acknowledge cl conn)

unfoldable pub on_read : ℕ → Read → RawConn → Option Received × RawConn
on_read cap (got cl) conn = on_layers cap cl conn
on_read cap (failed temporary) conn = (some (lost none), conn)
on_read cap eof conn = (some (lost none), conn)
on_read cap drained conn = (some waiting, conn)

-- ReadFrom; each round takes a packet.
unfoldable pub read_from :
    ℕ → ℕ → RawConn → List Incoming → Go Error (Received × RawConn × List Incoming)
read_from zero cap conn is = stuck
read_from (suc fuel) cap conn is =
    let read = read_layers conn is in
    let out = on_read cap read.0 read.1 in
    elim out.0 [
      | some received ↦ ok (received, out.1, read.2)
      | none ↦ read_from fuel cap out.1 read.2
    ]

-- How a loop of DialRAW ends, with the numbers that it keeps for a repeated SYN-ACK.
pub data Dialled : Type 0 where
  connected : RawConn → Numbers → List Incoming → Dialled
  given_up : DialError → RawConn → Dialled
  blocked : RawConn → Dialled

abbrev pub no_numbers : Numbers
no_numbers = record { ackn = 0; seqn = 0 }

-- The first packet that is read: the `break` stands after the test for SYN and ACK, not inside it.
unfoldable pub on_first : Layers → RawConn → List Incoming → Go Error Dialled
on_first cl conn is =
    if cl.tcp.syn && cl.tcp.ack
    then (do
      let n : Numbers = record {
        ackn = u32 (cl.tcp.seqn + 1);
        seqn = u32 (conn.layer.tcp.seqn + 1);
      }
      mss ← get_mss_from_tcp_layer cl.tcp.options
      let r = send_ack (record (set_numbers conn n.ackn n.seqn) { mss = mss })
      ok (elim r.0 [ none ↦ connected r.1 n is | some e ↦ given_up (send_failed e) r.1 ]))
    else ok (connected conn no_numbers is)

unfoldable pub syn_loop : ℕ → ℕ → RawConn → List Incoming → Go Error Dialled
syn_loop zero retry conn is = stuck
syn_loop (suc fuel) retry conn is =
    let r = sent_by conn (send_syn_with_layer conn.layer conn.handle) in
    let read = read_layers r.1 is in
    let again = syn_loop fuel (retry + 1) read.1 read.2 in
    if ltb 5 retry then ok (given_up retry_too_many_times conn) else elim r.0 [
      | some e ↦ ok (given_up (send_failed e) r.1)
      | none ↦ elim read.0 [
        | got cl ↦ on_first cl read.1 read.2
        | failed temporary ↦ if temporary then again else ok (given_up read_failed read.1)
        | eof ↦ ok (given_up read_failed read.1)
        | drained ↦ ok (blocked read.1)
      ]
    ]
