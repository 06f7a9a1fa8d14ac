-- ===== src/Pcap.antt =====
-- raw_other.go: the layers that the connections on other systems hand to gopacket and get from it, and
-- the functions that send one kind of packet. gopacket writes and reads the bytes, and pcap carries
-- them: what is sent is the layers that SerializeLayers is given, and a send may fail.
pub mod Listener
pub mod Client
use rawcon.Common.{
  ℕ, Bool, true, false, Option, none, some, List, [], ◌∷◌, ◌++◌, ◌+◌, if◌then◌else◌,
}
use rawcon.Common.Bytes.{Bytes, u16}
use rawcon.Tcp.{TcpOption, kind_mss, kind_window_scale, kind_sack_permitted}
use rawcon.Conn.{ConnError, write_failed, State}

-- Of `layers.TCP`, the fields that the source reads or writes.
pub record TcpHeader : Type 0 where
  pub src_port : ℕ
  pub dst_port : ℕ
  pub seqn : ℕ  -- uint32
  pub ackn : ℕ  -- uint32
  pub window : ℕ
  pub syn : Bool
  pub ack : Bool
  pub psh : Bool
  pub fin : Bool
  pub rst : Bool
  pub options : List TcpOption
  pub padding : Bytes

pub record Ethernet : Type 0 where
  pub src_mac : Bytes
  pub dst_mac : Bytes
  pub ethernet_type : ℕ

-- `pktLayers`, with the addresses and the counter of its IPv4 header; the other fields of that header
-- are constant.
pub record Layers : Type 0 where
  pub eth : Option Ethernet
  pub src_ip : Bytes
  pub dst_ip : Bytes
  pub id : ℕ  -- uint16
  pub tcp : TcpHeader
  pub payload : Bytes

pub record ConnInfo : Type 0 where
  pub state : State
  pub layer : Layers
  pub rep : Option Bytes
  pub hseqn : ℕ  -- uint32
  pub mss : ℕ
  pub tls : Bool

-- What has been sent, and which of the sends to come will fail.
pub record Handle : Type 0 where
  pub sent : List Layers
  pub faults : List Bool

abbrev pub Sent : Type 0
Sent = Option ConnError × Layers × Handle

unfoldable pub update_tcp : Layers → Layers
update_tcp layer = record layer {
  tcp = record (layer.tcp) {
    padding = [];
    fin = false;
    psh = false;
    ack = false;
    rst = false;
    syn = false;
  };
}

-- The counter of the IPv4 header moves on with each packet.
unfoldable pub send_packet_with_layer : Layers → Handle → Sent
send_packet_with_layer layer h =
    let next = record layer { id = u16 (layer.id + 1) } in
    elim h.faults [
      | [] ↦ (none, next, record h { sent = h.sent ++ (next ∷ []) })
      | fault ∷ faults ↦
          if fault
          then (some write_failed, next, record h { faults = faults })
          else (none, next, record h { sent = h.sent ++ (next ∷ []); faults = faults })
    ]

abbrev pub syn_options : List TcpOption
syn_options =
    record { kind = kind_mss; length = 4; content = 0x05 ∷ 0xb4 ∷ [] }
    ∷ record { kind = kind_window_scale; length = 3; content = 0x06 ∷ [] }
    ∷ record { kind = kind_sack_permitted; length = 2; content = [] }
    ∷ []

-- `defer` puts the layer's own options back.
abbrev pub with_syn_options : Layers → Handle → Sent
with_syn_options layer h =
    let options = layer.tcp.options in
    let r =
      send_packet_with_layer
        (record layer { tcp = record (layer.tcp) { options = options ++ syn_options } }) h in
    (r.0, record (r.1) { tcp = record (r.1.tcp) { options = options } }, r.2)

unfoldable pub send_syn_with_layer : Layers → Handle → Sent
send_syn_with_layer layer h =
    let l = update_tcp layer in
    with_syn_options (record l { tcp = record (l.tcp) { syn = true } }) h

unfoldable pub send_syn_ack_with_layer : Layers → Handle → Sent
send_syn_ack_with_layer layer h =
    let l = update_tcp layer in
    with_syn_options (record l { tcp = record (l.tcp) { syn = true; ack = true } }) h

unfoldable pub send_ack_with_layer : Layers → Handle → Sent
send_ack_with_layer layer h =
    let l = update_tcp layer in
    send_packet_with_layer (record l { tcp = record (l.tcp) { ack = true } }) h

unfoldable pub send_fin_with_layer : Layers → Handle → Sent
send_fin_with_layer layer h =
    let l = update_tcp layer in
    send_packet_with_layer (record l { tcp = record (l.tcp) { fin = true } }) h

-- `defer` clears the payload; the number of bytes is `len(b)` whatever the error.
unfoldable pub write_with_layer : Bytes → Layers → Handle → Sent
write_with_layer b layer h =
    let l = update_tcp layer in
    let r =
      send_packet_with_layer
        (record l { tcp = record (l.tcp) { psh = true; ack = true }; payload = b }) h in
    (r.0, record (r.1) { payload = [] }, r.2)
