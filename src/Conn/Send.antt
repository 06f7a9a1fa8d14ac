-- ===== src/Conn/Send.antt =====
-- raw_linux.go: updateTCP, sendPacketWithLayer and the functions that send one kind of packet. Each
-- returns the error, the layer as it is afterwards, and the socket.
pub mod Segment
pub mod Handshake
use rawcon.Common.{ℕ, Bool, true, false, Option, none, some, List, [], ◌∷◌, ◌++◌, ◌+◌}
use rawcon.Common.Go.{Go, ok, ◌>>=◌}
use rawcon.Common.Bytes.{Bytes}
use rawcon.Tcp.{
  TcpOption, Error, kind_mss, kind_window_scale, kind_sack_permitted, fin, syn, rst, psh, ack,
  set_flag,
}
use rawcon.Tcp.Marshal.{marshal}
use rawcon.Conn.{PktLayers, ConnError, write_failed, Socket}

abbrev pub Sent : Type 0
Sent = Go Error (Option ConnError × PktLayers × Socket)

unfoldable pub update_tcp : PktLayers → PktLayers
update_tcp layer = record layer {
  tcp = record (layer.tcp) { flags = 0; ecn = 0; reserved = 0; chksum = 0; payload = [] };
}

-- One write to the socket: it takes the packet, or fails.
unfoldable pub write_socket : Bytes → Bytes → List Bool → Socket → Option ConnError × Socket
write_socket dstip segment [] s = (none, record s { sent = s.sent ++ ((dstip, segment) ∷ []) })
write_socket dstip segment (false ∷ rest) s =
    (none, record s { sent = s.sent ++ ((dstip, segment) ∷ []); faults = rest })
write_socket dstip segment (true ∷ rest) s = (some write_failed, record s { faults = rest })

unfoldable pub send_packet_with_layer : PktLayers → Socket → Sent
send_packet_with_layer layer s = do
  (tcp, segment) ← marshal layer.tcp layer.srcip layer.dstip
  let r = write_socket layer.dstip segment s.faults s
  ok (r.0, record layer { tcp = tcp }, r.1)

-- The three options of a SYN: a segment size of 1460, a window scale of 5, SACK permitted.
abbrev pub syn_options : List TcpOption
syn_options =
    record { kind = kind_mss; length = 4; content = 0x05 ∷ 0xb4 ∷ [] }
    ∷ record { kind = kind_window_scale; length = 3; content = 0x05 ∷ [] }
    ∷ record { kind = kind_sack_permitted; length = 2; content = [] }
    ∷ []

abbrev flagged : ℕ → PktLayers → PktLayers
flagged flag layer = record layer { tcp = set_flag (layer.tcp) flag }

-- `defer` puts the layer's own options back.
unfoldable pub send_with_syn_options : ℕ → PktLayers → Socket → Sent
unfolding update_tcp
send_with_syn_options flag layer s = do
  let l = flagged flag (update_tcp layer)
  let options = layer.tcp.options
  r ←
      send_packet_with_layer
        (record l { tcp = record (l.tcp) { options = options ++ syn_options } }) s
  let sent = r.1
  ok (r.0, record sent { tcp = record (sent.tcp) { options = options } }, r.2)

unfoldable pub send_syn_with_layer : PktLayers → Socket → Sent
unfolding send_with_syn_options
send_syn_with_layer = send_with_syn_options syn

unfoldable pub send_syn_ack_with_layer : PktLayers → Socket → Sent
unfolding send_with_syn_options
send_syn_ack_with_layer = send_with_syn_options (syn + ack)

unfoldable pub send_ack_with_layer : PktLayers → Socket → Sent
send_ack_with_layer layer s = send_packet_with_layer (flagged ack (update_tcp layer)) s

unfoldable pub send_fin_with_layer : PktLayers → Socket → Sent
send_fin_with_layer layer s = send_packet_with_layer (flagged fin (update_tcp layer)) s

unfoldable pub send_rst_with_layer : PktLayers → Socket → Sent
send_rst_with_layer layer s = send_packet_with_layer (flagged rst (update_tcp layer)) s

-- The number of bytes is `len(b)` whatever the error.
unfoldable pub write_with_layer : Bytes → PktLayers → Socket → Sent
write_with_layer b layer s =
    let l = flagged (psh + ack) (update_tcp layer) in
    send_packet_with_layer (record l { tcp = record (l.tcp) { payload = b } }) s
