-- ===== src/Conn/Send/Handshake.antt =====
-- raw_linux.go, sendSynWithLayer, sendSynAckWithLayer and sendAckWithLayer: the packets
-- that go out, as decodeTCPlayer reads them.
use Prim.Native.Nat.{bit_or}
use rawcon.Common.{ℕ, ◌≡◌, ◌<◌, ◌≤◌, refl, ◌∙◌, arith, List, none, [], ◌++◌, All, replicate, length}
use rawcon.Common.Go.{ok, ◌>>=◌}
use rawcon.Common.Bytes.{Bytes}
use rawcon.Tcp.{TcpLayer, TcpOption, ack, set_flag}
use rawcon.Tcp.Decode.{decode_tcp_layer, get_mss_from_tcp_layer}
use rawcon.Tcp.Decode.Options.{IsWire, end_marker}
use rawcon.Tcp.Marshal.Layout.{encode_option, encode_options}
use rawcon.Tcp.RoundTrip.{received, marshalled}
use rawcon.Conn.{PktLayers, Socket}
use rawcon.Conn.Send.{
  update_tcp, send_packet_with_layer, syn_options, send_with_syn_options, send_ack_with_layer,
}
use rawcon.Conn.Send.Segment.{IsReady, refit-IsReady, with_sent, send_packet-decoded}

-- The layer as it is sent.
abbrev pub flagged_as : ℕ → List TcpOption → TcpLayer → TcpLayer
flagged_as flag options tcp = record tcp {
  flags = flag;
  ecn = 0;
  reserved = 0;
  chksum = 0;
  options = options;
  payload = [];
}

abbrev pub send_as : ℕ → List TcpOption → PktLayers → PktLayers
send_as flag options layer = record layer { tcp = flagged_as flag options layer.tcp }

syn_options-IsWire : All IsWire syn_options
syn_options-IsWire = (
  record { no_end = λ e. omega arith; bare = λ e. cc; sized = λ _. (refl, omega arith) },
  (
    record { no_end = λ e. omega arith; bare = λ e. cc; sized = λ _. (refl, omega arith) },
    (record { no_end = λ e. omega arith; bare = λ e. cc; sized = λ _. (refl, omega arith) }, tt),
  ),
)

-- With options that fit, a layer that is ready stays so whatever its flags are.
send_as-IsReady :
    (flag : ℕ) (options : List TcpOption) (layer : PktLayers)
    → flag < 64
    → All IsWire options
    → length (encode_options options) ≤ 40
    → IsReady layer
    → IsReady (send_as flag options layer)
send_as-IsReady flag options layer small wire short ready =
    refit-IsReady layer layer.tcp.seqn layer.tcp.ackn layer.tcp.data_offset flag 0 options
      layer.tcp.padding [] layer.tcp.buffer ready ready.fits.range.seqn_range
      ready.fits.range.ackn_range small wire short

-- A layer without options of its own, after the packet with those of a SYN.
abbrev pub after_syn : ℕ → PktLayers → Bytes → PktLayers
after_syn flag layer b = record layer {
  tcp = record (marshalled (flagged_as flag syn_options layer.tcp) b) { options = [] };
}

send_with_syn_options_lem :
    (flag : ℕ) (layer : PktLayers) (s : Socket)
    → bit_or 0 flag ≡ flag
    → layer.tcp.options ≡ []
    → send_with_syn_options flag layer s ≡ (
        send_packet_with_layer (send_as flag syn_options layer) s >>= λ r.
        ok (r.0, record (r.1) { tcp = record (r.1.tcp) { options = [] } }, r.2))
unfolding send_with_syn_options update_tcp set_flag
send_with_syn_options_lem flag layer s same bare = rw (same, bare) refl

send_ack_lem :
    (layer : PktLayers) (s : Socket)
    → layer.tcp.options ≡ []
    → send_ack_with_layer layer s ≡ send_packet_with_layer (send_as ack [] layer) s
unfolding send_ack_with_layer update_tcp set_flag
send_ack_lem layer s bare = rw bare refl

pub send_with_syn_options-decoded :
    (flag : ℕ) (layer : PktLayers) (s : Socket)
    → bit_or 0 flag ≡ flag
    → flag < 64
    → layer.tcp.options ≡ []
    → IsReady layer
    → s.faults ≡ []
    → (b segment : Bytes) × (c : ℕ) × (send_with_syn_options flag layer s
        ≡ ok (none, after_syn flag layer b, with_sent s layer.dstip segment))
      × (decode_tcp_layer segment ≡ ok (received (flagged_as flag syn_options layer.tcp) c))
unfolding encode_options encode_option
send_with_syn_options-decoded flag layer s same small bare ready calm =
    let (b, segment, c, sent, read) =
      send_packet-decoded (send_as flag syn_options layer) s
        (send_as-IsReady flag syn_options layer small syn_options-IsWire (omega arith) ready)
        calm in
    (b, segment, c, send_with_syn_options_lem flag layer s same bare ∙ rw sent refl, read)

pub send_ack-decoded :
    (layer : PktLayers) (s : Socket)
    → layer.tcp.options ≡ []
    → IsReady layer
    → s.faults ≡ []
    → (b segment : Bytes) × (c : ℕ) × (send_ack_with_layer layer s
        ≡ ok (
          none,
          record layer { tcp = marshalled (flagged_as ack [] layer.tcp) b },
          with_sent s layer.dstip segment,
        ))
      × (decode_tcp_layer segment ≡ ok (received (flagged_as ack [] layer.tcp) c))
unfolding encode_options
send_ack-decoded layer s bare ready calm =
    let (b, segment, c, sent, read) =
      send_packet-decoded (send_as ack [] layer) s
        (send_as-IsReady ack [] layer (omega arith) tt (omega arith) ready) calm in
    (b, segment, c, send_ack_lem layer s bare ∙ sent, read)

-- The segment size that a SYN announces.
pub get_mss-syn_options :
    (n : ℕ) → get_mss_from_tcp_layer (syn_options ++ replicate n end_marker) ≡ ok 1460
unfolding get_mss_from_tcp_layer
get_mss-syn_options n = refl
