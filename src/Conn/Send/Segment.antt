-- ===== src/Conn/Send/Segment.antt =====
-- raw_linux.go, writeWithLayer: the packet that goes out, as decodeTCPlayer reads it.
use rawcon.Common.{
  List, length, ◌<◌, ◌≤◌, All, ℕ, ◌≡◌, refl, ap, arith, false, none, some, [], ◌∷◌, ◌++◌, ◌||◌,
}
use rawcon.Common.Go.{ok}
use rawcon.Common.Bytes.{Bytes, IsU32}
use rawcon.Tcp.Decode.Options.{IsWire}
use rawcon.Tcp.Marshal.Layout.{encode_options, offset_of, padding_of}
use rawcon.Tcp.{TcpLayer, TcpOption, fin, rst, set_flag, chk_flag}
use rawcon.Tcp.Checksum.{to4}
use rawcon.Tcp.Decode.{decode_tcp_layer}
use rawcon.Tcp.RoundTrip.{FitsWire, received, marshalled, marshal-received}
use rawcon.Conn.{PktLayers, Socket}
use rawcon.Conn.Send.{update_tcp, write_socket, send_packet_with_layer, write_with_layer}

-- The layer as it is written.
abbrev pub loaded : Bytes → TcpLayer → TcpLayer
loaded b tcp = record tcp { flags = 24; ecn = 0; reserved = 0; chksum = 0; payload = b }

-- A layer whose addresses are of IPv4 and whose fields fit the wire.
pub record IsReady (layer : PktLayers) : Type 0 where
  pub fits : FitsWire layer.tcp
  pub from_ip : Bytes
  pub to_ip : Bytes
  pub from_ip4 : to4 layer.srcip ≡ some from_ip
  pub to_ip4 : to4 layer.dstip ≡ some to_ip

-- The fields of a layer that change while its connection is up.
abbrev pub refit : TcpLayer → ℕ → ℕ → ℕ → ℕ → ℕ → List TcpOption → Bytes → Bytes → Bytes → TcpLayer
refit tcp seqn ackn data_offset flags chksum options padding payload buffer = record tcp {
  seqn = seqn;
  ackn = ackn;
  data_offset = data_offset;
  reserved = 0;
  ecn = 0;
  flags = flags;
  chksum = chksum;
  options = options;
  padding = padding;
  payload = payload;
  buffer = buffer;
}

pub refit-IsReady :
    (layer : PktLayers) (seqn ackn data_offset flags chksum : ℕ) (options : List TcpOption)
    (padding payload buffer : Bytes)
    → IsReady layer
    → IsU32 seqn
    → IsU32 ackn
    → flags < 64
    → All IsWire options
    → length (encode_options options) ≤ 40
    → IsReady (record layer {
      tcp = refit layer.tcp seqn ackn data_offset flags chksum options padding payload buffer;
    })
refit-IsReady layer seqn ackn data_offset flags chksum options padding payload buffer ready hs ha hf
      wire short =
    record {
      fits = record {
        range = record {
          src_port_range = ready.fits.range.src_port_range;
          dst_port_range = ready.fits.range.dst_port_range;
          seqn_range = hs;
          ackn_range = ha;
          reserved_range = omega arith;
          ecn_range = omega arith;
          flags_range = hf;
          window_range = ready.fits.range.window_range;
          urgent_range = ready.fits.range.urgent_range;
        };
        wire = wire;
        short = short;
      };
      from_ip = ready.from_ip;
      to_ip = ready.to_ip;
      from_ip4 = ready.from_ip4;
      to_ip4 = ready.to_ip4;
    }

-- Other numbers of its own leave a layer ready.
pub numbered-IsReady :
    (layer : PktLayers) (seqn ackn : ℕ)
    → IsReady layer
    → IsU32 seqn
    → IsU32 ackn
    → IsReady (record layer { tcp = record (layer.tcp) { seqn = seqn; ackn = ackn } })
numbered-IsReady layer seqn ackn ready hs ha = record {
  fits = record {
    range = record {
      src_port_range = ready.fits.range.src_port_range;
      dst_port_range = ready.fits.range.dst_port_range;
      seqn_range = hs;
      ackn_range = ha;
      reserved_range = ready.fits.range.reserved_range;
      ecn_range = ready.fits.range.ecn_range;
      flags_range = ready.fits.range.flags_range;
      window_range = ready.fits.range.window_range;
      urgent_range = ready.fits.range.urgent_range;
    };
    wire = ready.fits.wire;
    short = ready.fits.short;
  };
  from_ip = ready.from_ip;
  to_ip = ready.to_ip;
  from_ip4 = ready.from_ip4;
  to_ip4 = ready.to_ip4;
}

abbrev pub with_sent : Socket → Bytes → Bytes → Socket
with_sent s dstip segment = record s { sent = s.sent ++ ((dstip, segment) ∷ []) }

-- One packet that the socket takes.
pub send_packet-decoded :
    (layer : PktLayers) (s : Socket)
    → IsReady layer
    → s.faults ≡ []
    → (b segment : Bytes) × (c : ℕ) × (send_packet_with_layer layer s
        ≡ ok (none, record layer { tcp = marshalled layer.tcp b }, with_sent s layer.dstip segment))
      × (decode_tcp_layer segment ≡ ok (received layer.tcp c))
unfolding send_packet_with_layer write_socket
send_packet-decoded layer s ready calm =
    let (b, segment, c, written, read) =
      marshal-received layer.tcp layer.srcip layer.dstip ready.from_ip ready.to_ip ready.fits
        ready.from_ip4 ready.to_ip4 in
    let taken : write_socket layer.dstip segment s.faults s
        ≡ (none, with_sent s layer.dstip segment) =
      ap (λ f. write_socket layer.dstip segment f s) calm in
    (b, segment, c, rw (written, taken) refl, read)

pub write_with_layer-decoded :
    (b : Bytes) (layer : PktLayers) (s : Socket)
    → IsReady layer
    → s.faults ≡ []
    → (buffer segment : Bytes) × (c : ℕ) × (write_with_layer b layer s
        ≡ ok (
          none,
          record layer { tcp = marshalled (loaded b layer.tcp) buffer },
          with_sent s layer.dstip segment,
        ))
      × (decode_tcp_layer segment ≡ ok (received (loaded b layer.tcp) c))
unfolding write_with_layer update_tcp set_flag
write_with_layer-decoded b layer s ready calm =
    send_packet-decoded (record layer { tcp = loaded b layer.tcp }) s
      (refit-IsReady layer layer.tcp.seqn layer.tcp.ackn layer.tcp.data_offset 24 0
        layer.tcp.options layer.tcp.padding b layer.tcp.buffer ready ready.fits.range.seqn_range
        ready.fits.range.ackn_range (omega arith) ready.fits.wire ready.fits.short)
      calm

-- The layer afterwards is ready again.
pub marshalled-IsReady :
    (b buffer : Bytes) (layer : PktLayers)
    → IsReady layer
    → IsReady (record layer { tcp = marshalled (loaded b layer.tcp) buffer })
marshalled-IsReady b buffer layer ready =
    refit-IsReady layer layer.tcp.seqn layer.tcp.ackn (offset_of (loaded b layer.tcp)) 24 0
      layer.tcp.options (padding_of (loaded b layer.tcp)) b buffer ready ready.fits.range.seqn_range
      ready.fits.range.ackn_range (omega arith) ready.fits.wire ready.fits.short

-- What has PSH and ACK only resets and ends nothing.
pub loaded-calm :
    (b : Bytes) (tcp : TcpLayer) (c : ℕ)
    → let t = received (loaded b tcp) c in (chk_flag t rst || chk_flag t fin) ≡ false
unfolding chk_flag
loaded-calm b tcp c = refl
