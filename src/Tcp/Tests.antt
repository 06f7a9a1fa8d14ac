-- ===== src/Tcp/Tests.antt =====
-- raw_linux.go, the TCP layer: a SYN with the options that sendSyn adds, and shorter packets.
use rawcon.Common.{
  ℕ, ◌≡◌, ◌≢◌, refl, arith, ◌++◌, ◌≤◌, ◌<◌, ◌*◌, some, [], ◌∷◌, replicate, length, drop, All,
}
use rawcon.Common.Go.{ok, panic, stuck}
use rawcon.Common.Bytes.{Bytes}
use rawcon.Tcp.{TcpLayer}
use rawcon.Tcp.Checksum.{to4, csum, csum_of}
use rawcon.Tcp.Decode.{decode_tcp_layer, decode_options, decode_fixed}
use rawcon.Tcp.Decode.Options.{IsWire}
use rawcon.Tcp.Decode.Safety.{
  decode-ne-stuck, decode-short_offset, decode-ok_bounds, decode_options-lone_panics,
}
use rawcon.Tcp.Marshal.{marshal}
use rawcon.Tcp.Marshal.Layout.{
  IsSized, encode_option, encode_options, segment, padding_of, offset_of, marshal_layout,
}
use rawcon.Tcp.RoundTrip.{FitsWire, received, decode-marshal, csum-marshal}

abbrev local_ip : Bytes
local_ip = 10 ∷ 0 ∷ 0 ∷ 1 ∷ []

abbrev remote_ip : Bytes
remote_ip = 10 ∷ 0 ∷ 0 ∷ 2 ∷ []

local_ip-to4 : to4 local_ip ≡ some local_ip
unfolding to4
local_ip-to4 = refl

remote_ip-to4 : to4 remote_ip ≡ some remote_ip
unfolding to4
remote_ip-to4 = refl

abbrev syn_packet : TcpLayer
syn_packet = record {
  src_port = 4000;
  dst_port = 443;
  seqn = 77;
  ackn = 0;
  data_offset = 0;
  reserved = 0;
  ecn = 0;
  flags = 2;
  window = 12580;
  chksum = 0;
  urgent = 0;
  options =
      record { kind = 2; length = 4; content = 5 ∷ 180 ∷ [] }
      ∷ record { kind = 3; length = 3; content = 5 ∷ [] }
      ∷ record { kind = 4; length = 2; content = [] }
      ∷ [];
  padding = [];
  payload = 1 ∷ 2 ∷ 3 ∷ [];
  buffer = [];
}

syn_packet-IsSized : All IsSized syn_packet.options
syn_packet-IsSized =
    ((λ _. (refl, omega arith)), ((λ _. (refl, omega arith)), ((λ _. (refl, omega arith)), tt)))

syn_packet-IsWire : All IsWire syn_packet.options
syn_packet-IsWire = (
  record { no_end = λ e. omega arith; bare = λ e. cc; sized = syn_packet-IsSized.0 },
  (
    record { no_end = λ e. omega arith; bare = λ e. cc; sized = syn_packet-IsSized.1.0 },
    (record { no_end = λ e. omega arith; bare = λ e. cc; sized = syn_packet-IsSized.1.1.0 }, tt),
  ),
)

syn_packet-FitsWire : FitsWire syn_packet
unfolding encode_options encode_option
syn_packet-FitsWire = record {
  range = record {
    src_port_range = omega arith;
    dst_port_range = omega arith;
    seqn_range = omega arith;
    ackn_range = omega arith;
    reserved_range = omega arith;
    ecn_range = omega arith;
    flags_range = omega arith;
    window_range = omega arith;
    urgent_range = omega arith;
  };
  wire = syn_packet-IsWire;
  short = omega arith;
}

decode-marshal_example :
    (out : TcpLayer) × (data' : Bytes) × (c : ℕ) × (marshal syn_packet local_ip remote_ip
      ≡ ok (out, data'))
    × (decode_tcp_layer data' ≡ ok (received syn_packet c))
decode-marshal_example =
    decode-marshal syn_packet local_ip remote_ip local_ip remote_ip syn_packet-FitsWire local_ip-to4
      remote_ip-to4

decode-ne-stuck_example : decode_tcp_layer (replicate 20 80) ≢ stuck
decode-ne-stuck_example = decode-ne-stuck (replicate 20 80)

decode-short_offset_example : decode_tcp_layer (replicate 12 0 ++ (64 ∷ 2 ∷ replicate 6 0)) ≡ panic
decode-short_offset_example =
    decode-short_offset (replicate 12 0) 64 2 (replicate 6 0) refl (omega arith) (omega arith)
      (omega arith)

abbrev bare_packet : Bytes
bare_packet = 15 ∷ 160 ∷ 1 ∷ 187 ∷ replicate 8 0 ++ (80 ∷ 24 ∷ replicate 6 0 ++ (1 ∷ 2 ∷ 3 ∷ []))

abbrev bare_layer : TcpLayer
bare_layer = record syn_packet { seqn = 0; data_offset = 5; flags = 24; window = 0; options = [] }

bare_packet-decoded : decode_tcp_layer bare_packet ≡ ok bare_layer
unfolding decode_tcp_layer decode_fixed
bare_packet-decoded = refl

decode-ok_bounds_example :
    (20 ≤ length bare_packet)
    × (5 ≤ bare_layer.data_offset)
    × (bare_layer.data_offset * 4 ≤ length bare_packet)
    × (bare_layer.payload ≡ drop (bare_layer.data_offset * 4) bare_packet)
    × (bare_layer.flags < 64)
decode-ok_bounds_example = decode-ok_bounds bare_packet bare_layer bare_packet-decoded

decode_options-lone_panics_example :
    let d = encode_options syn_packet.options ++ (8 ∷ []) in
    decode_options (length d) d [] [] ≡ panic
decode_options-lone_panics_example =
    decode_options-lone_panics syn_packet.options 8 syn_packet-IsWire refl

abbrev zero_summed : Bytes
zero_summed = segment syn_packet (offset_of syn_packet) (padding_of syn_packet) 0

marshal_layout_example :
    (b : Bytes) × (marshal syn_packet local_ip remote_ip
      ≡ ok (
        record syn_packet {
          data_offset = offset_of syn_packet;
          padding = padding_of syn_packet;
          buffer = b;
        },
        segment syn_packet
            (offset_of syn_packet)
            (padding_of syn_packet)
            (csum_of zero_summed local_ip remote_ip),
      ))
marshal_layout_example =
    marshal_layout syn_packet syn_packet-IsSized local_ip remote_ip local_ip remote_ip local_ip-to4
      remote_ip-to4

csum-marshal_example :
    (out : TcpLayer) × (data' : Bytes) × (marshal syn_packet local_ip remote_ip ≡ ok (out, data'))
    × (csum data' local_ip remote_ip ≡ ok 0)
unfolding encode_options encode_option
csum-marshal_example =
    csum-marshal syn_packet local_ip remote_ip local_ip remote_ip syn_packet-IsSized local_ip-to4
      remote_ip-to4 (omega arith, omega arith) (omega arith, omega arith) (omega arith)
