-- ===== src/Tcp/RoundTrip/Fixed.antt =====
-- The twenty bytes of the fixed header, there and back.
use Prim.Native.Nat.{bit_or}
use rawcon.Common.{ℕ, ◌+◌, ◌*◌, ◌/◌, ◌%◌, ◌≤◌, ◌<◌, ◌≡◌, ◌∙◌, arith, false, [], length, drop, ltb}
use rawcon.Common.Bits.{bit_or_disjoint}
use rawcon.Common.Go.{ok}
use rawcon.Common.Bytes.{Bytes, IsU16, IsU32, be16, u16, be16-bytes16, be32-bytes32}
use rawcon.Tcp.{TcpLayer}
use rawcon.Tcp.Decode.{decode_fixed}
use rawcon.Tcp.Decode.Safety.{payload_test}
use rawcon.Tcp.Marshal.{flag_word}
use rawcon.Tcp.Marshal.Layout.{header_bytes}

-- Each field within the bits that the wire has for it.
pub record InRange (tcp : TcpLayer) : Type 0 where
  pub src_port_range : IsU16 tcp.src_port
  pub dst_port_range : IsU16 tcp.dst_port
  pub seqn_range : IsU32 tcp.seqn
  pub ackn_range : IsU32 tcp.ackn
  pub reserved_range : tcp.reserved < 8
  pub ecn_range : tcp.ecn < 8
  pub flags_range : tcp.flags < 64
  pub window_range : IsU16 tcp.window
  pub urgent_range : IsU16 tcp.urgent

flag_word-sum :
    (tcp : TcpLayer) (offset : ℕ)
    → InRange tcp
    → offset < 16
    → flag_word tcp offset ≡ offset * 4096 + tcp.reserved * 512 + tcp.ecn * 64 + tcp.flags
unfolding flag_word
flag_word-sum tcp offset r h =
    let top : u16 (offset * 4096) ≡ offset * 4096 = omega arith in
    let mid : u16 (tcp.reserved * 512) ≡ tcp.reserved * 512 = omega arith in
    let low : u16 (tcp.ecn * 64) ≡ tcp.ecn * 64 = omega arith in
    let first : bit_or (offset * 4096) (tcp.reserved * 512) ≡ (offset * 8 + tcp.reserved) * 512 =
      bit_or_disjoint 12 offset (tcp.reserved * 512) (omega arith) ∙ omega arith in
    let second : bit_or ((offset * 8 + tcp.reserved) * 512) (tcp.ecn * 64)
        ≡ ((offset * 8 + tcp.reserved) * 8 + tcp.ecn) * 64 =
      bit_or_disjoint 9 (offset * 8 + tcp.reserved) (tcp.ecn * 64) (omega arith) ∙ omega arith in
    rw (top, mid, low, first, second)
      (bit_or_disjoint 6 ((offset * 8 + tcp.reserved) * 8 + tcp.ecn) tcp.flags (omega arith)
        ∙ omega arith)

-- decode_fixed of a written header gives every field back, and the bytes behind the header.
pub decode_fixed-header :
    (tcp : TcpLayer) (offset c : ℕ) (rest : Bytes)
    → InRange tcp
    → IsU16 c
    → offset < 16
    → offset * 4 ≤ length rest + 20
    → decode_fixed (header_bytes tcp offset (c / 256 % 256) (c % 256) rest)
      ≡ ok (record tcp {
        data_offset = offset;
        chksum = c;
        options = [];
        padding = [];
        payload = drop (offset * 4) (header_bytes tcp offset (c / 256 % 256) (c % 256) rest);
        buffer = [];
      })
unfolding decode_fixed
decode_fixed-header tcp offset c rest r hc ho room =
    let sum : ℕ = offset * 4096 + tcp.reserved * 512 + tcp.ecn * 64 + tcp.flags in
    let word : be16 (flag_word tcp offset / 256 % 256) (flag_word tcp offset % 256) ≡ sum =
      be16-bytes16 (flag_word tcp offset) (omega (arith, flag_word-sum tcp offset r ho))
      ∙ flag_word-sum tcp offset r ho in
    let offset_back : sum / 4096 ≡ offset = omega arith in
    let reserved_back : sum / 512 % 8 ≡ tcp.reserved = omega arith in
    let ecn_back : sum / 64 % 8 ≡ tcp.ecn = omega arith in
    let flags_back : sum % 64 ≡ tcp.flags = omega arith in
    let long : ltb ((length rest + 20) / 4) offset ≡ false = ground arith in
    let size : length (header_bytes tcp offset (c / 256 % 256) (c % 256) rest) ≡ length rest + 20 =
      omega arith in
    rw (
      word,
      offset_back,
      reserved_back,
      ecn_back,
      flags_back,
      payload_test (offset * 4) (header_bytes tcp offset (c / 256 % 256) (c % 256) rest),
      be16-bytes16 tcp.src_port r.src_port_range,
      be16-bytes16 tcp.dst_port r.dst_port_range,
      be32-bytes32 tcp.seqn r.seqn_range,
      be32-bytes32 tcp.ackn r.ackn_range,
      be16-bytes16 tcp.window r.window_range,
      be16-bytes16 c hc,
      be16-bytes16 tcp.urgent r.urgent_range,
      size,
      long,
    )
