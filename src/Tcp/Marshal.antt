-- ===== src/Tcp/Marshal.antt =====
-- raw_linux.go, tcpLayer.marshal: the segment is written into `tcp.data` where that is long enough,
-- or else into a fresh buffer.
pub mod Layout
pub mod Ends
use Prim.Native.Nat.{bit_or}
use rawcon.Common.{
  ℕ, zero, suc, ◌+◌, ◌-◌, ◌*◌, ◌/◌, ◌%◌, ◌^◌, Bool, List, [], ◌∷◌, ◌++◌, length, replicate, ltb,
  leb, ◌==◌, ◌||◌, if◌then◌else◌,
}
use rawcon.Common.Go.{Go, ok, panic, ◌>>=◌}
use rawcon.Common.Bytes.{Bytes, u8, u16, put, put16, copy_at, slice_to}
use rawcon.Tcp.{TcpOption, TcpLayer, Error, kind_end_list, kind_nop, tcp_len}
use rawcon.Tcp.Checksum.{csum}

abbrev pub is_single : ℕ → Bool
is_single kind = kind == kind_end_list || kind == kind_nop

-- The first loop: `v` is a copy there, so `v.length` stays as it was.
unfoldable pub header_len : ℕ → List TcpOption → ℕ
header_len n [] = n
header_len n (v ∷ vs) =
    header_len (if is_single v.kind then n + 1 else n + u8 (length v.content + 2)) vs

abbrev pub pad_len : ℕ → ℕ
pad_len n = (4 - n % 4) % 4

-- `PutUint32(b[i:], v)`
unfoldable pub put32 : Bytes → ℕ → ℕ → Go Error Bytes
put32 b i v = do
  b1 ← put b i (v / 16777216 % 256)
  b2 ← put b1 (suc i) (v / 65536 % 256)
  b3 ← put b2 (suc (suc i)) (v / 256 % 256)
  put b3 (suc (suc (suc i))) (v % 256)

-- `copy(b[i:j], src)`, with j the end of what `src` needs
unfoldable pub copy_within : Bytes → ℕ → Bytes → Go Error Bytes
copy_within b i src = if leb (i + length src) (length b) then ok (copy_at b i src) else panic

-- `copy(b[i:], src)`
unfoldable pub copy_from : Bytes → ℕ → Bytes → Go Error Bytes
copy_from b i src = if leb i (length b) then ok (copy_at b i src) else panic

-- Offset, reserved bits, ECN and flags in one 16-bit word.
unfoldable pub flag_word : TcpLayer → ℕ → ℕ
flag_word tcp offset =
    bit_or
      (bit_or (bit_or (u16 (offset * 2 ^ 12)) (u16 (tcp.reserved * 2 ^ 9))) (u16 (tcp.ecn * 2 ^ 6)))
      tcp.flags

unfoldable pub write_header : Bytes → TcpLayer → ℕ → Go Error Bytes
write_header b tcp offset = do
  b1 ← put16 b 0 tcp.src_port
  b2 ← put16 b1 2 tcp.dst_port
  b3 ← put32 b2 4 tcp.seqn
  b4 ← put32 b3 8 tcp.ackn
  b5 ← put16 b4 12 (flag_word tcp offset)
  b6 ← put16 b5 14 tcp.window
  put16 b6 18 tcp.urgent

unfoldable pub write_option : Bytes → ℕ → TcpOption → Go Error (Bytes × ℕ)
write_option b start v = do
  b1 ← put b start v.kind
  if is_single v.kind then ok (b1, start + 1) else do
    b2 ← put b1 (start + 1) v.length
    b3 ← copy_within b2 (start + 2) v.content
    ok (b3, start + v.length)

unfoldable pub write_options : Bytes → ℕ → List TcpOption → Go Error (Bytes × ℕ)
write_options b start [] = ok (b, start)
write_options b start (v ∷ vs) = do
  (b', start') ← write_option b start v
  write_options b' start' vs

-- `padding`, `payload` and the checksum field, once the options end at `start`.
unfoldable pub write_tail : Bytes → ℕ → Bytes → Bytes → Go Error Bytes
write_tail b start padding payload = do
  b1 ← copy_from b start padding
  b2 ← copy_from b1 (start + length padding) payload
  put16 b2 16 0

-- The segment, with the layer whose padding, offset and buffer it has changed.
unfoldable pub marshal : TcpLayer → Bytes → Bytes → Go Error (TcpLayer × Bytes)
marshal tcp srcip dstip =
    let bare = header_len tcp_len tcp.options in
    let padding = replicate (pad_len bare) 0 in
    let total = bare + length padding in
    let fits = leb (length tcp.payload + total) (length tcp.buffer) in
    let offset = u8 (total / 4) in
    do
      b1 ←
          write_header (if fits then tcp.buffer else replicate (length tcp.payload + total) 0) tcp
            offset
      (b2, start) ← write_options b1 20 tcp.options
      b3 ← write_tail b2 start padding tcp.payload
      segment ← slice_to b3 (start + length padding + length tcp.payload)
      sum ← csum segment srcip dstip
      segment' ← put16 segment 16 sum
      b4 ← put16 b3 16 sum
      ok (
        record tcp {
          data_offset = offset;
          padding = padding;
          buffer = if fits then b4 else tcp.buffer;
        },
        segment',
      )
