-- ===== src/Tcp/Marshal/Layout.antt =====
-- raw_linux.go, tcpLayer.marshal: what the segment is, byte by byte.
pub mod Options
use rawcon.Common.{
  ℕ, zero, ◌+◌, ◌/◌, ◌%◌, ◌≤◌, ◌≡◌, refl, arith, Bool, some, [], ◌++◌, append_assoc, length,
  length-append, drop, length-drop, replicate, length-replicate, All, if◌then◌else◌, leb,
}
use rawcon.Common.Go.{ok}
use rawcon.Common.Bytes.{Bytes, u8, bytes16, bytes32, put16, slice_to, slice_to_append}
use rawcon.Tcp.{TcpLayer, Error, tcp_len}
use rawcon.Tcp.Checksum.{csum_of, to4}
use rawcon.Tcp.Checksum.Verify.{csum-eq}
use rawcon.Tcp.Marshal.{header_len, pad_len, flag_word, write_tail, marshal}
unfoldable pub use rawcon.Tcp.Marshal.Layout.Options.{encode_option, encode_options}
pub use rawcon.Tcp.Marshal.Layout.Options.{IsSized, header_len-encode, header_bytes}
use rawcon.Tcp.Marshal.Layout.Options.{write_header_lem, copy_from_lem, write_options_lem}

-- The segment of a layer around its checksum `c`, padded by `pad` zero bytes.
unfoldable pub segment : TcpLayer → ℕ → Bytes → ℕ → Bytes
segment tcp offset padding c =
    bytes16 tcp.src_port
    ++ (bytes16 tcp.dst_port
        ++ (bytes32 tcp.seqn
            ++ (bytes32 tcp.ackn
                ++ (bytes16 (flag_word tcp offset)
                    ++ (bytes16 tcp.window
                        ++ (bytes16 c
                            ++ (bytes16 tcp.urgent
                                ++ (encode_options tcp.options ++ (padding ++ tcp.payload)))))))))

put16_checksum :
    (tcp : TcpLayer) (offset x y c : ℕ) (rest : Bytes)
    → put16 {E = Error} (header_bytes tcp offset x y rest) 16 c
      ≡ ok (header_bytes tcp offset (c / 256 % 256) (c % 256) rest)
unfolding put16
put16_checksum tcp offset x y c rest = refl

write_tail_lem :
    (tcp : TcpLayer) (offset x y : ℕ) (opts padding payload b : Bytes)
    → length padding + length payload ≤ length b
    → write_tail
        (header_bytes tcp offset x y opts ++ b)
        (length (header_bytes tcp offset x y opts))
        padding
        payload
      ≡ ok (
          header_bytes tcp offset 0 0
            (opts ++ (padding ++ (payload ++ drop (length payload) (drop (length padding) b)))))
unfolding write_tail
write_tail_lem tcp offset x y opts padding payload b h =
    let front : Bytes = header_bytes tcp offset x y opts in
    rw
      (
        copy_from_lem front b padding (omega arith),
        ← append_assoc front padding (drop (length padding) b),
        ← length-append front padding,
        copy_from_lem (front ++ padding) (drop (length padding) b) payload
            (omega (arith, length-drop (length padding) b)),
        append_assoc front padding,
      )
      (put16_checksum tcp offset x y 0
        (opts ++ (padding ++ (payload ++ drop (length payload) (drop (length padding) b)))))

-- What `marshal` works out before it writes.
abbrev bare_len : TcpLayer → ℕ
bare_len tcp = header_len tcp_len tcp.options

abbrev pub padding_of : TcpLayer → Bytes
padding_of tcp = replicate (pad_len (bare_len tcp)) 0

pub length-padding_of :
    (tcp : TcpLayer) → length (padding_of tcp) ≡ pad_len (header_len tcp_len tcp.options)
length-padding_of tcp = length-replicate (pad_len (header_len tcp_len tcp.options)) 0

abbrev pub offset_of : TcpLayer → ℕ
offset_of tcp = u8 ((bare_len tcp + length (padding_of tcp)) / 4)

slice_segment :
    (tcp : TcpLayer) (offset x y : ℕ) (opts padding payload z : Bytes)
    → slice_to {E = Error}
        (header_bytes tcp offset x y (opts ++ (padding ++ (payload ++ z))))
        (length (header_bytes tcp offset x y opts) + length padding + length payload)
      ≡ ok (header_bytes tcp offset x y (opts ++ (padding ++ payload)))
slice_segment tcp offset x y opts padding payload z =
    let whole : Bytes = header_bytes tcp offset x y (opts ++ (padding ++ payload)) in
    let size : length (header_bytes tcp offset x y opts) + length padding + length payload
        ≡ length whole =
      omega (arith, length-append opts (padding ++ payload), length-append padding payload) in
    rw (size, ← append_assoc padding payload z, ← append_assoc opts (padding ++ payload) z)
      (slice_to_append whole z)

module _ (tcp : TcpLayer) (sized : All IsSized tcp.options) where
  fits : Bool
  fits = leb (length tcp.payload + (bare_len tcp + length (padding_of tcp))) (length tcp.buffer)

  start : Bytes
  start =
      if fits
      then tcp.buffer
      else replicate (length tcp.payload + (bare_len tcp + length (padding_of tcp))) 0

  -- Either buffer has room for the segment.
  room :
      length tcp.payload + (20 + length (encode_options tcp.options) + length (padding_of tcp))
      ≤ length start
  unfolding start fits
  room = ground (
    arith,
    header_len-encode tcp_len tcp.options sized,
    length-replicate {A = ℕ} (length tcp.payload + (bare_len tcp + length (padding_of tcp))) 0,
  )

  -- With sized options and between two IPv4 addresses `marshal` does not panic, and what it returns is the
  -- segment around the checksum of the segment with a zero field, whatever `tcp.data` held before.
  pub marshal_layout :
      (srcip dstip s d : Bytes)
      → to4 srcip ≡ some s
      → to4 dstip ≡ some d
      → (b : Bytes) × (marshal tcp srcip dstip
          ≡ ok (
            record tcp { data_offset = offset_of tcp; padding = padding_of tcp; buffer = b },
            segment tcp
                (offset_of tcp)
                (padding_of tcp)
                (csum_of (segment tcp (offset_of tcp) (padding_of tcp) 0) s d),
          ))
  unfolding marshal segment start fits
  marshal_layout srcip dstip s d hs hd =
      let zeroed : Bytes = segment tcp (offset_of tcp) (padding_of tcp) 0 in
      let c : ℕ = csum_of zeroed s d in
      let h = csum-eq zeroed srcip dstip s d hs hd in
      let offset : ℕ = offset_of tcp in
      let padding : Bytes = padding_of tcp in
      let opts : Bytes = encode_options tcp.options in
      let (x, y, written) = write_header_lem start tcp offset (omega (arith, room)) in
      let left : Bytes = drop (length opts) (drop 20 start) in
      let z : Bytes = drop (length tcp.payload) (drop (length padding) left) in
      let tail_room : length padding + length tcp.payload ≤ length left =
        omega (arith, room, length-drop (length opts) (drop 20 start), length-drop 20 start) in
      let opts_end : 20 + length opts ≡ length (header_bytes tcp offset x y opts) = omega arith in
      let final : Bytes =
        header_bytes tcp offset (c / 256 % 256) (c % 256)
          (opts ++ (padding ++ (tcp.payload ++ z))) in
      (
        if fits then final else tcp.buffer,
        rw (
          written,
          write_options_lem (header_bytes tcp offset x y []) (drop 20 start) tcp.options sized
              (omega (arith, room, length-drop 20 start)),
          opts_end,
          write_tail_lem tcp offset x y opts padding tcp.payload left tail_room,
          slice_segment tcp offset 0 0 opts padding tcp.payload z,
          h,
          put16_checksum tcp offset 0 0 c (opts ++ (padding ++ tcp.payload)),
          put16_checksum tcp offset 0 0 c (opts ++ (padding ++ (tcp.payload ++ z))),
        ),
      )
