-- ===== src/Tcp/Decode.antt =====
-- raw_linux.go, decodeTCPlayer, and getMssFromTcpLayer.
pub mod Options
pub mod Safety
use rawcon.Common.{
  ℕ, zero, suc, ◌+◌, ◌*◌, ◌/◌, ◌%◌, Bool, List, [], ◌∷◌, ◌++◌, length, drop, ltb, ◌==◌, ◌||◌, not,
  if◌then◌else◌,
}
use rawcon.Common.Go.{Go, ok, err, stuck, ◌>>=◌}
use rawcon.Common.Bytes.{Bytes, index, slice, slice_from, be16, be32}
use rawcon.Tcp.{
  TcpOption, TcpLayer, Error, packet_too_short, offset_beyond_packet, option_too_short,
  option_too_long, kind_end_list, kind_nop, kind_mss, tcp_len,
}

-- `binary.BigEndian.Uint16(b[i:])`, `Uint32(b[i:])`
abbrev pub u16_at : Bytes → ℕ → Go Error ℕ
u16_at b i = do hi ← index b i; lo ← index b (suc i); ok (be16 hi lo)

abbrev pub u32_at : Bytes → ℕ → Go Error ℕ
u32_at b i = do
  x ← index b i
  y ← index b (suc i)
  z ← index b (suc (suc i))
  w ← index b (suc (suc (suc i)))
  ok (be32 x y z w)

-- One round of the loop up to its `switch`: the option that `d` begins with, and `tcp.padding`.
unfoldable pub decode_option : Bytes → Bytes → Go Error (TcpOption × Bytes)
decode_option d padding = do
  kind ← index d 0
  if kind == kind_end_list
      then (do rest ← slice_from d 1; ok (record { kind = kind; length = 1; content = [] }, rest))
      else if kind == kind_nop
      then ok (record { kind = kind; length = 1; content = [] }, padding)
      else do
        len ← index d 1
        if ltb len 2
            then err (option_too_short len)
            else if ltb (length d) len
            then err (option_too_long len (length d))
            else do
              content ← slice d 2 len
              ok (record { kind = kind; length = len; content = content }, padding)

-- The loop. A `break` inside the `switch` leaves the `switch` only, so the end of the option list
-- does not end the loop.
unfoldable pub decode_options :
    ℕ → Bytes → List TcpOption → Bytes → Go Error (List TcpOption × Bytes)
decode_options fuel [] options padding = ok (options, padding)
decode_options zero (x ∷ d) options padding = stuck
decode_options (suc fuel) (x ∷ d) options padding = do
  (opt, padding') ← decode_option (x ∷ d) padding
  rest ← slice_from (x ∷ d) opt.length
  decode_options fuel rest (options ++ (opt ∷ [])) padding'

-- The fixed part of the header, `data[0:20]`, with the payload.
unfoldable pub decode_fixed : Bytes → Go Error TcpLayer
decode_fixed b = do
  src_port ← u16_at b 0
  dst_port ← u16_at b 2
  seqn ← u32_at b 4
  ackn ← u32_at b 8
  word ← u16_at b 12
  let offset = word / 4096
  if ltb (length b / 4) offset then err offset_beyond_packet else do
    window ← u16_at b 14
    chksum ← u16_at b 16
    urgent ← u16_at b 18
    ok (record {
      src_port = src_port;
      dst_port = dst_port;
      seqn = seqn;
      ackn = ackn;
      data_offset = offset;
      reserved = word / 512 % 8;
      ecn = word / 64 % 8;
      flags = word % 64;
      window = window;
      chksum = chksum;
      urgent = urgent;
      options = [];
      padding = [];
      payload = if ltb (offset * 4) (length b) then drop (offset * 4) b else [];
      buffer = [];
    })

-- At most one option begins at each byte, so the length of the option bytes is fuel enough.
unfoldable pub decode_tcp_layer : Bytes → Go Error TcpLayer
decode_tcp_layer b = if ltb (length b) tcp_len then err (packet_too_short (length b)) else do
  tcp ← decode_fixed b
  let header_len = tcp.data_offset * 4
  if header_len == tcp_len then ok tcp else do
    d ← slice b tcp_len header_len
    (options, padding) ← decode_options (length d) d [] []
    ok (record tcp { options = options; padding = padding })

-- `binary.BigEndian.Uint16(v.data)` panics on one byte.
unfoldable pub get_mss_from_tcp_layer : List TcpOption → Go Error ℕ
get_mss_from_tcp_layer [] = ok 0
get_mss_from_tcp_layer (v ∷ vs) =
    let rest = get_mss_from_tcp_layer vs in
    if not (v.kind == kind_mss) || length v.content == 0 then rest else u16_at v.content 0
