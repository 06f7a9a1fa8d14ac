-- ===== src/Client/Whole.antt =====
-- raw_linux.go, ReadFromIP and decodeTCPlayer: the segments that `buf` holds.
use rawcon.Common.{◌+◌, ◌*◌, ◌≤◌, ◌≡◌, ap, ◌∙◌, arith, length, length-drop, take_all}
use rawcon.Common.Go.{ok}
use rawcon.Common.Bytes.{Bytes}
use rawcon.Tcp.{TcpLayer}
use rawcon.Tcp.Decode.{decode_tcp_layer}
use rawcon.Tcp.Decode.Safety.{decode-ok_bounds}
use rawcon.Client.{in_buffer}

-- A segment is its header and its payload.
pub segment-len :
    (b : Bytes) (tcp : TcpLayer)
    → decode_tcp_layer b ≡ ok tcp
    → length b ≡ tcp.data_offset * 4 + length tcp.payload
segment-len b tcp read =
    let (long, header, within, cut, flags) = decode-ok_bounds b tcp read in
    omega (arith, ap length cut, length-drop (tcp.data_offset * 4) b, within)

-- A segment that the buffer holds is decoded whole.
pub decode-in_buffer :
    (b : Bytes) (tcp : TcpLayer)
    → decode_tcp_layer b ≡ ok tcp
    → tcp.data_offset * 4 + length tcp.payload ≤ 2028
    → decode_tcp_layer (in_buffer b) ≡ ok tcp
unfolding in_buffer
decode-in_buffer b tcp read short =
    ap decode_tcp_layer (take_all 2028 b (omega (arith, segment-len b tcp read))) ∙ read
