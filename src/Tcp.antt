-- ===== src/Tcp.antt =====
-- raw_linux.go, the TCP layer (tcpLayer, tcpOption, their constants and flag tests). The pre-allocated
-- `opts` is storage only and has no field; `pads` is never written, so it is four zero bytes.
pub mod Checksum
pub mod Decode
pub mod Marshal
pub mod RoundTrip
mod Tests
use Prim.Native.Nat.{bit_and, bit_or}
use rawcon.Common.{ℕ, ◌+◌, ◌*◌, Bool, List, ◌==◌}
use rawcon.Common.Bytes.{Bytes}

abbrev pub kind_end_list : ℕ
kind_end_list = 0

abbrev pub kind_nop : ℕ
kind_nop = 1

abbrev pub kind_mss : ℕ
kind_mss = 2

abbrev pub kind_window_scale : ℕ
kind_window_scale = 3

abbrev pub kind_sack_permitted : ℕ
kind_sack_permitted = 4

abbrev pub fin : ℕ
fin = 1

abbrev pub syn : ℕ
syn = 2

abbrev pub rst : ℕ
rst = 4

abbrev pub psh : ℕ
psh = 8

abbrev pub ack : ℕ
ack = 16

abbrev pub tcp_len : ℕ
tcp_len = 20

-- `data` is a word of the language: the option's bytes are `content`.
pub record TcpOption : Type 0 where
  pub kind : ℕ  -- uint8
  pub length : ℕ  -- uint8
  pub content : Bytes

-- `data`, the buffer that `marshal` writes into, is `buffer`; nil slices are [].
pub record TcpLayer : Type 0 where
  pub src_port : ℕ
  pub dst_port : ℕ
  pub seqn : ℕ  -- uint32
  pub ackn : ℕ  -- uint32
  pub data_offset : ℕ  -- uint8
  pub reserved : ℕ  -- uint8
  pub ecn : ℕ  -- uint8
  pub flags : ℕ  -- uint8
  pub window : ℕ  -- uint16
  pub chksum : ℕ  -- uint16
  pub urgent : ℕ  -- uint16
  pub options : List TcpOption
  pub padding : Bytes
  pub payload : Bytes
  pub buffer : Bytes

pub data Error : Type 0 where
  packet_too_short : ℕ → Error
  offset_beyond_packet : Error
  option_too_short : ℕ → Error
  option_too_long : ℕ → ℕ → Error

unfoldable pub set_flag : TcpLayer → ℕ → TcpLayer
set_flag tcp flag = record tcp { flags = bit_or tcp.flags flag }

unfoldable pub chk_flag : TcpLayer → ℕ → Bool
chk_flag tcp flag = bit_and tcp.flags flag == flag
