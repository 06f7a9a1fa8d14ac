-- ===== src/Conn.antt =====
-- raw_linux.go and utils.go: pktLayers, connInfo and Raw, with the socket that packets are written to.
pub mod Send
pub mod Http
pub mod Frame
use rawcon.Common.{ℕ, Bool, true, false, Option, none, some, List, [], ◌∷◌, ◌&&◌, ◌==◌}
use rawcon.Common.Bytes.{Bytes}
use rawcon.Common.Text.{bytes_eq}
use rawcon.Tcp.{TcpLayer}

-- The fields of `Raw` that the connections read.
pub record Raw : Type 0 where
  pub mixed : Bool
  pub no_http : Bool
  pub tls : Bool
  pub ign_rst : Bool

-- A `*net.UDPAddr`; `String` tells two of them apart by address and port.
pub record Addr : Type 0 where
  pub ip : Bytes
  pub port : ℕ

-- `lastack` and `lastacktime` are written by no code that is not commented out.
pub record PktLayers : Type 0 where
  pub srcip : Bytes
  pub dstip : Bytes
  pub tcp : TcpLayer

-- `state`: synreceived, waithttpreq, httprepsent, established.
pub data State : Type 0 where
  syn_received wait_http_req http_rep_sent established : State

pub record ConnInfo : Type 0 where
  pub state : State
  pub layer : PktLayers
  pub rep : Option Bytes
  pub hseqn : ℕ  -- uint32
  pub mss : ℕ
  pub tls : Bool

pub data ConnError : Type 0 where
  write_failed read_failed bad_packet reset_by_peer fin_received cannot_write : ConnError

-- The socket: what has been sent where, and which of the writes to come will fail.
pub record Socket : Type 0 where
  pub sent : List (Bytes × Bytes)
  pub faults : List Bool

unfoldable pub addr_eq : Addr → Addr → Bool
addr_eq a b = bytes_eq a.ip b.ip && a.port == b.port
