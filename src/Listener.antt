-- ===== src/Listener.antt =====
-- raw_linux.go, RAWListener: the peers that it knows. A map from addresses is a function.
pub mod Step
pub mod DoRead
pub mod Peer
pub mod Write
pub mod Delivery
pub mod Invariant
pub mod Runs
mod Tests
use rawcon.Common.{ℕ, Bool, Option, none, some, List, if◌then◌else◌}
use rawcon.Common.Bytes.{Bytes}
use rawcon.Conn.{Raw, Addr, ConnInfo, ConnError, Socket, addr_eq}

abbrev pub Peers : Type 0
Peers = Addr → Option ConnInfo

unfoldable pub insert : Addr → ConnInfo → Peers → Peers
insert a info peers b = if addr_eq a b then some info else peers b

unfoldable pub delete : Addr → Peers → Peers
delete a peers b = if addr_eq a b then none else peers b

pub record Listener : Type 0 where
  pub r : Raw
  pub laddr : Addr
  pub newcons : Peers
  pub conns : Peers
  pub socket : Socket

-- What one round of the loop of doRead draws from outside: a fresh sequence number, the bytes and the
-- lengths of the answers, the clock, and the address that getSrcIPForDstIP finds.
pub record Draw : Type 0 where
  pub seqn : ℕ
  pub filler : ℕ
  pub random : Bytes
  pub fresh_id : Bytes
  pub now : ℕ
  pub content : ℕ
  pub srcip : Option Bytes

-- How a round ends: the loop goes on, or doRead returns the bytes it has copied into `b` and the
-- address, or an error.
pub data Round : Type 0 where
  continue : Listener → Round
  deliver : Listener → Bytes → Addr → Round
  failed : Listener → ConnError → Round

abbrev pub listener_of : Round → Listener
listener_of (continue l) = l
listener_of (deliver l b a) = l
listener_of (failed l e) = l
