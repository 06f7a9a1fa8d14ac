-- ===== src/Darwin/Listener/Records.antt =====
-- raw_darwin.go, RAWListener.ReadFrom: the TLS records of a peer whose hello was answered.
use rawcon.Common.{◌≡◌, true, some}
use rawcon.Common.Bytes.{Bytes}
use rawcon.Conn.{Addr, http_rep_sent}
use rawcon.Pcap.{Layers, ConnInfo}
use rawcon.Pcap.Listener
use rawcon.Pcap.Listener.{Listener, Round, continue, listener_of, or_fail, promote}

-- A peer whose hello `cl` was.
record Marked (cl : Layers) (info : ConnInfo) : Type 0 where
  tls : info.tls ≡ true
  hello : info.hseqn ≡ cl.tcp.seqn

record Answered (cl : Layers) (info : ConnInfo) : Type 0 where
  marked : Marked cl info
  rep : Bytes
  answer : info.rep ≡ some rep

-- The round that answers the hello has the peer among the established ones.
abbrev Joined : Addr → Layers → Round → Type 0
Joined a cl out =
    (info : ConnInfo) × ((listener_of out).conns a ≡ some info)
    × (info.state ≡ http_rep_sent)
    × Marked cl info
