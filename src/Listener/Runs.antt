-- ===== src/Listener/Runs.antt =====
-- raw_linux.go, RAWListener.doRead: any number of its rounds, one packet after the other.
use rawcon.Common.{ℕ, ◌≡◌, inl, inr, Bool-cases}
use rawcon.Common.Go.{ok}
use rawcon.Tcp.{TcpLayer}
use rawcon.Conn.{Addr, addr_eq}
use rawcon.Listener.{Listener, Draw, Round, listener_of}
use rawcon.Listener.Step.{step}
use rawcon.Listener.Peer.{peer, IsProper, addr_eq-eq}
use rawcon.Listener.Invariant.{step-Sound}

-- The listener after some rounds, the packets and what is drawn being any.
pub data Run (cap : ℕ) : Listener → Listener → Type 0 where
  start : {l : Listener} → Run cap l l
  round :
      {l l' : Listener} (draw : Draw) (a : Addr) (tcp : TcpLayer) (r : Round)
      → step cap draw l a tcp ≡ ok r
      → Run cap (listener_of r) l'
      → Run cap l l'

-- No address is in both maps; `newcons` holds the states of a handshake, `conns` those after it.
abbrev pub AllProper : Listener → Type 0
AllProper l = (b : Addr) → IsProper (peer l b)

step-AllProper :
    (cap : ℕ) (draw : Draw) (l : Listener) (a : Addr) (tcp : TcpLayer) (r : Round)
    → AllProper l
    → step cap draw l a tcp ≡ ok r
    → AllProper (listener_of r)
step-AllProper cap draw l a tcp r proper h b =
    let all = step-Sound cap draw l a tcp r (proper a) h in
    elim (Bool-cases (addr_eq a b)) [
      | inl same ↦ rw⁻¹ (addr_eq-eq a b same) all.1
      | inr other ↦ let kept = all.0.0.0.1 b other in rw (kept.0, kept.1) (proper b)
    ]

-- However many rounds doRead makes, from a listener that holds no peer or any where it is so already,
-- no address is ever in both maps, `newcons` holds only peers in synreceived and waithttpreq, and
-- `conns` only peers in httprepsent and established.
pub run-AllProper : (cap : ℕ) (l l' : Listener) → Run cap l l' → AllProper l → AllProper l'
run-AllProper cap l l' start proper = proper
run-AllProper cap l l' (round draw a tcp r h rest) proper =
    run-AllProper cap (listener_of r) l' rest (step-AllProper cap draw l a tcp r proper h)
