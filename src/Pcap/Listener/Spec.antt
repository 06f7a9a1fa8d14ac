-- ===== src/Pcap/Listener/Spec.antt =====
-- raw_other.go and raw_darwin.go, RAWListener: what a client of a listener may count on, with nothing
-- but the status of each address; and when rounds keep to it.
use rawcon.Common.{◌≡◌, refl, ℕ, false, inl, inr, Bool-cases, ◌⊎◌, List, [], ◌∷◌, ◌∙◌}
use rawcon.Common.Bytes.{Bytes}
use rawcon.Conn.{Raw, Addr, addr_eq, established}
use rawcon.Listener.Peer.{Status, absent, joined, IsProper, Move, Move-IsProper, addr_eq-eq}
use rawcon.Pcap.{Handle}
use rawcon.Pcap.Listener.{Listener, Round, continue, deliver, failed, listener_of}
use rawcon.Pcap.Listener.Runs.{new_listener}
use rawcon.Pcap.Listener.Peer.{peer, Moved, Sound}

-- What a round shows its caller: nothing, or bytes of a sender.
pub data Shown : Type 0 where
  quiet : Shown
  handed : Bytes → Addr → Shown

abbrev pub Known : Type 0
Known = Addr → Status

-- One address makes one move, and bytes, if any, are those of an address that is then established.
pub data SpecStep (r : Raw) (s : Known) (t : Known) : Shown → Type 0 where
  moves :
      (a : Addr)
      → ((b : Addr) → addr_eq a b ≡ false → t b ≡ s b)
      → Move r (s a) (t a)
      → SpecStep r s t quiet
  hands :
      (a : Addr) (b : Bytes)
      → ((b' : Addr) → addr_eq a b' ≡ false → t b' ≡ s b')
      → Move r (s a) (t a)
      → (b ≡ []) ⊎ (t a ≡ joined established)
      → SpecStep r s t (handed b a)

-- The newest first.
pub data Spec (r : Raw) : List Shown → Known → Type 0 where
  new : Spec r [] (λ a. absent)
  next :
      {shown : List Shown} {s t : Known} (one : Shown)
      → Spec r shown s
      → SpecStep r s t one
      → Spec r (one ∷ shown) t

others :
    (l l' : Listener) (a : Addr)
    → Moved l a l'
    → (b : Addr) → addr_eq a b ≡ false
    → peer l' b ≡ peer l b
others l l' a moved b other = rw (moved.newcons_same b other, moved.conns_same b other) refl

SpecStep-IsProper :
    (r : Raw) (s t : Known) (one : Shown)
    → SpecStep r s t one
    → ((b : Addr) → IsProper (s b))
    → (b : Addr) → IsProper (t b)
SpecStep-IsProper r s t one step proper b = by_step step
  where
    moved :
        (a : Addr)
        → ((b' : Addr) → addr_eq a b' ≡ false → t b' ≡ s b')
        → Move r (s a) (t a)
        → IsProper (t b)
    moved a same move = elim (Bool-cases (addr_eq a b)) [
      | inl here ↦ rw (← addr_eq-eq a b here) (Move-IsProper _ _ move (proper a))
      | inr other ↦ rw (same b other) (proper b)
    ]

    by_step : {one' : Shown} → SpecStep r s t one' → IsProper (t b)
    by_step (moves a same move) = moved a same move
    by_step (hands a bytes same move up) = moved a same move

Spec-IsProper :
    (r : Raw) (shown : List Shown) (s : Known) → Spec r shown s → (b : Addr) → IsProper (s b)
Spec-IsProper r shown t new b = tt
Spec-IsProper r shown t (next {shown = before} {s} one start step) b =
    SpecStep-IsProper r s t one step (Spec-IsProper r before s start) b

-- Rounds of one implementation after another, from a new listener on.
abbrev pub shown_by : Round → Shown
shown_by (continue l) = quiet
shown_by (failed l e) = quiet
shown_by (deliver l b a) = handed b a

module _ (Step : Listener → Addr → Round → Type 0) where
  pub data Trace (r : Raw) (handle : Handle) : List Shown → Listener → Type 0 where
    start : Trace r handle [] (new_listener r handle)
    round :
        {shown : List Shown} {l : Listener} (a : Addr) (out : Round)
        → Trace r handle shown l
        → Step l a out
        → Trace r handle (shown_by out ∷ shown) (listener_of out)

  -- What one round has to keep to.
  abbrev pub Keeps : Type 0
  Keeps =
      (l : Listener) (a : Addr) (out : Round)
      → IsProper (peer l a)
      → Step l a out
      → (cap : ℕ) × Sound cap l a out

Sound-SpecStep :
    (cap : ℕ) (l : Listener) (a : Addr) (out : Round)
    → Sound cap l a out
    → SpecStep l.r (peer l) (peer (listener_of out)) (shown_by out)
Sound-SpecStep size l a (continue l') sound = moves a (others l l' a sound.0) sound.0.move
Sound-SpecStep size l a (failed l' e) sound = moves a (others l l' a sound.0) sound.0.move
Sound-SpecStep size l a (deliver l' b from) (moved, (own, short, up)) =
    rw own (hands a b (others l l' a moved) moved.move up)

same_settings :
    (Step : Listener → Addr → Round → Type 0)
    → Keeps Step
    → (r : Raw) (handle : Handle) (shown : List Shown) (l : Listener) → Trace Step r handle shown l
    → (l.r ≡ r) × Spec r shown (peer l)
same_settings Step keeps r handle shown l start = (refl, new)
same_settings Step keeps r handle shown l (round {shown = before} {l = l1} a out trace step) =
    let (same, spec) = same_settings Step keeps r handle before l1 trace in
    let (cap, sound) = keeps l1 a out (Spec-IsProper r before (peer l1) spec a) step in
    let one : SpecStep r (peer l1) (peer (listener_of out)) (shown_by out) =
      rw (← same) (Sound-SpecStep cap l1 a out sound) in
    (sound.0.same_r ∙ same, next (shown_by out) spec one)

-- An implementation whose rounds keep to the moves keeps to the specification.
pub Trace-Spec :
    (Step : Listener → Addr → Round → Type 0)
    → Keeps Step
    → (r : Raw) (handle : Handle) (shown : List Shown) (l : Listener) → Trace Step r handle shown l
    → Spec r shown (peer l)
Trace-Spec Step keeps r handle shown l trace = (same_settings Step keeps r handle shown l trace).1
