-- ===== src/Utils/Die.antt =====
-- utils/utils.go, Die: a flag and a channel that is closed when the flag is first set. Each RunInLock
-- is one step; what Die does after its lock is a step of its own, which other callers may come before.
use rawcon.Common.{
  ℕ, zero, suc, ◌+◌, ◌≡◌, refl, ◌⊎◌, inl, inr, Bool, true, false, Option, none, some, List, [], ◌∷◌,
  if◌then◌else◌,
}
use rawcon.Common.Go.{Go, ok, panic, ◌>>=◌}

pub data Chan : Type 0 where
  open_chan closed_chan : Chan

-- `closing` counts the callers of Die that have left the lock as the first and have not closed `ch` yet.
pub record Die : Type 0 where
  pub ch : Option Chan
  pub die : Bool
  pub closing : ℕ
  pub called : ℕ

abbrev pub new_die : Die
new_die = record { ch = none; die = false; closing = 0; called = 0 }

-- `if d.ch == nil { d.ch = make(chan bool) }`
abbrev pub made : Option Chan → Option Chan
made none = some open_chan
made (some c) = some c

pub data Event : Type 0 where
  ch_call die_locked die_closes : Event

-- `close(d.ch)` of a closed or nil channel panics.
abbrev pub close : Option Chan → Go (Unit {0}) Chan
close none = panic
close (some open_chan) = ok closed_chan
close (some closed_chan) = panic

-- One step of one caller. `die_closes` can only come after a `die_locked` that was the first.
unfoldable pub die_step : Event → Die → Go (Unit {0}) Die
die_step ch_call d = ok (record d { ch = made d.ch })
die_step die_locked d =
    ok (record d {
      ch = made d.ch;
      die = true;
      closing = if d.die then d.closing else d.closing + 1;
    })
die_step die_closes d = elim d.closing [
  | zero ↦ ok d
  | suc n ↦ do c ← close d.ch; ok (record d { ch = some c; closing = n; called = d.called + 1 })
]

unfoldable pub die_steps : List Event → Die → Go (Unit {0}) Die
die_steps [] d = ok d
die_steps (e ∷ es) d = do d' ← die_step e d; die_steps es d'

unfoldable pub is_dead : Die → Bool
is_dead d = d.die

-- Alive; between the lock and the close; closed.
pub data IsValid (d : Die) : Type 0 where
  alive :
      d.die ≡ false
      → d.closing ≡ 0
      → d.called ≡ 0
      → (d.ch ≡ none) ⊎ (d.ch ≡ some open_chan)
      → IsValid d
  dying : d.die ≡ true → d.closing ≡ 1 → d.called ≡ 0 → d.ch ≡ some open_chan → IsValid d
  dead : d.die ≡ true → d.closing ≡ 0 → d.called ≡ 1 → d.ch ≡ some closed_chan → IsValid d

die_step-IsValid :
    (e : Event) (d : Die) → IsValid d → (d' : Die) × (die_step e d ≡ ok d') × IsValid d'
unfolding die_step
die_step-IsValid ch_call d (alive a b c (inl h)) = (_, refl, alive a b c (inr (rw h)))
die_step-IsValid ch_call d (alive a b c (inr h)) = (_, refl, alive a b c (inr (rw h)))
die_step-IsValid ch_call d (dying a b c h) = (_, refl, dying a b c (rw h))
die_step-IsValid ch_call d (dead a b c h) = (_, refl, dead a b c (rw h))
die_step-IsValid die_locked d (alive a b c (inl h)) = (_, refl, dying refl (rw (a, b)) c (rw h))
die_step-IsValid die_locked d (alive a b c (inr h)) = (_, refl, dying refl (rw (a, b)) c (rw h))
die_step-IsValid die_locked d (dying a b c h) = (_, refl, dying refl (rw (a, b)) c (rw h))
die_step-IsValid die_locked d (dead a b c h) = (_, refl, dead refl (rw (a, b)) c (rw h))
die_step-IsValid die_closes d (alive a b c h) = (d, rw b, alive a b c h)
die_step-IsValid die_closes d (dying a b c h) = (
  record d { ch = some closed_chan; closing = 0; called = 1 },
  rw (b, h, c),
  dead a refl refl refl,
)
die_step-IsValid die_closes d (dead a b c h) = (d, rw b, dead a b c h)

-- However the calls of Ch and the two steps of the calls of Die are interleaved, the channel is never
-- closed twice, so nothing panics, and at most one of the functions given to Die is called.
pub die_steps-IsValid :
    (es : List Event) (d : Die) → IsValid d → (d' : Die) × (die_steps es d ≡ ok d') × IsValid d'
unfolding die_steps
die_steps-IsValid [] d v = (d, refl, v)
die_steps-IsValid (e ∷ es) d v =
    let (d1, one, v1) = die_step-IsValid e d v in
    let (d2, rest, v2) = die_steps-IsValid es d1 v1 in (d2, rw (one, rest), v2)
