-- ===== src/Utils/Expires.antt =====
-- utils/utils.go, Expires: a deadline that one of its callers renews. Times are counted in nanoseconds,
-- and each reading of the clock is an argument.
use rawcon.Common.{
  ℕ, ◌+◌, ◌≤◌, ◌≡◌, refl, arith, Bool, true, false, not, List, [], ◌∷◌, ltb, replicate, length, All,
  if◌then◌else◌, Bool-cases, inl, inr,
}

pub record Expires : Type 0 where
  pub deadline : ℕ

-- `time.Now().After(e.E)`
unfoldable pub is_expired : ℕ → Expires → Bool
is_expired now e = ltb e.deadline now

unfoldable pub update : ℕ → ℕ → Expires → Expires
update now d e = record e { deadline = now + d }

-- One call of IsExpiredAndUpdate: the clock at its first test, at its second test and at the update, and
-- the duration.
pub record Call : Type 0 where
  pub first : ℕ
  pub second : ℕ
  pub renewal : ℕ
  pub duration : ℕ

-- What it does under the write lock, where other callers may have come first.
unfoldable pub renew : Call → Expires → Bool × Expires
renew c e = if is_expired c.second e then (true, update c.renewal c.duration e) else (false, e)

-- `seen` is the deadline at the first test, under the read lock.
unfoldable pub is_expired_and_update : Call → Expires → Expires → Bool × Expires
is_expired_and_update c seen e = if not (is_expired c.first seen) then (false, e) else renew c e

-- Calls that come one after the other under the write lock, each with what it saw before.
unfoldable pub calls : List (Call × Expires) → Expires → List Bool × Expires
calls [] e = ([], e)
calls ((c, seen) ∷ cs) e =
    let r = is_expired_and_update c seen e in let rest = calls cs r.1 in (r.0 ∷ rest.0, rest.1)

abbrev pub IsEarly : ℕ → Call × Expires → Type 0
IsEarly until (c, seen) = c.second ≤ until

stays_false :
    (c : Call) (seen e : Expires)
    → c.second ≤ e.deadline
    → is_expired_and_update c seen e ≡ (false, e)
unfolding is_expired_and_update renew is_expired
stays_false c seen e h =
    let still : ltb e.deadline c.second ≡ false = ground arith in
    elim (Bool-cases (not (ltb seen.deadline c.first))) [
      | inl k ↦ rw k refl
      | inr k ↦ rw (k, still) refl
    ]

calls_early :
    (cs : List (Call × Expires)) (e : Expires)
    → All (IsEarly e.deadline) cs
    → calls cs e ≡ (replicate (length cs) false, e)
unfolding calls
calls_early [] e h = refl
calls_early ((c, seen) ∷ cs) e h = rw (stays_false c seen e h.0, calls_early cs e h.1) refl

won :
    (c : Call) (seen e : Expires)
    → (is_expired_and_update c seen e).0 ≡ true
    → is_expired_and_update c seen e ≡ (true, record { deadline = c.renewal + c.duration })
unfolding is_expired_and_update renew is_expired update
won c seen e h = elim (Bool-cases (not (ltb seen.deadline c.first))) [
  | inl k ↦ absurd (cc (rw k at h))
  | inr k ↦ elim (Bool-cases (ltb e.deadline c.second)) [
    | inl late ↦ rw (k, late) refl
    | inr early ↦ absurd (cc (rw (k, early) at h))
  ]
]

-- A call that returns true sets the deadline to its duration after the renewal, and of all callers whose
-- second test comes by then, whatever they saw at their first test, none returns true or moves the
-- deadline.
pub renewed_once :
    (c : Call) (seen e : Expires) (cs : List (Call × Expires))
    → (is_expired_and_update c seen e).0 ≡ true
    → All (IsEarly (c.renewal + c.duration)) cs
    → calls ((c, seen) ∷ cs) e
      ≡ (true ∷ replicate (length cs) false, record { deadline = c.renewal + c.duration })
unfolding calls
renewed_once c seen e cs first early =
    let renewed : is_expired_and_update c seen e
        ≡ (true, record { deadline = c.renewal + c.duration }) =
      won c seen e first in
    rw (renewed, calls_early cs (record { deadline = c.renewal + c.duration }) early) refl
