-- ===== src/Utils/Pools/Exclusive/Counts.antt =====
-- utils/buf.go: how often an array is out or held, and how long buffers are.
use native.Mathlib.Nat.{pow-le-pow_right}
use rawcon.Common.{
  ℕ, zero, suc, ◌+◌, ◌^◌, ◌≤◌, ◌<◌, ◌≡◌, refl, arith, some, List, [], ◌∷◌, ◌&&◌, ◌==◌, ltb, leb,
  get_elem?, if◌then◌else◌, Bool-cases, inl, inr, false,
}
use rawcon.Utils.Buf.{get_index, get_index-IsClass}
use rawcon.Utils.Pools.{Slice, remove}

-- How often an array is out, and how often it is held.
abbrev pub one : ℕ → ℕ → ℕ
one a b = if a == b then 1 else 0

abbrev pub outs : ℕ → List Slice → ℕ
outs a [] = 0
outs a (s ∷ ss) = one a s.array + outs a ss

abbrev pub helds : ℕ → List (ℕ × Slice) → ℕ
helds a [] = 0
helds a ((class, s) ∷ ss) = one a s.array + helds a ss

-- Whatever a slice with such a capacity is cut to, its class is no longer than it.
abbrev pub HasClass : ℕ → Type 0
HasClass cap = (n : ℕ) → 0 < n → n ≤ 65536 → n ≤ cap → 2 ^ (get_index n + 6) ≤ cap

abbrev pub AllOut : List Slice → Type 0
AllOut [] = Unit {0}
AllOut (s ∷ ss) = HasClass s.cap × AllOut ss

abbrev pub AllHeld : List (ℕ × Slice) → Type 0
AllHeld [] = Unit {0}
AllHeld ((class, s) ∷ ss) = ((2 ^ (class + 6) ≤ s.cap) × HasClass s.cap) × AllHeld ss

pow : (i k : ℕ) → i ≤ k → 2 ^ i ≤ 2 ^ k
pow i k h = pow-le-pow_right {n = 2} (omega arith) {i = i} {j = k} h

pub class-HasClass : (i : ℕ) → HasClass (2 ^ (i + 6))
class-HasClass i n some_bytes most within =
    let c = get_index-IsClass n some_bytes most in
    elim (Bool-cases (ltb i (get_index n))) [
      | inl below ↦ let short : 2 ^ (i + 6) < n = c.2 i (ground arith) in absurd (omega arith)
      | inr above ↦ pow (get_index n + 6) (i + 6) (ground arith)
    ]

pub made-HasClass : (n : ℕ) → (ltb 0 n && leb n 65536) ≡ false → HasClass n
made-HasClass n odd m some_bytes most within =
    let c = get_index-IsClass m some_bytes most in
    let some_n : 0 < n = omega arith in
    let big : 65536 < n = ground arith in
    let top : 2 ^ (get_index m + 6) ≤ 2 ^ 16 = pow (get_index m + 6) 16 (omega (arith, c.0)) in
    omega arith

-- Taking the buffer at a place of the pools out of them.
pub helds-remove :
    (a pick class : ℕ) (s : Slice) (h : List (ℕ × Slice))
    → get_elem? h pick ≡ some (class, s)
    → helds a h ≡ one a s.array + helds a (remove pick h)
helds-remove a pick class s [] e = cc
helds-remove a zero class s (x ∷ h) e = let same : x ≡ (class, s) = cc in rw same refl
helds-remove a (suc pick) class s ((k, t) ∷ h) e = omega (arith, helds-remove a pick class s h e)

pub outs-remove :
    (a which : ℕ) (s : Slice) (ss : List Slice)
    → get_elem? ss which ≡ some s
    → outs a ss ≡ one a s.array + outs a (remove which ss)
outs-remove a which s [] e = cc
outs-remove a zero s (x ∷ ss) e = let same : x ≡ s = cc in rw same refl
outs-remove a (suc which) s (t ∷ ss) e = omega (arith, outs-remove a which s ss e)

pub helds-lose : (a which : ℕ) (h : List (ℕ × Slice)) → helds a (remove which h) ≤ helds a h
helds-lose a which [] = omega arith
helds-lose a zero ((k, t) ∷ h) = omega arith
helds-lose a (suc which) ((k, t) ∷ h) = omega (arith, helds-lose a which h)

pub AllHeld-remove : (which : ℕ) (h : List (ℕ × Slice)) → AllHeld h → AllHeld (remove which h)
AllHeld-remove which [] sizes = tt
AllHeld-remove zero ((k, t) ∷ h) sizes = sizes.1
AllHeld-remove (suc which) ((k, t) ∷ h) sizes = (sizes.0, AllHeld-remove which h sizes.1)

pub AllOut-remove : (which : ℕ) (ss : List Slice) → AllOut ss → AllOut (remove which ss)
AllOut-remove which [] sizes = tt
AllOut-remove zero (t ∷ ss) sizes = sizes.1
AllOut-remove (suc which) (t ∷ ss) sizes = (sizes.0, AllOut-remove which ss sizes.1)

pub AllHeld-at :
    (pick class : ℕ) (s : Slice) (h : List (ℕ × Slice))
    → get_elem? h pick ≡ some (class, s)
    → AllHeld h
    → (2 ^ (class + 6) ≤ s.cap) × HasClass s.cap
AllHeld-at pick class s [] e sizes = cc
AllHeld-at zero class s ((k, t) ∷ h) e sizes =
    let kind : k ≡ class = cc in let same : t ≡ s = cc in rw (← kind, ← same) sizes.0
AllHeld-at (suc pick) class s ((k, t) ∷ h) e sizes = AllHeld-at pick class s h e sizes.1

pub AllOut-at :
    (which : ℕ) (s : Slice) (ss : List Slice)
    → get_elem? ss which ≡ some s
    → AllOut ss
    → HasClass s.cap
AllOut-at which s [] e sizes = cc
AllOut-at zero s (t ∷ ss) e sizes = let same : t ≡ s = cc in rw (← same) sizes.0
AllOut-at (suc which) s (t ∷ ss) e sizes = AllOut-at which s ss e sizes.1
