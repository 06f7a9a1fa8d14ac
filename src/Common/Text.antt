-- ===== src/Common/Text.antt =====
-- Strings as their bytes: equality, and `strings.Split` at one byte.
use rawcon.Common.{
  ℕ, ◌≡◌, refl, arith, Bool, true, false, ◌&&◌, List, [], ◌∷◌, ◌==◌, ◌⊎◌, inl, inr, if◌then◌else◌,
}
use rawcon.Common.Bytes.{Bytes}

abbrev pub bytes_eq : Bytes → Bytes → Bool
bytes_eq [] [] = true
bytes_eq (x ∷ xs) (y ∷ ys) = x == y && bytes_eq xs ys
bytes_eq _ _ = false

pub bytes_eq_refl : (b : Bytes) → bytes_eq b b ≡ true
bytes_eq_refl [] = refl
bytes_eq_refl (x ∷ b) =
    let rest = bytes_eq_refl b in let same : (x == x) ≡ true = ground arith in rw (same, rest)

pub bytes_eq-eq : (x y : Bytes) → bytes_eq x y ≡ true → x ≡ y
bytes_eq-eq [] [] h = refl
bytes_eq-eq [] (y ∷ ys) h = cc
bytes_eq-eq (x ∷ xs) [] h = cc
bytes_eq-eq (x ∷ xs) (y ∷ ys) h =
    let head : x ≡ y = ground arith in
    let tail : bytes_eq xs ys ≡ true = ground arith in rw (head, bytes_eq-eq xs ys tail)

-- Two texts, in both orders of the test.
pub bytes_eq-cases : (x y : Bytes) → (x ≡ y) ⊎ ((bytes_eq x y ≡ false) × (bytes_eq y x ≡ false))
bytes_eq-cases [] [] = inl refl
bytes_eq-cases [] (y ∷ ys) = inr (refl, refl)
bytes_eq-cases (x ∷ xs) [] = inr (refl, refl)
bytes_eq-cases (x ∷ xs) (y ∷ ys) = ground (arith, bytes_eq-cases xs ys)

-- `strings.Split(s, sep)`, where `sep` is one byte: the parts between its occurrences.
abbrev pub onto_first : ℕ → List Bytes → List Bytes
onto_first x [] = (x ∷ []) ∷ []
onto_first x (p ∷ ps) = (x ∷ p) ∷ ps

abbrev pub split : ℕ → Bytes → List Bytes
split sep [] = [] ∷ []
split sep (x ∷ s) = let rest = split sep s in if x == sep then [] ∷ rest else onto_first x rest
