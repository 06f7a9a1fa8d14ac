-- ===== src/Common/Bits.antt =====
-- `|` of two fields that share no bit, at every width, is their sum.
use Prim.Native.Nat.{max, bit_or, digits, bit_or-bitwise}
use native.Mathlib.Nat.{pow-suc}
use rawcon.Common.{ℕ, zero, suc, ◌+◌, ◌*◌, ◌/◌, ◌^◌, ◌≤◌, ◌<◌, ◌≡◌, refl, ap, ◌∙◌, arith}

-- `a` has its bits at `k` and above, `r` below `k`.
digits_apart :
    (fuel a k q r : ℕ) → a ≤ fuel → r < 2 ^ k → a ≡ q * 2 ^ k → digits (λ y. y) max fuel a r ≡ a + r
digits_apart zero zero k q r room small e = omega arith
digits_apart (suc fuel) zero k q r room small e = omega arith
digits_apart zero (suc a) k q r room small e = absurd (omega arith)
digits_apart (suc fuel) (suc a) zero q r room small e =
    let upper =
      digits_apart fuel (suc a / 2) zero (suc a / 2) 0 (omega arith) (omega arith) (omega arith) in
    let none : r ≡ 0 = omega arith in rw (none, upper) (omega arith)
digits_apart (suc fuel) (suc a) (suc k) q r room small e =
    let wide : 2 ^ suc k ≡ 2 * 2 ^ k = pow-suc 2 k ∙ omega arith in
    let even : suc a ≡ q * 2 ^ k * 2 = e ∙ ap (λ t. q * t) wide ∙ omega arith in
    let upper =
      digits_apart fuel (suc a / 2) k q (r / 2) (omega arith) (omega arith) (omega arith) in
    rw upper (omega (arith, even))

-- A field above bit `k` joined with one below it is their sum.
pub bit_or_disjoint : (k q r : ℕ) → r < 2 ^ k → bit_or (q * 2 ^ k) r ≡ q * 2 ^ k + r
bit_or_disjoint k q r small =
    simp bit_or-bitwise (digits_apart (q * 2 ^ k) (q * 2 ^ k) k q r (omega arith) small refl)
