-- ===== src/Utils/Buf.antt =====
-- utils/buf.go: the size classes of the buffer pools. Class `i` holds buffers of 2 ^ (i + 6) bytes.
use native.Mathlib.Nat.{pow-le-pow_right}
use native.Mathlib.Omega.{pow_step}
use rawcon.Common.{
  ℕ, zero, suc, ◌+◌, ◌-◌, ◌*◌, ◌/◌, ◌%◌, ◌^◌, ◌≤◌, ◌<◌, ◌≡◌, refl, ◌∙◌, arith, ◌⊎◌, inl, inr, ◌==◌,
  ltb, if◌then◌else◌, Bool-cases,
}

-- The loop of getIndex: how many bits `n` has, and how many of them are set. It halves `n`, so `n`
-- rounds are enough.
unfoldable pub bit_loop : ℕ → ℕ → ℕ → ℕ → ℕ × ℕ
bit_loop zero n ret ones = (ret, ones)
bit_loop (suc fuel) zero ret ones = (ret, ones)
bit_loop (suc fuel) (suc n) ret ones = bit_loop fuel (suc n / 2) (ret + 1) (ones + suc n % 2)

abbrev pub class_of : ℕ × ℕ → ℕ
class_of (ret, ones) =
    let bits = if ltb 1 ones then ret + 1 else ret in if ltb bits 7 then 0 else bits - 7

unfoldable pub get_index : ℕ → ℕ
get_index n = class_of (bit_loop n n 0 0)

-- `n` has `j + 1` bits, of which `c` are set.
record Bits (n j c : ℕ) : Type 0 where
  low : 2 ^ j ≤ n
  high : n < 2 * 2 ^ j
  one_set : 1 ≤ c
  power : (c ≡ 1 × n ≡ 2 ^ j) ⊎ (1 < c × 2 ^ j < n)

pair_path : {a b c d : ℕ} → a ≡ c → b ≡ d → Path (ℕ × ℕ) (a, b) (c, d)
pair_path h k = rw (h, k)

-- From the bits of `n / 2` to those of `n`.
Bits-double : (n j c : ℕ) → Bits (n / 2) j c → Bits n (suc j) (c + n % 2)
Bits-double n j c half =
    let twice : 2 ^ suc j ≡ 2 * 2 ^ j = pow_step 2 j in
    let low = half.low in
    let high = half.high in
    record {
      low = omega arith;
      high = omega arith;
      one_set = omega (arith, half.one_set);
      power = elim half.power [
        | inl (one, same) ↦ elim (mod-two n) [
          | inl even ↦ inl (omega arith, omega arith)
          | inr odd ↦ inr (omega arith, omega arith)
        ]
        | inr (more, above) ↦ inr (omega arith, omega arith)
      ];
    }
  where
    mod-two : (m : ℕ) → (m % 2 ≡ 0) ⊎ (m % 2 ≡ 1)
    mod-two m = elim (Bool-cases (m % 2 == 0)) [
      | inl e ↦ inl (ground arith)
      | inr e ↦ inr (ground arith)
    ]

bit_loop-zero : (fuel ret ones : ℕ) → bit_loop fuel 0 ret ones ≡ (ret, ones)
unfolding bit_loop
bit_loop-zero zero ret ones = refl
bit_loop-zero (suc fuel) ret ones = refl

bit_loop_lem :
    (fuel n ret ones : ℕ)
    → 0 < n
    → n ≤ fuel
    → (j : ℕ) × (c : ℕ) × (bit_loop fuel n ret ones ≡ (ret + suc j, ones + c)) × Bits n j c
unfolding bit_loop
bit_loop_lem zero n ret ones some room = absurd (omega arith)
bit_loop_lem (suc fuel) zero ret ones some room = absurd (omega arith)
bit_loop_lem (suc fuel) (suc n) ret ones some room = elim (Bool-cases (suc n / 2 == 0)) [
  | inl last ↦
      let none : suc n / 2 ≡ 0 = ground arith in
      let stop : bit_loop fuel (suc n / 2) (ret + 1) (ones + suc n % 2)
          ≡ (ret + 1, ones + suc n % 2) =
        rw none (bit_loop-zero fuel (ret + 1) (ones + suc n % 2)) in
      let single : suc n ≡ 1 = omega arith in
      (
        0,
        1,
        stop ∙ pair_path (omega arith) (omega arith),
        record {
          low = omega arith;
          high = omega arith;
          one_set = omega arith;
          power = inl (refl, omega arith);
        },
      )
  | inr more ↦
      let left : 0 < suc n / 2 = ground arith in
      let (j, c, e, half) =
        bit_loop_lem fuel (suc n / 2) (ret + 1) (ones + suc n % 2) left (omega arith) in
      (
        suc j,
        c + suc n % 2,
        e ∙ pair_path (omega arith) (omega arith),
        Bits-double (suc n) j c half,
      )
]

abbrev pub IsClass : ℕ → ℕ → Type 0
IsClass n i = (i < 11) × (n ≤ 2 ^ (i + 6)) × ((k : ℕ) → k < i → 2 ^ (k + 6) < n)

pow : (i k : ℕ) → i ≤ k → 2 ^ i ≤ 2 ^ k
pow i k h = pow-le-pow_right {n = 2} (omega arith) {i = i} {j = k} h

double : (k : ℕ) → (0 < 2 ^ k) × (2 ^ suc k ≡ 2 * 2 ^ k)
double k = (pow 0 k (omega arith), pow_step 2 k)

power-IsClass : (n j : ℕ) → n ≡ 2 ^ j → n ≤ 65536 → IsClass n (suc j - 7)
power-IsClass n j same most =
    let bound : j < 17 = elim (Bool-cases (ltb j 17)) [
      | inl small ↦ ground arith
      | inr big ↦ absurd (omega (arith, pow (17) (j) (ground arith)))
    ] in
    (
      omega arith,
      omega (arith, pow (j) (suc j - 7 + 6) (omega arith)),
      λ k below. omega (arith, double (k + 6), pow (suc (k + 6)) (j) (omega arith)),
    )

between-IsClass : (n j : ℕ) → 2 ^ j < n → n < 2 * 2 ^ j → n ≤ 65536 → IsClass n (suc j + 1 - 7)
between-IsClass n j above high most =
    let bound : j < 16 = elim (Bool-cases (ltb j 16)) [
      | inl small ↦ ground arith
      | inr big ↦ absurd (omega (arith, pow (16) (j) (ground arith)))
    ] in
    (
      omega arith,
      omega (arith, double j, pow (suc j) (suc j + 1 - 7 + 6) (omega arith)),
      λ k below. omega (arith, pow (k + 6) (j) (omega arith)),
    )

-- A request of 1 to 65536 bytes gets one of the eleven classes, its buffers are long enough for it,
-- and those of every smaller class are shorter than it.
pub get_index-IsClass : (n : ℕ) → 0 < n → n ≤ 65536 → IsClass n (get_index n)
unfolding get_index
get_index-IsClass n some most =
    let (j, c, e, bits) = bit_loop_lem n n 0 0 some (omega arith) in
    elim bits.power [
      | inl (one, same) ↦
          let idx : class_of (0 + suc j, 0 + c) ≡ suc j - 7 = ground arith in
          rw (e, idx) (power-IsClass n j same most)
      | inr (more, above) ↦
          let idx : class_of (0 + suc j, 0 + c) ≡ suc j + 1 - 7 = ground arith in
          rw (e, idx) (between-IsClass n j above bits.high most)
    ]
