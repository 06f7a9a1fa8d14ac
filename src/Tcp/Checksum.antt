-- ===== src/Tcp/Checksum.antt =====
-- raw_linux.go, csum: the Internet checksum over the pseudo header and the segment.
pub mod Verify
use mathlib.Core.Logic.{dite}
use mathlib.Core.WellFounded.{Acc}
use rawcon.Common.{
  ℕ, zero, suc, ◌+◌, ◌-◌, ◌*◌, ◌/◌, ◌%◌, ◌<◌, arith, Option, none, some, List, [], ◌∷◌, ◌++◌,
  length, ◌==◌, ◌&&◌, if◌then◌else◌, dec_lt,
}
use rawcon.Common.Order.{lt_wf}
use rawcon.Common.Go.{Go, ok, panic}
use rawcon.Common.Bytes.{Bytes, u16, u32, be16, bytes16}
use rawcon.Tcp.{Error}

-- `net.IP.To4`: an address of four bytes, or the last four of an IPv4-mapped one of sixteen.
unfoldable pub to4 : Bytes → Option Bytes
to4 (a ∷ b ∷ c ∷ d ∷ []) = some (a ∷ b ∷ c ∷ d ∷ [])
to4 (z0 ∷ z1 ∷ z2 ∷ z3 ∷ z4 ∷ z5 ∷ z6 ∷ z7 ∷ z8 ∷ z9 ∷ f0 ∷ f1 ∷ a ∷ b ∷ c ∷ d ∷ []) =
    if z0 + z1 + z2 + z3 + z4 + z5 + z6 + z7 + z8 + z9 == 0 && f0 == 255 && f1 == 255
    then some (a ∷ b ∷ c ∷ d ∷ [])
    else none
to4 _ = none

-- The function `f` of csum: the uint32 `sum` grows by each pair of bytes, the last one padded.
unfoldable pub sum_words : ℕ → Bytes → ℕ
sum_words sum [] = sum
sum_words sum (x ∷ []) = u32 (sum + be16 x 0)
sum_words sum (x ∷ y ∷ b) = sum_words (u32 (sum + be16 x y)) b

pub fold_shrinks : (n : ℕ) → 0 < n / 65536 → n % 65536 + n / 65536 < n
fold_shrinks n h = omega arith

-- `for sum>>16 != 0 { sum = (sum & 0xffff) + (sum >> 16) }`
unfoldable pub fold_loop : (n : ℕ) → Acc ◌<◌ n → ℕ
fold_loop n (Acc.intro _ smaller) =
    dite (dec_lt 0 (n / 65536))
      (λ more. fold_loop (n % 65536 + n / 65536) (smaller _ (fold_shrinks n more))) (λ _. n)

unfoldable pub fold_carries : ℕ → ℕ
unfolding fold_loop lt_wf dec_lt
fold_carries n = fold_loop n (lt_wf.apply n)

unfoldable pub pseudo_header : Bytes → Bytes → ℕ → Bytes
pseudo_header srcip dstip len = srcip ++ (dstip ++ (0 ∷ 6 ∷ bytes16 (u16 len)))

-- `uint16(^sum)` of a uint32.
abbrev pub complement : ℕ → ℕ
complement sum = u16 (4294967295 - sum)

unfoldable pub csum_of : Bytes → Bytes → Bytes → ℕ
csum_of segment srcip dstip =
    complement
      (fold_carries (sum_words (sum_words 0 (pseudo_header srcip dstip (length segment))) segment))

-- `To4` of no IPv4 address is nil, and `srcip[0]` of that panics.
unfoldable pub csum : Bytes → Bytes → Bytes → Go Error ℕ
csum segment srcip dstip = elim (to4 srcip) [
  | none ↦ panic
  | some s ↦ elim (to4 dstip) [ none ↦ panic | some d ↦ ok (csum_of segment s d) ]
]
