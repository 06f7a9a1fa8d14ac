-- ===== src/Tcp/Checksum/Verify.antt =====
-- raw_linux.go, csum: a segment that carries its checksum sums up to zero.
use mathlib.Core.WellFounded.{Acc}
use rawcon.Common.{
  ℕ, ◌+◌, ◌*◌, ◌/◌, ◌%◌, ◌≤◌, ◌<◌, ◌≡◌, ap, ◌∙◌, arith, some, [], ◌∷◌, ◌++◌, length, length-append,
  All,
}
use rawcon.Common.Order.{lt_wf}
use rawcon.Common.Go.{ok}
use rawcon.Common.Bytes.{Bytes, IsByte, IsU16, u16, u32, be16, bytes16}
use rawcon.Tcp.Checksum.{
  to4, sum_words, fold_loop, fold_carries, pseudo_header, complement, csum_of, csum, fold_shrinks,
}

-- The sum of the words as a number of any size.
word_sum : Bytes → ℕ
word_sum [] = 0
word_sum (x ∷ []) = be16 x 0
word_sum (x ∷ y ∷ b) = be16 x y + word_sum b

word_sum-le : (b : Bytes) → All IsByte b → word_sum b * 2 ≤ 65535 * (length b + 1)
unfolding word_sum
word_sum-le [] h = omega arith
word_sum-le (x ∷ []) h = omega arith
word_sum-le (x ∷ y ∷ b) h = omega (arith, word_sum-le b h.1.1)

sum_words-eq :
    (sum : ℕ) (b : Bytes) → sum + word_sum b < 4294967296 → sum_words sum b ≡ sum + word_sum b
unfolding sum_words word_sum
sum_words-eq sum [] h = omega arith
sum_words-eq sum (x ∷ []) h = omega arith
sum_words-eq sum (x ∷ y ∷ b) h =
    let fits : u32 (sum + be16 x y) ≡ sum + be16 x y = omega arith in
    rw fits (sum_words-eq (sum + be16 x y) b (omega arith) ∙ omega arith)

-- Folding the carries keeps the value modulo 65535, and a sum above zero stays above zero.
fold_loop_lem :
    (n : ℕ) (w : Acc ◌<◌ n)
    → (fold_loop n w < 65536) × (fold_loop n w % 65535 ≡ n % 65535) × (0 < n → 0 < fold_loop n w)
unfolding fold_loop
fold_loop_lem n (Acc.intro _ smaller) = grind (
  arith,
  λ (p : 0 < n / 65536). fold_loop_lem (n % 65536 + n / 65536) (smaller _ (fold_shrinks n p)),
)

pub fold_carries_lem :
    (n : ℕ)
    → (fold_carries n < 65536) × (fold_carries n % 65535 ≡ n % 65535) × (0 < n → 0 < fold_carries n)
unfolding fold_carries
fold_carries_lem n = fold_loop_lem n (lt_wf.apply n)

-- Adding the complement of a folded sum gives a sum that folds to all ones.
complement_cancels :
    (n : ℕ) → 0 < n → complement (fold_carries (n + complement (fold_carries n))) ≡ 0
complement_cancels n h = omega (
  arith,
  fold_carries_lem n,
  (fold_carries_lem n).2 h,
  fold_carries_lem (n + complement (fold_carries n)),
  (fold_carries_lem (n + complement (fold_carries n))).2 (omega arith),
)

word_sum-append : (a b : Bytes) → length a % 2 ≡ 0 → word_sum (a ++ b) ≡ word_sum a + word_sum b
unfolding word_sum
word_sum-append [] b h = omega arith
word_sum-append (x ∷ []) b h = absurd (omega arith)
word_sum-append (x ∷ y ∷ a) b h = omega (arith, word_sum-append a b (omega arith))

-- The segment around the two bytes of its checksum field.
abbrev with_field : Bytes → ℕ → Bytes → Bytes
with_field front c back = front ++ (bytes16 c ++ back)

length-with_field :
    (front back : Bytes) (c : ℕ)
    → length (with_field front c back) ≡ length front + (length back + 2)
length-with_field front back c = omega (arith, length-append front (bytes16 c ++ back))

word_sum-with_field :
    (front back : Bytes) (c : ℕ)
    → length front % 2 ≡ 0
    → IsU16 c
    → word_sum (with_field front c back) ≡ word_sum front + (c + word_sum back)
unfolding word_sum
word_sum-with_field front back c even h =
    omega (arith, word_sum-append front (bytes16 c ++ back) even)

pub to4_lem : (ip s : Bytes) → to4 ip ≡ some s → All IsByte ip → (length s ≡ 4) × All IsByte s
unfolding to4
to4_lem (a ∷ b ∷ c ∷ d ∷ []) s e h = ground arith
to4_lem (z0 ∷ z1 ∷ z2 ∷ z3 ∷ z4 ∷ z5 ∷ z6 ∷ z7 ∷ z8 ∷ z9 ∷ f0 ∷ f1 ∷ a ∷ b ∷ c ∷ d ∷ []) s e h =
    ground arith
to4_lem _ s e h = cc

pseudo_header_lem :
    (s d : Bytes) (n : ℕ)
    → (length s ≡ 4) × All IsByte s
    → (length d ≡ 4) × All IsByte d
    → (0 < word_sum (pseudo_header s d n)) × (word_sum (pseudo_header s d n) ≤ 6 * 65536)
unfolding pseudo_header word_sum
pseudo_header_lem s d n hs hd = omega (
  arith,
  word_sum-append s (d ++ (0 ∷ 6 ∷ bytes16 (u16 n))) (omega arith),
  word_sum-append d (0 ∷ 6 ∷ bytes16 (u16 n)) (omega arith),
  word_sum-le s hs.1,
  word_sum-le d hd.1,
)

csum_of-eq :
    (b s d : Bytes)
    → (length s ≡ 4) × All IsByte s
    → (length d ≡ 4) × All IsByte d
    → word_sum b ≤ 4000000000
    → csum_of b s d
      ≡ complement (fold_carries (word_sum (pseudo_header s d (length b)) + word_sum b))
unfolding csum_of
csum_of-eq b s d hs hd h =
    let (_, small) = pseudo_header_lem s d (length b) hs hd in
    let pseudo : ℕ = sum_words 0 (pseudo_header s d (length b)) in
    let first : pseudo ≡ word_sum (pseudo_header s d (length b)) =
      sum_words-eq 0 (pseudo_header s d (length b)) (omega arith) ∙ omega arith in
    let both : sum_words pseudo b ≡ word_sum (pseudo_header s d (length b)) + word_sum b =
      sum_words-eq pseudo b (omega arith) ∙ omega arith in
    ap (λ (t : ℕ). complement (fold_carries t)) both

csum_of-verifies :
    (front back s d : Bytes)
    → length front % 2 ≡ 0
    → length front + length back ≤ 65000
    → All IsByte front × All IsByte back
    → (length s ≡ 4) × All IsByte s
    → (length d ≡ 4) × All IsByte d
    → csum_of (with_field front (csum_of (with_field front 0 back) s d) back) s d ≡ 0
csum_of-verifies front back s d even short bytes hs hd =
    let c : ℕ = csum_of (with_field front 0 back) s d in
    let lf = word_sum-le front bytes.0 in
    let lb = word_sum-le back bytes.1 in
    let total : ℕ → ℕ = λ k.
      word_sum (pseudo_header s d (length front + (length back + 2)))
      + (word_sum front + (k + word_sum back)) in
    let at : (k : ℕ)
        → IsU16 k
        → csum_of (with_field front k back) s d ≡ complement (fold_carries (total k)) =
      λ k hk.
        rw (← length-with_field front back k, ← word_sum-with_field front back k even hk)
          (csum_of-eq (with_field front k back) s d hs hd
            (omega (arith, word_sum-with_field front back k even hk))) in
    let hc : c ≡ complement (fold_carries (total 0)) = at 0 (omega arith) in
    let sum : total c ≡ total 0 + complement (fold_carries (total 0)) = omega arith in
    at c (omega arith)
    ∙ ap (λ (t : ℕ). complement (fold_carries t)) sum
    ∙ complement_cancels (total 0)
        (omega (arith, pseudo_header_lem s d (length front + (length back + 2)) hs hd))

pub csum_ok :
    (b srcip dstip : Bytes) {c : ℕ}
    → csum b srcip dstip ≡ ok c
    → (s : Bytes) × (d : Bytes) × (to4 srcip ≡ some s) × (to4 dstip ≡ some d) × (csum_of b s d ≡ c)
unfolding csum
csum_ok b srcip dstip h = ground arith

pub csum-eq :
    (b srcip dstip s d : Bytes)
    → to4 srcip ≡ some s
    → to4 dstip ≡ some d
    → csum b srcip dstip ≡ ok (csum_of b s d)
unfolding csum
csum-eq b srcip dstip s d hs hd = ground arith

-- Written into its field, the checksum that csum gives of a segment with a zero field makes csum
-- of the whole segment zero, which is the test that a receiver makes.
pub csum_verifies :
    (front back srcip dstip : Bytes) (c : ℕ)
    → length front % 2 ≡ 0
    → length front + length back ≤ 65000
    → All IsByte front × All IsByte back × All IsByte srcip × All IsByte dstip
    → csum (front ++ (bytes16 0 ++ back)) srcip dstip ≡ ok c
    → csum (front ++ (bytes16 c ++ back)) srcip dstip ≡ ok 0
csum_verifies front back srcip dstip c even short bytes h =
    let (s, d, hs, hd, e) = csum_ok (with_field front 0 back) srcip dstip h in
    rw (← e) (
      csum-eq _ srcip dstip s d hs hd
      ∙ ap ok (
          csum_of-verifies front back s d even short (bytes.0, bytes.1) (to4_lem srcip s hs bytes.2)
            (to4_lem dstip d hd bytes.3)))
