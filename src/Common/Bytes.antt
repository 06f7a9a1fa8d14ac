-- ===== src/Common/Bytes.antt =====
-- Byte slices as lists of numbers below 256, and Go's checked reads and writes of them.
use rawcon.Common.{
  ℕ, zero, suc, ◌+◌, ◌*◌, ◌/◌, ◌%◌, ◌≤◌, ◌<◌, ◌≡◌, refl, ap, arith, some, List, [], ◌∷◌, ◌++◌, leb,
  if◌then◌else◌, length, length-append, get_elem?, take, drop, take_length_append,
  drop_length_append,
}
use rawcon.Common.Go.{Go, ok, panic, ◌>>=◌, Safe, Ends, Ends-if}

abbrev pub Bytes : Type 0
Bytes = List ℕ

abbrev pub IsByte : ℕ → Type 0
IsByte b = b < 256

abbrev pub IsU16 : ℕ → Type 0
IsU16 n = n < 65536

abbrev pub IsU32 : ℕ → Type 0
IsU32 n = n < 4294967296

-- `uint8(n)`, `uint16(n)`, `uint32(n)`
abbrev pub u8 : ℕ → ℕ
u8 n = n % 256

abbrev pub u16 : ℕ → ℕ
u16 n = n % 65536

abbrev pub u32 : ℕ → ℕ
u32 n = n % 4294967296

-- `binary.BigEndian.Uint16` of two bytes, and `Uint32` of four.
abbrev pub be16 : ℕ → ℕ → ℕ
be16 hi lo = hi * 256 + lo

abbrev pub be32 : ℕ → ℕ → ℕ → ℕ → ℕ
be32 a b c d = a * 16777216 + b * 65536 + c * 256 + d

-- The bytes that `PutUint16` and `PutUint32` write.
abbrev pub bytes16 : ℕ → Bytes
bytes16 n = (n / 256 % 256) ∷ (n % 256) ∷ []

abbrev pub bytes32 : ℕ → Bytes
bytes32 n = (n / 16777216 % 256) ∷ (n / 65536 % 256) ∷ (n / 256 % 256) ∷ (n % 256) ∷ []

module _ {E : Type 0} where
  -- `b[i]`
  abbrev pub index : Bytes → ℕ → Go E ℕ
  index [] i = panic
  index (x ∷ xs) zero = ok x
  index (x ∷ xs) (suc i) = index xs i

  pub index_in_range :
      (b : Bytes) (i : ℕ) → i < length b → (v : ℕ) × (index b i ≡ ok v) × (get_elem? b i ≡ some v)
  index_in_range [] i h = absurd (omega arith)
  index_in_range (x ∷ xs) zero h = (x, refl, refl)
  index_in_range (x ∷ xs) (suc i) h = index_in_range xs i (omega arith)

  pub index-Safe {κ} :
      {A : Type κ} (b : Bytes) (i : ℕ) (f : ℕ → Go E A)
      → i < length b
      → ((v : ℕ) → Safe (f v))
      → Safe (index b i >>= f)
  index-Safe [] i f h k = absurd (omega arith)
  index-Safe (x ∷ xs) zero f h k = k x
  index-Safe (x ∷ xs) (suc i) f h k = index-Safe xs i f (omega arith) k

  -- `b[n:]`, and `b[:n]` of a slice whose capacity is its length
  unfoldable pub slice_from : Bytes → ℕ → Go E Bytes
  slice_from b n = if leb n (length b) then ok (drop n b) else panic

  unfoldable pub slice_to : Bytes → ℕ → Go E Bytes
  slice_to b n = if leb n (length b) then ok (take n b) else panic

  -- `b[n:m]`
  unfoldable pub slice : Bytes → ℕ → ℕ → Go E Bytes
  slice b n m =
      if leb n m then (if leb m (length b) then ok (drop n (take m b)) else panic) else panic

  pub slice_from_lem : (b : Bytes) (n : ℕ) → n ≤ length b → slice_from b n ≡ ok (drop n b)
  unfolding slice_from
  slice_from_lem b n h = ground arith

  pub slice_to_lem : (b : Bytes) (n : ℕ) → n ≤ length b → slice_to b n ≡ ok (take n b)
  unfolding slice_to
  slice_to_lem b n h = ground arith

  pub slice_lem :
      (b : Bytes) (n m : ℕ) → n ≤ m → m ≤ length b → slice b n m ≡ ok (drop n (take m b))
  unfolding slice
  slice_lem b n m h k = ground arith

  -- What a successful slice is.
  pub slice_from-ok :
      (b : Bytes) (n : ℕ) {c : Bytes} → slice_from b n ≡ ok c → (n ≤ length b) × (c ≡ drop n b)
  unfolding slice_from
  slice_from-ok b n h = ground arith

  pub slice-ok :
      (b : Bytes) (n m : ℕ) {c : Bytes}
      → slice b n m ≡ ok c
      → (n ≤ m) × (m ≤ length b) × (c ≡ drop n (take m b))
  unfolding slice
  slice-ok b n m h = ground arith

  pub slice_from-Safe {κ} :
      {A : Type κ} (b : Bytes) (n : ℕ) (f : Bytes → Go E A)
      → n ≤ length b
      → Safe (f (drop n b))
      → Safe (slice_from b n >>= f)
  slice_from-Safe b n f h k = rw (slice_from_lem b n h) k

  pub slice_to-Safe {κ} :
      {A : Type κ} (b : Bytes) (n : ℕ) (f : Bytes → Go E A)
      → n ≤ length b
      → Safe (f (take n b))
      → Safe (slice_to b n >>= f)
  slice_to-Safe b n f h k = rw (slice_to_lem b n h) k

  pub slice_backwards : (b : Bytes) (n m : ℕ) → m < n → slice b n m ≡ panic
  unfolding slice
  slice_backwards b n m h = ground arith

  pub slice_from_append : (a b : Bytes) → slice_from (a ++ b) (length a) ≡ ok b
  slice_from_append a b =
      rw (slice_from_lem (a ++ b) (length a) (omega (arith, length-append a b)))
        (ap ok (drop_length_append a b))

  pub slice_to_append : (a b : Bytes) → slice_to (a ++ b) (length a) ≡ ok a
  slice_to_append a b =
      rw (slice_to_lem (a ++ b) (length a) (omega (arith, length-append a b)))
        (ap ok (take_length_append a b))

  -- `b[i] = v`
  abbrev pub put : Bytes → ℕ → ℕ → Go E Bytes
  put [] i v = panic
  put (x ∷ xs) zero v = ok (v ∷ xs)
  put (x ∷ xs) (suc i) v = do r ← put xs i v; ok (x ∷ r)

  -- `PutUint16(b[i:], v)`
  unfoldable pub put16 : Bytes → ℕ → ℕ → Go E Bytes
  put16 b i v = do b' ← put b i (v / 256 % 256); put b' (suc i) (v % 256)

  pub put-append :
      (front : Bytes) (x : ℕ) (b : Bytes) (v : ℕ)
      → put (front ++ (x ∷ b)) (length front) v ≡ ok (front ++ (v ∷ b))
  put-append [] x b v = refl
  put-append (y ∷ front) x b v = rw (put-append front x b v)

module _ {E : Type 0} where
  pub slice-Safe {κ} :
      {A : Type κ} (b : Bytes) (n m : ℕ) (f : Bytes → Go E A)
      → n ≤ m
      → m ≤ length b
      → Safe (f (drop n (take m b)))
      → Safe (slice b n m >>= f)
  slice-Safe b n m f h l k = rw (slice_lem b n m h l) k

module _ (E : Type 0) where
  pub index-Ends : (b : Bytes) (i : ℕ) → Ends {E = E} (index b i)
  index-Ends [] i = tt
  index-Ends (x ∷ xs) zero = tt
  index-Ends (x ∷ xs) (suc i) = index-Ends xs i

  pub slice_from-Ends : (b : Bytes) (n : ℕ) → Ends {E = E} (slice_from b n)
  unfolding slice_from
  slice_from-Ends b n = Ends-if (leb n (length b)) _ _ (λ _. tt) (λ _. tt)

  pub slice_to-Ends : (b : Bytes) (n : ℕ) → Ends {E = E} (slice_to b n)
  unfolding slice_to
  slice_to-Ends b n = Ends-if (leb n (length b)) _ _ (λ _. tt) (λ _. tt)

  pub slice-Ends : (b : Bytes) (n m : ℕ) → Ends {E = E} (slice b n m)
  unfolding slice
  slice-Ends b n m =
      Ends-if (leb n m) _ _ (λ _. Ends-if (leb m (length b)) _ _ (λ _. tt) (λ _. tt)) (λ _. tt)

-- `copy(b, src)`: as many bytes as both have room for.
abbrev pub copy : Bytes → Bytes → Bytes
copy [] src = []
copy (x ∷ xs) [] = x ∷ xs
copy (x ∷ xs) (s ∷ ss) = s ∷ copy xs ss

-- `copy(b[i:], src)`
abbrev pub copy_at : Bytes → ℕ → Bytes → Bytes
copy_at b zero src = copy b src
copy_at [] (suc i) src = []
copy_at (x ∷ xs) (suc i) src = x ∷ copy_at xs i src

pub length-copy : (b src : Bytes) → length (copy b src) ≡ length b
length-copy [] src = refl
length-copy (x ∷ xs) [] = refl
length-copy (x ∷ xs) (s ∷ ss) = ap suc (length-copy xs ss)

-- A copy that fits replaces the front of the buffer.
pub copy-append :
    (old rest src : Bytes) → length old ≡ length src → copy (old ++ rest) src ≡ src ++ rest
copy-append [] [] [] h = refl
copy-append [] (r ∷ rest) [] h = refl
copy-append [] rest (s ∷ src) h = absurd (omega arith)
copy-append (x ∷ old) rest [] h = absurd (omega arith)
copy-append (x ∷ old) rest (s ∷ src) h = ap (λ t. s ∷ t) (copy-append old rest src (omega arith))

pub copy_at-append :
    (front b src : Bytes) → copy_at (front ++ b) (length front) src ≡ front ++ copy b src
copy_at-append [] b src = refl
copy_at-append (x ∷ front) b src = ap (λ t. x ∷ t) (copy_at-append front b src)

-- Sixteen and thirty-two bits survive being written and read.
pub be16-bytes16 : (n : ℕ) → IsU16 n → be16 (n / 256 % 256) (n % 256) ≡ n
be16-bytes16 n h = omega arith

pub be32-bytes32 :
    (n : ℕ) → IsU32 n → be32 (n / 16777216 % 256) (n / 65536 % 256) (n / 256 % 256) (n % 256) ≡ n
be32-bytes32 n h = omega arith
