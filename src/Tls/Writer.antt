-- ===== src/Tls/Writer.antt =====
-- The slice `z` of the marshal methods: a fresh buffer of zeros that is filled from the front. What
-- has been written, and how many zero bytes are left.
use rawcon.Common.{
  ℕ, ◌+◌, ◌-◌, ◌≤◌, ◌≡◌, refl, sym, ap, ◌∙◌, arith, List, [], ◌∷◌, ◌++◌, append_assoc, append-nil,
  length, length-append, take, take_all, Bool-cases, inl, inr, replicate, leb, ltb, if◌then◌else◌,
  ◌*◌, Bool, true, false, ◌/◌,
}
use rawcon.Common.Go.{Go, ok, panic, ◌>>=◌}
use rawcon.Common.Bytes.{Bytes, bytes16, u8}
use rawcon.Tls.{Reject}

pub record Cursor : Type 0 where
  pub written : Bytes
  pub room : ℕ

-- Writes to `z[0]`, `z[1]`, … and then `z = z[n:]`; past the end of the buffer each of these panics.
unfoldable pub emit : Bytes → Cursor → Go Reject Cursor
emit bs c =
    if leb (length bs) c.room
    then ok (record { written = c.written ++ bs; room = c.room - length bs })
    else panic

-- `z = z[copy(z, src):]`: what does not fit is left out.
unfoldable pub emit_copy : Bytes → Cursor → Go Reject Cursor
emit_copy src c = emit (take c.room src) c

-- One write after the other; a part that is left out is an empty piece.
unfoldable pub emit_all : List Bytes → Cursor → Go Reject Cursor
emit_all [] c = ok c
emit_all (bs ∷ pieces) c = do c' ← emit bs c; emit_all pieces c'

abbrev pub opt : Bool → Bytes → Bytes
opt b bs = if b then bs else []

-- The whole buffer.
unfoldable pub contents : Cursor → Bytes
contents c = c.written ++ replicate c.room 0

abbrev pub fresh : ℕ → Cursor
fresh n = record { written = []; room = n }

-- `copy(x[a:a+n], src)` into `n` zeros.
abbrev pub padded : ℕ → Bytes → Bytes
padded n src = take n src ++ replicate (n - length src) 0

-- The numbers of extensions and of their bytes, `numExtensions` and `extensionsLength`.
abbrev pub Sizes : Type 0
Sizes = ℕ × ℕ

unfoldable pub count : Bool → ℕ → Sizes → Sizes
count present n s = if present then (s.0 + 1, s.1 + n) else s

-- `extensionsLength += 4 * numExtensions; length += 2 + extensionsLength`
abbrev pub block_len : Sizes → ℕ
block_len s = s.1 + 4 * s.0

abbrev pub total_len : ℕ → Sizes → ℕ
total_len fixed s = if ltb 0 s.0 then fixed + (2 + block_len s) else fixed

abbrev pub concat : List Bytes → Bytes
concat [] = []
concat (bs ∷ pieces) = bs ++ concat pieces

-- Pieces that fit are written one behind the other.
emit_all_lem :
    (pieces : List Bytes) (w : Bytes) (room : ℕ)
    → length (concat pieces) ≤ room
    → emit_all pieces (record { written = w; room = room })
      ≡ ok (record { written = w ++ concat pieces; room = room - length (concat pieces) })
unfolding emit_all emit
emit_all_lem [] w room h =
    ap (λ t. ok (record { written = t; room = room })) (sym (append-nil w))
    ∙ ap (λ (t : ℕ). ok (record { written = w ++ []; room = t })) (omega arith)
emit_all_lem (bs ∷ pieces) w room h =
    let size = length-append bs (concat pieces) in
    let fits : leb (length bs) room ≡ true = ground (arith, size) in
    let left : room - length bs - length (concat pieces) ≡ room - length (bs ++ concat pieces) =
      omega (arith, size) in
    rw (
      fits,
      emit_all_lem pieces (w ++ bs) (room - length bs) (omega (arith, size)),
      left,
      append_assoc w bs (concat pieces),
    )

-- Pieces that are as long as the buffer fill it.
pub emit_all-fills :
    (pieces : List Bytes) (n : ℕ)
    → n ≡ length (concat pieces)
    → (c : Cursor) × (emit_all pieces (fresh n) ≡ ok c) × (contents c ≡ concat pieces)
unfolding contents
emit_all-fills pieces n h = (
  _,
  emit_all_lem pieces [] n (omega arith),
  let none' : n - length (concat pieces) ≡ 0 = omega arith in rw none' (append-nil (concat pieces)),
)

-- Counting an extension of `n` bytes counts the bytes of its block, header included.
pub count_lem :
    (b : Bool) (n : ℕ) (s : Sizes) (bs : Bytes)
    → (b ≡ true → length bs ≡ 4 + n)
    → (block_len (count b n s) ≡ block_len s + length (opt b bs))
      × (s.0 ≤ (count b n s).0)
      × ((count b n s).0 ≡ s.0 → length (opt b bs) ≡ 0)
unfolding count
count_lem true n s bs h = let e = h refl in omega arith
count_lem false n s bs h = omega arith

abbrev pub sum_len : List Bytes → ℕ
sum_len [] = 0
sum_len (bs ∷ pieces) = length bs + sum_len pieces

pub length-concat : (pieces : List Bytes) → length (concat pieces) ≡ sum_len pieces
length-concat [] = refl
length-concat (bs ∷ pieces) = omega (arith, length-append bs (concat pieces), length-concat pieces)

-- An extension as the wire has it: type, length, data.
unfoldable pub extension_bytes : ℕ → Bytes → Bytes
extension_bytes id body = bytes16 id ++ (bytes16 (length body) ++ body)

-- Vectors of TLS: the length in one byte or in two, and the bytes.
abbrev pub vec8 : Bytes → Bytes
vec8 b = u8 (length b) ∷ b

abbrev pub vec16 : Bytes → Bytes
vec16 b = bytes16 (length b) ++ b

-- A handshake message: its type, its length in three bytes, and its body.
abbrev pub handshake : ℕ → Bytes → Bytes
handshake type body =
    type ∷ u8 (length body / 65536) ∷ u8 (length body / 256) ∷ u8 (length body) ∷ body

-- The extensions of a hello, which is left out where there are none.
abbrev pub extension_block : Bytes → Bytes
extension_block exts = if ltb 0 (length exts) then vec16 exts else []

-- The two bytes of `extensionsLength` and the extensions are such a block.
pub extension_block_lem :
    (s : Sizes) (exts : Bytes)
    → block_len s ≡ length exts
    → (s.0 ≡ 0 → length exts ≡ 0)
    → opt (ltb 0 s.0) (bytes16 (block_len s)) ++ exts ≡ extension_block exts
extension_block_lem s exts same empty = elim (Bool-cases (ltb 0 s.0)) [
  | inl more ↦ let any : ltb 0 (length exts) ≡ true = ground arith in rw (more, any, same)
  | inr none' ↦
      let nothing : length exts ≡ 0 = empty (ground arith) in
      let test : ltb 0 (length exts) ≡ false = ground arith in
      rw (none', test, length-zero exts nothing)
]
  where
    length-zero : (b : Bytes) → length b ≡ 0 → b ≡ []
    length-zero [] h = refl
    length-zero (x ∷ b) h = absurd (omega arith)

pub padded_full : (n : ℕ) (b : Bytes) → length b ≡ n → padded n b ≡ b
padded_full n b h =
    let left : n - length b ≡ 0 = omega arith in
    rw (take_all n b (omega arith), left) (append-nil b)

pub total_len_lem :
    (fixed : ℕ) (s : Sizes) (exts : Bytes)
    → block_len s ≡ length exts
    → (s.0 ≡ 0 → length exts ≡ 0)
    → total_len fixed s ≡ fixed + length (opt (ltb 0 s.0) (bytes16 (block_len s))) + length exts
total_len_lem fixed s exts same empty = ground arith
