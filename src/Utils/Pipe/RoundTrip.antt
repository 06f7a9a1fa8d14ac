-- ===== src/Utils/Pipe/RoundTrip.antt =====
-- utils/utils.go, PipeUDPOverTCP: the stream between the two loops.
use rawcon.Common.{
  ℕ, zero, suc, ◌+◌, ◌-◌, ◌%◌, ◌/◌, ◌≤◌, ◌<◌, ◌≡◌, refl, sym, ap, ◌∙◌, arith, ◌||◌, false, List, [],
  ◌∷◌, ◌++◌, append_assoc, ltb, length, length-append, take, drop, take_length_append,
  drop_length_append, All,
}
use rawcon.Common.Go.{Go, ok}
use rawcon.Common.Bytes.{
  Bytes, bytes16, be16, u16, put, put16, put-append, slice, slice_lem, copy, copy_at, length-copy,
  be16-bytes16,
}
use rawcon.Utils.Cleaner.{Never}
use rawcon.Utils.Pipe.{min_length, to_tcp, all_to_tcp, from_tcp}

-- What travels of a payload.
abbrev pub frame : Bytes → Bytes
frame p = bytes16 (length p) ++ p

copy-fits : (b src : Bytes) → length src ≤ length b → copy b src ≡ src ++ drop (length src) b
copy-fits [] [] h = refl
copy-fits (x ∷ b) [] h = refl
copy-fits [] (s ∷ src) h = absurd (omega arith)
copy-fits (x ∷ b) (s ∷ src) h = ap (λ t. s ∷ t) (copy-fits b src (omega arith))

length-copy_at : (b : Bytes) (i : ℕ) (src : Bytes) → length (copy_at b i src) ≡ length b
length-copy_at b zero src = length-copy b src
length-copy_at [] (suc i) src = refl
length-copy_at (x ∷ b) (suc i) src = ap suc (length-copy_at b i src)

put-second :
    (front : Bytes) (w x : ℕ) (b : Bytes) (v : ℕ)
    → Path
        (Go Never Bytes)
        (put (front ++ (w ∷ x ∷ b)) (suc (length front)) v)
        (ok (front ++ (w ∷ v ∷ b)))
put-second [] w x b v = refl
put-second (y ∷ front) w x b v = rw (put-second front w x b v) refl

put16-append :
    (front : Bytes) (x y : ℕ) (b : Bytes) (v : ℕ)
    → Path
        (Go Never Bytes)
        (put16 (front ++ (x ∷ y ∷ b)) (length front) v)
        (ok (front ++ (bytes16 v ++ b)))
unfolding put16
put16-append front x y b v =
    rw (put-append {E = Never} front x (y ∷ b) (v / 256 % 256))
      (put-second front (v / 256 % 256) y b (v % 256))

slice-middle :
    (front s rest : Bytes) (m : ℕ)
    → m ≡ length front + length s
    → slice {E = Never} (front ++ (s ++ rest)) (length front) m ≡ ok s
slice-middle front s rest m e =
    slice_lem (front ++ (s ++ rest)) (length front) m (omega arith)
      (omega (arith, length-append front (s ++ rest), length-append s rest))
    ∙ ap ok (
        ap (λ t. drop (length front) (take m t)) (sym (append_assoc front s rest))
        ∙ ap (λ t. drop (length front) (take t ((front ++ s) ++ rest)))
            (e ∙ sym (length-append front s))
        ∙ ap (drop (length front)) (take_length_append (front ++ s) rest)
        ∙ drop_length_append front s)

-- The last two bytes before the payload.
record EndsInTwo (h : Bytes) : Type 0 where
  front : Bytes
  x : ℕ
  y : ℕ
  whole : h ≡ front ++ (x ∷ y ∷ [])

last_two : (k : ℕ) (h : Bytes) → length h ≡ suc (suc k) → EndsInTwo h
last_two zero (x ∷ y ∷ []) e = record { front = []; x = x; y = y; whole = refl }
last_two (suc k) (a ∷ h) e =
    let s : EndsInTwo h = last_two k h (omega arith) in
    record { front = a ∷ s.front; x = s.x; y = s.y; whole = ap (λ t. a ∷ t) s.whole }
last_two _ _ e = absurd (omega arith)

-- The buffer once a datagram is read into it.
record Placed (k : ℕ) (p b : Bytes) : Type 0 where
  front : Bytes
  x : ℕ
  y : ℕ
  rest : Bytes
  whole : b ≡ front ++ (x ∷ y ∷ (p ++ rest))
  size : length front ≡ k - 2

placed :
    (k : ℕ) (ubuf h p : Bytes)
    → length h ≡ k
    → (2 - k) + (k + length p) ≤ length ubuf
    → Placed k p (copy_at ubuf (2 - k) (h ++ p))
placed zero (u0 ∷ u1 ∷ u) [] p e room = record {
  front = [];
  x = u0;
  y = u1;
  rest = drop (length p) u;
  whole = ap (λ t. u0 ∷ u1 ∷ t) (copy-fits u p (omega arith));
  size = refl;
}
placed (suc zero) (u0 ∷ u) (a ∷ []) p e room = record {
  front = [];
  x = u0;
  y = a;
  rest = drop (length (a ∷ p)) u;
  whole = ap (λ t. u0 ∷ t) (copy-fits u (a ∷ p) (omega arith));
  size = refl;
}
placed (suc (suc k)) ubuf h p e room =
    let s : EndsInTwo h = last_two k h e in
    let at_start : 2 - suc (suc k) ≡ 0 = omega arith in
    let rest : Bytes = drop (length (h ++ p)) ubuf in
    record {
      front = s.front;
      x = s.x;
      y = s.y;
      rest = rest;
      whole =
          ap (λ t. copy_at ubuf t (h ++ p)) at_start
          ∙ copy-fits ubuf (h ++ p) (omega (arith, length-append h p))
          ∙ ap (λ t. (t ++ p) ++ rest) s.whole
          ∙ ap (λ t. t ++ rest) (append_assoc s.front (s.x ∷ s.y ∷ []) p)
          ∙ append_assoc s.front (s.x ∷ s.y ∷ p) rest;
      size = omega (arith, ap length s.whole, length-append s.front (s.x ∷ s.y ∷ []), e);
    }
placed _ _ _ p e room = absurd (omega arith)

-- One datagram.
to_tcp-frame :
    (k : ℕ) (ubuf h p : Bytes)
    → length h ≡ k
    → k < 65536
    → length p < 65536
    → (2 - k) + (k + length p) ≤ length ubuf
    → (after : Bytes) × (to_tcp k ubuf (h ++ p) ≡ ok (frame p, after))
      × (length after ≡ length ubuf)
unfolding to_tcp
to_tcp-frame k ubuf h p e small short room =
    let q : Placed k p (copy_at ubuf (2 - k) (h ++ p)) = placed k ubuf h p e room in
    let n : min_length (length (h ++ p)) (length ubuf - (2 - k)) ≡ k + length p =
      ground (arith, length-append h p, e) in
    let size : u16 (k + length p + 65536 - k % 65536) ≡ length p = omega arith in
    let last : k - 2 + 2 + (k + length p) - k ≡ length q.front + length (frame p) =
      omega (arith, q.size) in
    let put_in : put16 (copy_at ubuf (2 - k) (h ++ p)) (k - 2) (length p)
        ≡ ok (q.front ++ (frame p ++ q.rest)) =
      ap (λ t. put16 t (k - 2) (length p)) q.whole
      ∙ ap (λ t. put16 (q.front ++ (q.x ∷ q.y ∷ (p ++ q.rest))) t (length p)) (sym q.size)
      ∙ put16-append q.front q.x q.y (p ++ q.rest) (length p) in
    let cut : slice (q.front ++ (frame p ++ q.rest)) (k - 2) (k - 2 + 2 + (k + length p) - k)
        ≡ ok (frame p) =
      ap (λ t. slice (q.front ++ (frame p ++ q.rest)) t (k - 2 + 2 + (k + length p) - k))
        (sym q.size)
      ∙ slice-middle q.front (frame p) q.rest (k - 2 + 2 + (k + length p) - k) last in
    (
      q.front ++ (frame p ++ q.rest),
      rw (n, size, put_in, cut) refl,
      omega (
        arith,
        ap length q.whole,
        length-copy_at ubuf (2 - k) (h ++ p),
        length-append q.front (frame p ++ q.rest),
        length-append q.front (q.x ∷ q.y ∷ (p ++ q.rest)),
      ),
    )

abbrev pub with_header : Bytes → List Bytes → List Bytes
with_header h [] = []
with_header h (p ∷ ps) = (h ++ p) ∷ with_header h ps

abbrev stream_of : List Bytes → Bytes
stream_of [] = []
stream_of (p ∷ ps) = frame p ++ stream_of ps

-- A payload that the buffers of both loops hold, and whose length two bytes hold.
abbrev pub IsCarried : ℕ → ℕ → ℕ → Bytes → Type 0
IsCarried k size room p = (length p < 65536) × ((2 - k) + (k + length p) ≤ size) × (length p ≤ room)

all_to_tcp-stream :
    (k room : ℕ) (ubuf h : Bytes) (ps : List Bytes)
    → length h ≡ k
    → k < 65536
    → All (IsCarried k (length ubuf) room) ps
    → all_to_tcp k ubuf (with_header h ps) ≡ ok (stream_of ps)
unfolding all_to_tcp
all_to_tcp-stream k room ubuf h [] e small fits = refl
all_to_tcp-stream k room ubuf h (p ∷ ps) e small fits =
    let (after, sent, same) = to_tcp-frame k ubuf h p e small fits.0.0 fits.0.1 in
    let others : All (IsCarried k (length after) room) ps = rw same fits.1 in
    rw (sent, all_to_tcp-stream k room after h ps e small others) refl

from_tcp-stream :
    (fuel k size room : ℕ) (pseudo : Bytes) (ps : List Bytes)
    → length (stream_of ps) < fuel
    → 2 ≤ room
    → All (IsCarried k size room) ps
    → from_tcp fuel pseudo room (stream_of ps) ≡ ok (with_header pseudo ps)
unfolding from_tcp
from_tcp-stream zero k size room pseudo ps h two fits = absurd (omega arith)
from_tcp-stream (suc fuel) k size room pseudo [] h two fits =
    let enough : ltb room 2 ≡ false = ground arith in rw enough refl
from_tcp-stream (suc fuel) k size room pseudo (p ∷ ps) h two fits =
    let len : be16 (length p / 256 % 256) (length p % 256) ≡ length p =
      be16-bytes16 (length p) fits.0.0 in
    let whole = length-append p (stream_of ps) in
    let enough : ltb room 2 ≡ false = ground arith in
    let fitting : (ltb room (length p) || ltb (length (p ++ stream_of ps)) (length p)) ≡ false =
      ground (arith, whole, fits.0.2) in
    rw
      (
        len,
        enough,
        fitting,
        take_length_append p (stream_of ps),
        drop_length_append p (stream_of ps),
        from_tcp-stream fuel k size room pseudo ps (omega (arith, whole)) two fits.1,
      )
      refl

-- Datagrams under one pseudo header, which the buffers hold, where the buffer of the second loop has room
-- for two bytes after its own, come out of that loop at the other end in their order and whole, each
-- under the pseudo header of that end, and neither loop panics.
pub pipe-round_trip :
    (k room : ℕ) (ubuf h pseudo : Bytes) (ps : List Bytes)
    → length h ≡ k
    → k < 65536
    → 2 ≤ room
    → All (IsCarried k (length ubuf) room) ps
    → (stream : Bytes) × (all_to_tcp k ubuf (with_header h ps) ≡ ok stream)
      × (from_tcp (suc (length stream)) pseudo room stream ≡ ok (with_header pseudo ps))
pipe-round_trip k room ubuf h pseudo ps e small two fits = (
  stream_of ps,
  all_to_tcp-stream k room ubuf h ps e small fits,
  from_tcp-stream (suc (length (stream_of ps))) k (length ubuf) room pseudo ps (omega arith) two
      fits,
)
