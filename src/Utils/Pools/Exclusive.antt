-- ===== src/Utils/Pools/Exclusive.antt =====
-- utils/buf.go: who holds which buffer, over any sequence of calls that put back what they got.
pub mod Counts
use rawcon.Common.{
  ℕ, ◌+◌, ◌^◌, ◌≤◌, ◌<◌, ◌≡◌, refl, arith, Option, none, some, List, [], ◌∷◌, ◌&&◌, ◌||◌, ◌==◌, ltb,
  leb, get_elem?, if◌then◌else◌, Bool-cases, inl, inr, true,
}
use rawcon.Common.Go.{Go, ok, ◌>>=◌}
use rawcon.Tcp.{Error}
use rawcon.Utils.Buf.{get_index, get_index-IsClass}
use rawcon.Utils.Pools.{
  Slice, Pools, make, reslice, remove, new_buffer, take_out, pool_get, get_buf, put_buf,
}
pub use rawcon.Utils.Pools.Exclusive.Counts.{
  one, outs, helds, HasClass, AllOut, AllHeld, class-HasClass,
}
use rawcon.Utils.Pools.Exclusive.Counts.{
  made-HasClass, helds-remove, outs-remove, helds-lose, AllHeld-remove, AllOut-remove, AllHeld-at,
  AllOut-at,
}

-- The pools, and the slices that callers of GetBuf hold.
pub record World : Type 0 where
  pub pools : Pools
  pub out : List Slice

-- A call of GetBuf; one of PutBuf for a slice that is out, cut to `len` by its holder; a buffer that a
-- pool drops.
pub data Event : Type 0 where
  get : (pick n : ℕ) → Event
  put : (which len : ℕ) → Event
  lose : (which : ℕ) → Event

-- A slice that is not there, or not that long, is none that a caller could put.
unfoldable pub on_put : Option Slice → ℕ → ℕ → World → Go Error World
on_put none which len w = ok w
on_put (some s) which len w =
    if leb len s.cap
    then (do
      p ← put_buf (record s { len = len }) w.pools
      ok (record { pools = p; out = remove which w.out }))
    else ok w

unfoldable pub on_event : Event → World → Go Error World
on_event (get pick n) w = do
  (s, p) ← get_buf pick n w.pools
  ok (record { pools = p; out = s ∷ w.out })
on_event (put which len) w = on_put (get_elem? w.out which) which len w
on_event (lose which) w =
    let p = w.pools in ok (record w { pools = record p { held = remove which p.held } })

unfoldable pub run : List Event → World → Go Error World
run [] w = ok w
run (e ∷ es) w = do v ← on_event e w; run es v

-- No array is in two places, and none that `make` has not given is in any; buffers are as long as their
-- pool says.
pub record IsExclusive (w : World) : Type 0 where
  pub once : (a : ℕ) → outs a w.out + helds a w.pools.held ≤ (if ltb a w.pools.next then 1 else 0)
  pub out_sizes : AllOut w.out
  pub held_sizes : AllHeld w.pools.held

-- The arrays that were there have their contents.
abbrev pub Kept : Pools → Pools → Type 0
Kept p q = (a : ℕ) → a < p.next → q.contents a ≡ p.contents a

-- How a call of GetBuf ends: `n` bytes, that no one else has.
pub record Gotten (n : ℕ) (w : World) (r : Slice × Pools) : Type 0 where
  pub sized : Slice.len r.0 ≡ n
  pub sound : IsExclusive (record { pools = r.1; out = r.0 ∷ w.out })
  pub kept : Kept w.pools r.1

make-Gotten :
    (n m : ℕ) (w : World)
    → HasClass n
    → IsExclusive w
    → Gotten m w (record (make n w.pools).0 { len = m }, (make n w.pools).1)
unfolding make
make-Gotten n m w class sound = record {
  sized = refl;
  sound = record {
    once = λ a. ground (arith, sound.once a);
    out_sizes = (class, sound.out_sizes);
    held_sizes = sound.held_sizes;
  };
  kept = λ a below. ground arith;
}

Sized : ℕ → ℕ → World → Slice × Pools → Type 0
Sized index n w r =
    (2 ^ (index + 6) ≤ Slice.cap r.0)
    × IsExclusive (record { pools = r.1; out = record (r.0) { len = n } ∷ w.out })
    × Kept w.pools r.1

new_buffer-Sized :
    (index n : ℕ) (w : World) → IsExclusive w → Sized index n w (new_buffer index w.pools)
unfolding Sized new_buffer make
new_buffer-Sized index n w sound =
    let made : Gotten n w _ = make-Gotten (2 ^ (index + 6)) n w (class-HasClass index) sound in
    (omega arith, made.sound, made.kept)

take_out-Sized :
    (o : Option (ℕ × Slice)) (pick index n : ℕ) (w : World)
    → get_elem? w.pools.held pick ≡ o
    → IsExclusive w
    → Sized index n w (take_out o pick index w.pools)
unfolding Sized
take_out-Sized none pick index n w there sound = new_buffer-Sized index n w sound
take_out-Sized (some (class, s)) pick index n w there sound = elim (Bool-cases (class == index)) [
  | inl same ↦
      let kind : class ≡ index = ground arith in
      let sizes = AllHeld-at pick class s w.pools.held there sound.held_sizes in
      rw same (
        rw (← kind) sizes.0,
        record {
          once = λ a. omega (arith, sound.once a, helds-remove a pick class s w.pools.held there);
          out_sizes = (sizes.1, sound.out_sizes);
          held_sizes = AllHeld-remove pick w.pools.held sound.held_sizes;
        },
        λ a below. refl,
      )
  | inr other ↦ rw other (new_buffer-Sized index n w sound)
]

-- GetBuf never panics; it returns the length that was asked for, of an array that no other slice has.
pub get_buf-Gotten :
    (pick n : ℕ) (w : World)
    → IsExclusive w
    → (r : Slice × Pools) × (get_buf pick n w.pools ≡ ok r) × Gotten n w r
unfolding get_buf pool_get reslice Sized make
get_buf-Gotten pick n w sound = elim (Bool-cases (ltb 0 n && leb n 65536)) [
  | inl classed ↦
      let index : ℕ = get_index n in
      let r = pool_get pick index w.pools in
      let sized = take_out-Sized (get_elem? w.pools.held pick) pick index n w refl sound in
      let c = get_index-IsClass n (ground arith) (ground arith) in
      let fits : leb n (Slice.cap r.0) ≡ true = ground (arith, c.1, sized.0) in
      (
        (record (r.0) { len = n }, r.1),
        rw (classed, fits) refl,
        record { sized = refl; sound = sized.1; kept = sized.2 },
      )
  | inr odd ↦ (make n w.pools, rw odd refl, make-Gotten n n w (made-HasClass n odd) sound)
]

put_buf-IsExclusive :
    (s : Slice) (w : World)
    → HasClass s.cap
    → s.len ≤ s.cap
    → ((a : ℕ)
        → one a s.array + outs a w.out + helds a w.pools.held
          ≤ (if ltb a w.pools.next then 1 else 0))
    → AllOut w.out
    → AllHeld w.pools.held
    → (p : Pools) × (put_buf s w.pools ≡ ok p) × IsExclusive (record w { pools = p })
unfolding put_buf reslice
put_buf-IsExclusive s w class within once outer inner =
    elim (Bool-cases (ltb 65536 s.len || s.len == 0)) [
      | inl odd ↦ (
        w.pools,
        rw odd refl,
        record { once = λ a. omega (arith, once a); out_sizes = outer; held_sizes = inner },
      )
      | inr classed ↦
          let room : 2 ^ (get_index s.len + 6) ≤ s.cap =
            class s.len (ground arith) (ground arith) within in
          let fits : leb (2 ^ (get_index s.len + 6)) s.cap ≡ true = ground arith in
          (
            record (w.pools) {
              held = (get_index s.len, record s { len = 2 ^ (get_index s.len + 6) }) ∷ w.pools.held;
            },
            rw (classed, fits) refl,
            record {
              once = λ a. omega (arith, once a);
              out_sizes = outer;
              held_sizes = ((room, class), inner);
            },
          )
    ]

on_put-IsExclusive :
    (o : Option Slice) (which len : ℕ) (w : World)
    → get_elem? w.out which ≡ o
    → IsExclusive w
    → (v : World) × (on_put o which len w ≡ ok v) × IsExclusive v
unfolding on_put
on_put-IsExclusive none which len w there sound = (w, refl, sound)
on_put-IsExclusive (some s) which len w there sound = elim (Bool-cases (leb len s.cap)) [
  | inl within ↦
      let (p, done, kept) =
        put_buf-IsExclusive (record s { len = len }) (record w { out = remove which w.out })
          (AllOut-at which s w.out there sound.out_sizes) (ground arith)
          (λ a. omega (arith, sound.once a, outs-remove a which s w.out there))
          (AllOut-remove which w.out sound.out_sizes) sound.held_sizes in
      (record { pools = p; out = remove which w.out }, rw (within, done) refl, kept)
  | inr beyond ↦ (w, rw beyond refl, sound)
]

on_event-IsExclusive :
    (e : Event) (w : World) → IsExclusive w → (v : World) × (on_event e w ≡ ok v) × IsExclusive v
unfolding on_event
on_event-IsExclusive (get pick n) w sound =
    let (r, done, gotten) = get_buf-Gotten pick n w sound in
    (record { pools = r.1; out = r.0 ∷ w.out }, rw done refl, gotten.sound)
on_event-IsExclusive (put which len) w sound =
    on_put-IsExclusive (get_elem? w.out which) which len w refl sound
on_event-IsExclusive (lose which) w sound = (
  record w { pools = record (w.pools) { held = remove which w.pools.held } },
  refl,
  record {
    once = λ a. omega (arith, sound.once a, helds-lose a which w.pools.held);
    out_sizes = sound.out_sizes;
    held_sizes = AllHeld-remove which w.pools.held sound.held_sizes;
  },
)

-- From pools in which every buffer is in one place and as long as its pool says, as empty pools are, any
-- calls of GetBuf and any calls of PutBuf for what is out, each cut to any length that its capacity allows,
-- run without a panic, whatever buffer a pool picks and whichever it drops. Afterwards, too, no array is
-- out twice, held twice, or out and held at once, and the buffers are as long as their pools say.
pub run-IsExclusive :
    (es : List Event) (w : World) → IsExclusive w → (v : World) × (run es w ≡ ok v) × IsExclusive v
unfolding run
run-IsExclusive [] w sound = (w, refl, sound)
run-IsExclusive (e ∷ es) w sound =
    let (v, done, kept) = on_event-IsExclusive e w sound in
    let (u, rest, last) = run-IsExclusive es v kept in (u, rw (done, rest) refl, last)
