-- ===== src/Utils/Pools/Copy.antt =====
-- utils/buf.go, CopyBuffer: the copy, and what the other holders of buffers see.
use Prim.Native.Nat.{min}
use rawcon.Common.{
  ℕ, zero, suc, ◌≤◌, ◌<◌, ◌≡◌, ◌≢◌, refl, arith, some, List, [], ◌∷◌, ◌++◌, ◌==◌, get_elem?, length,
  take, ap, ◌∙◌, false, true,
}
use rawcon.Common.Bytes.{Bytes}
use rawcon.Common.Go.{ok}
use rawcon.Utils.Pools.{Slice, Pools, view, copy, copy_buffer}
use rawcon.Utils.Pools.Exclusive.{World, IsExclusive, one, outs, get_buf-Gotten}

outs_of :
    (which : ℕ) (s : Slice) (ss : List Slice) → get_elem? ss which ≡ some s → 0 < outs s.array ss
outs_of which s [] there = cc
outs_of zero s (t ∷ ss) there =
    let same : t ≡ s = cc in
    let here : one s.array t.array ≡ 1 = rw same (ground arith) in omega arith
outs_of (suc which) s (t ∷ ss) there = omega (arith, outs_of which s ss there)

take-take : (n : ℕ) (xs ys : Bytes) → n ≤ length xs → take n (take n xs ++ ys) ≡ take n xs
take-take zero xs ys h = refl
take-take (suc n) [] ys h = absurd (omega arith)
take-take (suc n) (x ∷ xs) ys h = rw (take-take n xs ys (omega arith)) refl

-- The copy, in the array of its own that GetBuf gave it.
copied :
    (b b2 : Slice) (p : Pools)
    → b2.len ≡ b.len
    → b.len ≤ length (p.contents b.array)
    → view b2 (copy b2 b p) ≡ view b p
unfolding copy
copied b b2 p sized full =
    let here : (b2.array == b2.array) ≡ true = ground arith in
    let all : min b2.len b.len ≡ b.len = omega arith in
    rw (here, all, sized) (take-take b.len (p.contents b.array) _ full)

copy-others : (b b2 s : Slice) (p : Pools) → b2.array ≢ s.array → view s (copy b2 b p) ≡ view s p
unfolding copy
copy-others b b2 s p apart =
    let other : (b2.array == s.array) ≡ false = ground arith in rw other refl

-- CopyBuffer of a slice that is out, whatever buffer the pool picks: it does not panic, and returns as many
-- bytes, the same as those of the slice, in an array that nobody else has. Every slice that is out, the
-- one that is copied among them, shows what it showed before.
pub copy_buffer-view :
    (pick which : ℕ) (b : Slice) (w : World)
    → IsExclusive w
    → get_elem? w.out which ≡ some b
    → b.len ≤ length (w.pools.contents b.array)
    → (b2 : Slice) × (p : Pools) × (copy_buffer pick b w.pools ≡ ok (b2, p))
      × (b2.len ≡ b.len)
      × (view b2 p ≡ view b w.pools)
      × IsExclusive (record { pools = p; out = b2 ∷ w.out })
      × ((other : ℕ) (s : Slice) → get_elem? w.out other ≡ some s → view s p ≡ view s w.pools)
unfolding copy_buffer copy
copy_buffer-view pick which b w sound there full =
    let (r, done, gotten) = get_buf-Gotten pick b.len w sound in
    let below : (other : ℕ) (s : Slice) → get_elem? w.out other ≡ some s → s.array < w.pools.next =
      λ other s here. ground (arith, outs_of other s w.out here, sound.once s.array) in
    let same : r.1.contents b.array ≡ w.pools.contents b.array =
      gotten.kept b.array (below which b there) in
    (
      r.0,
      copy (r.0) b (r.1),
      rw done refl,
      gotten.sized,
      copied b (r.0) (r.1) gotten.sized (rw same full) ∙ ap (take b.len) same,
      record {
        once = gotten.sound.once;
        out_sizes = gotten.sound.out_sizes;
        held_sizes = gotten.sound.held_sizes;
      },
      λ other s here.
          let apart : Slice.array r.0 ≢ s.array =
            λ e. ground (arith, outs_of other s w.out here, gotten.sound.once s.array) in
          copy-others b (r.0) s (r.1) apart
          ∙ ap (take s.len) (gotten.kept s.array (below other s here)),
    )
