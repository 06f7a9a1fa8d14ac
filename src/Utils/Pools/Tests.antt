-- ===== src/Utils/Pools/Tests.antt =====
-- utils/buf.go: two callers that pass one buffer on, and a copy of three bytes.
use rawcon.Common.{ℕ, ◌≡◌, refl, arith, some, [], ◌∷◌, get_elem?}
use rawcon.Common.Go.{ok}
use rawcon.Utils.Pools.{Slice, Pools, view, copy_buffer}
use rawcon.Utils.Pools.Exclusive.{
  World, get, put, lose, run, IsExclusive, run-IsExclusive, class-HasClass,
}
use rawcon.Utils.Pools.Copy.{copy_buffer-view}

abbrev no_buffers : World
no_buffers = record { pools = record { held = []; contents = λ a. []; next = 0 }; out = [] }

no_buffers-IsExclusive : IsExclusive no_buffers
no_buffers-IsExclusive = record { once = λ a. omega arith; out_sizes = tt; held_sizes = tt }

-- A buffer for 100 bytes is put back and given out again, for 70 bytes.
run-IsExclusive_example :
    let es = get 0 100 ∷ put 0 100 ∷ get 0 70 ∷ get 0 70 ∷ lose 0 ∷ [] in
    (v : World) × (run es no_buffers ≡ ok v) × IsExclusive v
run-IsExclusive_example =
    run-IsExclusive (get 0 100 ∷ put 0 100 ∷ get 0 70 ∷ get 0 70 ∷ lose 0 ∷ []) no_buffers
      no_buffers-IsExclusive

abbrev three : Slice
three = record { array = 0; len = 3; cap = 64 }

abbrev one_out : World
one_out = record {
  pools = record { held = []; contents = λ a. 1 ∷ 2 ∷ 3 ∷ []; next = 1 };
  out = three ∷ [];
}

one_out-IsExclusive : IsExclusive one_out
one_out-IsExclusive = record {
  once = λ a. ground arith;
  out_sizes = (class-HasClass 0, tt);
  held_sizes = tt;
}

copy_buffer-view_example :
    (b2 : Slice) × (p : Pools) × (copy_buffer 0 three one_out.pools ≡ ok (b2, p))
    × (b2.len ≡ three.len)
    × (view b2 p ≡ view three one_out.pools)
    × IsExclusive (record { pools = p; out = b2 ∷ one_out.out })
    × ((other : ℕ) (s : Slice)
        → get_elem? one_out.out other ≡ some s
        → view s p ≡ view s one_out.pools)
copy_buffer-view_example = copy_buffer-view 0 0 three one_out one_out-IsExclusive refl (omega arith)
