-- ===== src/Utils/Pools.antt =====
-- utils/buf.go: GetBuf, PutBuf and CopyBuffer over the pools, with the arrays behind the slices.
-- sync.Pool may hand out any buffer it holds, or a new one, and may drop what it holds at any time.
pub mod Exclusive
pub mod Copy
mod Tests
use Prim.Native.Nat.{min}
use rawcon.Common.{
  ℕ, zero, suc, ◌+◌, ◌^◌, ◌≡◌, Option, none, some, List, [], ◌∷◌, ◌++◌, ◌&&◌, ◌||◌, ◌==◌, ltb, leb,
  length, take, drop, get_elem?, replicate, if◌then◌else◌,
}
use rawcon.Common.Go.{Go, ok, err, panic, stuck, ◌>>=◌}
use rawcon.Common.Bytes.{Bytes}
use rawcon.Tcp.{Error}
use rawcon.Utils.Buf.{get_index}

-- A slice that starts where its array does: which array, the length and the capacity.
pub record Slice : Type 0 where
  pub array : ℕ
  pub len : ℕ
  pub cap : ℕ

-- What the pools hold, each buffer with the class of its pool, in any order; what the arrays contain;
-- and the next array that `make` gives.
pub record Pools : Type 0 where
  pub held : List (ℕ × Slice)
  pub contents : ℕ → Bytes
  pub next : ℕ

abbrev pub write_array : ℕ → Bytes → Pools → Pools
write_array a b p = record p { contents = λ c. if a == c then b else p.contents c }

abbrev pub view : Slice → Pools → Bytes
view s p = take s.len (p.contents s.array)

-- `make([]byte, n)`
unfoldable pub make : ℕ → Pools → Slice × Pools
make n p = (
  record { array = p.next; len = n; cap = n },
  write_array p.next (replicate n 0) (record p { next = suc p.next }),
)

-- `s[:n]`
unfoldable pub reslice : ℕ → Slice → Go Error Slice
reslice n s = if leb n s.cap then ok (record s { len = n }) else panic

abbrev pub remove {ℓ} : {A : Type ℓ} → ℕ → List A → List A
remove i [] = []
remove zero (x ∷ xs) = xs
remove (suc i) (x ∷ xs) = x ∷ remove i xs

-- The New function of pool `index`.
unfoldable pub new_buffer : ℕ → Pools → Slice × Pools
new_buffer index p = make (2 ^ (index + 6)) p

abbrev pub take_out : Option (ℕ × Slice) → ℕ → ℕ → Pools → Slice × Pools
take_out none pick index p = new_buffer index p
take_out (some (class, s)) pick index p =
    if class == index then (s, record p { held = remove pick p.held }) else new_buffer index p

-- Get of pool `index`; `pick` is where it takes a buffer from, if there is one of the pool.
unfoldable pub pool_get : ℕ → ℕ → Pools → Slice × Pools
pool_get pick index p = take_out (get_elem? p.held pick) pick index p

unfoldable pub get_buf : ℕ → ℕ → Pools → Go Error (Slice × Pools)
get_buf pick n p =
    if ltb 0 n && leb n 65536
    then (let r = pool_get pick (get_index n) p in do s ← reslice n r.0; ok (s, r.1))
    else ok (make n p)

unfoldable pub put_buf : Slice → Pools → Go Error Pools
put_buf b p = if ltb 65536 b.len || b.len == 0 then ok p else (do
  s ← reslice (2 ^ (get_index b.len + 6)) b
  ok (record p { held = (get_index b.len, s) ∷ p.held }))

-- `copy(to, from)`
unfoldable pub copy : Slice → Slice → Pools → Pools
copy to from p =
    let n = min to.len from.len in
    write_array to.array (take n (p.contents from.array) ++ drop n (p.contents to.array)) p

unfoldable pub copy_buffer : ℕ → Slice → Pools → Go Error (Slice × Pools)
copy_buffer pick b p = do (b2, p2) ← get_buf pick b.len p; ok (b2, copy b2 b p2)
