-- ===== src/Utils/Pipe.antt =====
-- utils/utils.go, PipeUDPOverTCP: the two loops as what they make of what they read, where no read and
-- no write fails. A datagram carries a pseudo header, which does not travel; a stream carries the length
-- of each payload, in two bytes, and the payload.
pub mod RoundTrip
use rawcon.Common.{
  ℕ, zero, suc, ◌+◌, ◌-◌, ◌%◌, ◌||◌, Bool, true, false, List, [], ◌∷◌, ◌++◌, ltb, leb, length, take,
  drop, if◌then◌else◌,
}
use rawcon.Common.Go.{Go, ok, err, panic, stuck, ◌>>=◌}
use rawcon.Common.Bytes.{Bytes, be16, u16, put16, slice, copy_at}
use rawcon.Utils.Cleaner.{Never}

abbrev pub min_length : ℕ → ℕ → ℕ
min_length a b = if leb a b then a else b

-- One datagram: Read fills `ubuf` from `left` on, the length goes in front of the payload, over the end of
-- the header, and what is written ends where the payload does. `k` is pseudoLen.
unfoldable pub to_tcp : ℕ → Bytes → Bytes → Go Never (Bytes × Bytes)
to_tcp k ubuf datagram = do
  let left = 2 - k
  let szoff = k - 2
  let n = min_length (length datagram) (length ubuf - left)
  ubuf' ← put16 (copy_at ubuf left datagram) szoff (u16 (n + 65536 - k % 65536))
  out ← slice ubuf' szoff (szoff + 2 + n - k)
  ok (out, ubuf')

-- The stream that the first loop writes.
unfoldable pub all_to_tcp : ℕ → Bytes → List Bytes → Go Never Bytes
all_to_tcp k ubuf [] = ok []
all_to_tcp k ubuf (d ∷ ds) = do r ← to_tcp k ubuf d; rest ← all_to_tcp k r.1 ds; ok (r.0 ++ rest)

-- The datagrams that the second loop writes, `room` being the length of `buf` and its capacity. Where that is less than two, `buf[:2]` panics. The loop ends with the stream, or with a length
-- that the buffer has no room for. Each round but the last takes at least two bytes.
unfoldable pub from_tcp : ℕ → Bytes → ℕ → Bytes → Go Never (List Bytes)
from_tcp zero pseudo room stream = stuck
from_tcp (suc fuel) pseudo room (hi ∷ lo ∷ stream) =
    let size = be16 hi lo in
    let rest = from_tcp fuel pseudo room (drop size stream) in
    if ltb room 2
    then panic
    else if ltb room size || ltb (length stream) size
    then ok []
    else do ds ← rest; ok ((pseudo ++ take size stream) ∷ ds)
from_tcp (suc fuel) pseudo room stream = if ltb room 2 then panic else ok []
