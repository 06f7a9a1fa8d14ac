-- ===== src/Utils/Tests.antt =====
-- utils/: the class of a buffer for one packet, some hosts, a cleaner of three functions, a Die and a
-- deadline.
use rawcon.Common.{
  suc, replicate, length, ℕ, ◌≡◌, refl, arith, inl, inr, true, false, none, some, [], ◌∷◌, ◌++◌,
}
use rawcon.Common.Go.{ok, panic}
use rawcon.Common.Bytes.{Bytes}
use rawcon.Utils.Buf.{get_index, bit_loop, IsClass, get_index-IsClass}
use rawcon.Utils.Cleaner.{ExitCleaner, pos, exit, delete, delete_end_panics, exit-in_reverse}
use rawcon.Utils.Die.{
  Die, new_die, ch_call, die_locked, die_closes, die_steps, IsValid, alive, die_steps-IsValid,
}
use rawcon.Utils.Expires.{
  Expires, Call, is_expired, renew, is_expired_and_update, calls, renewed_once,
}
use rawcon.Utils.Pipe.{all_to_tcp, from_tcp}
use rawcon.Utils.Pipe.RoundTrip.{pipe-round_trip}
use rawcon.Utils.Domains.{new_domain_root, new_node, test, test_at, put_at}
use rawcon.Utils.Domains.Found.{put_all, test-put_all}
use rawcon.Utils.Domains.Local.{put_at-local}

packet_class : get_index 1500 ≡ 5
unfolding get_index bit_loop
packet_class = refl

get_index-IsClass_example : IsClass 1500 (get_index 1500)
get_index-IsClass_example = get_index-IsClass 1500 (omega arith) (omega arith)

-- a.bc, *.d and e.a.bc
abbrev plain : Bytes
plain = 97 ∷ 46 ∷ 98 ∷ 99 ∷ []

abbrev starred : Bytes
starred = 42 ∷ 46 ∷ 100 ∷ []

abbrev longer : Bytes
longer = 101 ∷ 46 ∷ plain

test-put_all_example :
    test (put_all new_domain_root ((starred ∷ []) ++ (longer ∷ plain ∷ []))) longer ≡ true
test-put_all_example = test-put_all (starred ∷ []) (plain ∷ []) longer refl

put_at-local_example :
    test_at (put_at false (new_node []) ((98 ∷ []) ∷ (97 ∷ []) ∷ [])) ((98 ∷ []) ∷ (99 ∷ []) ∷ [])
    ≡ test_at (new_node []) ((98 ∷ []) ∷ (99 ∷ []) ∷ [])
put_at-local_example = put_at-local (new_node []) 98 [] 97 [] [] 98 [] 99 [] [] refl refl (inr refl)

abbrev cleaner : ExitCleaner ℕ
cleaner = record { runner = some 1 ∷ none ∷ some 3 ∷ []; once = false }

delete_end_panics_example :
    (delete (pos 3) cleaner ≡ panic) × (delete (pos 5) cleaner ≡ ok (none, cleaner))
delete_end_panics_example = delete_end_panics cleaner 1

exit-in_reverse_example :
    let c' = record cleaner { once = true } in
    (exit cleaner ≡ ok (3 ∷ 1 ∷ [], c')) × (exit c' ≡ ok ([], c'))
exit-in_reverse_example = exit-in_reverse cleaner refl

new_die-IsValid : IsValid new_die
new_die-IsValid = alive refl refl refl (inl refl)

die_steps-IsValid_example :
    (d' : Die) × (die_steps (die_locked ∷ die_locked ∷ ch_call ∷ die_closes ∷ []) new_die ≡ ok d')
    × IsValid d'
die_steps-IsValid_example =
    die_steps-IsValid (die_locked ∷ die_locked ∷ ch_call ∷ die_closes ∷ []) new_die new_die-IsValid

abbrev past : Expires
past = record { deadline = 10 }

abbrev caller : Call
caller = record { first = 11; second = 12; renewal = 13; duration = 5 }

caller-renews : (is_expired_and_update caller past past).0 ≡ true
unfolding is_expired_and_update is_expired renew
caller-renews = refl

renewed_once_example :
    calls ((caller, past) ∷ (caller, past) ∷ []) past
    ≡ (true ∷ false ∷ [], record { deadline = 18 })
renewed_once_example =
    renewed_once caller past past ((caller, past) ∷ []) caller-renews (omega arith, tt)

-- Two payloads, under a header of three bytes here and of one byte there.
pipe-round_trip_example :
    (stream : Bytes) × (all_to_tcp 3
        (replicate 16 0)
        ((1 ∷ 2 ∷ 3 ∷ 7 ∷ 8 ∷ []) ∷ (1 ∷ 2 ∷ 3 ∷ []) ∷ [])
      ≡ ok stream)
    × (from_tcp (suc (length stream)) (4 ∷ []) 10 stream ≡ ok ((4 ∷ 7 ∷ 8 ∷ []) ∷ (4 ∷ []) ∷ []))
pipe-round_trip_example =
    pipe-round_trip 3 10 (replicate 16 0) (1 ∷ 2 ∷ 3 ∷ []) (4 ∷ []) ((7 ∷ 8 ∷ []) ∷ [] ∷ []) refl
      (omega arith) (omega arith)
      ((omega arith, omega arith, omega arith), ((omega arith, omega arith, omega arith), tt))
