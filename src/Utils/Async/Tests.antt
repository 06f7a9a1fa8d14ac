-- ===== src/Utils/Async/Tests.antt =====
-- utils/async.go: the first job of a runner, and a job that its last worker leaves behind.
use rawcon.Common.{◌≡◌, refl, some, [], ◌∷◌}
use rawcon.Utils.Async.{
  AsyncRunner, new_runner, call, look, start, receive, finish, fire, leave, on_call, on_look,
  on_receive, step, run,
}
use rawcon.Utils.Async.Served.{IsSound, run-IsSound}

run-IsSound_example :
    IsSound (run (call (some 1) ∷ look ∷ call (some 2) ∷ start ∷ receive ∷ look ∷ []) new_runner)
run-IsSound_example =
    run-IsSound (call (some 1) ∷ look ∷ call (some 2) ∷ start ∷ receive ∷ look ∷ [])

-- The second call of Run sees the worker just before its timer fires.
abbrev left_behind : AsyncRunner
unfolding run
left_behind =
    run (call (some 1) ∷ look ∷ start ∷ receive ∷ finish ∷ call (some 2) ∷ look ∷ fire ∷ leave ∷ [])
      new_runner

left_behind_waits :
    (left_behind.funcs ≡ some 2 ∷ [])
    × (left_behind.workers ≡ 0)
    × (left_behind.starting ≡ 0)
    × (left_behind.looking ≡ 0)
unfolding left_behind run step on_call on_look on_receive
left_behind_waits = (refl, refl, refl, refl)
