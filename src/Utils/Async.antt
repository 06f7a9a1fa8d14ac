-- ===== src/Utils/Async.antt =====
-- utils/async.go: AsyncRunner, as the steps of its goroutines. Each step is one channel operation or one
-- atomic operation of a worker or of a call of Run; the order of the steps is that of the scheduler.
pub mod Served
mod Tests
use rawcon.Common.{
  ℕ, zero, suc, ◌+◌, ◌-◌, ◌≤◌, ◌<◌, ◌≡◌, refl, arith, Bool, true, false, Option, none, some, List,
  [], ◌∷◌, ◌++◌, ◌==◌, ltb, length, if◌then◌else◌, ◌⊎◌, inl, inr,
}

-- A function to run; `none` is nil, which the worker drops.
abbrev pub Job : Type 0
Job = Option ℕ

-- `funcs` is the buffer of the channel, once `once` has made it; `sent` and `taken` are the jobs that
-- went into it and came out of it so far; `fired` tells whether the timer of any worker has fired.
pub record AsyncRunner : Type 0 where
  pub funcs : List Job
  pub workers : ℕ  -- int32
  pub starting : ℕ  -- `go a.worker()` has been executed, the addition not yet
  pub idle : ℕ  -- in the select
  pub busy : ℕ  -- in a job
  pub leaving : ℕ  -- returned from the loop, the deferred addition not yet executed
  pub looking : ℕ  -- calls of Run between their send and their load of `workers`
  pub blocked : List Job  -- calls of Run that have started a worker and wait to send
  pub sent : List Job
  pub taken : List Job
  pub fired : Bool

abbrev pub new_runner : AsyncRunner
new_runner = record {
  funcs = [];
  workers = 0;
  starting = 0;
  idle = 0;
  busy = 0;
  leaving = 0;
  looking = 0;
  blocked = [];
  sent = [];
  taken = [];
  fired = false;
}

abbrev pub capacity : ℕ
capacity = 16

pub data Event : Type 0 where
  call : Job → Event
  send_blocked look start receive finish fire leave : Event

-- Run up to the end of its select: the send, or, where the channel is full, a worker and the wait. The
-- call that has waited longest sends first, as the channel has it.
unfoldable pub on_call : Job → AsyncRunner → AsyncRunner
on_call f a =
    if ltb (length a.funcs) capacity
    then record a { funcs = a.funcs ++ f ∷ []; sent = a.sent ++ f ∷ []; looking = a.looking + 1 }
    else record a { starting = a.starting + 1; blocked = a.blocked ++ f ∷ [] }

unfoldable pub on_send_blocked : List Job → AsyncRunner → Option AsyncRunner
on_send_blocked [] a = none
on_send_blocked (f ∷ fs) a =
    if ltb (length a.funcs) capacity
    then some (record a { funcs = a.funcs ++ f ∷ []; sent = a.sent ++ f ∷ []; blocked = fs })
    else none

unfoldable pub on_look : AsyncRunner → Option AsyncRunner
on_look a =
    if ltb 0 a.looking
    then some (record a {
      looking = a.looking - 1;
      starting = if a.workers == 0 then a.starting + 1 else a.starting;
    })
    else none

unfoldable pub on_receive : List Job → AsyncRunner → Option AsyncRunner
on_receive [] a = none
on_receive (f ∷ fs) a =
    if ltb 0 a.idle
    then some
        (record a { funcs = fs; taken = a.taken ++ f ∷ []; idle = a.idle - 1; busy = a.busy + 1 })
    else none

-- One step; `none` where no goroutine can make it.
unfoldable pub step : Event → AsyncRunner → Option AsyncRunner
step (call f) a = some (on_call f a)
step send_blocked a = on_send_blocked a.blocked a
step look a = on_look a
step start a =
    if ltb 0 a.starting
    then some (record a { starting = a.starting - 1; workers = a.workers + 1; idle = a.idle + 1 })
    else none
step receive a = on_receive a.funcs a
step finish a =
    if ltb 0 a.busy then some (record a { busy = a.busy - 1; idle = a.idle + 1 }) else none
step fire a =
    if ltb 0 a.idle
    then some (record a { idle = a.idle - 1; leaving = a.leaving + 1; fired = true })
    else none
step leave a =
    if ltb 0 a.leaving
    then some (record a { leaving = a.leaving - 1; workers = a.workers - 1 })
    else none

-- Steps that cannot be made are left out.
unfoldable pub run : List Event → AsyncRunner → AsyncRunner
run [] a = a
run (e ∷ es) a = run es (elim (step e a) [ none ↦ a | some b ↦ b ])
