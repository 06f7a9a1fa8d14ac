-- ===== src/Utils/Async/Served.antt =====
-- utils/async.go: the channel and the count of the workers, over any order of the steps.
use rawcon.Common.{
  ℕ, ◌+◌, ◌-◌, ◌≤◌, ◌<◌, ◌≡◌, refl, arith, Bool, true, false, Option, none, some, List, [], ◌∷◌,
  ◌++◌, append_assoc, ◌==◌, ltb, length, length-append, if◌then◌else◌, ltb→lt, ◌⊎◌, inl, inr, ◌∙◌,
  sym, ap, Bool-cases,
}
use rawcon.Utils.Async.{
  Job, AsyncRunner, new_runner, capacity, Event, call, send_blocked, look, start, receive, finish,
  fire, leave, on_call, on_send_blocked, on_look, on_receive, step, run,
}

-- Nothing waits, or a goroutine is on its way that will see to it.
abbrev pub IsServed : AsyncRunner → Type 0
IsServed a =
    (length a.funcs + length a.blocked ≡ 0) ⊎ (0 < a.starting + a.idle + a.busy + a.looking)

pub record IsSound (a : AsyncRunner) : Type 0 where
  pub counted : a.workers ≡ a.idle + a.busy + a.leaving
  pub in_order : a.taken ++ a.funcs ≡ a.sent
  pub bounded : length a.funcs ≤ 16
  pub stayed : a.fired ≡ false → a.leaving ≡ 0
  pub served : a.fired ≡ false → IsServed a

abbrev pub SoundAfter : Option AsyncRunner → Type 0
SoundAfter none = Unit
SoundAfter (some a) = IsSound a

if-SoundAfter :
    (test : Bool) (a : AsyncRunner)
    → (test ≡ true → IsSound a)
    → SoundAfter (if test then some a else none)
if-SoundAfter true a h = h refl
if-SoundAfter false a h = tt

-- A job that enters the channel, with the goroutine that will see to it.
sent-IsSound :
    (a : AsyncRunner) (f : Job) (waiting : List Job) (lookers : ℕ)
    → IsSound a
    → ltb (length a.funcs) capacity ≡ true
    → (a.fired ≡ false → 0 < a.starting + a.idle + a.busy + lookers)
    → IsSound (record a {
      funcs = a.funcs ++ f ∷ [];
      sent = a.sent ++ f ∷ [];
      looking = lookers;
      blocked = waiting;
    })
sent-IsSound a f waiting lookers sound room seen = record {
  counted = sound.counted;
  in_order = sym (append_assoc a.taken a.funcs (f ∷ [])) ∙ ap (λ s. s ++ f ∷ []) sound.in_order;
  bounded =
      omega (arith, length-append {0} a.funcs (f ∷ []), ltb→lt (length a.funcs) capacity room);
  stayed = sound.stayed;
  served = λ h. inr (seen h);
}

on_call-IsSound : (a : AsyncRunner) (f : Job) → IsSound a → IsSound (on_call f a)
unfolding on_call
on_call-IsSound a f sound = elim (Bool-cases (ltb (length a.funcs) capacity)) [
  | inl room ↦ rw room (sent-IsSound a f a.blocked (a.looking + 1) sound room (λ h. omega arith))
  | inr full ↦ rw full (record {
    counted = sound.counted;
    in_order = sound.in_order;
    bounded = sound.bounded;
    stayed = sound.stayed;
    served = λ h. inr (omega arith);
  })
]

on_send_blocked-IsSound :
    (fs : List Job) (a : AsyncRunner)
    → a.blocked ≡ fs
    → IsSound a
    → SoundAfter (on_send_blocked fs a)
unfolding on_send_blocked
on_send_blocked-IsSound [] a same sound = tt
on_send_blocked-IsSound (f ∷ fs) a same sound =
    if-SoundAfter (ltb (length a.funcs) capacity) _ λ room.
      sent-IsSound a f fs a.looking sound room λ h. elim (sound.served h) [
        | inl none_waits ↦ absurd (omega (arith, ap length same))
        | inr seen ↦ seen
      ]

on_look-IsSound : (a : AsyncRunner) → IsSound a → SoundAfter (on_look a)
unfolding on_look
on_look-IsSound a sound = if-SoundAfter (ltb 0 a.looking) _ λ some_look. record {
  counted = sound.counted;
  in_order = sound.in_order;
  bounded = sound.bounded;
  stayed = sound.stayed;
  served = λ h. inr (looked h);
}
  where
    looked :
        a.fired ≡ false
        → 0
          < (if a.workers == 0 then a.starting + 1 else a.starting)
            + a.idle
            + a.busy
            + (a.looking - 1)
    looked h = ground (arith, sound.stayed h)

on_receive-IsSound :
    (fs : List Job) (a : AsyncRunner) → a.funcs ≡ fs → IsSound a → SoundAfter (on_receive fs a)
unfolding on_receive
on_receive-IsSound [] a same sound = tt
on_receive-IsSound (f ∷ fs) a same sound = if-SoundAfter (ltb 0 a.idle) _ λ some_idle. record {
  counted = ground arith;
  in_order = append_assoc a.taken (f ∷ []) fs ∙ ap (λ q. a.taken ++ q) (sym same) ∙ sound.in_order;
  bounded = omega (arith, ap length same);
  stayed = sound.stayed;
  served = λ h. inr (ground arith);
}

pub step-IsSound : (e : Event) (a : AsyncRunner) → IsSound a → SoundAfter (step e a)
unfolding step
step-IsSound (call f) a sound = on_call-IsSound a f sound
step-IsSound send_blocked a sound = on_send_blocked-IsSound a.blocked a refl sound
step-IsSound look a sound = on_look-IsSound a sound
step-IsSound receive a sound = on_receive-IsSound a.funcs a refl sound
step-IsSound start a sound = if-SoundAfter (ltb 0 a.starting) _ λ some_start. record {
  counted = ground arith;
  in_order = sound.in_order;
  bounded = sound.bounded;
  stayed = sound.stayed;
  served = λ h. inr (ground arith);
}
step-IsSound finish a sound = if-SoundAfter (ltb 0 a.busy) _ λ some_busy. record {
  counted = ground arith;
  in_order = sound.in_order;
  bounded = sound.bounded;
  stayed = sound.stayed;
  served = λ h. inr (ground arith);
}
step-IsSound fire a sound = if-SoundAfter (ltb 0 a.idle) _ λ some_idle. record {
  counted = ground arith;
  in_order = sound.in_order;
  bounded = sound.bounded;
  stayed = λ h. cc;
  served = λ h. cc;
}
step-IsSound leave a sound = if-SoundAfter (ltb 0 a.leaving) _ λ some_leave. record {
  counted = ground arith;
  in_order = sound.in_order;
  bounded = sound.bounded;
  stayed = λ h. ground (arith, sound.stayed h);
  served = sound.served;
}

run_from-IsSound : (es : List Event) (a : AsyncRunner) → IsSound a → IsSound (run es a)
unfolding run
run_from-IsSound [] a sound = sound
run_from-IsSound (e ∷ es) a sound =
    run_from-IsSound es _ (stepped (step e a) (step-IsSound e a sound))
  where
    stepped :
        (o : Option AsyncRunner)
        → SoundAfter o
        → IsSound (elim o as (λ x. AsyncRunner) [ none ↦ a | some b ↦ b ])
    stepped none h = sound
    stepped (some b) h = h

-- Whatever the order of the steps, the jobs leave the channel in the order in which they were sent, each
-- once, the channel holds at most 16 of them, and `workers` counts the workers that have not ended. While
-- no worker's timer has fired, a job that waits has a goroutine that will see to it: a worker that starts,
-- runs, or waits for jobs, or a call of Run that has yet to look whether there is one.
pub run-IsSound : (es : List Event) → IsSound (run es new_runner)
run-IsSound es = run_from-IsSound es new_runner (record {
  counted = refl;
  in_order = refl;
  bounded = omega arith;
  stayed = λ h. refl;
  served = λ h. inl refl;
})
