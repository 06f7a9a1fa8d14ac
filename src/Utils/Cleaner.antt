-- ===== src/Utils/Cleaner.antt =====
-- utils/utils.go, ExitCleaner: functions to be run at the end, the last one first. The lock makes each
-- method one step; a function is a value of any type `F`, and none is nil.
use rawcon.Common.{
  ℕ, zero, suc, ◌+◌, ◌-◌, ◌≡◌, refl, sym, ap, ◌∙◌, arith, Bool, true, false, Option, none, some,
  List, [], ◌∷◌, ◌++◌, ◌==◌, ltb, length, take, drop, get_elem?, length-append, take_length_append,
  append-nil, if◌then◌else◌,
}
use rawcon.Common.Go.{Go, ok, err, panic, stuck, ◌>>=◌}

-- `int`
pub data ℤ : Type 0 where
  pos : ℕ → ℤ
  negsuc : ℕ → ℤ

-- A method's only failure is an index out of range.
pub data Never : Type 0 where

pub record ExitCleaner (F : Type 0) : Type 0 where
  pub runner : List (Option F)
  pub once : Bool

module _ {F : Type 0} where
  abbrev pub new_cleaner : ExitCleaner F
  new_cleaner = record { runner = []; once = false }

  -- `c.runner[i]`
  abbrev pub at : List (Option F) → ℕ → Go Never (Option F)
  at r i = elim (get_elem? r i) [ none ↦ panic | some f ↦ ok f ]

  unfoldable pub push : Option F → ExitCleaner F → ℕ × ExitCleaner F
  push f c = (length c.runner, record c { runner = c.runner ++ (f ∷ []) })

  abbrev pub call : Option F → List F → List F
  call none calls = calls
  call (some f) calls = f ∷ calls

  -- The loop of Exit from index `n - 1` down; it returns the calls in their order.
  unfoldable pub exit_loop : ℕ → List (Option F) → Go Never (List F)
  exit_loop zero r = ok []
  exit_loop (suc i) r = do f ← at r i; calls ← exit_loop i r; ok (call f calls)

  unfoldable pub exit : ExitCleaner F → Go Never (List F × ExitCleaner F)
  exit c =
      if c.once
      then ok ([], c)
      else do calls ← exit_loop (length c.runner) c.runner; ok (calls, record c { once = true })

  -- The three ways in which Delete takes an index in range out of the slice.
  unfoldable pub cut : ℕ → List (Option F) → List (Option F)
  cut i r =
      if i == 0
      then drop 1 r
      else if i == length r - 1
      then take i r
      else take i r ++ drop (i + 1) r

  unfoldable pub delete : ℤ → ExitCleaner F → Go Never (Option F × ExitCleaner F)
  delete (negsuc i) c = ok (none, c)
  delete (pos i) c =
      if ltb (length c.runner) i
      then ok (none, c)
      else do f ← at c.runner i; ok (f, record c { runner = cut i c.runner })

  -- What Exit should do: the functions that are not nil, in the reverse of their order.
  abbrev pub in_reverse : List (Option F) → List F → List F
  in_reverse [] calls = calls
  in_reverse (f ∷ fs) calls = in_reverse fs (call f calls)

  middle : (xs ys : List (Option F)) (f : Option F) → at (xs ++ (f ∷ ys)) (length xs) ≡ ok f
  middle [] ys f = refl
  middle (x ∷ xs) ys f = middle xs ys f

  at-end : (r : List (Option F)) → at r (length r) ≡ panic
  at-end [] = refl
  at-end (x ∷ r) = at-end r

  drop-past : (xs ys : List (Option F)) (f : Option F) → drop (length xs + 1) (xs ++ (f ∷ ys)) ≡ ys
  drop-past [] ys f = refl
  drop-past (x ∷ xs) ys f =
      let e : suc (length xs) + 1 ≡ suc (length xs + 1) = omega arith in rw e (drop-past xs ys f)

  cut-middle :
      (xs ys : List (Option F)) (f : Option F) → cut (length xs) (xs ++ (f ∷ ys)) ≡ xs ++ ys
  unfolding cut
  cut-middle [] ys f = refl
  cut-middle (x ∷ xs) [] f =
      let last : (length (x ∷ xs) == length ((x ∷ xs) ++ (f ∷ [])) - 1) ≡ true =
        ground (arith, length-append xs (f ∷ [])) in
      let inner : (length (x ∷ xs) == 0) ≡ false = ground arith in
      rw (inner, last) (take_length_append (x ∷ xs) (f ∷ []) ∙ sym (append-nil (x ∷ xs)))
  cut-middle (x ∷ xs) (y ∷ ys) f =
      let last : (length (x ∷ xs) == length ((x ∷ xs) ++ (f ∷ y ∷ ys)) - 1) ≡ false =
        ground (arith, length-append xs (f ∷ y ∷ ys)) in
      let inner : (length (x ∷ xs) == 0) ≡ false = ground arith in
      rw (inner, last)
        (ap (λ t. t ++ drop (length (x ∷ xs) + 1) ((x ∷ xs) ++ (f ∷ y ∷ ys)))
            (take_length_append (x ∷ xs) (f ∷ y ∷ ys))
          ∙ ap (λ t. (x ∷ xs) ++ t) (drop-past (x ∷ xs) (y ∷ ys) f))

  -- Delete of an index in range, whichever of the three ways it cuts the slice, takes exactly that
  -- function out, keeps the others in their order, and returns it.
  pub delete-in_range :
      (before after : List (Option F)) (f : Option F) (once : Bool)
      → delete (pos (length before)) (record { runner = before ++ (f ∷ after); once = once })
        ≡ ok (f, record { runner = before ++ after; once = once })
  unfolding delete
  delete-in_range before after f once =
      let inside : ltb (length (before ++ (f ∷ after))) (length before) ≡ false =
        ground (arith, length-append before (f ∷ after)) in
      rw (inside, middle before after f, cut-middle before after f) refl

  -- Delete of what Push has just given an index to takes the cleaner back to where it was.
  pub delete-push :
      (f : Option F) (c : ExitCleaner F) → let r = push f c in delete (pos r.0) r.1 ≡ ok (f, c)
  unfolding push
  delete-push f c =
      delete-in_range c.runner [] f c.once
      ∙ ap (λ r. ok (f, record { runner = r; once = c.once })) (append-nil c.runner)

  -- Delete of the index one past the last panics, where an index further out returns nil.
  pub delete_end_panics :
      (c : ExitCleaner F) (k : ℕ)
      → (delete (pos (length c.runner)) c ≡ panic)
        × (delete (pos (length c.runner + suc k)) c ≡ ok (none, c))
  unfolding delete
  delete_end_panics c k =
      let at_end : ltb (length c.runner) (length c.runner) ≡ false = ground arith in
      let out : ltb (length c.runner) (length c.runner + suc k) ≡ true = ground arith in
      (rw (at_end, at-end c.runner) refl, rw out refl)

  call-append : (f : Option F) (xs ys : List F) → call f (xs ++ ys) ≡ call f xs ++ ys
  call-append none xs ys = refl
  call-append (some f) xs ys = refl

  in_reverse-onto :
      (r : List (Option F)) (xs ys : List F) → in_reverse r (xs ++ ys) ≡ in_reverse r xs ++ ys
  in_reverse-onto [] xs ys = refl
  in_reverse-onto (f ∷ r) xs ys =
      ap (in_reverse r) (call-append f xs ys) ∙ in_reverse-onto r (call f xs) ys

  -- The first function is the last one called.
  exit_loop-cons :
      (n : ℕ) (f : Option F) (r : List (Option F))
      → exit_loop (suc n) (f ∷ r) ≡ (exit_loop n r >>= λ calls. ok (calls ++ call f []))
  unfolding exit_loop
  exit_loop-cons zero f r = refl
  exit_loop-cons (suc n) f r = rw (exit_loop-cons n f r) (join (at r n) (exit_loop n r))
    where
      join :
          (m : Go Never (Option F)) (loop : Go Never (List F))
          → (m >>= λ g. (loop >>= λ calls. ok (calls ++ call f [])) >>= λ calls. ok (call g calls))
            ≡ ((m >>= λ g. loop >>= λ calls. ok (call g calls)) >>= λ calls.
                ok (calls ++ call f []))
      join (ok g) (ok calls) = ap ok (call-append g calls (call f []))
      join (ok g) (err e) = refl
      join (ok g) panic = refl
      join (ok g) stuck = refl
      join (err e) loop = refl
      join panic loop = refl
      join stuck loop = refl

  exit_loop_lem : (r : List (Option F)) → exit_loop (length r) r ≡ ok (in_reverse r [])
  exit_loop_lem [] = unfold exit_loop in refl
  exit_loop_lem (f ∷ r) =
      exit_loop-cons (length r) f r
      ∙ rw (exit_loop_lem r) (ap ok (sym (in_reverse-onto r [] (call f []))))

  -- Exit calls the functions that are not nil, the last one first, and a second Exit calls none.
  pub exit-in_reverse :
      (c : ExitCleaner F)
      → c.once ≡ false
      → let c' = record c { once = true } in
        (exit c ≡ ok (in_reverse c.runner [], c')) × (exit c' ≡ ok ([], c'))
  unfolding exit
  exit-in_reverse c fresh = (rw (fresh, exit_loop_lem c.runner) refl, refl)
