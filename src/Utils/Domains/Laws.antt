-- ===== src/Utils/Domains/Laws.antt =====
-- utils/utils.go, DomainRoot: a host that was put is found, whatever is put after it.
use rawcon.Common.{
  ℕ, ◌≡◌, refl, ◌⊎◌, inl, inr, Bool, true, false, ◌&&◌, none, some, List, [], ◌∷◌, ltb, Bool-cases,
  Option-cases,
}
use rawcon.Common.Bytes.{Bytes}
use rawcon.Common.Text.{bytes_eq}
use rawcon.Utils.Domains.{
  DomainNode, node, Kids, nil, kid, any, nodes, find, assign, count, new_node, is_star, mark_any,
  put_at, test_at,
}
use rawcon.Utils.Domains.Entries.{find-assign_self, find-assign_ne}

abbrev pub set_kid : DomainNode → Bytes → DomainNode → DomainNode
set_kid (node h a d ks) l w = node h a d (assign l w ks)

-- What Put does at a node `n` with a label `l` that is not empty.
pub data PutStep (deep : Bool) (n : DomainNode) (l : Bytes) (ls : List Bytes) (r : DomainNode)
    : Type 0 where
  covered : any n ≡ true → r ≡ n → PutStep deep n l ls r
  star : is_star l ≡ true → r ≡ mark_any n → PutStep deep n l ls r
  below_any :
      (v : DomainNode)
      → find l (nodes n) ≡ some v
      → any n ≡ false
      → any v ≡ true
      → r ≡ n
      → PutStep deep n l ls r
  widened :
      (v : DomainNode)
      → deep ≡ true
      → any n ≡ false
      → find l (nodes n) ≡ some v
      → r ≡ set_kid n l (mark_any v)
      → PutStep deep n l ls r
  descended :
      (v : DomainNode)
      → any n ≡ false
      → (find l (nodes n) ≡ some v) ⊎ ((find l (nodes n) ≡ none) × (v ≡ new_node l))
      → r ≡ set_kid n l (put_at true v ls)
      → PutStep deep n l ls r

pub put_at-step :
    (deep : Bool) (n : DomainNode) (c : ℕ) (l : Bytes) (ls : List Bytes)
    → PutStep deep n (c ∷ l) ls (put_at deep n ((c ∷ l) ∷ ls))
unfolding put_at
put_at-step deep (node h true d ks) c l ls = covered refl refl
put_at-step deep (node h false d ks) c l ls = elim (Bool-cases (is_star (c ∷ l))) [
  | inl all ↦ star all (rw all refl)
  | inr one ↦ elim (Option-cases (find (c ∷ l) ks)) [
    | inl new ↦ descended (new_node (c ∷ l)) refl (inr (new, refl)) (rw (one, new) refl)
    | inr (v, known) ↦ elim (Bool-cases (any v)) [
      | inl marked ↦ below_any v known refl marked (rw (one, known, marked) refl)
      | inr bare ↦ elim (Bool-cases (ltb 10 (count (nodes v)) && deep)) [
        | inl wide ↦
            widened v (and_right (ltb 10 (count (nodes v))) deep wide) refl known
              (rw (one, known, bare, wide) refl)
        | inr narrow ↦ descended v refl (inl known) (rw (one, known, bare, narrow) refl)
      ]
    ]
  ]
]
  where
    and_right : (a b : Bool) → (a && b) ≡ true → b ≡ true
    and_right true b e = e
    and_right false b e = cc

-- A node that is marked with `any` is marked with `hit`.
unfoldable mutual
  pub IsMarked : DomainNode → Type 0
  IsMarked (node h a d ks) = (a ≡ true → h ≡ true) × AreMarked ks

  pub AreMarked : Kids → Type 0
  AreMarked nil = Unit
  AreMarked (kid k v ks) = IsMarked v × AreMarked ks

pub new_node-IsMarked : (l : Bytes) → IsMarked (new_node l)
unfolding IsMarked
new_node-IsMarked l = ((λ e. cc), tt)

pub mark_any-IsMarked : (n : DomainNode) → IsMarked (mark_any n)
unfolding IsMarked mark_any
mark_any-IsMarked (node h a d ks) = ((λ e. refl), tt)

pub mark_any-any : (n : DomainNode) → any (mark_any n) ≡ true
unfolding mark_any
mark_any-any (node h a d ks) = refl

find-IsMarked :
    (l : Bytes) (v : DomainNode) (ks : Kids) → AreMarked ks → find l ks ≡ some v → IsMarked v
unfolding IsMarked
find-IsMarked l v nil m e = cc
find-IsMarked l v (kid k w ks) m e = elim (Bool-cases (bytes_eq k l)) [
  | inl same ↦ let it : w ≡ v = some_injective (rw same at e) in rw it at m.0
  | inr other ↦ find-IsMarked l v ks m.1 (rw other at e)
]
  where
    some_injective : {x y : DomainNode} → some x ≡ some y → x ≡ y
    some_injective h = cc

assign-AreMarked :
    (l : Bytes) (v : DomainNode) (ks : Kids) → AreMarked ks → IsMarked v → AreMarked (assign l v ks)
unfolding IsMarked
assign-AreMarked l v nil m w = (w, tt)
assign-AreMarked l v (kid k x ks) m w = elim (Bool-cases (bytes_eq k l)) [
  | inl same ↦ rw same (w, m.1)
  | inr other ↦ rw other (m.0, assign-AreMarked l v ks m.1 w)
]

set_kid-IsMarked :
    (n : DomainNode) (l : Bytes) (w : DomainNode)
    → IsMarked n
    → IsMarked w
    → IsMarked (set_kid n l w)
unfolding IsMarked
set_kid-IsMarked (node h a d ks) l w m mw = (m.0, assign-AreMarked l w ks m.1 mw)

pub kid-IsMarked :
    (n : DomainNode) (l : Bytes) (v : DomainNode)
    → IsMarked n
    → find l (nodes n) ≡ some v
    → IsMarked v
unfolding IsMarked
kid-IsMarked (node h a d ks) l v m e = find-IsMarked l v ks m.1 e

pub put_at-skip :
    (deep : Bool) (n : DomainNode) (ls : List Bytes) → put_at deep n ([] ∷ ls) ≡ put_at true n ls
unfolding put_at
put_at-skip deep (node h a d ks) ls = refl

put_at-end : (deep : Bool) (n : DomainNode) → IsMarked n → IsMarked (put_at deep n [])
unfolding IsMarked put_at
put_at-end deep (node h a d ks) m = ((λ e. refl), m.1)

-- Put keeps it so.
pub put_at-IsMarked :
    (deep : Bool) (n : DomainNode) (ls : List Bytes) → IsMarked n → IsMarked (put_at deep n ls)
put_at-IsMarked deep n [] m = put_at-end deep n m
put_at-IsMarked deep n ([] ∷ ls) m = rw (put_at-skip deep n ls) (put_at-IsMarked true n ls m)
put_at-IsMarked deep n ((c ∷ l) ∷ ls) m = elim (put_at-step deep n c l ls) [
  | covered e r ↦ rw r m
  | star e r ↦ rw r (mark_any-IsMarked n)
  | below_any v f e w r ↦ rw r m
  | widened v d e f r ↦ rw r (set_kid-IsMarked n (c ∷ l) (mark_any v) m (mark_any-IsMarked v))
  | descended v e (inl f) r ↦ rw r (
      set_kid-IsMarked n (c ∷ l) (put_at true v ls) m
        (put_at-IsMarked true v ls (kid-IsMarked n (c ∷ l) v m f)))
  | descended v e (inr (f, new)) r ↦ rw r (
      set_kid-IsMarked n (c ∷ l) (put_at true v ls) m
        (put_at-IsMarked true v ls (rw new (new_node-IsMarked (c ∷ l)))))
]

-- Below a node marked with `any` every host is found.
pub test-any : (n : DomainNode) (ls : List Bytes) → IsMarked n → any n ≡ true → test_at n ls ≡ true
unfolding test_at IsMarked
test-any (node h a d ks) [] m e = m.0 e
test-any (node h a d ks) ([] ∷ ls) m e = test-any (node h a d ks) ls m e
test-any (node h a d ks) ((c ∷ l) ∷ ls) m e = rw e refl

pub test-step :
    (n : DomainNode) (c : ℕ) (l : Bytes) (ls : List Bytes)
    → any n ≡ false
    → test_at n ((c ∷ l) ∷ ls)
      ≡ elim (find (c ∷ l) (nodes n)) [ none ↦ false | some v ↦ test_at v ls ]
unfolding test_at
test-step (node h a d ks) c l ls e = rw e refl

pub test-skip : (n : DomainNode) (ls : List Bytes) → test_at n ([] ∷ ls) ≡ test_at n ls
unfolding test_at
test-skip (node h a d ks) ls = refl

-- Through an entry that has just been set, and past it.
pub test-set_self :
    (n : DomainNode) (c : ℕ) (l : Bytes) (w : DomainNode) (ls : List Bytes)
    → any n ≡ false
    → test_at (set_kid n (c ∷ l) w) ((c ∷ l) ∷ ls) ≡ test_at w ls
unfolding test_at
test-set_self (node h a d ks) c l w ls e = rw (e, find-assign_self (c ∷ l) w ks) refl

pub test-set_ne :
    (n : DomainNode) (k : Bytes) (c : ℕ) (l : Bytes) (w : DomainNode) (ls : List Bytes)
    → bytes_eq k (c ∷ l) ≡ false
    → test_at (set_kid n k w) ((c ∷ l) ∷ ls) ≡ test_at n ((c ∷ l) ∷ ls)
unfolding test_at
test-set_ne (node h a d ks) k c l w ls e = rw (find-assign_ne k (c ∷ l) w ks e) refl

test-put_end : (deep : Bool) (n : DomainNode) → test_at (put_at deep n []) [] ≡ true
unfolding test_at put_at
test-put_end deep (node h a d ks) = refl

-- What has been put is found.
pub test-put_at :
    (deep : Bool) (n : DomainNode) (ls : List Bytes)
    → IsMarked n
    → test_at (put_at deep n ls) ls ≡ true
test-put_at deep n [] m = test-put_end deep n
test-put_at deep n ([] ∷ ls) m =
    rw (put_at-skip deep n ls, test-skip (put_at true n ls) ls) (test-put_at true n ls m)
test-put_at deep n ((c ∷ l) ∷ ls) m = elim (put_at-step deep n c l ls) [
  | covered e r ↦ rw r (test-any n _ m e)
  | star e r ↦ rw r (test-any (mark_any n) _ (mark_any-IsMarked n) (mark_any-any n))
  | below_any v f e w r ↦
      rw (r, test-step n c l ls e, f) (test-any v ls (kid-IsMarked n (c ∷ l) v m f) w)
  | widened v d e f r ↦
      rw (r, test-set_self n c l (mark_any v) ls e)
        (test-any (mark_any v) ls (mark_any-IsMarked v) (mark_any-any v))
  | descended v e (inl f) r ↦
      rw (r, test-set_self n c l (put_at true v ls) ls e)
        (test-put_at true v ls (kid-IsMarked n (c ∷ l) v m f))
  | descended v e (inr (f, new)) r ↦
      rw (r, test-set_self n c l (put_at true v ls) ls e)
        (test-put_at true v ls (rw new (new_node-IsMarked (c ∷ l))))
]
