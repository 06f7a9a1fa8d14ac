-- ===== src/Utils/Domains/Found.antt =====
-- utils/utils.go, DomainRoot: Put takes no host away, so every host that was put is found.
use rawcon.Common.{
  ℕ, ◌≡◌, refl, sym, ap, ◌∙◌, inl, inr, Bool, true, false, none, some, List, [], ◌∷◌, ◌++◌, ltb,
  length, Bool-cases,
}
use rawcon.Common.Bytes.{Bytes}
use rawcon.Common.Text.{bytes_eq-cases, split}
use rawcon.Utils.Domains.{
  DomainNode, node, any, nodes, find, new_domain_root, mark_any, put_at, test_at, put, test,
  reverse, dot,
}
use rawcon.Utils.Domains.Laws.{
  set_kid, covered, star, below_any, widened, descended, put_at-step, put_at-skip, IsMarked,
  new_node-IsMarked, mark_any-IsMarked, mark_any-any, kid-IsMarked, put_at-IsMarked, test-any,
  test-step, test-skip, test-set_self, test-set_ne, test-put_at,
}

keeps_end :
    (deep : Bool) (n : DomainNode) (hs : List Bytes)
    → test_at n hs ≡ true
    → test_at (put_at deep n []) hs ≡ true
unfolding test_at put_at
keeps_end deep (node h a d ks) [] e = refl
keeps_end deep (node h a d ks) ([] ∷ hs) e = keeps_end deep (node h a d ks) hs e
keeps_end deep (node h a d ks) ((c ∷ l) ∷ hs) e = e

keeps_hit :
    (deep : Bool) (n : DomainNode) (c : ℕ) (l : Bytes) (ls : List Bytes)
    → test_at n [] ≡ true
    → test_at (put_at deep n ((c ∷ l) ∷ ls)) [] ≡ true
unfolding test_at
keeps_hit deep n c l ls e = elim (put_at-step deep n c l ls) [
  | covered w r ↦ rw r e
  | star w r ↦ rw r (test-any (mark_any n) [] (mark_any-IsMarked n) (mark_any-any n))
  | below_any v f w x r ↦ rw r e
  | widened v d w f r ↦ rw r (set_hit n (mark_any v) e)
  | descended v w f r ↦ rw r (set_hit n (put_at true v ls) e)
]
  where
    set_hit :
        (k : DomainNode) (w : DomainNode)
        → test_at k [] ≡ true
        → test_at (set_kid k (c ∷ l) w) [] ≡ true
    set_hit (node h a d ks) w e = e

-- Put takes nothing away.
keeps :
    (deep : Bool) (n : DomainNode) (ls hs : List Bytes)
    → IsMarked n
    → test_at n hs ≡ true
    → test_at (put_at deep n ls) hs ≡ true
keeps deep n [] hs m e = keeps_end deep n hs e
keeps deep n ([] ∷ ls) hs m e = rw (put_at-skip deep n ls) (keeps true n ls hs m e)
keeps deep n ((c ∷ l) ∷ ls) [] m e = keeps_hit deep n c l ls e
keeps deep n ((c ∷ l) ∷ ls) ([] ∷ hs) m e =
    rw (test-skip (put_at deep n ((c ∷ l) ∷ ls)) hs)
      (keeps deep n ((c ∷ l) ∷ ls) hs m (rw (test-skip n hs) at e))
keeps deep n ((c ∷ l) ∷ ls) ((d ∷ k) ∷ hs) m e = elim (put_at-step deep n c l ls) [
  | covered w r ↦ rw r e
  | star w r ↦ rw r (test-any (mark_any n) ((d ∷ k) ∷ hs) (mark_any-IsMarked n) (mark_any-any n))
  | below_any v f w x r ↦ rw r e
  | widened v deeper w f r ↦ rw r (
      at_kid (mark_any v) w
        (λ same. test-any (mark_any v) hs (mark_any-IsMarked v) (mark_any-any v)))
  | descended v w (inl f) r ↦ rw r (
      at_kid (put_at true v ls) w
        (λ same. keeps true v ls hs (kid-IsMarked n (c ∷ l) v m f) (known v w f same)))
  | descended v w (inr (f, new)) r ↦
      rw r (at_kid (put_at true v ls) w (λ same. absurd (unknown w f same)))
]
  where
    at_kid :
        (w : DomainNode)
        → any n ≡ false
        → ((c ∷ l) ≡ (d ∷ k) → test_at w hs ≡ true)
        → test_at (set_kid n (c ∷ l) w) ((d ∷ k) ∷ hs) ≡ true
    at_kid w bare found = elim (bytes_eq-cases (c ∷ l) (d ∷ k)) [
      | inl same ↦ rw (← same) (test-set_self n c l w hs bare ∙ found same)
      | inr other ↦ test-set_ne n (c ∷ l) d k w hs other.0 ∙ e
    ]

    known :
        (v : DomainNode)
        → any n ≡ false
        → find (c ∷ l) (nodes n) ≡ some v
        → (c ∷ l) ≡ (d ∷ k)
        → test_at v hs ≡ true
    known v bare f same =
        let there = ap (λ t. find t (nodes n)) (sym same) ∙ f in
        rw (test-step n d k hs bare, there) at e

    unknown : any n ≡ false → find (c ∷ l) (nodes n) ≡ none → (c ∷ l) ≡ (d ∷ k) → ⊥
    unknown bare f same =
        let there = ap (λ t. find t (nodes n)) (sym same) ∙ f in
        cc (rw (test-step n d k hs bare, there) at e)

abbrev pub put_all : DomainNode → List Bytes → DomainNode
put_all root [] = root
put_all root (host ∷ hosts) = put_all (put root host) hosts

put-IsMarked : (root : DomainNode) (host : Bytes) → IsMarked root → IsMarked (put root host)
unfolding put
put-IsMarked root host m = elim (Bool-cases (ltb (length (split dot host)) 2)) [
  | inl short ↦ rw short m
  | inr long ↦ rw long (put_at-IsMarked false root (reverse (split dot host)) m)
]

put-keeps :
    (root : DomainNode) (host other : Bytes)
    → IsMarked root
    → test root other ≡ true
    → test (put root host) other ≡ true
unfolding put test
put-keeps root host other m e = elim (Bool-cases (ltb (length (split dot host)) 2)) [
  | inl short ↦ rw short e
  | inr long ↦ elim (Bool-cases (ltb (length (split dot other)) 2)) [
    | inl lone ↦ absurd (cc (rw lone at e))
    | inr pair ↦
        rw (long, pair)
          (keeps false root (reverse (split dot host)) (reverse (split dot other)) m (rw pair at e))
  ]
]

test-put :
    (root : DomainNode) (host : Bytes)
    → IsMarked root
    → ltb (length (split dot host)) 2 ≡ false
    → test (put root host) host ≡ true
unfolding put test
test-put root host m long = rw long (test-put_at false root (reverse (split dot host)) m)

put_all-keeps :
    (root : DomainNode) (hosts : List Bytes) (other : Bytes)
    → IsMarked root
    → test root other ≡ true
    → test (put_all root hosts) other ≡ true
put_all-keeps root [] other m e = e
put_all-keeps root (host ∷ hosts) other m e =
    put_all-keeps (put root host) hosts other (put-IsMarked root host m)
      (put-keeps root host other m e)

put_all-test :
    (root : DomainNode) (before : List Bytes) (host : Bytes) (after : List Bytes)
    → IsMarked root
    → ltb (length (split dot host)) 2 ≡ false
    → test (put_all root (before ++ (host ∷ after))) host ≡ true
put_all-test root [] host after m long =
    put_all-keeps (put root host) after host (put-IsMarked root host m) (test-put root host m long)
put_all-test root (b ∷ before) host after m long =
    put_all-test (put root b) before host after (put-IsMarked root b m) long

-- Of the hosts that were put into a new DomainRoot, in any order and with any others before and after
-- it, each that has a dot is found by Test.
pub test-put_all :
    (before after : List Bytes) (host : Bytes)
    → ltb (length (split dot host)) 2 ≡ false
    → test (put_all new_domain_root (before ++ (host ∷ after))) host ≡ true
test-put_all before after host long =
    put_all-test new_domain_root before host after (new_node-IsMarked []) long
