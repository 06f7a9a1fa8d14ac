-- ===== src/Utils/Domains/Local.antt =====
-- utils/utils.go, DomainRoot: what a Put cannot change.
use rawcon.Common.{ℕ, ◌≡◌, refl, sym, ◌∙◌, ◌⊎◌, inl, inr, Bool, true, false, none, some, List, ◌∷◌}
use rawcon.Common.Bytes.{Bytes}
use rawcon.Common.Text.{bytes_eq, bytes_eq-cases}
use rawcon.Utils.Domains.{DomainNode, any, nodes, find, new_node, is_star, put_at, test_at}
use rawcon.Utils.Domains.Laws.{
  covered, star, below_any, widened, descended, put_at-step, test-step, test-set_self, test-set_ne,
}

-- Below a label that differs.
put_at-ne :
    (deep : Bool) (n : DomainNode) (c : ℕ) (l : Bytes) (d : ℕ) (k : Bytes) (ls hs : List Bytes)
    → is_star (c ∷ l) ≡ false
    → bytes_eq (c ∷ l) (d ∷ k) ≡ false
    → test_at (put_at deep n ((c ∷ l) ∷ ls)) ((d ∷ k) ∷ hs) ≡ test_at n ((d ∷ k) ∷ hs)
put_at-ne deep n c l d k ls hs one other = elim (put_at-step deep n c l ls) [
  | covered w r ↦ rw r refl
  | star w r ↦ absurd (cc (one, w))
  | below_any v f w x r ↦ rw r refl
  | widened v deeper w f r ↦ rw r (test-set_ne n (c ∷ l) d k _ hs other)
  | descended v w f r ↦ rw r (test-set_ne n (c ∷ l) d k _ hs other)
]

-- Put of a host whose last two labels are not empty and no "*" changes no answer of Test for a host that
-- differs from it in one of the last two labels, those of that host not being empty either.
pub put_at-local :
    (n : DomainNode) (c1 : ℕ) (l1 : Bytes) (c2 : ℕ) (l2 : Bytes) (ls : List Bytes) (d1 : ℕ)
    (k1 : Bytes) (d2 : ℕ) (k2 : Bytes) (hs : List Bytes)
    → is_star (c1 ∷ l1) ≡ false
    → is_star (c2 ∷ l2) ≡ false
    → (bytes_eq (c1 ∷ l1) (d1 ∷ k1) ≡ false) ⊎ (bytes_eq (c2 ∷ l2) (d2 ∷ k2) ≡ false)
    → test_at (put_at false n ((c1 ∷ l1) ∷ (c2 ∷ l2) ∷ ls)) ((d1 ∷ k1) ∷ (d2 ∷ k2) ∷ hs)
      ≡ test_at n ((d1 ∷ k1) ∷ (d2 ∷ k2) ∷ hs)
put_at-local n c1 l1 c2 l2 ls d1 k1 d2 k2 hs one two (inl first) =
    put_at-ne false n c1 l1 d1 k1 _ _ one first
put_at-local n c1 l1 c2 l2 ls d1 k1 d2 k2 hs one two (inr second) =
    elim (bytes_eq-cases (c1 ∷ l1) (d1 ∷ k1)) [
      | inr other ↦ put_at-ne false n c1 l1 d1 k1 _ _ one other.0
      | inl same ↦ rw (← same) (elim (put_at-step false n c1 l1 ((c2 ∷ l2) ∷ ls)) [
        | covered w r ↦ rw r refl
        | star w r ↦ absurd (cc (one, w))
        | below_any v f w x r ↦ rw r refl
        | widened v deeper w f r ↦ absurd (cc deeper)
        | descended v w f r ↦ rw r (
            test-set_self n c1 l1 _ _ w
            ∙ put_at-ne true v c2 l2 d2 k2 ls hs two second
            ∙ sym (at_kid v w f))
      ])
    ]
  where
    at_kid :
        (v : DomainNode)
        → any n ≡ false
        → (find (c1 ∷ l1) (nodes n) ≡ some v)
          ⊎ ((find (c1 ∷ l1) (nodes n) ≡ none) × (v ≡ new_node (c1 ∷ l1)))
        → test_at n ((c1 ∷ l1) ∷ (d2 ∷ k2) ∷ hs) ≡ test_at v ((d2 ∷ k2) ∷ hs)
    at_kid v bare (inl f) = rw (test-step n c1 l1 ((d2 ∷ k2) ∷ hs) bare, f) refl
    at_kid v bare (inr (f, new)) =
        rw (test-step n c1 l1 ((d2 ∷ k2) ∷ hs) bare, f, new)
          (sym (test-step (new_node (c1 ∷ l1)) d2 k2 hs refl))
