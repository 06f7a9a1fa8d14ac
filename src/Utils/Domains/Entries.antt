-- ===== src/Utils/Domains/Entries.antt =====
-- The entries of a node's map.
use rawcon.Common.{◌≡◌, refl, ap, inl, inr, true, false, some, if◌then◌else◌}
use rawcon.Common.Bytes.{Bytes}
use rawcon.Common.Text.{bytes_eq, bytes_eq_refl, bytes_eq-cases}
use rawcon.Utils.Domains.{DomainNode, Kids, nil, kid, find, assign}

pub find-assign_self : (l : Bytes) (v : DomainNode) (ks : Kids) → find l (assign l v ks) ≡ some v
find-assign_self l v nil = rw (bytes_eq_refl l)
find-assign_self l v (kid k w ks) = elim (bytes_eq-cases k l) [
  | inl same ↦ let here : bytes_eq k l ≡ true = rw same (bytes_eq_refl l) in simp here refl
  | inr other ↦ simp other.0 (find-assign_self l v ks)
]

pub find-assign_ne :
    (l m : Bytes) (v : DomainNode) (ks : Kids)
    → bytes_eq l m ≡ false
    → find m (assign l v ks) ≡ find m ks
find-assign_ne l m v nil h = rw h
find-assign_ne l m v (kid k w ks) h = elim (bytes_eq-cases k l) [
  | inl same ↦
      let here : bytes_eq k l ≡ true = rw same (bytes_eq_refl l) in
      let there : bytes_eq k m ≡ false = rw same h in simp (here, there) refl
  | inr other ↦
      rw other.0 (ap (λ r. if bytes_eq k m then some w else r) (find-assign_ne l m v ks h))
]
