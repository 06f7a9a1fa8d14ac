-- ===== src/Tls/ServerHello/Unmarshal/Safety.antt =====
-- utils/tls.go, ServerHelloMsg.Unmarshal: every read of the buffer is behind a test that it is there.
use rawcon.Common.{
  ℕ, zero, suc, ◌+◌, ◌-◌, ◌≤◌, arith, not, List, [], ◌∷◌, ◌++◌, ◌||◌, ◌==◌, ltb, length,
  length-drop, length-take, take, drop,
}
use rawcon.Common.Go.{Safe, Safe-bind, Safe-if}
use rawcon.Common.Bytes.{Bytes, be16, index-Safe, slice-Safe, slice_from-Safe, slice_to-Safe}
use rawcon.Tls.ServerHello.{ServerHelloMsg}
use rawcon.Tls.ServerHello.Unmarshal.{
  read_protos, read_next_protos, read_renegotiation, read_alpn, read_scts, read_sct_list,
  read_other, read_extension, read_extensions, read_extension_block, read_fixed, unmarshal,
}

read_protos-Safe :
    (fuel : ℕ) (d : Bytes) (protos : List Bytes)
    → length d ≤ fuel
    → Safe (read_protos fuel d protos)
unfolding read_protos
read_protos-Safe fuel [] protos h = tt
read_protos-Safe zero (x ∷ d) protos h = absurd (omega arith)
read_protos-Safe (suc fuel) (x ∷ d) protos h = slice_from-Safe (x ∷ d) 1 _ (omega arith) (
    Safe-if (x == 0 || ltb (length d) x) _ _ (λ _. tt)
      λ fits. slice_to-Safe d x _ (ground arith) (
        slice_from-Safe d x _ (ground arith) (
          read_protos-Safe fuel (drop x d) (protos ++ (take x d ∷ []))
            (omega (arith, length-drop x d)))))

read_scts-Safe :
    (fuel : ℕ) (d : Bytes) (scts : List Bytes) → length d ≤ fuel → Safe (read_scts fuel d scts)
unfolding read_scts
read_scts-Safe fuel [] scts h = tt
read_scts-Safe zero (x ∷ d) scts h = absurd (omega arith)
read_scts-Safe (suc fuel) (x ∷ d) scts h =
    Safe-if (ltb (length (x ∷ d)) 2) _ _ (λ _. tt)
      λ long. index-Safe (x ∷ d) 1 _ (ground arith) λ lo.
        slice_from-Safe (x ∷ d) 2 _ (ground arith) (
          Safe-if (be16 x lo == 0 || ltb (length (drop 1 d)) (be16 x lo)) _ _ (λ _. tt)
            λ fits. slice_to-Safe (drop 1 d) (be16 x lo) _ (ground arith) (
              slice_from-Safe (drop 1 d) (be16 x lo) _ (ground arith) (
                read_scts-Safe fuel (drop (be16 x lo) (drop 1 d))
                  (scts ++ (take (be16 x lo) (drop 1 d) ∷ []))
                  (omega (arith, length-drop (be16 x lo) (drop 1 d), length-drop 1 d)))))

-- The cases of the switch, for an extension whose bytes are there.
module _ (m : ServerHelloMsg) (n : ℕ) (d : Bytes) (there : n ≤ length d) where
  read_next_protos-Safe : Safe (read_next_protos m n d)
  unfolding read_next_protos
  read_next_protos-Safe = slice_to-Safe d n _ there (
      Safe-bind (read_protos (length (take n d)) (take n d) m.next_protos) _
        (read_protos-Safe _ (take n d) m.next_protos (omega arith)) (λ _ _. tt))

  read_renegotiation-Safe : Safe (read_renegotiation m n d)
  unfolding read_renegotiation
  read_renegotiation-Safe =
      Safe-if (n == 0) _ _ (λ _. tt)
        λ any. slice_to-Safe d n _ there (
          index-Safe (take n d) 0 _ (ground (arith, length-take n d)) λ l.
            slice_from-Safe (take n d) 1 _ (ground (arith, length-take n d))
              (Safe-if (not (l == length (drop 1 (take n d)))) _ _ (λ _. tt) (λ _. tt)))

  read_alpn-Safe : Safe (read_alpn m n d)
  unfolding read_alpn
  read_alpn-Safe = slice_to-Safe d n _ there (
      Safe-if (ltb (length (take n d)) 3) _ _ (λ _. tt)
        λ long. index-Safe (take n d) 0 _ (ground arith) λ hi.
          index-Safe (take n d) 1 _ (ground arith) λ lo.
            Safe-if (not (be16 hi lo == length (take n d) - 2)) _ _ (λ _. tt)
              λ _. slice_from-Safe (take n d) 2 _ (ground arith) (
                index-Safe (drop 2 (take n d)) 0 _ (ground (arith, length-drop 2 (take n d))) λ l.
                  Safe-if (not (l == length (drop 2 (take n d)) - 1)) _ _ (λ _. tt)
                    λ _.
                      slice_from-Safe (drop 2 (take n d)) 1 _
                        (ground (arith, length-drop 2 (take n d)))
                        (Safe-if (length (drop 1 (drop 2 (take n d))) == 0) _ _ (λ _. tt)
                          (λ _. tt))))

  read_sct_list-Safe : Safe (read_sct_list m n d)
  unfolding read_sct_list
  read_sct_list-Safe = slice_to-Safe d n _ there (
      Safe-if (ltb (length (take n d)) 2) _ _ (λ _. tt)
        λ long. index-Safe (take n d) 0 _ (ground arith) λ hi.
          index-Safe (take n d) 1 _ (ground arith) λ lo.
            slice_from-Safe (take n d) 2 _ (ground arith) (
              Safe-if (not (length (drop 2 (take n d)) == be16 hi lo) || be16 hi lo == 0) _ _
                (λ _. tt)
                λ _.
                  Safe-bind (read_scts (length (drop 2 (take n d))) (drop 2 (take n d)) []) _
                    (read_scts-Safe _ (drop 2 (take n d)) [] (omega arith)) (λ _ _. tt)))

  read_extension-Safe : (extension : ℕ) → Safe (read_extension m extension n d)
  unfolding read_extension read_other
  read_extension-Safe x =
      Safe-if (x == 13172) _ _ (λ _. read_next_protos-Safe)
        λ _.
          Safe-if (x == 5) _ _ (λ _. Safe-if (ltb 0 n) _ _ (λ _. tt) (λ _. tt))
            λ _.
              Safe-if (x == 35) _ _ (λ _. Safe-if (ltb 0 n) _ _ (λ _. tt) (λ _. tt))
                λ _.
                  Safe-if (x == 0xff01) _ _ (λ _. read_renegotiation-Safe)
                    λ _.
                      Safe-if (x == 16) _ _ (λ _. read_alpn-Safe)
                        λ _.
                          Safe-if (x == 18) _ _ (λ _. read_sct_list-Safe)
                            (λ _. slice_to-Safe d n _ there tt)

read_extensions-Safe :
    (fuel : ℕ) (m : ServerHelloMsg) (d : Bytes) → length d ≤ fuel → Safe (read_extensions fuel m d)
unfolding read_extensions
read_extensions-Safe fuel m [] h = tt
read_extensions-Safe zero m (x ∷ d) h = absurd (omega arith)
read_extensions-Safe (suc fuel) m (x ∷ d) h =
    Safe-if (ltb (length (x ∷ d)) 4) _ _ (λ _. tt)
      λ long. index-Safe (x ∷ d) 1 _ (ground arith) λ e0.
        index-Safe (x ∷ d) 2 _ (ground arith) λ l1. index-Safe (x ∷ d) 3 _ (ground arith) λ l0.
          slice_from-Safe (x ∷ d) 4 _ (ground arith) (
            Safe-if (ltb (length (drop 3 d)) (be16 l1 l0)) _ _ (λ _. tt)
              λ fits.
                Safe-bind (read_extension m (be16 x e0) (be16 l1 l0) (drop 3 d)) _
                  (read_extension-Safe m (be16 l1 l0) (drop 3 d) (ground arith) (be16 x e0))
                  λ m' _. slice_from-Safe (drop 3 d) (be16 l1 l0) _ (ground arith) (
                    read_extensions-Safe fuel m' _
                      (omega (arith, length-drop (be16 l1 l0) (drop 3 d), length-drop 3 d))))

read_extension_block-Safe : (m : ServerHelloMsg) (d : Bytes) → Safe (read_extension_block m d)
unfolding read_extension_block
read_extension_block-Safe m d =
    Safe-if (length d == 0) _ _ (λ _. tt)
      λ _.
        Safe-if (ltb (length d) 2) _ _ (λ _. tt)
          λ long. index-Safe d 0 _ (ground arith) λ hi. index-Safe d 1 _ (ground arith) λ lo.
            slice_from-Safe d 2 _ (ground arith) (
              Safe-if (not (length (drop 2 d) == be16 hi lo)) _ _ (λ _. tt)
                λ _. read_extensions-Safe _ m (drop 2 d) (omega arith))

read_fixed-Safe : (m : ServerHelloMsg) (b : Bytes) → 42 ≤ length b → Safe (read_fixed m b)
unfolding read_fixed
read_fixed-Safe m b h = index-Safe b 4 _ (omega arith) λ v1. index-Safe b 5 _ (omega arith) λ v0.
    slice-Safe b 6 38 _ (omega arith) (omega arith) (
      index-Safe b 38 _ (omega arith) λ n.
        Safe-if (ltb 32 n || ltb (length b) (39 + n)) _ _ (λ _. tt)
          λ fits. slice-Safe b 39 (39 + n) _ (omega arith) (ground arith) (
            slice_from-Safe b (39 + n) _ (ground arith) (
              Safe-if (ltb (length (drop (39 + n) b)) 3) _ _ (λ _. tt)
                λ long. index-Safe (drop (39 + n) b) 0 _ (ground arith) λ hi.
                  index-Safe (drop (39 + n) b) 1 _ (ground arith) λ lo.
                    index-Safe (drop (39 + n) b) 2 _ (ground arith)
                      λ method. slice_from-Safe (drop (39 + n) b) 3 _ (ground arith) tt)))

-- Whatever bytes a peer sends, Unmarshal of a server hello returns true or false: no index and no
-- slice bound is out of range, and every loop ends.
pub server_hello-unmarshal-Safe : (m : ServerHelloMsg) (b : Bytes) → Safe (unmarshal m b)
unfolding unmarshal
server_hello-unmarshal-Safe m b =
    Safe-if (ltb (length b) 42) _ _ (λ _. tt)
      λ long.
        Safe-bind (read_fixed m b) _ (read_fixed-Safe m b (ground arith))
          λ r _. read_extension_block-Safe r.0 r.1
