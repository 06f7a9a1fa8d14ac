-- ===== src/Tls/ClientHello/Unmarshal/Safety.antt =====
-- utils/tls.go, ClientHelloMsg.Unmarshal: every read of the buffer is behind a test that it is there.
use rawcon.Common.{
  ℕ, zero, suc, ◌+◌, ◌-◌, ◌*◌, ◌/◌, ◌%◌, ◌≤◌, arith, not, List, [], ◌∷◌, ◌++◌, ◌||◌, ◌==◌, ltb,
  length, length-drop, length-take, take, drop,
}
use rawcon.Common.Go.{Safe, Safe-bind, Safe-if}
use rawcon.Common.Bytes.{Bytes, be16, index-Safe, slice-Safe, slice_from-Safe, slice_to-Safe}
use rawcon.Tls.ClientHello.{ClientHelloMsg}
use rawcon.Tls.ClientHello.Unmarshal.{
  read_session, read_cipher_suites, read_compression, read_extensions, read_extension_block,
  unmarshal,
}
use rawcon.Tls.ClientHello.Unmarshal.Extensions.{
  read_u16s, read_pairs, has_dot_suffix, read_names, read_server_name, read_status_request,
  read_curves, read_points, read_ticket, read_signatures, read_renegotiation, read_protocols,
  read_alpn, read_extension,
}

pub read_u16s-Safe : (n : ℕ) (d : Bytes) → n * 2 ≤ length d → Safe (read_u16s n d)
unfolding read_u16s
read_u16s-Safe zero d h = tt
read_u16s-Safe (suc n) [] h = absurd (omega arith)
read_u16s-Safe (suc n) (x ∷ []) h = absurd (omega arith)
read_u16s-Safe (suc n) (x ∷ y ∷ d) h =
    Safe-bind (read_u16s n d) _ (read_u16s-Safe n d (omega arith)) (λ _ _. tt)

read_pairs-Safe : (n : ℕ) (d : Bytes) → n * 2 ≤ length d → Safe (read_pairs n d)
unfolding read_pairs
read_pairs-Safe zero d h = tt
read_pairs-Safe (suc n) [] h = absurd (omega arith)
read_pairs-Safe (suc n) (x ∷ []) h = absurd (omega arith)
read_pairs-Safe (suc n) (x ∷ y ∷ d) h =
    Safe-bind (read_pairs n d) _ (read_pairs-Safe n d (omega arith)) (λ _ _. tt)

read_names-Safe : (fuel : ℕ) (d name : Bytes) → length d ≤ fuel → Safe (read_names fuel d name)
unfolding read_names
read_names-Safe fuel [] name h = tt
read_names-Safe zero (x ∷ d) name h = absurd (omega arith)
read_names-Safe (suc fuel) (x ∷ d) name h =
    Safe-if (ltb (length (x ∷ d)) 3) _ _ (λ _. tt)
      λ long. index-Safe (x ∷ d) 1 _ (ground arith) λ l1.
        index-Safe (x ∷ d) 2 _ (ground arith) λ l0. slice_from-Safe (x ∷ d) 3 _ (ground arith) (
          Safe-if (ltb (length (drop 3 (x ∷ d))) (be16 l1 l0)) _ _ (λ _. tt)
            λ fits.
              Safe-if (x == 0) _ _
                (λ _. slice_to-Safe (drop 3 (x ∷ d)) (be16 l1 l0) _ (ground arith) (
                  Safe-if (has_dot_suffix (take (be16 l1 l0) (drop 3 (x ∷ d)))) _ _ (λ _. tt)
                    (λ _. tt)))
                (λ _. slice_from-Safe (drop 3 (x ∷ d)) (be16 l1 l0) _ (ground arith) (
                  read_names-Safe fuel _ name (
                    omega (
                      arith,
                      length-drop (be16 l1 l0) (drop 3 (x ∷ d)),
                      length-drop 3 (x ∷ d),
                      length-drop 2 d,
                    )))))

read_protocols-Safe :
    (fuel : ℕ) (d : Bytes) (protocols : List Bytes)
    → length d ≤ fuel
    → Safe (read_protocols fuel d protocols)
unfolding read_protocols
read_protocols-Safe fuel [] protocols h = tt
read_protocols-Safe zero (x ∷ d) protocols h = absurd (omega arith)
read_protocols-Safe (suc fuel) (x ∷ d) protocols h = slice_from-Safe (x ∷ d) 1 _ (omega arith) (
    Safe-if (x == 0 || ltb (length d) x) _ _ (λ _. tt)
      λ fits. slice_to-Safe d x _ (ground arith) (
        slice_from-Safe d x _ (ground arith) (
          read_protocols-Safe fuel (drop x d) (protocols ++ (take x d ∷ []))
            (omega (arith, length-drop x d)))))

-- The cases of the switch, for an extension whose bytes are there.
module _ (m : ClientHelloMsg) (n : ℕ) (d : Bytes) (there : n ≤ length d) where
  read_server_name-Safe : Safe (read_server_name m n d)
  unfolding read_server_name
  read_server_name-Safe = slice_to-Safe d n _ there (
      Safe-if (ltb (length (take n d)) 2) _ _ (λ _. tt)
        λ long. index-Safe (take n d) 0 _ (ground arith) λ hi.
          index-Safe (take n d) 1 _ (ground arith) λ lo.
            slice_from-Safe (take n d) 2 _ (ground arith) (
              Safe-if (not (length (drop 2 (take n d)) == be16 hi lo)) _ _ (λ _. tt)
                λ _.
                  Safe-bind
                    (read_names (length (drop 2 (take n d))) (drop 2 (take n d)) m.server_name) _
                    (read_names-Safe _ (drop 2 (take n d)) m.server_name (omega arith))
                    (λ _ _. tt)))

  read_status_request-Safe : Safe (read_status_request m n d)
  unfolding read_status_request
  read_status_request-Safe =
      Safe-if (ltb 0 n) _ _ (λ some'. index-Safe d 0 _ (ground arith) (λ _. tt)) (λ _. tt)

  read_curves-Safe : Safe (read_curves m n d)
  unfolding read_curves
  read_curves-Safe =
      Safe-if (ltb n 2) _ _ (λ _. tt)
        λ long. index-Safe d 0 _ (ground arith) λ hi. index-Safe d 1 _ (ground arith) λ lo.
          Safe-if (be16 hi lo % 2 == 1 || not (n == be16 hi lo + 2)) _ _ (λ _. tt)
            λ fits. slice_from-Safe d 2 _ (ground arith) (
              Safe-bind (read_u16s (be16 hi lo / 2) (drop 2 d)) _
                (read_u16s-Safe _ (drop 2 d) (ground (arith, length-drop 2 d))) (λ _ _. tt))

  read_points-Safe : Safe (read_points m n d)
  unfolding read_points
  read_points-Safe =
      Safe-if (ltb n 1) _ _ (λ _. tt)
        λ long. index-Safe d 0 _ (ground arith) λ l.
          Safe-if (not (n == l + 1)) _ _ (λ _. tt)
            λ fits. slice-Safe d 1 (1 + l) _ (omega arith) (ground arith) tt

  read_ticket-Safe : Safe (read_ticket m n d)
  unfolding read_ticket
  read_ticket-Safe = slice_to-Safe d n _ there tt

  read_signatures-Safe : Safe (read_signatures m n d)
  unfolding read_signatures
  read_signatures-Safe =
      Safe-if (ltb n 2 || not (n % 2 == 0)) _ _ (λ _. tt)
        λ long. index-Safe d 0 _ (ground arith) λ hi. index-Safe d 1 _ (ground arith) λ lo.
          Safe-if (not (be16 hi lo == n - 2)) _ _ (λ _. tt)
            λ fits. slice_from-Safe d 2 _ (ground arith) (
              Safe-bind (read_pairs (be16 hi lo / 2) (drop 2 d)) _
                (read_pairs-Safe _ (drop 2 d) (ground (arith, length-drop 2 d))) (λ _ _. tt))

  read_renegotiation-Safe : Safe (read_renegotiation m n d)
  unfolding read_renegotiation
  read_renegotiation-Safe =
      Safe-if (n == 0) _ _ (λ _. tt)
        λ some'. slice_to-Safe d n _ there (
          index-Safe (take n d) 0 _ (ground (arith, length-take n d)) λ l.
            slice_from-Safe (take n d) 1 _ (ground (arith, length-take n d))
              (Safe-if (not (l == length (drop 1 (take n d)))) _ _ (λ _. tt) (λ _. tt)))

  read_alpn-Safe : Safe (read_alpn m n d)
  unfolding read_alpn
  read_alpn-Safe =
      Safe-if (ltb n 2) _ _ (λ _. tt)
        λ long. index-Safe d 0 _ (ground arith) λ hi. index-Safe d 1 _ (ground arith) λ lo.
          Safe-if (not (be16 hi lo == n - 2)) _ _ (λ _. tt)
            λ _. slice-Safe d 2 n _ (ground arith) there (
              Safe-bind
                (read_protocols (length (drop 2 (take n d))) (drop 2 (take n d)) m.alpn_protocols) _
                (read_protocols-Safe _ (drop 2 (take n d)) m.alpn_protocols (omega arith))
                (λ _ _. tt))

  read_extension-Safe : (extension : ℕ) → Safe (read_extension m extension n d)
  unfolding read_extension
  read_extension-Safe x =
      Safe-if (x == 0) _ _ (λ _. read_server_name-Safe)
        λ _.
          Safe-if (x == 13172) _ _ (λ _. Safe-if (ltb 0 n) _ _ (λ _. tt) (λ _. tt))
            λ _.
              Safe-if (x == 5) _ _ (λ _. read_status_request-Safe)
                λ _.
                  Safe-if (x == 10) _ _ (λ _. read_curves-Safe)
                    λ _.
                      Safe-if (x == 11) _ _ (λ _. read_points-Safe)
                        λ _.
                          Safe-if (x == 35) _ _ (λ _. read_ticket-Safe)
                            λ _.
                              Safe-if (x == 13) _ _ (λ _. read_signatures-Safe)
                                λ _.
                                  Safe-if (x == 0xff01) _ _ (λ _. read_renegotiation-Safe)
                                    λ _.
                                      Safe-if (x == 16) _ _ (λ _. read_alpn-Safe)
                                        λ _.
                                          Safe-if (x == 18) _ _
                                            (λ _. Safe-if (n == 0) _ _ (λ _. tt) (λ _. tt))
                                            (λ _. tt)

read_extensions-Safe :
    (fuel : ℕ) (m : ClientHelloMsg) (d : Bytes) → length d ≤ fuel → Safe (read_extensions fuel m d)
unfolding read_extensions
read_extensions-Safe fuel m [] h = tt
read_extensions-Safe zero m (x ∷ d) h = absurd (omega arith)
read_extensions-Safe (suc fuel) m (x ∷ d) h =
    Safe-if (ltb (length (x ∷ d)) 4) _ _ (λ _. tt)
      λ long. index-Safe (x ∷ d) 1 _ (ground arith) λ e0.
        index-Safe (x ∷ d) 2 _ (ground arith) λ l1. index-Safe (x ∷ d) 3 _ (ground arith) λ l0.
          slice_from-Safe (x ∷ d) 4 _ (ground arith) (
            Safe-if (ltb (length (drop 3 d)) (be16 l1 l0)) _ _ (λ _. tt)
              λ fits.
                Safe-bind (read_extension m (be16 x e0) (be16 l1 l0) (drop 3 d)) _
                  (read_extension-Safe m (be16 l1 l0) (drop 3 d) (ground arith) (be16 x e0))
                  λ m' _. slice_from-Safe (drop 3 d) (be16 l1 l0) _ (ground arith) (
                    read_extensions-Safe fuel m' _
                      (omega (arith, length-drop (be16 l1 l0) (drop 3 d), length-drop 3 d))))

read_extension_block-Safe : (m : ClientHelloMsg) (d : Bytes) → Safe (read_extension_block m d)
unfolding read_extension_block
read_extension_block-Safe m d =
    Safe-if (length d == 0) _ _ (λ _. tt)
      λ _.
        Safe-if (ltb (length d) 2) _ _ (λ _. tt)
          λ long. index-Safe d 0 _ (ground arith) λ hi. index-Safe d 1 _ (ground arith) λ lo.
            slice_from-Safe d 2 _ (ground arith) (
              Safe-if (not (be16 hi lo == length (drop 2 d))) _ _ (λ _. tt)
                λ _. read_extensions-Safe _ m (drop 2 d) (omega arith))

read_session-Safe : (m : ClientHelloMsg) (b : Bytes) → 42 ≤ length b → Safe (read_session m b)
unfolding read_session
read_session-Safe m b h = index-Safe b 4 _ (omega arith) λ v1. index-Safe b 5 _ (omega arith) λ v0.
    slice-Safe b 6 38 _ (omega arith) (omega arith) (
      index-Safe b 38 _ (omega arith) λ n.
        Safe-if (ltb 32 n || ltb (length b) (39 + n)) _ _ (λ _. tt)
          λ fits.
            slice-Safe b 39 (39 + n) _ (omega arith) (ground arith)
              (slice_from-Safe b (39 + n) _ (ground arith) tt))

read_cipher_suites-Safe : (m : ClientHelloMsg) (d : Bytes) → Safe (read_cipher_suites m d)
unfolding read_cipher_suites
read_cipher_suites-Safe m d =
    Safe-if (ltb (length d) 2) _ _ (λ _. tt)
      λ long. index-Safe d 0 _ (ground arith) λ hi. index-Safe d 1 _ (ground arith) λ lo.
        Safe-if (be16 hi lo % 2 == 1 || ltb (length d) (2 + be16 hi lo)) _ _ (λ _. tt)
          λ fits. slice_from-Safe d 2 _ (ground arith) (
            Safe-bind (read_u16s (be16 hi lo / 2) (drop 2 d)) _
              (read_u16s-Safe _ (drop 2 d) (ground (arith, length-drop 2 d)))
              λ _ _. slice_from-Safe d (2 + be16 hi lo) _ (ground arith) tt)

read_compression-Safe : (m : ClientHelloMsg) (d : Bytes) → Safe (read_compression m d)
unfolding read_compression
read_compression-Safe m d =
    Safe-if (ltb (length d) 1) _ _ (λ _. tt)
      λ long. index-Safe d 0 _ (ground arith) λ n.
        Safe-if (ltb (length d) (1 + n)) _ _ (λ _. tt)
          λ fits.
            slice-Safe d 1 (1 + n) _ (omega arith) (ground arith)
              (slice_from-Safe d (1 + n) _ (ground arith) tt)

-- Whatever bytes a peer sends, Unmarshal of a client hello returns true or false: no index and no
-- slice bound is out of range, and every loop ends.
pub client_hello-unmarshal-Safe : (m : ClientHelloMsg) (b : Bytes) → Safe (unmarshal m b)
unfolding unmarshal
client_hello-unmarshal-Safe m b =
    Safe-if (ltb (length b) 42) _ _ (λ _. tt)
      λ long. Safe-bind (read_session m b) _ (read_session-Safe m b (ground arith)) λ r1 _.
        Safe-bind (read_cipher_suites r1.0 r1.1) _ (read_cipher_suites-Safe r1.0 r1.1) λ r2 _.
          Safe-bind (read_compression r2.0 r2.1) _ (read_compression-Safe r2.0 r2.1)
            λ r3 _. read_extension_block-Safe r3.0 r3.1
