-- ===== src/Tls/ClientHello/Marshal/Layout.antt =====
-- utils/tls.go, ClientHelloMsg.Marshal: the lengths that it works out are those of what it writes.
use rawcon.Common.{
  ℕ, ◌+◌, ◌*◌, ◌/◌, ◌%◌, ◌<◌, ◌≡◌, refl, ap, ◌∙◌, arith, false, none, some, List, [], ◌∷◌, ◌++◌,
  ◌||◌, ◌==◌, length, length-append, All, ltb, if◌then◌else◌, Bool-cases, inl, inr,
}
use rawcon.Common.Go.{ok}
use rawcon.Common.Bytes.{Bytes, u8, bytes16}
use rawcon.Tls.{
  type_client_hello, extension_server_name, extension_status_request, extension_supported_curves,
  extension_supported_points, extension_signature_algorithms, extension_alpn, extension_sct,
  extension_session_ticket, extension_next_proto_neg, extension_renegotiation_info,
}
use rawcon.Tls.Writer.{
  Sizes, count, count_lem, block_len, total_len, emit_all-fills, opt, concat, length-concat,
  extension_bytes, vec8, vec16, handshake, extension_block, extension_block_lem, padded_full,
  total_len_lem,
}
use rawcon.Tls.ClientHello.{ClientHelloMsg}
use rawcon.Tls.ClientHello.Marshal.{
  any, alpn_len, sizes, u16s_bytes, pairs_bytes, protocols_bytes, next_proto_block, ticket_block,
  server_name_block, status_block, curves_block, points_block, signatures_block,
  renegotiation_block, alpn_block, sct_block, extension_pieces, fixed_pieces, fixed_len, build,
  marshal_from, marshal,
}

abbrev pub IsProtocol : Bytes → Type 0
IsProtocol s = (0 < length s) × (length s < 256)

alpn_len_lem :
    (n : ℕ) (ss : List Bytes)
    → All IsProtocol ss
    → alpn_len n ss ≡ ok (n + length (protocols_bytes ss))
unfolding alpn_len
alpn_len_lem n [] h = ap ok (omega arith)
alpn_len_lem n (s ∷ ss) h =
    let fits : (length s == 0 || ltb 255 (length s)) ≡ false = ground arith in
    rw (fits, alpn_len_lem (n + 1 + length s) ss h.1)
      (ap ok (omega (arith, length-append s (protocols_bytes ss))))

length-u16s_bytes : (ns : List ℕ) → length (u16s_bytes ns) ≡ 2 * length ns
length-u16s_bytes [] = refl
length-u16s_bytes (n ∷ ns) = omega (arith, length-u16s_bytes ns)

length-pairs_bytes : (ps : List (ℕ × ℕ)) → length (pairs_bytes ps) ≡ 2 * length ps
length-pairs_bytes [] = refl
length-pairs_bytes (p ∷ ps) = omega (arith, length-pairs_bytes ps)

-- The counted extensions are as long as the pieces that are written for them.
record Measured (m : ClientHelloMsg) (s : Sizes) : Type 0 where
  same : block_len s ≡ length (concat (extension_pieces m))
  empty : s.0 ≡ 0 → length (concat (extension_pieces m)) ≡ 0

alpn_size : List Bytes → ℕ
alpn_size ss = if any ss then 2 + length (protocols_bytes ss) else 0

alpn_size_lem :
    (ss : List Bytes)
    → All IsProtocol ss
    → (if any ss then alpn_len 2 ss else ok 0) ≡ ok (alpn_size ss)
unfolding alpn_size
alpn_size_lem ss h = elim (Bool-cases (any ss)) [
  | inl some' ↦ rw (some', alpn_len_lem 2 ss h)
  | inr none' ↦ rw none'
]

module _ (m : ClientHelloMsg) where
  counted : Sizes
  counted =
      let s1 = count m.next_proto_neg 0 (0, 0) in
      let s2 = count m.ocsp_stapling 5 s1 in
      let s3 = count (any m.server_name) (5 + length m.server_name) s2 in
      let s4 = count (any m.supported_curves) (2 + 2 * length m.supported_curves) s3 in
      let s5 = count (any m.supported_points) (1 + length m.supported_points) s4 in
      let s6 = count m.ticket_supported (length m.session_ticket) s5 in
      let s7 = count (any m.signature_and_hashes) (2 + 2 * length m.signature_and_hashes) s6 in
      let s8 = count m.secure_renegotiation_supported (1 + length m.secure_renegotiation) s7 in
      count m.scts 0 (count (any m.alpn_protocols) (alpn_size m.alpn_protocols) s8)

  sizes-counted : All IsProtocol m.alpn_protocols → sizes m ≡ ok counted
  unfolding sizes counted
  sizes-counted h = rw (alpn_size_lem m.alpn_protocols h)

  measured : Measured m counted
  unfolding counted extension_pieces next_proto_block ticket_block server_name_block status_block
      curves_block points_block signatures_block renegotiation_block alpn_block sct_block alpn_size
  measured =
      let s1 = count m.next_proto_neg 0 (0, 0) in
      let s2 = count m.ocsp_stapling 5 s1 in
      let s3 = count (any m.server_name) (5 + length m.server_name) s2 in
      let s4 = count (any m.supported_curves) (2 + 2 * length m.supported_curves) s3 in
      let s5 = count (any m.supported_points) (1 + length m.supported_points) s4 in
      let s6 = count m.ticket_supported (length m.session_ticket) s5 in
      let s7 = count (any m.signature_and_hashes) (2 + 2 * length m.signature_and_hashes) s6 in
      let s8 = count m.secure_renegotiation_supported (1 + length m.secure_renegotiation) s7 in
      let s9 = count (any m.alpn_protocols) (alpn_size m.alpn_protocols) s8 in
      let c1 = count_lem m.next_proto_neg 0 (0, 0) next_proto_block (λ _. refl) in
      let c2 = count_lem m.ocsp_stapling 5 s1 status_block (λ _. refl) in
      let c3 =
        count_lem (any m.server_name) (5 + length m.server_name) s2
          (server_name_block m.server_name) (λ _. omega arith) in
      let c4 =
        count_lem (any m.supported_curves) (2 + 2 * length m.supported_curves) s3
          (curves_block m.supported_curves)
          (λ _. omega (arith, length-u16s_bytes m.supported_curves)) in
      let c5 =
        count_lem (any m.supported_points) (1 + length m.supported_points) s4
          (points_block m.supported_points) (λ _. omega arith) in
      let c6 =
        count_lem m.ticket_supported (length m.session_ticket) s5 (ticket_block m.session_ticket)
          (λ _. omega arith) in
      let c7 =
        count_lem (any m.signature_and_hashes) (2 + 2 * length m.signature_and_hashes) s6
          (signatures_block m.signature_and_hashes)
          (λ _. omega (arith, length-pairs_bytes m.signature_and_hashes)) in
      let c8 =
        count_lem m.secure_renegotiation_supported (1 + length m.secure_renegotiation) s7
          (renegotiation_block m.secure_renegotiation) (λ _. omega arith) in
      let c9 =
        count_lem (any m.alpn_protocols) (alpn_size m.alpn_protocols) s8
          (alpn_block m.alpn_protocols) (λ e. rw e (omega arith)) in
      let c10 = count_lem m.scts 0 s9 sct_block (λ _. refl) in
      let total = length-concat (extension_pieces m) in
      record { same = omega arith; empty = λ z. omega arith }

-- The extensions as RFC 5246 and its companions lay them out.
unfoldable pub encode_extensions : ClientHelloMsg → Bytes
encode_extensions m = concat (
    opt m.next_proto_neg (extension_bytes extension_next_proto_neg [])
    ∷ opt m.ticket_supported (extension_bytes extension_session_ticket m.session_ticket)
    ∷ opt (any m.server_name)
        (extension_bytes extension_server_name (vec16 (0 ∷ vec16 m.server_name)))
    ∷ opt m.ocsp_stapling (extension_bytes extension_status_request (1 ∷ 0 ∷ 0 ∷ 0 ∷ 0 ∷ []))
    ∷ opt (any m.supported_curves)
        (extension_bytes extension_supported_curves (vec16 (u16s_bytes m.supported_curves)))
    ∷ opt (any m.supported_points)
        (extension_bytes extension_supported_points (vec8 m.supported_points))
    ∷ opt (any m.signature_and_hashes) (
        extension_bytes extension_signature_algorithms (vec16 (pairs_bytes m.signature_and_hashes)))
    ∷ opt m.secure_renegotiation_supported
        (extension_bytes extension_renegotiation_info (vec8 m.secure_renegotiation))
    ∷ opt (any m.alpn_protocols)
        (extension_bytes extension_alpn (vec16 (protocols_bytes m.alpn_protocols)))
    ∷ opt m.scts (extension_bytes extension_sct [])
    ∷ [])

unfoldable pub encode_body : ClientHelloMsg → Bytes
encode_body m =
    bytes16 m.vers
    ++ (m.random
        ++ (vec8 m.session_id
            ++ (vec16 (u16s_bytes m.cipher_suites)
                ++ (vec8 m.compression_methods ++ extension_block (encode_extensions m)))))

unfoldable pub encode : ClientHelloMsg → Bytes
encode m = handshake type_client_hello (encode_body m)

-- What a message must satisfy for Marshal to write `encode` of it.
pub record IsEncodable (m : ClientHelloMsg) : Type 0 where
  pub random_full : length m.random ≡ 32
  pub protocols : All IsProtocol m.alpn_protocols
  pub renegotiation_short : length m.secure_renegotiation < 255

-- Each block is its extension.
server_name_eq :
    (b : Bytes) → server_name_block b ≡ extension_bytes extension_server_name (vec16 (0 ∷ vec16 b))
unfolding server_name_block extension_bytes
server_name_eq b = ground arith

curves_eq :
    (ns : List ℕ)
    → curves_block ns ≡ extension_bytes extension_supported_curves (vec16 (u16s_bytes ns))
unfolding curves_block extension_bytes
curves_eq ns = ground (arith, length-u16s_bytes ns)

points_eq : (b : Bytes) → points_block b ≡ extension_bytes extension_supported_points (vec8 b)
unfolding points_block extension_bytes
points_eq b = ground arith

signatures_eq :
    (ps : List (ℕ × ℕ))
    → signatures_block ps ≡ extension_bytes extension_signature_algorithms (vec16 (pairs_bytes ps))
unfolding signatures_block extension_bytes
signatures_eq ps = ground (arith, length-pairs_bytes ps)

renegotiation_eq :
    (b : Bytes)
    → length b < 255
    → renegotiation_block b ≡ extension_bytes extension_renegotiation_info (vec8 b)
unfolding renegotiation_block extension_bytes
renegotiation_eq b h = ground arith

alpn_eq :
    (ss : List Bytes) → alpn_block ss ≡ extension_bytes extension_alpn (vec16 (protocols_bytes ss))
unfolding alpn_block extension_bytes
alpn_eq ss = ground arith

blocks_eq :
    (m : ClientHelloMsg)
    → length m.secure_renegotiation < 255
    → concat (extension_pieces m) ≡ encode_extensions m
unfolding extension_pieces encode_extensions
blocks_eq m h =
    rw
      (
        server_name_eq m.server_name,
        curves_eq m.supported_curves,
        points_eq m.supported_points,
        signatures_eq m.signature_and_hashes,
        renegotiation_eq m.secure_renegotiation h,
        alpn_eq m.alpn_protocols,
      )
      (unfold next_proto_block ticket_block status_block sct_block extension_bytes in refl)

pieces_eq :
    (m : ClientHelloMsg) (len : ℕ) (rest : Bytes)
    → length m.random ≡ 32
    → concat (fixed_pieces m len ++ (rest ∷ extension_pieces m))
      ≡ type_client_hello
        ∷ u8 (len / 65536)
        ∷ u8 (len / 256)
        ∷ u8 len
        ∷ (bytes16 m.vers
            ++ (m.random
                ++ (vec8 m.session_id
                    ++ (vec16 (u16s_bytes m.cipher_suites)
                        ++ (vec8 m.compression_methods ++ (rest ++ concat (extension_pieces m)))))))
unfolding fixed_pieces
pieces_eq m len rest h =
    let suites : length (u16s_bytes m.cipher_suites) ≡ 2 * length m.cipher_suites =
      length-u16s_bytes m.cipher_suites in
    let high : length m.cipher_suites / 128 % 256
        ≡ length (u16s_bytes m.cipher_suites) / 256 % 256 =
      omega arith in
    let low : length m.cipher_suites * 2 % 256 ≡ length (u16s_bytes m.cipher_suites) % 256 =
      omega arith in
    rw (padded_full 32 m.random h, high, low)

body_len :
    (v : ℕ) (random sid suites methods rest : Bytes)
    → length (bytes16 v ++ (random ++ (vec8 sid ++ (vec16 suites ++ (vec8 methods ++ rest)))))
      ≡ 6 + length random + length sid + length suites + length methods + length rest
body_len v random sid suites methods rest = omega (
  arith,
  length-append random (vec8 sid ++ (vec16 suites ++ (vec8 methods ++ rest))),
  length-append sid (vec16 suites ++ (vec8 methods ++ rest)),
  length-append suites (vec8 methods ++ rest),
  length-append methods rest,
)

build-encode : (m : ClientHelloMsg) → IsEncodable m → build m ≡ ok (encode m)
unfolding build encode encode_body fixed_len
build-encode m w =
    let s : Sizes = counted m in
    let fit = measured m in
    let len : ℕ = total_len (fixed_len m) s in
    let exts : Bytes = concat (extension_pieces m) in
    let rest : Bytes = opt (ltb 0 s.0) (bytes16 (block_len s)) in
    let pieces : List Bytes = fixed_pieces m len ++ (rest ∷ extension_pieces m) in
    let block : rest ++ exts ≡ extension_block (encode_extensions m) =
      extension_block_lem s exts fit.same fit.empty
      ∙ ap extension_block (blocks_eq m w.renegotiation_short) in
    let all = pieces_eq m len rest w.random_full in
    let size : len ≡ length (encode_body m) = omega (
      arith,
      body_len m.vers m.random m.session_id (u16s_bytes m.cipher_suites) m.compression_methods
          (extension_block (encode_extensions m)),
      length-append rest exts,
      ap (length {A = ℕ}) block,
      total_len_lem (fixed_len m) s exts fit.same fit.empty,
      length-u16s_bytes m.cipher_suites,
      w.random_full,
    ) in
    let buffer : 4 + len ≡ length (concat pieces) = omega (
      arith,
      ap (length {A = ℕ}) all,
      ap (length {A = ℕ}) block,
      body_len m.vers m.random m.session_id (u16s_bytes m.cipher_suites) m.compression_methods
          (rest ++ exts),
      body_len m.vers m.random m.session_id (u16s_bytes m.cipher_suites) m.compression_methods
          (extension_block (encode_extensions m)),
      size,
    ) in
    let (c, e, full) = emit_all-fills pieces (4 + len) buffer in
    rw (sizes-counted m w.protocols, e, full, all, block, size)

-- Of a message without `Raw`, with 32 random bytes, protocols of 1 to 255 bytes and a SecureRenegotiation
-- of less than 255 bytes, Marshal neither panics nor leaves a byte of its buffer unwritten, and its bytes are
-- `encode`: the fields and extensions in the standard's order, each behind its length, which is cut down
-- to its one, two or three bytes where the field is longer than they can say.
pub marshal-encode :
    (m : ClientHelloMsg)
    → m.raw ≡ none
    → IsEncodable m
    → marshal m ≡ ok (record m { raw = some (encode m) }, encode m)
unfolding marshal
marshal-encode m bare w = ap (λ r. marshal_from r m) bare ∙ rw (build-encode m w)
