-- ===== src/Tls/ClientHello/Marshal.antt =====
-- utils/tls.go, ClientHelloMsg.Marshal.
pub mod Layout
use rawcon.Common.{
  ℕ, ◌+◌, ◌-◌, ◌*◌, ◌/◌, ◌%◌, Bool, Option, none, some, List, [], ◌∷◌, ◌++◌, ◌||◌, ◌==◌, ltb,
  length, if◌then◌else◌,
}
use rawcon.Common.Go.{Go, ok, panic, ◌>>=◌}
use rawcon.Common.Bytes.{Bytes, u8, bytes16}
use rawcon.Tls.{
  Reject, type_client_hello, extension_server_name, extension_status_request,
  extension_supported_curves, extension_supported_points, extension_signature_algorithms,
  extension_alpn, extension_sct, extension_session_ticket, extension_next_proto_neg,
  extension_renegotiation_info,
}
use rawcon.Tls.Writer.{Sizes, count, block_len, total_len, emit_all, fresh, contents, opt, padded}
use rawcon.Tls.ClientHello.{ClientHelloMsg}

abbrev pub any {ℓ} : {A : Type ℓ} → List A → Bool
any xs = ltb 0 (length xs)

-- The loop over the ALPN protocols, which adds up their bytes and panics on a string of a length
-- that one byte does not hold.
unfoldable pub alpn_len : ℕ → List Bytes → Go Reject ℕ
alpn_len n [] = ok n
alpn_len n (s ∷ ss) =
    if length s == 0 || ltb 255 (length s) then panic else alpn_len (n + 1 + length s) ss

-- `numExtensions` and `extensionsLength` before they are joined.
unfoldable pub sizes : ClientHelloMsg → Go Reject Sizes
sizes m =
    let s1 = count m.next_proto_neg 0 (0, 0) in
    let s2 = count m.ocsp_stapling (1 + 2 + 2) s1 in
    let s3 = count (any m.server_name) (5 + length m.server_name) s2 in
    let s4 = count (any m.supported_curves) (2 + 2 * length m.supported_curves) s3 in
    let s5 = count (any m.supported_points) (1 + length m.supported_points) s4 in
    let s6 = count m.ticket_supported (length m.session_ticket) s5 in
    let s7 = count (any m.signature_and_hashes) (2 + 2 * length m.signature_and_hashes) s6 in
    let s8 = count m.secure_renegotiation_supported (1 + length m.secure_renegotiation) s7 in
    do
      n ← if any m.alpn_protocols then alpn_len 2 m.alpn_protocols else ok 0
      ok (count m.scts 0 (count (any m.alpn_protocols) n s8))

abbrev pub u16s_bytes : List ℕ → Bytes
u16s_bytes [] = []
u16s_bytes (n ∷ ns) = bytes16 n ++ u16s_bytes ns

abbrev pub pairs_bytes : List (ℕ × ℕ) → Bytes
pairs_bytes [] = []
pairs_bytes (p ∷ ps) = p.0 ∷ p.1 ∷ pairs_bytes ps

abbrev pub protocols_bytes : List Bytes → Bytes
protocols_bytes [] = []
protocols_bytes (s ∷ ss) = u8 (length s) ∷ (s ++ protocols_bytes ss)

-- What the method writes for each extension, in the order in which it writes them.
unfoldable pub next_proto_block : Bytes
next_proto_block = bytes16 extension_next_proto_neg ++ (0 ∷ 0 ∷ [])

unfoldable pub ticket_block : Bytes → Bytes
ticket_block t = bytes16 extension_session_ticket ++ (bytes16 (length t) ++ t)

unfoldable pub server_name_block : Bytes → Bytes
server_name_block name =
    bytes16 extension_server_name
    ++ (bytes16 (length name + 5)
        ++ (bytes16 (length name + 3) ++ (0 ∷ (bytes16 (length name) ++ name))))

unfoldable pub status_block : Bytes
status_block = bytes16 extension_status_request ++ (0 ∷ 5 ∷ 1 ∷ 0 ∷ 0 ∷ 0 ∷ 0 ∷ [])

unfoldable pub curves_block : List ℕ → Bytes
curves_block curves =
    let l = 2 + 2 * length curves in
    bytes16 extension_supported_curves ++ (bytes16 l ++ (bytes16 (l - 2) ++ u16s_bytes curves))

unfoldable pub points_block : Bytes → Bytes
points_block points =
    let l = 1 + length points in
    bytes16 extension_supported_points ++ (bytes16 l ++ (u8 (l - 1) ∷ points))

unfoldable pub signatures_block : List (ℕ × ℕ) → Bytes
signatures_block pairs =
    let l = 2 + 2 * length pairs in
    bytes16 extension_signature_algorithms ++ (bytes16 l ++ (bytes16 (l - 2) ++ pairs_bytes pairs))

unfoldable pub renegotiation_block : Bytes → Bytes
renegotiation_block info =
    bytes16 extension_renegotiation_info ++ (0 ∷ u8 (length info + 1) ∷ u8 (length info) ∷ info)

-- `lengths` is filled in behind the loop, with the length of what the loop has written.
unfoldable pub alpn_block : List Bytes → Bytes
alpn_block protocols =
    let strings = protocols_bytes protocols in
    bytes16 extension_alpn
    ++ (bytes16 (length strings + 2) ++ (bytes16 (length strings) ++ strings))

unfoldable pub sct_block : Bytes
sct_block = bytes16 extension_sct ++ (0 ∷ 0 ∷ [])

unfoldable pub extension_pieces : ClientHelloMsg → List Bytes
extension_pieces m =
    opt m.next_proto_neg next_proto_block
    ∷ opt m.ticket_supported (ticket_block m.session_ticket)
    ∷ opt (any m.server_name) (server_name_block m.server_name)
    ∷ opt m.ocsp_stapling status_block
    ∷ opt (any m.supported_curves) (curves_block m.supported_curves)
    ∷ opt (any m.supported_points) (points_block m.supported_points)
    ∷ opt (any m.signature_and_hashes) (signatures_block m.signature_and_hashes)
    ∷ opt m.secure_renegotiation_supported (renegotiation_block m.secure_renegotiation)
    ∷ opt (any m.alpn_protocols) (alpn_block m.alpn_protocols)
    ∷ opt m.scts sct_block
    ∷ []

-- From the handshake header to the compression methods.
unfoldable pub fixed_pieces : ClientHelloMsg → ℕ → List Bytes
fixed_pieces m len =
    (type_client_hello ∷ u8 (len / 65536) ∷ u8 (len / 256) ∷ u8 len ∷ [])
    ∷ bytes16 m.vers
    ∷ padded 32 m.random
    ∷ (u8 (length m.session_id) ∷ [])
    ∷ m.session_id
    ∷ (u8 (length m.cipher_suites / 128) ∷ u8 (length m.cipher_suites * 2) ∷ [])
    ∷ u16s_bytes m.cipher_suites
    ∷ (u8 (length m.compression_methods) ∷ [])
    ∷ m.compression_methods
    ∷ []

unfoldable pub fixed_len : ClientHelloMsg → ℕ
fixed_len m =
    2
    + 32
    + 1
    + length m.session_id
    + 2
    + length m.cipher_suites * 2
    + 1
    + length m.compression_methods

-- The buffer `x` when it is full.
unfoldable pub build : ClientHelloMsg → Go Reject Bytes
build m = do
  s ← sizes m
  let len = total_len (fixed_len m) s
  c ←
      emit_all
        (fixed_pieces m len ++ (opt (ltb 0 s.0) (bytes16 (block_len s)) ∷ extension_pieces m))
        (fresh (4 + len))
  ok (contents c)

-- A message with `Raw` set is those bytes.
unfoldable pub marshal_from : Option Bytes → ClientHelloMsg → Go Reject (ClientHelloMsg × Bytes)
marshal_from (some x) m = ok (m, x)
marshal_from none m = do x ← build m; ok (record m { raw = some x }, x)

-- The message with its `Raw` set, and the bytes.
unfoldable pub marshal : ClientHelloMsg → Go Reject (ClientHelloMsg × Bytes)
unfolding marshal_from
marshal m = marshal_from m.raw m
