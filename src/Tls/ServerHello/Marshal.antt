-- ===== src/Tls/ServerHello/Marshal.antt =====
-- utils/tls.go, ServerHelloMsg.Marshal.
use Prim.Native.Nat.{min}
use rawcon.Common.{
  ℕ, ◌+◌, ◌/◌, Bool, Option, none, some, List, [], ◌∷◌, ◌++◌, ltb, leb, length, take, if◌then◌else◌,
}
use rawcon.Common.Go.{Go, ok, panic, ◌>>=◌}
use rawcon.Common.Bytes.{Bytes, u8, bytes16}
use rawcon.Tls.{
  Reject, type_server_hello, extension_status_request, extension_alpn, extension_sct,
  extension_session_ticket, extension_next_proto_neg, extension_renegotiation_info,
}
use rawcon.Tls.Writer.{
  Cursor, Sizes, count, block_len, total_len, emit, emit_copy, emit_all, fresh, contents, opt,
  padded, sum_len,
}
use rawcon.Tls.ServerHello.{Extension, ServerHelloMsg}

abbrev any {ℓ} : {A : Type ℓ} → List A → Bool
any xs = ltb 0 (length xs)

-- `nextProtoLen`: the strings at their full lengths.
abbrev pub next_proto_len : List Bytes → ℕ
next_proto_len protos = sum_len protos + length protos

-- `sctLen`
abbrev pub sct_len : List Bytes → ℕ
sct_len [] = 0
sct_len (sct ∷ scts) = length sct + 2 + sct_len scts

abbrev pub count_others : List Extension → Sizes → Sizes
count_others [] s = s
count_others (ext ∷ exts) s = count_others exts (s.0 + 1, s.1 + ext.length)

unfoldable pub sizes : ServerHelloMsg → Go Reject Sizes
sizes m =
    let s1 = count m.next_proto_neg (next_proto_len m.next_protos) (0, 0) in
    let s2 = count_others m.other_extensions s1 in
    let s3 = count m.ocsp_stapling 0 s2 in
    let s4 = count m.ticket_supported 0 s3 in
    let s5 = count m.secure_renegotiation_supported (1 + length m.secure_renegotiation) s4 in
    let s6 = count (any m.alpn_protocol) (2 + 1 + length m.alpn_protocol) s5 in
    let s7 = count (any m.scts) (2 + sct_len m.scts) s6 in
    if leb 256 (length m.alpn_protocol) then panic else ok s7

-- A string of more than 255 bytes is cut at 255.
abbrev pub proto_bytes : List Bytes → Bytes
proto_bytes [] = []
proto_bytes (v ∷ vs) = let l = min (length v) 255 in u8 l ∷ (take l v ++ proto_bytes vs)

abbrev pub sct_bytes : List Bytes → Bytes
sct_bytes [] = []
sct_bytes (sct ∷ scts) = bytes16 (length sct) ++ (sct ++ sct_bytes scts)

unfoldable pub next_protos_block : List Bytes → Bytes
next_protos_block protos =
    bytes16 extension_next_proto_neg ++ (bytes16 (next_proto_len protos) ++ proto_bytes protos)

unfoldable pub status_block : Bytes
status_block = bytes16 extension_status_request ++ (0 ∷ 0 ∷ [])

unfoldable pub ticket_block : Bytes
ticket_block = bytes16 extension_session_ticket ++ (0 ∷ 0 ∷ [])

unfoldable pub renegotiation_block : Bytes → Bytes
renegotiation_block info =
    bytes16 extension_renegotiation_info ++ (0 ∷ u8 (length info + 1) ∷ u8 (length info) ∷ info)

unfoldable pub alpn_block : Bytes → Bytes
alpn_block protocol =
    let l = length protocol in
    bytes16 extension_alpn ++ (bytes16 (l + 3) ++ (bytes16 (l + 1) ++ (u8 l ∷ protocol)))

unfoldable pub sct_block : List Bytes → Bytes
sct_block scts =
    bytes16 extension_sct
    ++ (bytes16 (sct_len scts + 2) ++ (bytes16 (sct_len scts) ++ sct_bytes scts))

unfoldable pub extension_pieces : ServerHelloMsg → List Bytes
extension_pieces m =
    opt m.next_proto_neg (next_protos_block m.next_protos)
    ∷ opt m.ocsp_stapling status_block
    ∷ opt m.ticket_supported ticket_block
    ∷ opt m.secure_renegotiation_supported (renegotiation_block m.secure_renegotiation)
    ∷ opt (any m.alpn_protocol) (alpn_block m.alpn_protocol)
    ∷ opt (ltb 0 (sct_len m.scts)) (sct_block m.scts)
    ∷ []

-- The declared length is written, and the data behind it whatever its own length is.
unfoldable pub emit_others : List Extension → Cursor → Go Reject Cursor
emit_others [] c = ok c
emit_others (ext ∷ exts) c = do
  c1 ← emit (bytes16 ext.type ++ bytes16 ext.length) c
  c2 ← emit_copy ext.content c1
  emit_others exts c2

unfoldable pub fixed_pieces : ServerHelloMsg → ℕ → List Bytes
fixed_pieces m len =
    (type_server_hello ∷ u8 (len / 65536) ∷ u8 (len / 256) ∷ u8 len ∷ [])
    ∷ bytes16 m.vers
    ∷ padded 32 m.random
    ∷ (u8 (length m.session_id) ∷ [])
    ∷ m.session_id
    ∷ bytes16 m.cipher_suite
    ∷ (m.compression_method ∷ [])
    ∷ []

unfoldable pub build : ServerHelloMsg → Go Reject Bytes
build m = do
  s ← sizes m
  let len = total_len (38 + length m.session_id) s
  c ←
      emit_all
        (fixed_pieces m len ++ (opt (ltb 0 s.0) (bytes16 (block_len s)) ∷ extension_pieces m))
        (fresh (4 + len))
  c' ← emit_others m.other_extensions c
  ok (contents c')

-- A message with `Raw` set is those bytes.
unfoldable pub marshal_from : Option Bytes → ServerHelloMsg → Go Reject (ServerHelloMsg × Bytes)
marshal_from (some x) m = ok (m, x)
marshal_from none m = do x ← build m; ok (record m { raw = some x }, x)

-- The message with its `Raw` set, and the bytes.
unfoldable pub marshal : ServerHelloMsg → Go Reject (ServerHelloMsg × Bytes)
unfolding marshal_from
marshal m = marshal_from m.raw m
