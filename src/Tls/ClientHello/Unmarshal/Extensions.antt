-- ===== src/Tls/ClientHello/Unmarshal/Extensions.antt =====
-- utils/tls.go, ClientHelloMsg.Unmarshal: the cases of the switch over the extensions. `d` is `data`
-- behind the extension's header, and `n` is the extension's length, which is at most that of `d`.
use rawcon.Common.{
  ℕ, zero, suc, ◌+◌, ◌-◌, ◌/◌, ◌%◌, Bool, true, false, not, List, [], ◌∷◌, ◌++◌, ◌||◌, ◌==◌, ltb,
  length, if◌then◌else◌,
}
use rawcon.Common.Go.{Go, ok, err, panic, stuck, ◌>>=◌}
use rawcon.Common.Bytes.{Bytes, be16, index, slice, slice_from, slice_to}
use rawcon.Tls.{
  Reject, reject, extension_server_name, extension_status_request, extension_supported_curves,
  extension_supported_points, extension_signature_algorithms, extension_alpn, extension_sct,
  extension_session_ticket, extension_next_proto_neg, extension_renegotiation_info,
  status_type_ocsp,
}
use rawcon.Tls.ClientHello.{ClientHelloMsg}

-- `n` big-endian 16-bit numbers from the front of a slice.
unfoldable pub read_u16s : ℕ → Bytes → Go Reject (List ℕ)
read_u16s zero d = ok []
read_u16s (suc n) (x ∷ y ∷ d) = do r ← read_u16s n d; ok (be16 x y ∷ r)
read_u16s (suc n) _ = panic

-- `n` pairs of a hash and a signature.
unfoldable pub read_pairs : ℕ → Bytes → Go Reject (List (ℕ × ℕ))
read_pairs zero d = ok []
read_pairs (suc n) (x ∷ y ∷ d) = do r ← read_pairs n d; ok ((x, y) ∷ r)
read_pairs (suc n) _ = panic

-- `strings.HasSuffix(s, ".")`
unfoldable pub has_dot_suffix : Bytes → Bool
has_dot_suffix [] = false
has_dot_suffix (x ∷ []) = x == b'.'
has_dot_suffix (x ∷ y ∷ s) = has_dot_suffix (y ∷ s)

-- The loop over the names of a server name list, which the first host name leaves; its `name` is the
-- one that the message has so far.
unfoldable pub read_names : ℕ → Bytes → Bytes → Go Reject Bytes
read_names fuel [] name = ok name
read_names zero (x ∷ d) name = stuck
read_names (suc fuel) (x ∷ d) name = if ltb (length (x ∷ d)) 3 then err reject else do
  name_type ← index (x ∷ d) 0
  l1 ← index (x ∷ d) 1
  l0 ← index (x ∷ d) 2
  rest ← slice_from (x ∷ d) 3
  if ltb (length rest) (be16 l1 l0)
      then err reject
      else if name_type == 0
      then (do s ← slice_to rest (be16 l1 l0); if has_dot_suffix s then err reject else ok s)
      else do more ← slice_from rest (be16 l1 l0); read_names fuel more name

unfoldable pub read_server_name : ClientHelloMsg → ℕ → Bytes → Go Reject ClientHelloMsg
read_server_name m n data' = do
  d ← slice_to data' n
  if ltb (length d) 2 then err reject else do
    hi ← index d 0
    lo ← index d 1
    names ← slice_from d 2
    if not (length names == be16 hi lo) then err reject else do
      name ← read_names (length names) names m.server_name
      ok (record m { server_name = name })

unfoldable pub read_status_request : ClientHelloMsg → ℕ → Bytes → Go Reject ClientHelloMsg
read_status_request m n d =
    if ltb 0 n
    then (do t ← index d 0; ok (record m { ocsp_stapling = t == status_type_ocsp }))
    else ok (record m { ocsp_stapling = false })

unfoldable pub read_curves : ClientHelloMsg → ℕ → Bytes → Go Reject ClientHelloMsg
read_curves m n d = if ltb n 2 then err reject else do
  hi ← index d 0
  lo ← index d 1
  let l = be16 hi lo
  if l % 2 == 1 || not (n == l + 2) then err reject else do
    rest ← slice_from d 2
    curves ← read_u16s (l / 2) rest
    ok (record m { supported_curves = curves })

-- `copy` fills `make([]uint8, l)` from the bytes behind the length.
unfoldable pub read_points : ClientHelloMsg → ℕ → Bytes → Go Reject ClientHelloMsg
read_points m n d = if ltb n 1 then err reject else do
  l ← index d 0
  if not (n == l + 1)
      then err reject
      else do points ← slice d 1 (1 + l); ok (record m { supported_points = points })

unfoldable pub read_ticket : ClientHelloMsg → ℕ → Bytes → Go Reject ClientHelloMsg
read_ticket m n d = do
  ticket ← slice_to d n
  ok (record m { ticket_supported = true; session_ticket = ticket })

unfoldable pub read_signatures : ClientHelloMsg → ℕ → Bytes → Go Reject ClientHelloMsg
read_signatures m n d = if ltb n 2 || not (n % 2 == 0) then err reject else do
  hi ← index d 0
  lo ← index d 1
  if not (be16 hi lo == n - 2) then err reject else do
    rest ← slice_from d 2
    pairs ← read_pairs (be16 hi lo / 2) rest
    ok (record m { signature_and_hashes = pairs })

unfoldable pub read_renegotiation : ClientHelloMsg → ℕ → Bytes → Go Reject ClientHelloMsg
read_renegotiation m n data' = if n == 0 then err reject else do
  d ← slice_to data' n
  l ← index d 0
  rest ← slice_from d 1
  if not (l == length rest)
      then err reject
      else ok (record m { secure_renegotiation = rest; secure_renegotiation_supported = true })

-- The protocols are appended to those that the message has so far.
unfoldable pub read_protocols : ℕ → Bytes → List Bytes → Go Reject (List Bytes)
read_protocols fuel [] protocols = ok protocols
read_protocols zero (x ∷ d) protocols = stuck
read_protocols (suc fuel) (x ∷ d) protocols = do
  rest ← slice_from (x ∷ d) 1
  if x == 0 || ltb (length rest) x then err reject else do
    s ← slice_to rest x
    more ← slice_from rest x
    read_protocols fuel more (protocols ++ (s ∷ []))

unfoldable pub read_alpn : ClientHelloMsg → ℕ → Bytes → Go Reject ClientHelloMsg
read_alpn m n data' = if ltb n 2 then err reject else do
  hi ← index data' 0
  lo ← index data' 1
  if not (be16 hi lo == n - 2) then err reject else do
    d ← slice data' 2 n
    protocols ← read_protocols (length d) d m.alpn_protocols
    ok (record m { alpn_protocols = protocols })

unfoldable pub read_extension : ClientHelloMsg → ℕ → ℕ → Bytes → Go Reject ClientHelloMsg
read_extension m extension n d =
    if extension == extension_server_name
    then read_server_name m n d
    else if extension == extension_next_proto_neg
    then (if ltb 0 n then err reject else ok (record m { next_proto_neg = true }))
    else if extension == extension_status_request
    then read_status_request m n d
    else if extension == extension_supported_curves
    then read_curves m n d
    else if extension == extension_supported_points
    then read_points m n d
    else if extension == extension_session_ticket
    then read_ticket m n d
    else if extension == extension_signature_algorithms
    then read_signatures m n d
    else if extension == extension_renegotiation_info
    then read_renegotiation m n d
    else if extension == extension_alpn
    then read_alpn m n d
    else if extension == extension_sct
    then (if n == 0 then ok (record m { scts = true }) else err reject)
    else ok m
