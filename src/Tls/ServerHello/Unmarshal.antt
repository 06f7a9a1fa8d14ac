-- ===== src/Tls/ServerHello/Unmarshal.antt =====
-- utils/tls.go, ServerHelloMsg.Unmarshal.
pub mod Safety
use rawcon.Common.{
  ℕ, zero, suc, ◌+◌, ◌-◌, ◌*◌, Bool, true, false, not, some, List, [], ◌∷◌, ◌++◌, ◌||◌, ◌==◌, ltb,
  length, if◌then◌else◌,
}
use rawcon.Common.Go.{Go, ok, err, stuck, ◌>>=◌}
use rawcon.Common.Bytes.{Bytes, be16, index, slice, slice_from, slice_to}
use rawcon.Tls.{
  Reject, reject, extension_status_request, extension_alpn, extension_sct, extension_session_ticket,
  extension_next_proto_neg, extension_renegotiation_info,
}
use rawcon.Tls.ServerHello.{Extension, ServerHelloMsg}

-- Strings of a length byte and as many bytes, appended to `protos`.
unfoldable pub read_protos : ℕ → Bytes → List Bytes → Go Reject (List Bytes)
read_protos fuel [] protos = ok protos
read_protos zero (x ∷ d) protos = stuck
read_protos (suc fuel) (x ∷ d) protos = do
  rest ← slice_from (x ∷ d) 1
  if x == 0 || ltb (length rest) x then err reject else do
    s ← slice_to rest x
    more ← slice_from rest x
    read_protos fuel more (protos ++ (s ∷ []))

unfoldable pub read_next_protos : ServerHelloMsg → ℕ → Bytes → Go Reject ServerHelloMsg
read_next_protos m n data' = do
  d ← slice_to data' n
  protos ← read_protos (length d) d m.next_protos
  ok (record m { next_proto_neg = true; next_protos = protos })

unfoldable pub read_renegotiation : ServerHelloMsg → ℕ → Bytes → Go Reject ServerHelloMsg
read_renegotiation m n data' = if n == 0 then err reject else do
  d ← slice_to data' n
  l ← index d 0
  rest ← slice_from d 1
  if not (l == length rest)
      then err reject
      else ok (record m { secure_renegotiation = rest; secure_renegotiation_supported = true })

unfoldable pub read_alpn : ServerHelloMsg → ℕ → Bytes → Go Reject ServerHelloMsg
read_alpn m n data' = do
  d ← slice_to data' n
  if ltb (length d) 3 then err reject else do
    hi ← index d 0
    lo ← index d 1
    if not (be16 hi lo == length d - 2) then err reject else do
      d2 ← slice_from d 2
      l ← index d2 0
      if not (l == length d2 - 1) then err reject else do
        d3 ← slice_from d2 1
        if length d3 == 0 then err reject else ok (record m { alpn_protocol = d3 })

unfoldable pub read_scts : ℕ → Bytes → List Bytes → Go Reject (List Bytes)
read_scts fuel [] scts = ok scts
read_scts zero (x ∷ d) scts = stuck
read_scts (suc fuel) (x ∷ d) scts = if ltb (length (x ∷ d)) 2 then err reject else do
  hi ← index (x ∷ d) 0
  lo ← index (x ∷ d) 1
  rest ← slice_from (x ∷ d) 2
  if be16 hi lo == 0 || ltb (length rest) (be16 hi lo) then err reject else do
    s ← slice_to rest (be16 hi lo)
    more ← slice_from rest (be16 hi lo)
    read_scts fuel more (scts ++ (s ∷ []))

unfoldable pub read_sct_list : ServerHelloMsg → ℕ → Bytes → Go Reject ServerHelloMsg
read_sct_list m n data' = do
  d ← slice_to data' n
  if ltb (length d) 2 then err reject else do
    hi ← index d 0
    lo ← index d 1
    rest ← slice_from d 2
    if not (length rest == be16 hi lo) || be16 hi lo == 0
        then err reject
        else do scts ← read_scts (length rest) rest []; ok (record m { scts = scts })

unfoldable pub read_other : ServerHelloMsg → ℕ → ℕ → Bytes → Go Reject ServerHelloMsg
read_other m extension n d = do
  content ← slice_to d n
  let ext : Extension = record { type = extension; length = n; content = content }
  ok (record m { other_extensions = m.other_extensions ++ (ext ∷ []) })

unfoldable pub read_extension : ServerHelloMsg → ℕ → ℕ → Bytes → Go Reject ServerHelloMsg
read_extension m extension n d =
    if extension == extension_next_proto_neg
    then read_next_protos m n d
    else if extension == extension_status_request
    then (if ltb 0 n then err reject else ok (record m { ocsp_stapling = true }))
    else if extension == extension_session_ticket
    then (if ltb 0 n then err reject else ok (record m { ticket_supported = true }))
    else if extension == extension_renegotiation_info
    then read_renegotiation m n d
    else if extension == extension_alpn
    then read_alpn m n d
    else if extension == extension_sct
    then read_sct_list m n d
    else read_other m extension n d

-- The loop over the extensions; the length of the bytes is fuel enough.
unfoldable pub read_extensions : ℕ → ServerHelloMsg → Bytes → Go Reject ServerHelloMsg
read_extensions fuel m [] = ok m
read_extensions zero m (x ∷ d) = stuck
read_extensions (suc fuel) m (x ∷ d) = if ltb (length (x ∷ d)) 4 then err reject else do
  e1 ← index (x ∷ d) 0
  e0 ← index (x ∷ d) 1
  l1 ← index (x ∷ d) 2
  l0 ← index (x ∷ d) 3
  body ← slice_from (x ∷ d) 4
  if ltb (length body) (be16 l1 l0) then err reject else do
    m' ← read_extension m (be16 e1 e0) (be16 l1 l0) body
    rest ← slice_from body (be16 l1 l0)
    read_extensions fuel m' rest

unfoldable pub read_extension_block : ServerHelloMsg → Bytes → Go Reject ServerHelloMsg
read_extension_block m d =
    if length d == 0 then ok m else if ltb (length d) 2 then err reject else do
      hi ← index d 0
      lo ← index d 1
      rest ← slice_from d 2
      if not (length rest == be16 hi lo) then err reject else read_extensions (length rest) m rest

-- The fixed fields, with the resets that follow them.
unfoldable pub read_fixed : ServerHelloMsg → Bytes → Go Reject (ServerHelloMsg × Bytes)
read_fixed m b = do
  v1 ← index b 4
  v0 ← index b 5
  random ← slice b 6 38
  n ← index b 38
  if ltb 32 n || ltb (length b) (39 + n) then err reject else do
    session_id ← slice b 39 (39 + n)
    d ← slice_from b (39 + n)
    if ltb (length d) 3 then err reject else do
      hi ← index d 0
      lo ← index d 1
      method ← index d 2
      rest ← slice_from d 3
      ok (
        record m {
          raw = some b;
          vers = be16 v1 v0;
          random = random;
          session_id = session_id;
          cipher_suite = be16 hi lo;
          compression_method = method;
          next_proto_neg = false;
          next_protos = [];
          ocsp_stapling = false;
          scts = [];
          ticket_supported = false;
          alpn_protocol = [];
        },
        rest,
      )

unfoldable pub unmarshal : ServerHelloMsg → Bytes → Go Reject ServerHelloMsg
unmarshal m b =
    if ltb (length b) 42 then err reject else do (m', d) ← read_fixed m b; read_extension_block m' d
