-- ===== src/Tls/ClientHello/Unmarshal.antt =====
-- utils/tls.go, ClientHelloMsg.Unmarshal. A method that fails leaves the message half filled in; its
-- caller drops it, so the failure carries no message here.
pub mod Extensions
pub mod Safety
use rawcon.Common.{
  ℕ, zero, suc, ◌+◌, ◌*◌, ◌/◌, ◌%◌, Bool, true, false, not, some, none, List, [], ◌∷◌, ◌||◌, ◌==◌,
  ltb, length, if◌then◌else◌,
}
use rawcon.Common.Go.{Go, ok, err, panic, stuck, ◌>>=◌}
use rawcon.Common.Bytes.{Bytes, be16, index, slice, slice_from}
use rawcon.Tls.{Reject, reject, scsv_renegotiation}
use rawcon.Tls.ClientHello.{ClientHelloMsg}
use Extensions.{read_u16s, read_extension}

abbrev any_scsv : List ℕ → Bool
any_scsv [] = false
any_scsv (s ∷ ss) = s == scsv_renegotiation || any_scsv ss

-- From the version up to the session id, which stands behind a four-byte handshake header.
unfoldable pub read_session : ClientHelloMsg → Bytes → Go Reject (ClientHelloMsg × Bytes)
read_session m b = do
  v1 ← index b 4
  v0 ← index b 5
  random ← slice b 6 38
  n ← index b 38
  if ltb 32 n || ltb (length b) (39 + n) then err reject else do
    session_id ← slice b 39 (39 + n)
    rest ← slice_from b (39 + n)
    ok (
      record m { raw = some b; vers = be16 v1 v0; random = random; session_id = session_id },
      rest,
    )

unfoldable pub read_cipher_suites : ClientHelloMsg → Bytes → Go Reject (ClientHelloMsg × Bytes)
read_cipher_suites m d = if ltb (length d) 2 then err reject else do
  hi ← index d 0
  lo ← index d 1
  let n = be16 hi lo
  if n % 2 == 1 || ltb (length d) (2 + n) then err reject else do
    suites ← slice_from d 2
    cipher_suites ← read_u16s (n / 2) suites
    rest ← slice_from d (2 + n)
    ok (
      record m {
        cipher_suites = cipher_suites;
        secure_renegotiation_supported = m.secure_renegotiation_supported || any_scsv cipher_suites;
      },
      rest,
    )

-- The compression methods, and the fields that the method resets behind them.
unfoldable pub read_compression : ClientHelloMsg → Bytes → Go Reject (ClientHelloMsg × Bytes)
read_compression m d = if ltb (length d) 1 then err reject else do
  n ← index d 0
  if ltb (length d) (1 + n) then err reject else do
    methods ← slice d 1 (1 + n)
    rest ← slice_from d (1 + n)
    ok (
      record m {
        compression_methods = methods;
        next_proto_neg = false;
        server_name = [];
        ocsp_stapling = false;
        ticket_supported = false;
        session_ticket = [];
        signature_and_hashes = [];
        alpn_protocols = [];
        scts = false;
      },
      rest,
    )

-- The loop over the extensions. Each takes four bytes at least, so the length is fuel enough.
unfoldable pub read_extensions : ℕ → ClientHelloMsg → Bytes → Go Reject ClientHelloMsg
read_extensions fuel m [] = ok m
read_extensions zero m (x ∷ d) = stuck
read_extensions (suc fuel) m (x ∷ d) = if ltb (length (x ∷ d)) 4 then err reject else do
  e1 ← index (x ∷ d) 0
  e0 ← index (x ∷ d) 1
  l1 ← index (x ∷ d) 2
  l0 ← index (x ∷ d) 3
  body ← slice_from (x ∷ d) 4
  if ltb (length body) (be16 l1 l0) then err reject else do
    m' ← read_extension m (be16 e1 e0) (be16 l1 l0) body
    rest ← slice_from body (be16 l1 l0)
    read_extensions fuel m' rest

unfoldable pub read_extension_block : ClientHelloMsg → Bytes → Go Reject ClientHelloMsg
read_extension_block m d =
    if length d == 0 then ok m else if ltb (length d) 2 then err reject else do
      hi ← index d 0
      lo ← index d 1
      rest ← slice_from d 2
      if not (be16 hi lo == length rest) then err reject else read_extensions (length rest) m rest

unfoldable pub unmarshal : ClientHelloMsg → Bytes → Go Reject ClientHelloMsg
unmarshal m b = if ltb (length b) 42 then err reject else do
  (m1, d1) ← read_session m b
  (m2, d2) ← read_cipher_suites m1 d1
  (m3, d3) ← read_compression m2 d2
  read_extension_block m3 d3
