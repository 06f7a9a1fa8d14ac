-- ===== src/Tls/Records.antt =====
-- utils/tls.go: the record around a hello. ParseTLSClientHelloMsg, ParseTLSServerHelloMsg,
-- GenTLSServerHello and GenTLSClientHello.
pub mod Generate
pub mod Safety
use rawcon.Common.{
  ℕ, ◌+◌, ◌∷◌, Bool, true, false, not, Option, none, some, List, [], ◌||◌, ◌==◌, ltb, length,
  if◌then◌else◌,
}
use rawcon.Common.Go.{Go, ok, err, panic, stuck, ◌>>=◌}
use rawcon.Common.Bytes.{Bytes, be16, index, slice}
use rawcon.Tls.{Reject, reject, record_type_handshake, version_ssl30, version_tls12}
use rawcon.Tls.ClientHello.{ClientHelloMsg, new_client_hello}
use rawcon.Tls.ClientHello.Unmarshal as client
use rawcon.Tls.ServerHello.{ServerHelloMsg, new_server_hello}
use rawcon.Tls.ServerHello.Unmarshal as server

-- `ok, n, msg` for what `Unmarshal` has answered about a record of `n` bytes.
abbrev answer : {A : Type 0} → ℕ → Go Reject A → Go Reject (Bool × ℕ × Option A)
answer n (ok m) = ok (true, n, some m)
answer n (err e) = ok (false, n, none)
answer n panic = panic
answer n stuck = stuck

-- The two parsers are one text but for the type of their message.
unfoldable pub parse_record :
    {A : Type 0} → (Bytes → Go Reject A) → Bytes → Go Reject (Bool × ℕ × Option A)
parse_record unmarshal b = if ltb (length b) 5 then ok (false, 0, none) else do
  rtype ← index b 0
  if not (rtype == record_type_handshake) then ok (false, 0, none) else do
    v1 ← index b 1
    v0 ← index b 2
    if ltb (be16 v1 v0) version_ssl30 || ltb (version_tls12 + 1) (be16 v1 v0)
        then ok (false, 0, none)
        else do
          l1 ← index b 3
          l0 ← index b 4
          if ltb (length b) (be16 l1 l0 + 5)
              then ok (false, be16 l1 l0 + 5, none)
              else do body ← slice b 5 (be16 l1 l0 + 5); answer (be16 l1 l0 + 5) (unmarshal body)

unfoldable pub parse_tls_client_hello_msg : Bytes → Go Reject (Bool × ℕ × Option ClientHelloMsg)
unfolding parse_record
parse_tls_client_hello_msg = parse_record (client.unmarshal new_client_hello)

unfoldable pub parse_tls_server_hello_msg : Bytes → Go Reject (Bool × ℕ × Option ServerHelloMsg)
unfolding parse_record
parse_tls_server_hello_msg = parse_record (server.unmarshal new_server_hello)
