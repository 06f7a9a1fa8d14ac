-- ===== src/Tls/Records/Generate.antt =====
-- utils/tls.go, GenTLSServerHello and GenTLSClientHello. The random bytes and the clock, which come
-- from outside, are arguments.
use rawcon.Common.{ℕ, ◌+◌, true, List, [], ◌∷◌, ◌++◌, ltb, leb, length, drop, if◌then◌else◌}
use rawcon.Common.Go.{Go, ok, panic, ◌>>=◌}
use rawcon.Common.Bytes.{Bytes, u16, bytes32, copy_at, put, put16}
use rawcon.Tls.{Reject, version_tls10, version_tls12}
use rawcon.Tls.ClientHello.{ClientHelloMsg, new_client_hello}
use rawcon.Tls.ServerHello.{ServerHelloMsg, new_server_hello}
use rawcon.Tls.ClientHello.Marshal as client
use rawcon.Tls.ServerHello.Marshal as server

-- `binary.BigEndian.PutUint32(msg.Random, uint32(time.Now().Unix()))` on 32 random bytes
abbrev pub stamp : ℕ → Bytes → Bytes
stamp now random = bytes32 now ++ drop 4 random

-- A record of `body` at the offset `i`: `copy` stops at the end of the buffer.
unfoldable pub put_record : Bytes → ℕ → ℕ → ℕ → Bytes → Go Reject Bytes
put_record b i type version body = do
  b1 ← put b i type
  b2 ← put16 b1 (i + 1) version
  b3 ← put16 b2 (i + 3) (u16 (length body))
  if leb (i + 5) (length b) then ok (copy_at b3 (i + 5) body) else panic

unfoldable pub server_hello : ℕ → Bytes → Bytes → Bytes → ServerHelloMsg
server_hello now random fresh_id session_id = record new_server_hello {
  cipher_suite = 0xcca8;
  vers = version_tls12;
  secure_renegotiation_supported = true;
  other_extensions =
      record { type = 0x17; length = 0; content = [] }
      ∷ record { type = 0x0b; length = 2; content = 1 ∷ 0 ∷ [] }
      ∷ [];
  session_id = if ltb 0 (length session_id) then session_id else fresh_id;
  random = stamp now random;
}

-- The ServerHello record, and behind it the headers of a ChangeCipherSpec record of one byte and of
-- a handshake record of `l` bytes. `i` is where the slice `b` of the source begins.
unfoldable pub gen_tls_server_hello : ℕ → Bytes → Bytes → Bytes → ℕ → Bytes → Go Reject (Bytes × ℕ)
gen_tls_server_hello now random fresh_id b l session_id = do
  (_, hello) ← server.marshal (server_hello now random fresh_id session_id)
  b1 ← put_record b 0 0x16 version_tls10 hello
  let i = length hello + 5
  b2 ← put b1 i 0x14
  b3 ← put16 b2 (i + 1) version_tls12
  b4 ← put16 b3 (i + 3) 1
  b5 ← put b4 (i + 6) 0x1
  let j = i + 6
  b6 ← put b5 j 0x16
  b7 ← put16 b6 (j + 1) version_tls12
  b8 ← put16 b7 (j + 3) (u16 l)
  ok (b8, j + 5)

abbrev pub offered_suites : List ℕ
offered_suites =
    0x0005 ∷ 0x000a ∷ 0x002f ∷ 0x0035 ∷ 0x003c ∷ 0x009c ∷ 0x009d ∷ 0xc007 ∷ 0xc009 ∷ 0xc00a ∷ 0xc011
    ∷ 0xc012 ∷ 0xc013 ∷ 0xc014 ∷ 0xc023 ∷ 0xc027 ∷ 0xc02f ∷ 0xc02b ∷ 0xc030 ∷ 0xc02c ∷ 0xcca8
    ∷ 0xcca9 ∷ 0x0005 ∷ 0x000a ∷ 0x002f ∷ 0x0035 ∷ 0x003c ∷ 0x009c ∷ []

unfoldable pub client_hello : ℕ → Bytes → Bytes → Bytes → Bytes → ClientHelloMsg
client_hello now random server_name session_id session_ticket = record new_client_hello {
  vers = version_tls12;
  cipher_suites = offered_suites;
  compression_methods = 0 ∷ [];
  session_id = session_id;
  session_ticket = session_ticket;
  ticket_supported = true;
  server_name = server_name;
  supported_curves = 23 ∷ 24 ∷ 25 ∷ 29 ∷ [];
  supported_points = 1 ∷ 0 ∷ 2 ∷ [];
  signature_and_hashes = (4, 1) ∷ (4, 3) ∷ (5, 1) ∷ (5, 3) ∷ (2, 1) ∷ (2, 3) ∷ [];
  random = stamp now random;
}

unfoldable pub gen_tls_client_hello :
    ℕ → Bytes → Bytes → Bytes → Bytes → Bytes → Go Reject (Bytes × ℕ)
gen_tls_client_hello now random b server_name session_id session_ticket = do
  (_, hello) ← client.marshal (client_hello now random server_name session_id session_ticket)
  b1 ← put_record b 0 0x16 version_tls10 hello
  ok (b1, length hello + 5)
