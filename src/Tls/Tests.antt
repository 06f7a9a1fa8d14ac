-- ===== src/Tls/Tests.antt =====
-- utils/tls.go: bytes that are no hello, and the hello of GenTLSClientHello's kind.
use rawcon.Common.{◌≡◌, refl, arith, true, some, [], ◌∷◌, ◌++◌, replicate}
use rawcon.Common.Go.{ok, Safe}
use rawcon.Common.Bytes.{Bytes}
use rawcon.Tls.ClientHello.{ClientHelloMsg, new_client_hello}
use rawcon.Tls.ClientHello.Marshal.{marshal}
use rawcon.Tls.ClientHello.Marshal.Layout.{encode, IsEncodable, marshal-encode}
use rawcon.Tls.Records.{parse_tls_client_hello_msg, parse_tls_server_hello_msg}
use rawcon.Tls.Records.Safety.{parse_hello-Safe}

-- A hello that breaks off in its extensions.
abbrev broken_hello : Bytes
broken_hello =
    1 ∷ 0 ∷ 0 ∷ 46 ∷ 3 ∷ 3 ∷ replicate 32 7
    ++ (0 ∷ 0 ∷ 2 ∷ 192 ∷ 47 ∷ 1 ∷ 0 ∷ 0 ∷ 5 ∷ 0 ∷ 0 ∷ 0 ∷ 9 ∷ 1 ∷ [])

abbrev broken_record : Bytes
broken_record = 22 ∷ 3 ∷ 1 ∷ 0 ∷ 52 ∷ broken_hello

parse_hello-Safe_example :
    Safe (parse_tls_client_hello_msg broken_record)
    × Safe (parse_tls_server_hello_msg broken_record)
parse_hello-Safe_example = parse_hello-Safe broken_record

abbrev hello : ClientHelloMsg
hello = record new_client_hello {
  vers = 771;
  random = replicate 32 7;
  session_id = 1 ∷ 2 ∷ [];
  cipher_suites = 49199 ∷ 49195 ∷ [];
  compression_methods = 0 ∷ [];
  server_name = 119 ∷ 46 ∷ 105 ∷ 111 ∷ [];
  ocsp_stapling = true;
  supported_curves = 29 ∷ 23 ∷ [];
  signature_and_hashes = (4, 1) ∷ [];
  ticket_supported = true;
  alpn_protocols = (104 ∷ 50 ∷ []) ∷ [];
}

hello-IsEncodable : IsEncodable hello
hello-IsEncodable = record {
  random_full = refl;
  protocols = ((omega arith, omega arith), tt);
  renegotiation_short = omega arith;
}

marshal-encode_example :
    marshal hello ≡ ok (record hello { raw = some (encode hello) }, encode hello)
marshal-encode_example = marshal-encode hello refl hello-IsEncodable
