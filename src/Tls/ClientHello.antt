-- ===== src/Tls/ClientHello.antt =====
-- utils/tls.go, ClientHelloMsg.
pub mod Unmarshal
pub mod Marshal
use rawcon.Common.{ℕ, Bool, false, Option, none, List, []}
use rawcon.Common.Bytes.{Bytes}

-- Strings are their bytes, and `Raw` is none where it is nil.
pub record ClientHelloMsg : Type 0 where
  pub raw : Option Bytes
  pub vers : ℕ  -- uint16
  pub random : Bytes
  pub session_id : Bytes
  pub cipher_suites : List ℕ  -- []uint16
  pub compression_methods : Bytes
  pub next_proto_neg : Bool
  pub server_name : Bytes
  pub ocsp_stapling : Bool
  pub scts : Bool
  pub supported_curves : List ℕ  -- []CurveID
  pub supported_points : Bytes
  pub ticket_supported : Bool
  pub session_ticket : Bytes
  pub signature_and_hashes : List (ℕ × ℕ)  -- hash and signature
  pub secure_renegotiation : Bytes
  pub secure_renegotiation_supported : Bool
  pub alpn_protocols : List Bytes

-- `new(ClientHelloMsg)`
abbrev pub new_client_hello : ClientHelloMsg
new_client_hello = record {
  raw = none;
  vers = 0;
  random = [];
  session_id = [];
  cipher_suites = [];
  compression_methods = [];
  next_proto_neg = false;
  server_name = [];
  ocsp_stapling = false;
  scts = false;
  supported_curves = [];
  supported_points = [];
  ticket_supported = false;
  session_ticket = [];
  signature_and_hashes = [];
  secure_renegotiation = [];
  secure_renegotiation_supported = false;
  alpn_protocols = [];
}
