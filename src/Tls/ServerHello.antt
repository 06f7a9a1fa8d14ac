-- ===== src/Tls/ServerHello.antt =====
-- utils/tls.go, ServerHelloMsg and Extension.
pub mod Unmarshal
pub mod Marshal
use rawcon.Common.{ℕ, Bool, false, Option, none, List, []}
use rawcon.Common.Bytes.{Bytes}

-- `Data` is `content`.
pub record Extension : Type 0 where
  pub type : ℕ  -- uint16
  pub length : ℕ  -- uint16
  pub content : Bytes

pub record ServerHelloMsg : Type 0 where
  pub raw : Option Bytes
  pub vers : ℕ  -- uint16
  pub random : Bytes
  pub session_id : Bytes
  pub cipher_suite : ℕ  -- uint16
  pub compression_method : ℕ  -- uint8
  pub next_proto_neg : Bool
  pub next_protos : List Bytes
  pub ocsp_stapling : Bool
  pub scts : List Bytes
  pub ticket_supported : Bool
  pub secure_renegotiation : Bytes
  pub secure_renegotiation_supported : Bool
  pub alpn_protocol : Bytes
  pub other_extensions : List Extension

-- `new(ServerHelloMsg)`
abbrev pub new_server_hello : ServerHelloMsg
new_server_hello = record {
  raw = none;
  vers = 0;
  random = [];
  session_id = [];
  cipher_suite = 0;
  compression_method = 0;
  next_proto_neg = false;
  next_protos = [];
  ocsp_stapling = false;
  scts = [];
  ticket_supported = false;
  secure_renegotiation = [];
  secure_renegotiation_supported = false;
  alpn_protocol = [];
  other_extensions = [];
}
