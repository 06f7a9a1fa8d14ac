-- ===== src/Tls.antt =====
-- utils/tls.go: the TLS hello messages, copied there from crypto/tls, and the records around them.
pub mod Writer
pub mod ClientHello
pub mod ServerHello
pub mod Records
mod Tests
use rawcon.Common.{ℕ}

-- `return false` of the parsers.
pub data Reject : Type 0 where
  reject : Reject

abbrev pub version_ssl30 : ℕ
version_ssl30 = 0x0300

abbrev pub version_tls10 : ℕ
version_tls10 = 0x0301

abbrev pub version_tls12 : ℕ
version_tls12 = 0x0303

abbrev pub record_type_handshake : ℕ
record_type_handshake = 22

abbrev pub type_client_hello : ℕ
type_client_hello = 1

abbrev pub type_server_hello : ℕ
type_server_hello = 2

abbrev pub extension_server_name : ℕ
extension_server_name = 0

abbrev pub extension_status_request : ℕ
extension_status_request = 5

abbrev pub extension_supported_curves : ℕ
extension_supported_curves = 10

abbrev pub extension_supported_points : ℕ
extension_supported_points = 11

abbrev pub extension_signature_algorithms : ℕ
extension_signature_algorithms = 13

abbrev pub extension_alpn : ℕ
extension_alpn = 16

abbrev pub extension_sct : ℕ
extension_sct = 18

abbrev pub extension_session_ticket : ℕ
extension_session_ticket = 35

abbrev pub extension_next_proto_neg : ℕ
extension_next_proto_neg = 13172

abbrev pub extension_renegotiation_info : ℕ
extension_renegotiation_info = 0xff01

abbrev pub scsv_renegotiation : ℕ
scsv_renegotiation = 0x00ff

abbrev pub status_type_ocsp : ℕ
status_type_ocsp = 1
