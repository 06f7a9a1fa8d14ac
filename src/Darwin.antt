-- ===== src/Darwin.antt =====
-- raw_darwin.go: the connections on macOS, whose packets gopacket writes and reads and the Berkeley
-- packet filter carries. The layers and the sends are, statement for statement, those of raw_other.go
-- (Pcap.antt), but that the payload is a field of the TCP layer there.
pub mod Listener
pub mod Client
