-- ===== src/Listener/Write.antt =====
-- raw_linux.go, RAWListener: WriteTo and GetMSSByAddr.
use rawcon.Common.{ℕ, ◌+◌, Option, none, some, ltb, length, if◌then◌else◌}
use rawcon.Common.Go.{Go, ok, ◌>>=◌}
use rawcon.Common.Bytes.{Bytes, u32}
use rawcon.Tcp.{Error}
use rawcon.Conn.{Addr, ConnInfo, ConnError, cannot_write}
use rawcon.Conn.Send.{write_with_layer}
use rawcon.Conn.Frame.{tls_frame}
use rawcon.Listener.{Listener}
use rawcon.Listener.Step.{set_seqn, put_conn}

-- To a peer; `buf` is what GetBuf returns.
unfoldable pub write_peer :
    Bytes → Bytes → Addr → ConnInfo → Listener → Go Error (ℕ × Option ConnError × Listener)
write_peer buf b a info l = do
  data' ← if info.tls then tls_frame buf b else ok b
  r ← write_with_layer data' info.layer l.socket
  let info' = record info { layer = r.1 }
  let info2 = set_seqn info' (u32 (info'.layer.tcp.seqn + length data'))
  ok (length data', r.0, put_conn (record l { socket = r.2 }) a info2)

unfoldable pub write_known :
    Option ConnInfo → Bytes → Bytes → Addr → Listener → Go Error (ℕ × Option ConnError × Listener)
write_known none buf b a l = ok (0, some cannot_write, l)
write_known (some info) buf b a l = write_peer buf b a info l

unfoldable pub write_to :
    Bytes → Bytes → Addr → Listener → Go Error (ℕ × Option ConnError × Listener)
write_to buf b a l = write_known (l.conns a) buf b a l

unfoldable pub get_mss_by_addr : Addr → Listener → ℕ
get_mss_by_addr a l = elim (l.conns a) [
  | none ↦ 0
  | some info ↦ if ltb 0 info.mss then info.mss else 0
]
