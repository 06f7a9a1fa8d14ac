-- ===== src/Listener/DoRead/Packet.antt =====
-- raw_linux.go, RAWListener.doRead: the packets that come through ReadTCPLayer as they were sent.
use rawcon.Common.{
  ℕ, ◌+◌, ◌*◌, ◌≤◌, ◌≡◌, refl, sym, ap, arith, true, false, ◌==◌, some, List, ◌∷◌, length,
}
use rawcon.Common.Go.{ok}
use rawcon.Common.Bytes.{Bytes}
use rawcon.Tcp.{TcpLayer, rst, chk_flag}
use rawcon.Tcp.Decode.{decode_tcp_layer}
use rawcon.Conn.{Addr}
use rawcon.Listener.{Listener, Draw, Round}
use rawcon.Listener.Step.{step}
use rawcon.Listener.DoRead.{on_read, do_read_round}
use rawcon.Client.{Incoming, packet, got, read_packet, read_tcp_layer}
use rawcon.Client.Whole.{decode-in_buffer}

-- What ReadTCPLayer hands on of a segment: all of it, if its buffer holds it, it is to the listener's
-- port, and it is no reset.
pub record IsTaken (a : Addr) (port : ℕ) (tcp : TcpLayer) : Type 0 where
  pub from_port : a.port ≡ tcp.src_port
  pub to_port : tcp.dst_port ≡ port
  pub no_reset : chk_flag tcp rst ≡ false
  pub short : tcp.data_offset * 4 + length tcp.payload ≤ 2028

reads-taken :
    (l : Listener) (a : Addr) (tcp : TcpLayer) (segment : Bytes) (is : List Incoming)
    → decode_tcp_layer segment ≡ ok tcp
    → IsTaken a l.laddr.port tcp
    → read_tcp_layer l.r l.laddr.port (packet a.ip segment ∷ is) ≡ ok (got tcp a, is)
unfolding read_tcp_layer read_packet
reads-taken l a tcp segment is read taken =
    let mine : (tcp.dst_port == l.laddr.port) ≡ true = ground (arith, taken.to_port) in
    let whole = decode-in_buffer segment tcp read taken.short in
    simp (whole, mine, taken.no_reset)
      (ap (λ (p : ℕ). ok (got tcp (record { ip = a.ip; port = p }), is)) (sym taken.from_port))

pub do_read_round-step :
    (cap : ℕ) (draw : Draw) (l : Listener) (a : Addr) (tcp : TcpLayer) (segment : Bytes)
    (is : List Incoming) (round : Round)
    → decode_tcp_layer segment ≡ ok tcp
    → IsTaken a l.laddr.port tcp
    → step cap draw l a tcp ≡ ok round
    → do_read_round cap draw l (packet a.ip segment ∷ is) ≡ ok (some round, is)
unfolding do_read_round on_read
do_read_round-step cap draw l a tcp segment is round read taken stepped =
    rw (reads-taken l a tcp segment is read taken, stepped) refl
