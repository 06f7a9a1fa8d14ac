-- ===== src/Listener/DoRead.antt =====
-- raw_linux.go, RAWListener.doRead: a round of its loop with the call of ReadTCPLayer in front of it.
pub mod Packet
use rawcon.Common.{ℕ, Option, none, some, List}
use rawcon.Common.Go.{Go, ok, ◌>>=◌}
use rawcon.Tcp.{Error}
use rawcon.Conn.{read_failed, bad_packet}
use rawcon.Listener.{Listener, Draw, Round, failed}
use rawcon.Listener.Step.{step}
use rawcon.Client.{Incoming, Read, got, reset, read_error, decode_error, drained, read_tcp_layer}

-- A reset is dealt with before the error that comes with it. `none` is a wait for the next packet.
unfoldable pub on_read : ℕ → Draw → Listener → Read → Go Error (Option Round)
on_read cap draw l (got tcp a) = do r ← step cap draw l a tcp; ok (some r)
on_read cap draw l (reset tcp a) = do r ← step cap draw l a tcp; ok (some r)
on_read cap draw l (read_error temporary) = ok (some (failed l read_failed))
on_read cap draw l (decode_error e) = ok (some (failed l bad_packet))
on_read cap draw l drained = ok none

-- ReadTCPLayer drops the packets to other ports than the listener's, and resets where they are ignored.
unfoldable pub do_read_round :
    ℕ → Draw → Listener → List Incoming → Go Error (Option Round × List Incoming)
do_read_round cap draw l is = do
  (read, rest) ← read_tcp_layer l.r l.laddr.port is
  round ← on_read cap draw l read
  ok (round, rest)
