-- ===== src/Link/Handshake/Taken.antt =====
-- raw_linux.go: the two packets of the handshake that go to the listener, as ReadTCPLayer hands them on.
use rawcon.Common.{ℕ, ◌≡◌, sym, ap, ◌∙◌, some, List, ◌∷◌}
use rawcon.Common.Go.{ok}
use rawcon.Tcp.{TcpLayer}
use rawcon.Conn.{Addr}
use rawcon.Listener.{Draw, Listener, continue}
use rawcon.Listener.DoRead.{do_read_round}
use rawcon.Listener.DoRead.Packet.{IsTaken, do_read_round-step}
use rawcon.Client.{RawConn, Incoming, packet}
use rawcon.Client.Dial.{Clock}
use rawcon.Link.Handshake.{address_of}
use rawcon.Link.Handshake.Connects.{Session}

pub IsTaken-at : (a : Addr) (p q : ℕ) (tcp : TcpLayer) → p ≡ q → IsTaken a p tcp → IsTaken a q tcp
IsTaken-at a p q tcp same t = record {
  from_port = t.from_port;
  to_port = t.to_port ∙ same;
  no_reset = t.no_reset;
  short = t.short;
}

-- The listener's rounds for the SYN and for the acknowledgement.
abbrev pub Taken :
    (cap : ℕ) (clock : Clock) (retry : ℕ) (draw draw2 : Draw) (l : Listener) (conn : RawConn)
    → Session cap clock retry draw draw2 l conn
    → Type 0
Taken cap clock retry draw draw2 l conn h =
    (is : List Incoming)
    → (do_read_round cap draw l (packet conn.layer.srcip h.first ∷ is)
        ≡ ok (some (continue h.met), is))
      × (do_read_round cap draw2 h.met (packet conn.layer.srcip h.last ∷ is)
          ≡ ok (some (continue h.shaken), is))

pub Session-Taken :
    (cap : ℕ) (clock : Clock) (retry : ℕ) (draw draw2 : Draw) (l : Listener) (conn : RawConn)
    (h : Session cap clock retry draw draw2 l conn)
    → conn.layer.tcp.dst_port ≡ l.laddr.port
    → Taken cap clock retry draw draw2 l conn h
Session-Taken cap clock retry draw draw2 l conn h to is =
    let a : Addr = address_of conn in
    let to_met : conn.layer.tcp.dst_port ≡ h.met.laddr.port =
      to ∙ ap (λ (b : Addr). b.port) (sym h.places.0) in
    (
      do_read_round-step cap draw l a h.syn_tcp h.first is _ h.syn_comes
          (IsTaken-at a _ _ h.syn_tcp to h.syn_fits) h.syn_answered,
      do_read_round-step cap draw2 h.met a h.ack_tcp h.last is _ h.ack_comes
          (IsTaken-at a _ _ h.ack_tcp to_met h.ack_fits) h.ack_taken,
    )
