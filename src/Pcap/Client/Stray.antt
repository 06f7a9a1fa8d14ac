-- ===== src/Pcap/Client/Stray.antt =====
-- raw_other.go, DialRAW: what a packet that does not answer the SYN makes of its first loop.
use rawcon.Common.{ℕ, suc, ◌≡◌, ◌≤◌, refl, arith, Bool, true, false, ◌&&◌, none, List, ◌∷◌, ltb}
use rawcon.Common.Go.{ok}
use rawcon.Common.Bytes.{Bytes}
use rawcon.Client.Request.{RequestDraw}
use rawcon.Pcap.Client.Dial.{dial, after_syn}
use rawcon.Pcap.{Layers, send_syn_with_layer}
use rawcon.Pcap.Client.{
  RawConn, Incoming, packet, read_loop, read_layers, sent_by, connected, no_numbers, on_first,
  syn_loop,
}

syn_loop-stray :
    (fuel retry : ℕ) (conn : RawConn) (cl : Layers) (is : List Incoming)
    → retry ≤ 5
    → conn.dead ≡ false
    → (send_syn_with_layer conn.layer conn.handle).0 ≡ none
    → (cl.tcp.syn && cl.tcp.ack) ≡ false
    → (cl.tcp.rst && conn.r.ign_rst) ≡ false
    → syn_loop (suc fuel) retry conn (packet cl ∷ is)
      ≡ ok (connected (sent_by conn (send_syn_with_layer conn.layer conn.handle)).1 no_numbers is)
unfolding syn_loop read_layers read_loop on_first
syn_loop-stray fuel retry conn cl is few alive sent other handed =
    let more : ltb 5 retry ≡ false = ground arith in simp (more, alive, sent, handed, other) refl

-- Without HTTP and TLS, where the SYN is sent, any packet that is not a SYN-ACK and that readLayers
-- hands on, be it a reset, makes DialRAW return a connection, which is as the SYN left it: no
-- acknowledgement is sent, and no number is moved.
pub dial-stray :
    (late : ℕ → Bool) (host : Bytes) (hosts : List Bytes) (draw : RequestDraw) (conn : RawConn)
    (cl : Layers) (is : List Incoming)
    → conn.dead ≡ false
    → (send_syn_with_layer conn.layer conn.handle).0 ≡ none
    → (cl.tcp.syn && cl.tcp.ack) ≡ false
    → (cl.tcp.rst && conn.r.ign_rst) ≡ false
    → conn.r.no_http ≡ true
    → conn.r.tls ≡ false
    → dial late host hosts draw conn (packet cl ∷ is)
      ≡ ok (connected (sent_by conn (send_syn_with_layer conn.layer conn.handle)).1 no_numbers is)
unfolding dial after_syn
dial-stray late host hosts draw conn cl is alive sent other handed no_http no_tls =
    simp (syn_loop-stray 6 0 conn cl is (omega arith) alive sent other handed, no_http, no_tls) refl
