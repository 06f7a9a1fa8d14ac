-- ===== src/Pcap/Listener/Refines.antt =====
-- raw_other.go, RAWListener.ReadFrom: its rounds, as moves of one peer at a time.
use rawcon.Common.{
  ℕ, ◌+◌, ◌≡◌, refl, ap, ◌∙◌, arith, Bool, true, false, not, ◌&&◌, ◌||◌, ◌==◌, Option, none, some,
  List, [], ltb, length, if◌then◌else◌, inl,
}
use rawcon.Common.Go.{ok, Holds, Holds-bind, Holds-ok}
use rawcon.Common.Bytes.{u32}
use rawcon.Tcp.Decode.{get_mss_from_tcp_layer}
use rawcon.Conn.{Raw, Addr, State, syn_received, wait_http_req, http_rep_sent, established}
use rawcon.Listener.{Draw}
use rawcon.Listener.Peer.{
  absent, pending, joined, IsProper, Move, stays, called, awaited, connected, confirmed,
}
use rawcon.Listener.Step.{client_hello, is_post, rep_bytes}
use rawcon.Pcap.{Handle, Layers, ConnInfo, send_fin_with_layer, send_syn_ack_with_layer}
use rawcon.Pcap.Listener.{
  Listener, Round, continue, deliver, or_fail, put_conn, put_new, promote, sent_for, set_seqn,
  advance, on_data_in, on_data, prepared, prepare_post, on_request, on_handshake, answer_to,
  on_stranger, on_packet, sender, step,
}
use rawcon.Pcap.Listener.Spec.{Shown, Spec, Trace, Keeps, Trace-Spec}
use rawcon.Pcap.Listener.Peer.{
  status_of, peer, Sound, same-Moved, peer-put_conn, put_conn-Moved, put_new-Moved, promote-Moved,
  go_on-Sound, or_fail-Sound, if-Sound, if-SoundHolds,
}
use rawcon.Pcap.Listener.Moves.{
  advance-state, SameState, prepare_post-state, prepared-state, close-Sound, hand_on-Sound,
  answer_again-Sound, on_syn_again-Sound, reply-Sound,
}

module _ (cap : ℕ) (l : Listener) (a : Addr) where
  on_data_in-Sound :
      (s : State) (info : ConnInfo) (cl : Layers)
      → l.newcons a ≡ none
      → peer l a ≡ joined s
      → info.state ≡ s
      → Holds (Sound cap l a) (on_data_in s cap l a info cl)
  unfolding on_data_in
  on_data_in-Sound http_rep_sent info cl free was same =
      let up : ConnInfo =
        record (set_seqn info (u32 (info.layer.tcp.seqn + length (rep_bytes info.rep)))) {
          rep = none;
          state = established;
        } in
      let kept : Move l.r (peer l a) (joined info.state) = rw (was, same) stays in
      if-SoundHolds cap l a (cl.tcp.psh && cl.tcp.ack) _ _
        (if-SoundHolds cap l a (cl.tcp.seqn == info.hseqn && ltb 20 (length cl.payload)) _ _
          (answer_again-Sound cap l a info cl free kept)
          (hand_on-Sound cap l a (put_conn l a up) up cl.payload
            (put_conn-Moved l a l.handle up free (rw was confirmed))
            (peer-put_conn l a l.handle up free)))
        (go_on-Sound cap l a (put_conn l a info) (put_conn-Moved l a l.handle info free kept))
  on_data_in-Sound established info cl free was same =
      hand_on-Sound cap l a (put_conn l a info) info cl.payload
        (put_conn-Moved l a l.handle info free (rw (was, same) stays))
        (peer-put_conn l a l.handle info free ∙ ap joined same)
  on_data_in-Sound syn_received info cl free was same =
      go_on-Sound cap l a _ (put_conn-Moved l a l.handle info free (rw (was, same) stays))
  on_data_in-Sound wait_http_req info cl free was same =
      go_on-Sound cap l a _ (put_conn-Moved l a l.handle info free (rw (was, same) stays))

  on_request-Sound :
      (draw : Draw) (info : ConnInfo) (cl : Layers)
      → l.conns a ≡ none
      → peer l a ≡ pending wait_http_req
      → info.state ≡ wait_http_req
      → Holds (Sound cap l a) (on_request cap draw l a info cl)
  unfolding on_request
  on_request-Sound draw info cl free was state =
      Holds-bind (Sound cap l a) (client_hello l.r cl.payload) _ λ hello _.
        Holds-bind (Sound cap l a) (prepared draw info cl hello) _ λ p e.
          Holds-bind (Sound cap l a) (is_post cl.payload p.1) _ λ post _.
            let info2 : ConnInfo = prepare_post draw p.0 cl p.1 post in
            reply-Sound cap l a info2 cl info2.rep p.1 free was (
              prepare_post-state draw p.0 cl p.1 post
              ∙ Holds-ok (SameState info) (prepared draw info cl hello) p e
                  (prepared-state draw info cl hello)
              ∙ state)

  -- The end of the handshake, and a repeated SYN.
  pub handshake-Sound :
      (cap' : ℕ) (draw : Draw) (info : ConnInfo) (cl : Layers)
      → l.conns a ≡ none
      → peer l a ≡ pending syn_received
      → info.state ≡ syn_received
      → Holds (Sound cap l a) (on_handshake syn_received cap' draw l a info cl)
  unfolding on_handshake
  handshake-Sound size draw info cl free was same =
      let up : ConnInfo = set_seqn info (u32 (info.layer.tcp.seqn + 1)) in
      if-SoundHolds cap l a (cl.tcp.ack && not cl.tcp.psh && not cl.tcp.fin && not cl.tcp.syn) _ _
        (ended l.r.no_http refl) (on_syn_again-Sound cap l a info cl free (rw (was, same) stays))
    where
      ended :
          (bare : Bool)
          → l.r.no_http ≡ bare
          → Sound cap l a (
              continue (
                if bare
                then promote l a
                    (record (set_seqn info (u32 (info.layer.tcp.seqn + 1))) { state = established })
                else put_new l a (record (set_seqn info (u32 (info.layer.tcp.seqn + 1))) {
                  state = wait_http_req;
                })))
      ended true bare =
          go_on-Sound cap l a _ (promote-Moved l a l.handle _ (rw was (connected bare)))
      ended false http =
          go_on-Sound cap l a _ (put_new-Moved l a l.handle _ free (rw was (awaited http)))

  on_handshake-Sound :
      (s : State) (draw : Draw) (info : ConnInfo) (cl : Layers)
      → l.conns a ≡ none
      → peer l a ≡ pending s
      → info.state ≡ s
      → Holds (Sound cap l a) (on_handshake s cap draw l a info cl)
  unfolding on_handshake
  on_handshake-Sound syn_received draw info cl free was same =
      handshake-Sound cap draw info cl free was same
  on_handshake-Sound wait_http_req draw info cl free was same =
      if-SoundHolds cap l a (cl.tcp.psh && cl.tcp.ack && ltb 20 (length cl.payload)) _ _
        (on_request-Sound draw info cl free was same)
        (on_syn_again-Sound cap l a info cl free (rw (was, same) stays))
  on_handshake-Sound http_rep_sent draw info cl free was same =
      go_on-Sound cap l a l (same-Moved l a l.handle)
  on_handshake-Sound established draw info cl free was same =
      go_on-Sound cap l a l (same-Moved l a l.handle)

  called-Sound :
      (info : ConnInfo)
      → l.conns a ≡ none
      → peer l a ≡ absent
      → info.state ≡ syn_received
      → let r = sent_for info l (send_syn_ack_with_layer info.layer l.handle) in
        Sound cap l a (or_fail r.0 r.2 (continue (put_new r.2 a r.1)))
  called-Sound info free was state =
      let r = sent_for info l (send_syn_ack_with_layer info.layer l.handle) in
      or_fail-Sound cap l a r.0 r.2 (continue (put_new r.2 a r.1)) (same-Moved l a (r.2.handle)) (
        go_on-Sound cap l a (put_new r.2 a r.1)
          (put_new-Moved l a (r.2.handle) (r.1) free (rw (was, state) called)))

  on_stranger-Sound :
      (id seqn : ℕ) (cl : Layers)
      → l.conns a ≡ none
      → peer l a ≡ absent
      → Holds (Sound cap l a) (on_stranger id seqn l a cl)
  unfolding on_stranger
  on_stranger-Sound id seqn cl free was =
      if-SoundHolds cap l a (cl.tcp.syn && not cl.tcp.ack && not cl.tcp.psh && not cl.tcp.fin) _ _
        (Holds-bind (Sound cap l a) (get_mss_from_tcp_layer cl.tcp.options) _
          λ mss _. called-Sound _ free was refl)
        (go_on-Sound cap l a _ (same-Moved l a (send_fin_with_layer (answer_to id cl) l.handle).2))

  -- All but the packets of a peer that is not established yet.
  pub data-Sound :
      (info : ConnInfo) (new : Option ConnInfo) (id : ℕ) (draw : Draw) (cl : Layers)
      → l.conns a ≡ some info
      → l.newcons a ≡ new
      → IsProper (status_of new (some info))
      → Holds (Sound cap l a) (on_packet (some info) new cap id draw l a cl)
  unfolding on_packet on_data
  data-Sound info (some i) id draw cl here there proper = absurd proper
  data-Sound info none id draw cl here there proper =
      if-SoundHolds cap l a (length cl.payload == 0)
        (ok (if cl.tcp.ack && cl.tcp.psh then deliver l [] a else continue l)) _
        (if-Sound cap l a (cl.tcp.ack && cl.tcp.psh) (deliver l [] a) (continue l)
          (λ _. (same-Moved l a l.handle, (refl, omega arith, inl refl)))
          (λ _. go_on-Sound cap l a l (same-Moved l a l.handle)))
        (on_data_in-Sound info.state (advance info cl) cl there (rw (here, there))
          (advance-state info cl))

  pub stranger-Sound :
      (id : ℕ) (draw : Draw) (cl : Layers)
      → l.conns a ≡ none
      → l.newcons a ≡ none
      → Holds (Sound cap l a) (on_packet none none cap id draw l a cl)
  unfolding on_packet
  stranger-Sound id draw cl here there = on_stranger-Sound id draw.seqn cl here (rw (here, there))

  on_packet-Sound :
      (conn new : Option ConnInfo) (id : ℕ) (draw : Draw) (cl : Layers)
      → l.conns a ≡ conn
      → l.newcons a ≡ new
      → IsProper (status_of new conn)
      → Holds (Sound cap l a) (on_packet conn new cap id draw l a cl)
  unfolding on_packet
  on_packet-Sound (some info) new id draw cl here there proper =
      data-Sound info new id draw cl here there proper
  on_packet-Sound none (some info) id draw cl here there proper =
      on_handshake-Sound info.state draw info cl here (rw (here, there)) refl
  on_packet-Sound none none id draw cl here there proper = stranger-Sound id draw cl here there

-- A round for a packet whose sender is in at most one of the maps and in a state of that map.
step-Sound :
    (cap id : ℕ) (draw : Draw) (l : Listener) (cl : Layers)
    → IsProper (peer l (sender cl))
    → Holds (λ (r : Round). Sound cap l (sender cl) r) (step cap id draw l cl)
unfolding step
step-Sound cap id draw l cl proper =
    let a : Addr = sender cl in
    if-SoundHolds cap l a (cl.tcp.rst || cl.tcp.fin) _ _
      (close-Sound cap l a (l.newcons a) (l.conns a) refl refl proper)
      (on_packet-Sound cap l a (l.conns a) (l.newcons a) id draw cl refl refl proper)

-- The rounds of ReadFrom that do not panic.
abbrev pub ReadFrom : Listener → Addr → Round → Type 0
ReadFrom l a out =
    (cap : ℕ) × (id : ℕ) × (draw : Draw) × (cl : Layers) × (sender cl ≡ a)
    × (step cap id draw l cl ≡ ok out)

ReadFrom-Keeps : Keeps ReadFrom
ReadFrom-Keeps l a out proper (size, id, draw, cl, from, done) =
    let sound : Sound size l (sender cl) out =
      Holds-ok (λ (r : Round). Sound size l (sender cl) r) (step size id draw l cl) out done
        (step-Sound size id draw l cl (rw from proper)) in
    (size, rw (← from) sound)

-- Any rounds of the listener for other systems, from a new one on, none of which panics, do what the
-- specification allows: the status of every address moves only as `Move` says, one address in each round,
-- and bytes are handed on only of an address that is then established, an empty read apart.
pub ReadFrom-Spec :
    (r : Raw) (handle : Handle) (shown : List Shown) (l : Listener)
    → Trace ReadFrom r handle shown l
    → Spec r shown (peer l)
ReadFrom-Spec r handle shown l trace = Trace-Spec ReadFrom ReadFrom-Keeps r handle shown l trace
