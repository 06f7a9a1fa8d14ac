-- ===== src/Listener/Invariant.antt =====
-- raw_linux.go, RAWListener.doRead: every round keeps the two maps apart and moves one peer only.
pub mod Rules
mod Infos
use rawcon.Common.{
  ℕ, ◌+◌, ◌≡◌, zero, suc, Bool, true, false, ◌∷◌, refl, sym, ap, ◌∙◌, inl, inr, arith, not, ◌||◌,
  Option, none, some, [], ◌&&◌, ◌==◌, ltb, length, take, if◌then◌else◌,
}
use rawcon.Common.Go.{ok, OnOk-ok}
use rawcon.Common.Bytes.{Bytes, u32}
use rawcon.Tcp.{TcpLayer, fin, syn, rst, psh, ack, chk_flag}
use rawcon.Tcp.Decode.{get_mss_from_tcp_layer}
use rawcon.Conn.{Addr, ConnInfo, State, syn_received, wait_http_req, http_rep_sent, established}
use rawcon.Conn.Send.{send_fin_with_layer}
use rawcon.Listener.{Draw, Listener, Round, continue, deliver, listener_of}
use rawcon.Listener.Step.{
  client_hello, is_post, set_ackn, set_seqn, rep_bytes, put_conn, promote, advance, on_data_in,
  prepared, answer_again, on_data, prepare_post, reply, on_request, on_syn_again, on_handshake,
  new_layer, fresh_info, on_stranger, on_packet, is_any, drop_peer, step, is_hello,
}
use rawcon.Listener.Delivery.{data_of, advance-tls}
use rawcon.Listener.Peer.{
  absent, pending, joined, status_of, peer, IsProper, Move, stays, called, awaited, connected,
  answered, unmasked, confirmed, Move-IsProper, Moves-same, Moves-drop, Moves-put_conn,
  Moves-put_new, peer-promote, peer-put_conn, Moves-promote,
}
use rawcon.Listener.Invariant.Rules.{
  Sound, Continues, length-take_le, then-Sound, bind-Sound, if-Sound, ok-Sound, go_on-Sound,
  write_rep-Sound, send_syn_ack-Sound, or_fail-Sound, hand_on-Sound,
}
use rawcon.Listener.Invariant.Infos.{SameState, advance-state, prepare_post-state, prepared-state}

-- The data of a packet: where its sender is in `conns` and marked for TLS, what follows the header of the
-- record.
abbrev pub carried : Option ConnInfo → Bytes → Bytes
carried none payload = payload
carried (some info) payload = data_of info.tls payload

none_carried :
    (cap : ℕ) (t : Bool) (payload : Bytes) → length payload ≡ 0 → take cap (data_of t payload) ≡ []
none_carried zero true [] e = refl
none_carried zero false [] e = refl
none_carried (suc cap) true [] e = refl
none_carried (suc cap) false [] e = refl
none_carried cap t (x ∷ payload) e = absurd (omega arith)

module _ (cap : ℕ) (l : Listener) (a : Addr) (data' : Bytes) where
  module _ (info : ConnInfo) (tcp : TcpLayer) where
    answer_again-Sound :
        l.newcons a ≡ none
        → Move l.r (peer l a) (joined info.state)
        → Continues cap l a data' (answer_again l a info tcp)
    unfolding answer_again
    answer_again-Sound free move =
        bind-Sound cap l a data' (client_hello l.r tcp.payload) _ λ hello.
          bind-Sound cap l a data' (is_post tcp.payload (length tcp.payload)) _ λ post.
            if-Sound cap l a data' (is_hello hello || post) _ _
              (λ _.
                write_rep-Sound cap l a data' l
                  (set_ackn info (u32 (tcp.seqn + length tcp.payload))) _
                  λ e layer s.
                    let again = record (set_ackn info (u32 (tcp.seqn + length tcp.payload))) {
                      layer = layer;
                    } in
                    let moves = Moves-put_conn l a s again free move in
                    or_fail-Sound cap l a data' e _ _ moves moves)
              (λ _. go_on-Sound cap l a data' _ (Moves-put_conn l a l.socket info free move))

    on_syn_again-Sound :
        l.conns a ≡ none
        → Move l.r (peer l a) (pending info.state)
        → Continues cap l a data' (on_syn_again l a info tcp)
    unfolding on_syn_again
    on_syn_again-Sound free move =
        if-Sound cap l a data' (chk_flag tcp syn && not (chk_flag tcp (ack + psh))) _ _
          (λ _. send_syn_ack-Sound cap l a data' l info _ λ e layer s.
            let moves = Moves-put_new l a s (record info { layer = layer }) free move in
            or_fail-Sound cap l a data' e _ _ moves moves)
          (λ _. go_on-Sound cap l a data' l (Moves-same l a l.socket))

    reply-Sound :
        (rep : Option Bytes)
        → l.conns a ≡ none
        → peer l a ≡ pending wait_http_req
        → info.state ≡ wait_http_req
        → data' ≡ tcp.payload
        → Continues cap l a data' (reply rep cap l a info tcp)
    unfolding reply
    reply-Sound (some rep) free was state own =
        let same : Move l.r (peer l a) (pending info.state) = rw (was, state) stays in
        write_rep-Sound cap l a data' l info _ λ e layer s.
          or_fail-Sound cap l a data' e _ _
            (Moves-put_new l a s (record info { layer = layer }) free same)
            (Moves-promote l a s (record info { layer = layer; state = http_rep_sent })
              (rw was answered))
    reply-Sound none free was state own =
        let same : Move l.r (peer l a) (pending info.state) = rw (was, state) stays in
        let up = record (set_ackn info (u32 (tcp.seqn + length tcp.payload))) {
          state = established;
        } in
        if-Sound cap l a data' l.r.mixed _ _
          (λ mixed. ok-Sound cap l a data' (deliver (promote l a up) (take cap tcp.payload) a) (
            Moves-promote l a l.socket up (rw was (unmasked mixed)),
            (
              refl,
              ap (take cap) (sym own),
              length-take_le cap tcp.payload,
              inr (peer-promote l a l.socket up),
            ),
          ))
          (λ plain. go_on-Sound cap l a data' _ (Moves-put_new l a l.socket info free same))

  module _ (info : ConnInfo) (tcp : TcpLayer) where
    on_data_in-Sound :
        (state : State)
        → l.newcons a ≡ none
        → peer l a ≡ joined state
        → info.state ≡ state
        → data' ≡ data_of info.tls tcp.payload
        → Continues cap l a data' (on_data_in state cap l a info tcp)
    unfolding on_data_in
    on_data_in-Sound http_rep_sent free was same own =
        let up = record (set_seqn info (u32 (info.layer.tcp.seqn + length (rep_bytes info.rep)))) {
          rep = none;
          state = established;
        } in
        let moves = Moves-put_conn l a l.socket up free (rw was confirmed) in
        let kept : Move l.r (peer l a) (joined info.state) = rw (was, same) stays in
        if-Sound cap l a data' (chk_flag tcp (psh + ack)) _ _
          (λ _.
            if-Sound cap l a data' (tcp.seqn == info.hseqn && ltb 20 (length tcp.payload)) _ _
              (λ _. answer_again-Sound info tcp free kept)
              (λ _.
                hand_on-Sound cap l a data' (put_conn l a up) up tcp.payload moves
                  (peer-put_conn l a l.socket up free) own))
          (λ _. go_on-Sound cap l a data' _ (Moves-put_conn l a l.socket info free kept))
    on_data_in-Sound established free was same own =
        let kept : Move l.r (peer l a) (joined info.state) = rw (was, same) stays in
        hand_on-Sound cap l a data' (put_conn l a info) info tcp.payload
          (Moves-put_conn l a l.socket info free kept)
          (peer-put_conn l a l.socket info free ∙ ap joined same) own
    on_data_in-Sound syn_received free was same own =
        go_on-Sound cap l a data' _ (Moves-put_conn l a l.socket info free (rw (was, same) stays))
    on_data_in-Sound wait_http_req free was same own =
        go_on-Sound cap l a data' _ (Moves-put_conn l a l.socket info free (rw (was, same) stays))

  module _ (info : ConnInfo) (tcp : TcpLayer) where
    on_data-Sound :
        l.newcons a ≡ none
        → peer l a ≡ joined info.state
        → data' ≡ data_of info.tls tcp.payload
        → Continues cap l a data' (on_data cap l a info tcp)
    unfolding on_data
    on_data-Sound free was own =
        on_data_in-Sound (advance info tcp) tcp info.state free was (advance-state info tcp)
          (own ∙ ap (λ t. data_of t tcp.payload) (sym (advance-tls info tcp)))

    on_request-Sound :
        (draw : Draw)
        → l.conns a ≡ none
        → peer l a ≡ pending wait_http_req
        → info.state ≡ wait_http_req
        → data' ≡ tcp.payload
        → Continues cap l a data' (on_request cap draw l a info tcp)
    unfolding on_request
    on_request-Sound draw free was state own =
        bind-Sound cap l a data' (client_hello l.r tcp.payload) _ λ hello.
          then-Sound cap l a data' (SameState info) (prepared draw info tcp hello) _
            (prepared-state draw info tcp hello)
            λ r same. bind-Sound cap l a data' (is_post tcp.payload r.1) _ λ post.
              let info2 = prepare_post draw r.0 tcp post in
              reply-Sound info2 tcp info2.rep free was
                (prepare_post-state draw r.0 tcp post ∙ same ∙ state) own

    on_handshake-Sound :
        (state : State) (draw : Draw)
        → l.conns a ≡ none
        → peer l a ≡ pending state
        → info.state ≡ state
        → data' ≡ tcp.payload
        → Continues cap l a data' (on_handshake state cap draw l a info tcp)
    unfolding on_handshake
    on_handshake-Sound syn_received draw free was same own =
        let up = set_seqn info (u32 (info.layer.tcp.seqn + 1)) in
        let kept : Move l.r (peer l a) (pending info.state) = rw (was, same) stays in
        if-Sound cap l a data' (chk_flag tcp ack && not (chk_flag tcp (psh + fin + syn))) _ _
          (λ _.
            if-Sound cap l a data' l.r.no_http _ _
              (λ bare. go_on-Sound cap l a data' _ (
                Moves-promote l a l.socket (record up { state = established })
                  (rw was (connected bare))))
              (λ http. go_on-Sound cap l a data' _ (
                Moves-put_new l a l.socket (record up { state = wait_http_req }) free
                  (rw was (awaited http)))))
          (λ _. on_syn_again-Sound info tcp free kept)
    on_handshake-Sound wait_http_req draw free was same own =
        if-Sound cap l a data' (chk_flag tcp (ack + psh) && ltb 20 (length tcp.payload)) _ _
          (λ _. on_request-Sound draw free was same own)
          (λ _. on_syn_again-Sound info tcp free (rw (was, same) stays))
    on_handshake-Sound http_rep_sent draw free was same own =
        go_on-Sound cap l a data' l (Moves-same l a l.socket)
    on_handshake-Sound established draw free was same own =
        go_on-Sound cap l a data' l (Moves-same l a l.socket)

  on_stranger-Sound :
      (draw : Draw) (srcip : Bytes) (tcp : TcpLayer)
      → peer l a ≡ absent
      → l.conns a ≡ none
      → Continues cap l a data' (on_stranger draw l a srcip tcp)
  unfolding on_stranger
  on_stranger-Sound draw srcip tcp was free =
      let layer = new_layer srcip l.laddr.port a tcp in
      if-Sound cap l a data' (chk_flag tcp syn && not (chk_flag tcp (ack + psh + fin))) _ _
        (λ _. bind-Sound cap l a data' (get_mss_from_tcp_layer tcp.options) _ λ mss.
          let start = record layer { tcp = record (layer.tcp) { seqn = draw.seqn } } in
          send_syn_ack-Sound cap l a data' l (fresh_info start mss) _ λ e sent s.
            or_fail-Sound cap l a data' e _ _ (Moves-same l a s) (
              Moves-put_new l a s (record (fresh_info start mss) { layer = sent }) free
                (rw was called)))
        (λ _.
          bind-Sound cap l a data' (send_fin_with_layer layer l.socket) _
            λ r. go_on-Sound cap l a data' _ (Moves-same l a r.2))

  on_packet-Sound :
      (conn new : Option ConnInfo) (draw : Draw) (tcp : TcpLayer)
      → l.conns a ≡ conn
      → l.newcons a ≡ new
      → IsProper (status_of new conn)
      → data' ≡ carried conn tcp.payload
      → Continues cap l a data' (on_packet conn new cap draw l a tcp)
  unfolding on_packet
  on_packet-Sound (some info) (some i) draw tcp here there proper own = absurd proper
  on_packet-Sound (some info) none draw tcp here there proper own =
      if-Sound cap l a data' (length tcp.payload == 0) _ _
        (λ empty.
          if-Sound cap l a data' (chk_flag tcp (psh + ack)) _ _
            (λ _.
              ok-Sound cap l a data' (deliver l [] a)
                (Moves-same l a l.socket, (refl, nothing empty, omega arith, inl refl)))
            (λ _. go_on-Sound cap l a data' l (Moves-same l a l.socket)))
        (λ _. on_data-Sound info tcp there (rw (here, there)) own)
    where
      nothing : (length tcp.payload == 0) ≡ true → [] ≡ take cap data'
      nothing empty = rw own (sym (none_carried cap info.tls tcp.payload (ground arith)))
  on_packet-Sound none (some info) draw tcp here there proper own =
      on_handshake-Sound info tcp info.state draw here (rw (here, there)) refl own
  on_packet-Sound none none draw tcp here there proper own =
      answer_from (if is_any l.laddr.ip then draw.srcip else some l.laddr.ip)
    where
      answer_from :
          (ip : Option Bytes)
          → Continues cap l a data'
              (elim ip [ none ↦ ok (continue l) | some srcip ↦ on_stranger draw l a srcip tcp ])
      answer_from none = go_on-Sound cap l a data' l (Moves-same l a l.socket)
      answer_from (some ip) = on_stranger-Sound draw ip tcp (rw (here, there)) here

-- One round of doRead on a packet from `a`, when `a` is in at most one of the maps and in a state of
-- that map, and the round does not panic: the settings and what is known of every other address stay
-- as they were; `a` makes one of the moves of `Move`, which keep it so; and bytes that the round hands
-- on are from `a`, are the first `cap` bytes of the packet's data, or all of them, without the header of a
-- TLS record if the round finds `a` in `conns` and marked for TLS, and, if there are any, `a` is
-- established.
pub step-Sound :
    (cap : ℕ) (draw : Draw) (l : Listener) (a : Addr) (tcp : TcpLayer) (round : Round)
    → IsProper (peer l a)
    → step cap draw l a tcp ≡ ok round
    → Sound cap l a (carried (l.conns a) tcp.payload) round × IsProper (peer (listener_of round) a)
unfolding step Continues
step-Sound cap draw l a tcp round proper h =
    let data' : Bytes = carried (l.conns a) tcp.payload in
    let sound : Continues cap l a data' (step cap draw l a tcp) =
      if-Sound cap l a data' (chk_flag tcp rst || chk_flag tcp fin) _ _
        (λ _. go_on-Sound cap l a data' (drop_peer l a) (Moves-drop l a l.socket))
        (λ _.
          on_packet-Sound cap l a data' (l.conns a) (l.newcons a) draw tcp refl refl proper refl) in
    let all = OnOk-ok (Sound cap l a data') _ round h sound in
    (all, Move-IsProper _ _ all.0.1 proper)
