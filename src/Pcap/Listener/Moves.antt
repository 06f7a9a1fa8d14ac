-- ===== src/Pcap/Listener/Moves.antt =====
-- raw_other.go, RAWListener.ReadFrom: the move of a peer in each branch of a round.
use rawcon.Common.{
  ℕ, ◌+◌, ◌%◌, ◌≤◌, ◌≡◌, refl, arith, Bool, not, ◌&&◌, Option, none, some, ltb, length, take, drop,
  replicate, length-take, if◌then◌else◌, inl, inr, Option-cases, Bool-cases,
}
use rawcon.Common.Go.{Holds, Holds-bind}
use rawcon.Common.Bytes.{Bytes, slice_to, u32}
use rawcon.Tls.Records.Generate.{gen_tls_server_hello}
use rawcon.Conn.{Addr, wait_http_req, http_rep_sent, established}
use rawcon.Listener.{Draw}
use rawcon.Listener.Peer.{pending, joined, IsProper, Move, stays, answered, unmasked}
use rawcon.Listener.Step.{from_tls, rep_bytes}
use rawcon.Pcap.{
  Layers, ConnInfo, Handle, send_fin_with_layer, send_syn_ack_with_layer, write_with_layer,
}
use rawcon.Pcap.Listener.{
  delete, Listener, continue, deliver, or_fail, put_conn, put_new, promote, sent_for, set_ackn,
  set_seqn, close_conn, close_conn_by_addr, advance, hand_on, is_request, answer_again,
  prepare_hello, prepared, prepare_post, reply, on_syn_again,
}
use rawcon.Pcap.Listener.Peer.{
  status_of, peer, Moved, Sound, same-Moved, drop_new-Moved, drop_conn-Moved, put_conn-Moved,
  put_new-Moved, peer-promote, promote-Moved, go_on-Sound, or_fail-Sound, if-Sound,
}

pub length-take_le : (n : ℕ) (b : Bytes) → length (take n b) ≤ n
length-take_le n b = omega (arith, length-take n b)

pub advance-state : (info : ConnInfo) (cl : Layers) → (advance info cl).state ≡ info.state
unfolding advance
advance-state info cl =
    elim (Bool-cases (ltb info.layer.tcp.ackn (cl.tcp.seqn + length cl.payload))) [
      | inl h ↦ rw h
      | inr h ↦ rw h
    ]

-- The state of the peer while its answer is prepared.
abbrev pub SameState : ConnInfo → ConnInfo × ℕ → Type 0
SameState info r = r.0.state ≡ info.state

pub prepare_post-state :
    (draw : Draw) (info : ConnInfo) (cl : Layers) (n : ℕ) (post : Bool)
    → (prepare_post draw info cl n post).state ≡ info.state
unfolding prepare_post
prepare_post-state draw info cl n post = elim (Option-cases info.rep) [
  | inr (rep, e) ↦ rw e
  | inl e ↦ elim (Bool-cases post) [ inl h ↦ rw (e, h) | inr h ↦ rw (e, h) ]
]

prepare_hello-state :
    (draw : Draw) (info : ConnInfo) (cl : Layers) (id : Bytes)
    → Holds (SameState info) (prepare_hello draw info cl id)
unfolding prepare_hello
prepare_hello-state draw info cl id = elim (Option-cases info.rep) [
  | inr (rep, e) ↦ rw e refl
  | inl e ↦ rw e (
      Holds-bind (SameState info)
        (from_tls (
          gen_tls_server_hello draw.now draw.random draw.fresh_id (replicate 2048 0)
            (draw.filler % 128) id))
        _
        λ r _. Holds-bind (SameState info) (slice_to r.0 (draw.filler % 128 + r.1)) _ (λ _ _. refl))
]

pub prepared-state :
    (draw : Draw) (info : ConnInfo) (cl : Layers) (hello : Option Bytes)
    → Holds (SameState info) (prepared draw info cl hello)
unfolding prepared
prepared-state draw info cl none = refl
prepared-state draw info cl (some id) = prepare_hello-state draw info cl id

module _ (cap : ℕ) (l : Listener) (a : Addr) where
  close_conn-Sound :
      (info : ConnInfo) (l' : Listener)
      → ((h : Handle) → Moved l a (record l' { handle = h }))
      → Sound cap l a (close_conn info l')
  unfolding close_conn
  close_conn-Sound info l' moved =
      let r = sent_for info l' (send_fin_with_layer info.layer l'.handle) in
      or_fail-Sound cap l a r.0 r.2 (continue r.2) (moved (r.2.handle))
        (go_on-Sound cap l a r.2 (moved (r.2.handle)))

  pub close-Sound :
      (new conn : Option ConnInfo)
      → l.newcons a ≡ new
      → l.conns a ≡ conn
      → IsProper (status_of new conn)
      → Sound cap l a (close_conn_by_addr new conn l a)
  unfolding close_conn_by_addr
  close-Sound (some info) (some i) there here proper = absurd proper
  close-Sound (some info) none there here proper =
      close_conn-Sound info (record l { newcons = delete a l.newcons })
        (λ h. drop_new-Moved l a h here)
  close-Sound none (some info) there here proper =
      close_conn-Sound info (record l { conns = delete a l.conns })
        (λ h. drop_conn-Moved l a h there)
  close-Sound none none there here proper = go_on-Sound cap l a l (same-Moved l a l.handle)

  pub hand_on-Sound :
      (l' : Listener) (info : ConnInfo) (payload : Bytes)
      → Moved l a l'
      → peer l' a ≡ joined established
      → Sound cap l a (hand_on cap l' a info payload)
  unfolding hand_on
  hand_on-Sound l' info payload moved up =
      let out : (n : ℕ) → Sound cap l a (deliver l' (take cap (drop n payload)) a) =
        λ n. (moved, (refl, length-take_le cap (drop n payload), inr up)) in
      if-Sound cap l a info.tls
        (if ltb (length payload) 5 then continue l' else deliver l' (take cap (drop 5 payload)) a)
        (deliver l' (take cap payload) a)
        (λ _.
          if-Sound cap l a (ltb (length payload) 5) (continue l')
            (deliver l' (take cap (drop 5 payload)) a) (λ _. go_on-Sound cap l a l' moved)
            (λ _. out 5))
        (λ _. out 0)

  module _ (info : ConnInfo) (cl : Layers) where
    pub answer_again-Sound :
        l.newcons a ≡ none
        → Move l.r (peer l a) (joined info.state)
        → Holds (Sound cap l a) (answer_again l a info cl)
    unfolding answer_again
    answer_again-Sound free move =
        let moved : ConnInfo =
          set_seqn (set_ackn info (u32 (cl.tcp.seqn + length cl.payload)))
            (u32 (info.layer.tcp.seqn + length (rep_bytes info.rep))) in
        let r = sent_for moved l (write_with_layer (rep_bytes info.rep) moved.layer l.handle) in
        let put : Moved l a (put_conn r.2 a r.1) =
          put_conn-Moved l a (r.2.handle) (r.1) free move in
        Holds-bind (Sound cap l a) (is_request l.r cl.payload) _ λ again _.
          if-Sound cap l a again (or_fail r.0 (put_conn r.2 a r.1) (continue (put_conn r.2 a r.1)))
            (continue (put_conn l a info))
            (λ _.
              or_fail-Sound cap l a r.0 (put_conn r.2 a r.1) (continue (put_conn r.2 a r.1)) put
                (go_on-Sound cap l a (put_conn r.2 a r.1) put))
            (λ _.
              go_on-Sound cap l a (put_conn l a info) (put_conn-Moved l a l.handle info free move))

    pub on_syn_again-Sound :
        l.conns a ≡ none
        → Move l.r (peer l a) (pending info.state)
        → Sound cap l a (on_syn_again l a info cl)
    unfolding on_syn_again
    on_syn_again-Sound free move =
        let r = sent_for info l (send_syn_ack_with_layer info.layer l.handle) in
        let put : Moved l a (put_new r.2 a r.1) = put_new-Moved l a (r.2.handle) (r.1) free move in
        if-Sound cap l a (cl.tcp.syn && not cl.tcp.ack && not cl.tcp.psh)
          (or_fail r.0 (put_new r.2 a r.1) (continue (put_new r.2 a r.1))) (continue l)
          (λ _.
            or_fail-Sound cap l a r.0 (put_new r.2 a r.1) (continue (put_new r.2 a r.1)) put
              (go_on-Sound cap l a (put_new r.2 a r.1) put))
          (λ _. go_on-Sound cap l a l (same-Moved l a l.handle))

    pub reply-Sound :
        (rep : Option Bytes) (n : ℕ)
        → l.conns a ≡ none
        → peer l a ≡ pending wait_http_req
        → info.state ≡ wait_http_req
        → Sound cap l a (reply rep cap l a info cl n)
    unfolding reply
    reply-Sound (some rep) n free was state =
        let same : Move l.r (peer l a) (pending info.state) = rw (was, state) stays in
        let r = sent_for info l (write_with_layer rep info.layer l.handle) in
        let up : ConnInfo = record (r.1) { state = http_rep_sent } in
        or_fail-Sound cap l a r.0 (put_new r.2 a r.1) (continue (promote r.2 a up))
          (put_new-Moved l a (r.2.handle) (r.1) free same)
          (go_on-Sound cap l a (promote r.2 a up)
            (promote-Moved l a (r.2.handle) up (rw was answered)))
    reply-Sound none n free was state =
        let same : Move l.r (peer l a) (pending info.state) = rw (was, state) stays in
        let up : ConnInfo = record (set_ackn info (u32 (cl.tcp.seqn + n))) {
          state = established;
        } in
        if-Sound cap l a l.r.mixed (deliver (promote l a up) (take cap cl.payload) a)
          (continue (put_new l a info))
          (λ mixed. (
            promote-Moved l a l.handle up (rw was (unmasked mixed)),
            (refl, length-take_le cap cl.payload, inr (peer-promote l a l.handle up)),
          ))
          (λ _. go_on-Sound cap l a (put_new l a info) (put_new-Moved l a l.handle info free same))
