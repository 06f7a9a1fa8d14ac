-- ===== src/Darwin/Listener/Refines.antt =====
-- raw_darwin.go, RAWListener.ReadFrom: its rounds, as moves of one peer at a time.
use rawcon.Common.{
  ℕ, ◌+◌, ◌%◌, ◌≡◌, refl, ◌∙◌, ◌&&◌, ◌||◌, Option, none, some, List, ltb, length, replicate, inl,
  inr, Option-cases,
}
use rawcon.Common.Go.{ok, Holds, Holds-bind, Holds-ok}
use rawcon.Common.Bytes.{Bytes, slice_to}
use rawcon.Tls.Records.Generate.{gen_tls_server_hello}
use rawcon.Conn.{Raw, Addr, State, wait_http_req, syn_received, http_rep_sent, established}
use rawcon.Listener.{Draw}
use rawcon.Listener.Peer.{pending, stays, IsProper}
use rawcon.Listener.Step.{from_tls, client_hello, is_post}
use rawcon.Pcap.{Handle, Layers, ConnInfo}
use rawcon.Pcap.Listener
use rawcon.Pcap.Listener.{Listener, Round, prepare_post, sender}
use rawcon.Pcap.Listener.Peer.{status_of, peer, Sound, same-Moved, go_on-Sound, if-SoundHolds}
use rawcon.Pcap.Listener.Moves.{
  SameState, prepare_post-state, close-Sound, on_syn_again-Sound, reply-Sound,
}
use rawcon.Pcap.Listener.Refines.{handshake-Sound, data-Sound, stranger-Sound}
use rawcon.Pcap.Listener.Spec.{Shown, Spec, Trace, Keeps, Trace-Spec}
use rawcon.Darwin.Listener.{prepare_hello, prepared, on_request, on_handshake, on_packet, step}

prepare_hello-state :
    (draw : Draw) (info : ConnInfo) (cl : Layers) (id : Bytes)
    → Holds (SameState info) (prepare_hello draw info cl id)
unfolding prepare_hello
prepare_hello-state draw info cl id = elim (Option-cases info.rep) [
  | inr (rep, e) ↦ rw e refl
  | inl e ↦ rw e (
      Holds-bind (SameState info)
        (from_tls (
          gen_tls_server_hello draw.now draw.random draw.fresh_id (replicate 2048 0)
            (draw.filler % 128) id))
        _
        λ r _. Holds-bind (SameState info) (slice_to r.0 (draw.filler % 128 + r.1)) _ (λ _ _. refl))
]

prepared-state :
    (draw : Draw) (info : ConnInfo) (cl : Layers) (hello : Option Bytes)
    → Holds (SameState info) (prepared draw info cl hello)
unfolding prepared
prepared-state draw info cl none = refl
prepared-state draw info cl (some id) = prepare_hello-state draw info cl id

module _ (cap : ℕ) (l : Listener) (a : Addr) where
  on_request-Sound :
      (draw : Draw) (info : ConnInfo) (cl : Layers)
      → l.conns a ≡ none
      → peer l a ≡ pending wait_http_req
      → info.state ≡ wait_http_req
      → Holds (Sound cap l a) (on_request cap draw l a info cl)
  unfolding on_request
  on_request-Sound draw info cl free was state =
      Holds-bind (Sound cap l a) (client_hello l.r cl.payload) _ λ hello _.
        Holds-bind (Sound cap l a) (prepared draw info cl hello) _ λ p e.
          Holds-bind (Sound cap l a) (is_post cl.payload p.1) _ λ post _.
            let info2 : ConnInfo = prepare_post draw p.0 cl p.1 post in
            reply-Sound cap l a info2 cl info2.rep p.1 free was (
              prepare_post-state draw p.0 cl p.1 post
              ∙ Holds-ok (SameState info) (prepared draw info cl hello) p e
                  (prepared-state draw info cl hello)
              ∙ state)

  on_handshake-Sound :
      (s : State) (draw : Draw) (info : ConnInfo) (cl : Layers)
      → l.conns a ≡ none
      → peer l a ≡ pending s
      → info.state ≡ s
      → Holds (Sound cap l a) (on_handshake s cap draw l a info cl)
  unfolding on_handshake Listener.on_handshake
  on_handshake-Sound syn_received draw info cl free was same =
      handshake-Sound cap l a cap draw info cl free was same
  on_handshake-Sound wait_http_req draw info cl free was same =
      if-SoundHolds cap l a (cl.tcp.psh && cl.tcp.ack && ltb 20 (length cl.payload)) _ _
        (on_request-Sound draw info cl free was same)
        (on_syn_again-Sound cap l a info cl free (rw (was, same) stays))
  on_handshake-Sound http_rep_sent draw info cl free was same =
      go_on-Sound cap l a l (same-Moved l a l.handle)
  on_handshake-Sound established draw info cl free was same =
      go_on-Sound cap l a l (same-Moved l a l.handle)

  on_packet-Sound :
      (conn new : Option ConnInfo) (id : ℕ) (draw : Draw) (cl : Layers)
      → l.conns a ≡ conn
      → l.newcons a ≡ new
      → IsProper (status_of new conn)
      → Holds (Sound cap l a) (on_packet conn new cap id draw l a cl)
  unfolding on_packet
  on_packet-Sound (some info) new id draw cl here there proper =
      data-Sound cap l a info new id draw cl here there proper
  on_packet-Sound none (some info) id draw cl here there proper =
      on_handshake-Sound info.state draw info cl here (rw (here, there)) refl
  on_packet-Sound none none id draw cl here there proper =
      stranger-Sound cap l a id draw cl here there

step-Sound :
    (cap id : ℕ) (draw : Draw) (l : Listener) (cl : Layers)
    → IsProper (peer l (sender cl))
    → Holds (λ (r : Round). Sound cap l (sender cl) r) (step cap id draw l cl)
unfolding step
step-Sound cap id draw l cl proper =
    let a : Addr = sender cl in
    if-SoundHolds cap l a (cl.tcp.rst || cl.tcp.fin) _ _
      (close-Sound cap l a (l.newcons a) (l.conns a) refl refl proper)
      (on_packet-Sound cap l a (l.conns a) (l.newcons a) id draw cl refl refl proper)

-- The rounds of ReadFrom that do not panic.
abbrev pub DarwinReadFrom : Listener → Addr → Round → Type 0
DarwinReadFrom l a out =
    (cap : ℕ) × (id : ℕ) × (draw : Draw) × (cl : Layers) × (sender cl ≡ a)
    × (step cap id draw l cl ≡ ok out)

DarwinReadFrom-Keeps : Keeps DarwinReadFrom
DarwinReadFrom-Keeps l a out proper (size, id, draw, cl, from, done) =
    let sound : Sound size l (sender cl) out =
      Holds-ok (λ (r : Round). Sound size l (sender cl) r) (step size id draw l cl) out done
        (step-Sound size id draw l cl (rw from proper)) in
    (size, rw (← from) sound)

-- Any rounds of the listener for macOS, from a new one on, none of which panics, do what the
-- specification allows: the status of every address moves only as `Move` says, one address in each round,
-- and bytes are handed on only of an address that is then established, an empty read apart.
pub DarwinReadFrom-Spec :
    (r : Raw) (handle : Handle) (shown : List Shown) (l : Listener)
    → Trace DarwinReadFrom r handle shown l
    → Spec r shown (peer l)
DarwinReadFrom-Spec r handle shown l trace =
    Trace-Spec DarwinReadFrom DarwinReadFrom-Keeps r handle shown l trace
