-- ===== src/Listener/Invariant/Infos.antt =====
-- raw_linux.go, RAWListener.doRead: the steps of a round that keep a peer's state.
use rawcon.Common.{
  ℕ, ◌+◌, ◌≡◌, refl, inl, inr, Bool, Option, none, some, ltb, length, replicate, ◌%◌, Bool-cases,
  Option-cases,
}
use rawcon.Common.Go.{OnOk, OnOk-bind}
use rawcon.Common.Bytes.{Bytes, slice_to}
use rawcon.Tcp.{TcpLayer}
use rawcon.Conn.{ConnInfo}
use rawcon.Listener.{Draw}
use rawcon.Tls.Records.Generate.{gen_tls_server_hello}
use rawcon.Listener.Step.{from_tls, advance, prepared, prepare_hello, prepare_post}

pub advance-state : (info : ConnInfo) (tcp : TcpLayer) → (advance info tcp).state ≡ info.state
unfolding advance
advance-state info tcp =
    elim (Bool-cases (ltb info.layer.tcp.ackn (tcp.seqn + length tcp.payload))) [
      | inl e ↦ rw e
      | inr e ↦ rw e
    ]

abbrev pub SameState : ConnInfo → ConnInfo × ℕ → Type 0
SameState info r = r.0.state ≡ info.state

prepare_hello-state :
    (draw : Draw) (info : ConnInfo) (tcp : TcpLayer) (id : Bytes)
    → OnOk (SameState info) (prepare_hello draw info tcp id)
unfolding prepare_hello
prepare_hello-state draw info tcp id = elim (Option-cases info.rep) [
  | inr (rep, e) ↦ rw e
  | inl e ↦ rw e (
      OnOk-bind (SameState info)
        (from_tls (
          gen_tls_server_hello draw.now draw.random draw.fresh_id (replicate 2048 0)
            (draw.filler % 128) id))
        _ λ r. OnOk-bind (SameState info) (slice_to r.0 (draw.filler % 128 + r.1)) _ λ cut. refl)
]

pub prepare_post-state :
    (draw : Draw) (info : ConnInfo) (tcp : TcpLayer) (post : Bool)
    → (prepare_post draw info tcp post).state ≡ info.state
unfolding prepare_post
prepare_post-state draw info tcp post = elim (Option-cases info.rep) [
  | inr (rep, e) ↦ rw e
  | inl e ↦ elim (Bool-cases post) [ inl h ↦ rw (e, h) | inr h ↦ rw (e, h) ]
]

pub prepared-state :
    (draw : Draw) (info : ConnInfo) (tcp : TcpLayer) (hello : Option Bytes)
    → OnOk (SameState info) (prepared draw info tcp hello)
unfolding prepared
prepared-state draw info tcp none = refl
prepared-state draw info tcp (some id) = prepare_hello-state draw info tcp id
