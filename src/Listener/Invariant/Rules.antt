-- ===== src/Listener/Invariant/Rules.antt =====
-- raw_linux.go, RAWListener.doRead: what a round may do, and the rules that put its steps together.
use rawcon.Common.{
  ℕ, ◌≤◌, ◌≡◌, refl, sym, ap, ◌⊎◌, inl, inr, arith, Bool, true, false, Option, none, some, [], ltb,
  length, take, drop, length-take, if◌then◌else◌, Bool-cases,
}
use rawcon.Common.Go.{Go, ok, err, panic, stuck, ◌>>=◌, OnOk, OnOk-bind}
use rawcon.Common.Bytes.{Bytes}
use rawcon.Tcp.{Error}
use rawcon.Conn.{Addr, PktLayers, ConnInfo, ConnError, Socket, established}
use rawcon.Conn.Send.{Sent, write_with_layer, send_syn_ack_with_layer}
use rawcon.Listener.{Listener, Round, continue, deliver, failed, listener_of}
use rawcon.Listener.Step.{rep_bytes, write_rep, send_syn_ack, or_fail, hand_on}
use rawcon.Listener.Delivery.{data_of}
use rawcon.Listener.Peer.{joined, peer, Moves}

-- Bytes are handed on only from the sender, as many of `data` as `cap` allows, and, if there are any, only
-- once its connection is established.
abbrev pub Delivers : ℕ → Addr → Bytes → Round → Type 0
Delivers cap a data' (continue l) = Unit
Delivers cap a data' (failed l e) = Unit
Delivers cap a data' (deliver l b from) =
    (from ≡ a)
    × (b ≡ take cap data')
    × (length b ≤ cap)
    × ((b ≡ []) ⊎ (peer l a ≡ joined established))

abbrev pub Sound : ℕ → Listener → Addr → Bytes → Round → Type 0
Sound cap l a data' round = Moves l a (listener_of round) × Delivers cap a data' round

unfoldable pub Continues : ℕ → Listener → Addr → Bytes → Go Error Round → Type 0
Continues cap l a data' m = OnOk (Sound cap l a data') m

pub length-take_le : (n : ℕ) (b : Bytes) → length (take n b) ≤ n
length-take_le n b = omega (arith, length-take n b)

module _ (cap : ℕ) (l : Listener) (a : Addr) (data' : Bytes) where
  pub then-Sound :
      {A : Type 0} (P : A → Type 0) (m : Go Error A) (f : A → Go Error Round)
      → OnOk P m
      → ((x : A) → P x → Continues cap l a data' (f x))
      → Continues cap l a data' (m >>= f)
  unfolding Continues
  then-Sound P (ok x) f h k = k x h
  then-Sound P (err e) f h k = tt
  then-Sound P panic f h k = tt
  then-Sound P stuck f h k = tt

  pub bind-Sound :
      {A : Type 0} (m : Go Error A) (f : A → Go Error Round)
      → ((x : A) → Continues cap l a data' (f x))
      → Continues cap l a data' (m >>= f)
  unfolding Continues
  bind-Sound m f k = OnOk-bind (Sound cap l a data') m f k

  pub if-Sound :
      (b : Bool) (x y : Go Error Round)
      → (b ≡ true → Continues cap l a data' x)
      → (b ≡ false → Continues cap l a data' y)
      → Continues cap l a data' (if b then x else y)
  if-Sound true x y h k = h refl
  if-Sound false x y h k = k refl

  pub ok-Sound : (round : Round) → Sound cap l a data' round → Continues cap l a data' (ok round)
  unfolding Continues
  ok-Sound round h = h

  pub go_on-Sound : (l' : Listener) → Moves l a l' → Continues cap l a data' (ok (continue l'))
  unfolding Continues
  go_on-Sound l' h = (h, tt)

  -- A write of which only the error, the layer and the socket come back.
  sent-Sound :
      (info : ConnInfo) (l' : Listener) (m : Sent)
      (f : Option ConnError × ConnInfo × Listener → Go Error Round)
      → ((e : Option ConnError) (layer : PktLayers) (s : Socket)
          → Continues cap l a data'
              (f (e, record info { layer = layer }, record l' { socket = s })))
      → Continues cap l a data'
          ((m >>= λ r. ok (r.0, record info { layer = r.1 }, record l' { socket = r.2 })) >>= f)
  unfolding Continues
  sent-Sound info l' (ok r) f k = k r.0 r.1 r.2
  sent-Sound info l' (err e) f k = tt
  sent-Sound info l' panic f k = tt
  sent-Sound info l' stuck f k = tt

  pub write_rep-Sound :
      (l' : Listener) (info : ConnInfo)
      (f : Option ConnError × ConnInfo × Listener → Go Error Round)
      → ((e : Option ConnError) (layer : PktLayers) (s : Socket)
          → Continues cap l a data'
              (f (e, record info { layer = layer }, record l' { socket = s })))
      → Continues cap l a data' (write_rep l' info >>= f)
  unfolding write_rep
  write_rep-Sound l' info f k =
      sent-Sound info l' (write_with_layer (rep_bytes info.rep) info.layer l'.socket) f k

  pub send_syn_ack-Sound :
      (l' : Listener) (info : ConnInfo)
      (f : Option ConnError × ConnInfo × Listener → Go Error Round)
      → ((e : Option ConnError) (layer : PktLayers) (s : Socket)
          → Continues cap l a data'
              (f (e, record info { layer = layer }, record l' { socket = s })))
      → Continues cap l a data' (send_syn_ack l' info >>= f)
  unfolding send_syn_ack
  send_syn_ack-Sound l' info f k =
      sent-Sound info l' (send_syn_ack_with_layer info.layer l'.socket) f k

  pub or_fail-Sound :
      (e : Option ConnError) (l1 l2 : Listener)
      → Moves l a l1
      → Moves l a l2
      → Continues cap l a data' (ok (or_fail e l1 (continue l2)))
  unfolding Continues
  or_fail-Sound none l1 l2 h k = (k, tt)
  or_fail-Sound (some e) l1 l2 h k = (h, tt)

  pub hand_on-Sound :
      (l' : Listener) (info : ConnInfo) (payload : Bytes)
      → Moves l a l'
      → peer l' a ≡ joined established
      → data' ≡ data_of info.tls payload
      → Continues cap l a data' (ok (hand_on cap l' a info payload))
  unfolding hand_on
  hand_on-Sound l' info payload moves up own =
      let out : (rest : Bytes)
          → data' ≡ rest
          → Continues cap l a data' (ok (deliver l' (take cap rest) a)) =
        λ rest same.
          ok-Sound _ (moves, (refl, ap (take cap) (sym same), length-take_le cap rest, inr up)) in
      elim (Bool-cases info.tls) [
        | inl e ↦ elim (Bool-cases (ltb (length payload) 5)) [
          | inl few ↦ rw (e, few) (go_on-Sound l' moves)
          | inr room ↦ rw (e, room) (out (drop 5 payload) (rw e at own))
        ]
        | inr e ↦ rw e (out payload (rw e at own))
      ]
