-- ===== src/Pcap/Listener/Runs.antt =====
-- raw_other.go, RAWListener.ReadFrom: any number of rounds of a new listener, and the TLS records that
-- it hands on.
use rawcon.Common.{
  ℕ, ◌≡◌, ◌≢◌, refl, ap, ◌∙◌, arith, true, false, ◌||◌, ◌==◌, none, some, length, take,
}
use rawcon.Common.Go.{ok, Holds-ok}
use rawcon.Conn.{Raw, established}
use rawcon.Listener.{Draw}
use rawcon.Pcap.{Layers, ConnInfo, Handle}
use rawcon.Pcap.Listener.{
  Listener, Round, deliver, listener_of, put_conn, advance, hand_on, on_data_in, on_data, on_packet,
  sender, step,
}
use rawcon.Pcap.Listener.Kept.{is_plain, AllPlain, Kept}
use rawcon.Pcap.Listener.Rounds.{step-Kept}
use rawcon.Pcap.Listener.Rounds.Infos.{advance-tls}

-- Before the first packet.
abbrev pub new_listener : Raw → Handle → Listener
new_listener r handle = record { r = r; newcons = λ a. none; conns = λ a. none; handle = handle }

-- The listeners that rounds lead to.
pub data Reached (r : Raw) (handle : Handle) : Listener → Type 0 where
  start : Reached r handle (new_listener r handle)
  round :
      {l : Listener} (cap id : ℕ) (draw : Draw) (cl : Layers) (next : Round)
      → Reached r handle l
      → step cap id draw l cl ≡ ok next
      → Reached r handle (listener_of next)

Reached-AllPlain :
    {r : Raw} {handle : Handle} (l : Listener)
    → Reached r handle l
    → AllPlain l.conns × AllPlain l.newcons
Reached-AllPlain l start = ((λ b. refl), (λ b. refl))
Reached-AllPlain l' (round {l} size id draw cl next before e) =
    let (c, n) = Reached-AllPlain l before in
    let k : Kept (sender cl) l (listener_of next) =
      Holds-ok (λ (r : Round). Kept (sender cl) l (listener_of r)) (step size id draw l cl) next e
        (step-Kept size id draw l cl c n) in
    (k.conns_plain, k.newcons_plain)

hand_on-plain :
    (cap : ℕ) (l : Listener) (cl : Layers) (info : ConnInfo)
    → info.tls ≡ false
    → hand_on cap l (sender cl) info cl.payload ≡ deliver l (take cap cl.payload) (sender cl)
unfolding hand_on
hand_on-plain size l cl info plain = rw plain refl

-- Whatever packets a new listener has had, and whether or not TLS is asked for, what it hands on of an
-- established peer's packet is the payload from its first byte on: a TLS record with its header.
pub record-delivered_whole :
    (r : Raw) (handle : Handle) (cap id : ℕ) (draw : Draw) (l : Listener) (cl : Layers)
    (info : ConnInfo)
    → Reached r handle l
    → l.conns (sender cl) ≡ some info
    → info.state ≡ established
    → (cl.tcp.rst || cl.tcp.fin) ≡ false
    → length cl.payload ≢ 0
    → step cap id draw l cl
      ≡ ok (deliver (put_conn l (sender cl) (advance info cl)) (take cap cl.payload) (sender cl))
unfolding step on_packet on_data on_data_in
record-delivered_whole r handle size id draw l cl info reached here up calm filled =
    let all = (Reached-AllPlain l reached).0 (sender cl) in
    let flag : is_plain (some info) ≡ true = (rw here at all) in
    let plain : info.tls ≡ false = ground arith in
    let some_data : (length cl.payload == 0) ≡ false = ground arith in
    let by_state : step size id draw l cl
        ≡ on_data_in info.state size l (sender cl) (advance info cl) cl =
      rw (calm, here, some_data) refl in
    by_state
    ∙ ap (λ s. on_data_in s size l (sender cl) (advance info cl) cl) up
    ∙ (ap ok (
        hand_on-plain size (put_conn l (sender cl) (advance info cl)) cl (advance info cl)
          (advance-tls info cl ∙ plain)))
