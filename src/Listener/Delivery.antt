-- ===== src/Listener/Delivery.antt =====
-- raw_linux.go, RAWListener.doRead: the data of an established peer is handed on.
use rawcon.Common.{
  ℕ, ◌+◌, ◌≤◌, ◌<◌, ◌≡◌, ◌≢◌, refl, arith, ◌⊎◌, inl, inr, Bool, true, false, ◌||◌, ◌==◌, ltb, some,
  none, length, take, drop, Bool-cases,
}
use rawcon.Common.Go.{ok}
use rawcon.Common.Bytes.{Bytes, u32}
use rawcon.Tcp.{TcpLayer, fin, rst, psh, ack, chk_flag}
use rawcon.Conn.{Addr, ConnInfo, established, http_rep_sent}
use rawcon.Listener.{Draw, Listener, deliver}
use rawcon.Listener.Step.{
  rep_bytes, set_seqn, put_conn, advance, hand_on, on_data, on_data_in, on_packet, step,
}

-- What a payload carries: all of it, or what follows the header of a TLS record.
abbrev pub data_of : Bool → Bytes → Bytes
data_of true payload = drop 5 payload
data_of false payload = payload

pub advance-tls : (info : ConnInfo) (tcp : TcpLayer) → (advance info tcp).tls ≡ info.tls
unfolding advance
advance-tls info tcp = elim (Bool-cases (ltb info.layer.tcp.ackn (tcp.seqn + length tcp.payload))) [
  | inl e ↦ rw e
  | inr e ↦ rw e
]

hand_on_lem :
    (cap : ℕ) (l : Listener) (a : Addr) (info : ConnInfo) (payload : Bytes) (t : Bool)
    → info.tls ≡ t
    → (t ≡ false) ⊎ (5 ≤ length payload)
    → hand_on cap l a info payload ≡ deliver l (take cap (data_of t payload)) a
unfolding hand_on
hand_on_lem cap l a info payload false e room = simp e refl
hand_on_lem cap l a info payload true e (inl plain) = cc
hand_on_lem cap l a info payload true e (inr room) =
    let long : ltb (length payload) 5 ≡ false = ground arith in simp (e, long) refl

-- Of an established peer in `conns`, a packet with data and neither RST nor FIN, which under TLS holds
-- a record's header, makes doRead return: it hands on the first `cap` bytes of the data, and keeps the
-- peer with its acknowledgement number moved on.
pub step-delivers :
    (cap : ℕ) (draw : Draw) (l : Listener) (a : Addr) (info : ConnInfo) (tcp : TcpLayer)
    → l.conns a ≡ some info
    → info.state ≡ established
    → (chk_flag tcp rst || chk_flag tcp fin) ≡ false
    → 0 < length tcp.payload
    → (info.tls ≡ false) ⊎ (5 ≤ length tcp.payload)
    → step cap draw l a tcp
      ≡ ok (deliver (put_conn l a (advance info tcp)) (take cap (data_of info.tls tcp.payload)) a)
unfolding step on_packet on_data on_data_in
step-delivers cap draw l a info tcp here up calm some_data room =
    let filled : (length tcp.payload == 0) ≡ false = ground arith in
    let handed =
      hand_on_lem cap (put_conn l a (advance info tcp)) a (advance info tcp) tcp.payload info.tls
        (advance-tls info tcp) room in
    rw calm (simp (here, filled, up) (rw handed))

advance-hseqn : (info : ConnInfo) (tcp : TcpLayer) → (advance info tcp).hseqn ≡ info.hseqn
unfolding advance
advance-hseqn info tcp =
    elim (Bool-cases (ltb info.layer.tcp.ackn (tcp.seqn + length tcp.payload))) [
      | inl e ↦ rw e
      | inr e ↦ rw e
    ]

-- A peer whose first data show that the answer to its request has come.
abbrev pub confirmed : ConnInfo → TcpLayer → ConnInfo
confirmed info tcp =
    let next = advance info tcp in
    record (set_seqn next (u32 (next.layer.tcp.seqn + length (rep_bytes next.rep)))) {
      rep = none;
      state = established;
    }

-- The first data of a peer whose request was answered, which are not the request again.
pub step-confirmed :
    (cap : ℕ) (draw : Draw) (l : Listener) (a : Addr) (info : ConnInfo) (tcp : TcpLayer)
    → l.conns a ≡ some info
    → info.state ≡ http_rep_sent
    → (chk_flag tcp rst || chk_flag tcp fin) ≡ false
    → chk_flag tcp (psh + ack) ≡ true
    → tcp.seqn ≢ info.hseqn
    → 0 < length tcp.payload
    → (info.tls ≡ false) ⊎ (5 ≤ length tcp.payload)
    → step cap draw l a tcp
      ≡ ok (deliver (put_conn l a (confirmed info tcp)) (take cap (data_of info.tls tcp.payload)) a)
unfolding step on_packet on_data on_data_in
step-confirmed cap draw l a info tcp here up calm pushed fresh some_data room =
    let filled : (length tcp.payload == 0) ≡ false = ground arith in
    let new : (tcp.seqn == (advance info tcp).hseqn) ≡ false =
      ground (arith, advance-hseqn info tcp) in
    let handed =
      hand_on_lem cap (put_conn l a (confirmed info tcp)) a (confirmed info tcp) tcp.payload
        info.tls (advance-tls info tcp) room in
    rw calm (simp (here, filled, up, pushed, new) (rw handed))
