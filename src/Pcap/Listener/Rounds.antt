-- ===== src/Pcap/Listener/Rounds.antt =====
-- raw_other.go, RAWListener.ReadFrom: what each branch of a round leaves as it was.
pub mod Infos
mod Data
use rawcon.Common.{
  ℕ, ◌+◌, ◌≡◌, refl, ◌∙◌, arith, Bool, true, false, not, ◌&&◌, ◌||◌, ◌==◌, Option, none, some, [],
  ltb, length, take, if◌then◌else◌,
}
use rawcon.Common.Go.{ok, Holds, Holds-bind, Holds-ok}
use rawcon.Common.Bytes.{Bytes, u32}
use rawcon.Tcp.Decode.{get_mss_from_tcp_layer}
use rawcon.Conn.{Addr, State, syn_received, wait_http_req, http_rep_sent, established}
use rawcon.Listener.{Draw}
use rawcon.Listener.Step.{client_hello, is_post}
use rawcon.Pcap.{Layers, ConnInfo, send_fin_with_layer, send_syn_ack_with_layer, write_with_layer}
use rawcon.Pcap.Listener.{
  delete, Listener, Round, continue, deliver, listener_of, or_fail, put_new, promote, sent_for,
  set_ackn, set_seqn, close_conn, close_conn_by_addr, advance, on_data, prepared, prepare_post,
  reply, on_request, on_syn_again, on_handshake, answer_to, on_stranger, on_packet, sender, step,
}
use rawcon.Pcap.Listener.Kept.{
  is_plain, AllPlain, Kept, KeptBy, same-Kept, handle-Kept, put_new-Kept, drop_conn-Kept,
  drop_new-Kept, promote-Kept, or_fail-Kept, if-Kept, if-KeptHolds,
}
use rawcon.Pcap.Listener.Rounds.Infos.{IsPlainInfo, advance-tls, prepare_post-tls, prepared-tls}
use rawcon.Pcap.Listener.Rounds.Data.{on_data_in-Kept}

module _ (a : Addr) (l : Listener) (c : AllPlain l.conns) (n : AllPlain l.newcons) where
  kept : Kept a l l
  kept = same-Kept a l c n

  close_conn-Kept :
      (info : ConnInfo) (l' : Listener) → Kept a l l' → KeptBy a l (close_conn info l')
  unfolding close_conn
  close_conn-Kept info l' k =
      let r = sent_for info l' (send_fin_with_layer info.layer l'.handle) in
      or_fail-Kept a l r.0 r.2 (continue r.2) (handle-Kept a l l' _ k) (handle-Kept a l l' _ k)

  close-Kept : (new conn : Option ConnInfo) → KeptBy a l (close_conn_by_addr new conn l a)
  unfolding close_conn_by_addr
  close-Kept (some info) conn =
      close_conn-Kept info (record l { newcons = delete a l.newcons }) (drop_new-Kept a l l kept)
  close-Kept none (some info) =
      close_conn-Kept info (record l { conns = delete a l.conns }) (drop_conn-Kept a l l kept)
  close-Kept none none = kept

  reply-Kept :
      (rep : Option Bytes) (cap : ℕ) (info : ConnInfo) (cl : Layers) (m : ℕ)
      → IsPlainInfo info
      → KeptBy a l (reply rep cap l a info cl m)
  unfolding reply
  reply-Kept (some rep) size info cl m plain =
      let r = sent_for info l (write_with_layer rep info.layer l.handle) in
      let up : ConnInfo = record (r.1) { state = http_rep_sent } in
      or_fail-Kept a l r.0 (put_new r.2 a r.1) (continue (promote r.2 a up))
        (put_new-Kept a l r.2 r.1 plain (handle-Kept a l l r.2.handle kept))
        (promote-Kept a l r.2 up plain (handle-Kept a l l r.2.handle kept))
  reply-Kept none size info cl m plain =
      let up : ConnInfo = record (set_ackn info (u32 (cl.tcp.seqn + m))) { state = established } in
      if-Kept a l l.r.mixed (deliver (promote l a up) (take size cl.payload) a)
        (continue (put_new l a info)) (promote-Kept a l l up plain kept)
        (put_new-Kept a l l info plain kept)

  on_request-Kept :
      (cap : ℕ) (draw : Draw) (info : ConnInfo) (cl : Layers)
      → IsPlainInfo info
      → Holds (KeptBy a l) (on_request cap draw l a info cl)
  unfolding on_request
  on_request-Kept size draw info cl plain =
      Holds-bind (KeptBy a l) (client_hello l.r cl.payload) _ λ hello _.
        Holds-bind (KeptBy a l) (prepared draw info cl hello) _ λ p e.
          Holds-bind (KeptBy a l) (is_post cl.payload p.1) _ λ post _.
            let info2 : ConnInfo = prepare_post draw p.0 cl p.1 post in
            reply-Kept info2.rep size info2 cl p.1 (
              prepare_post-tls draw p.0 cl p.1 post
              ∙ Holds-ok (λ q. IsPlainInfo q.0) (prepared draw info cl hello) p e
                  (prepared-tls draw info cl hello plain))

  on_syn_again-Kept :
      (info : ConnInfo) (cl : Layers) → IsPlainInfo info → KeptBy a l (on_syn_again l a info cl)
  unfolding on_syn_again
  on_syn_again-Kept info cl plain =
      let r = sent_for info l (send_syn_ack_with_layer info.layer l.handle) in
      let put : Kept a l (put_new r.2 a r.1) =
        put_new-Kept a l r.2 r.1 plain (handle-Kept a l l r.2.handle kept) in
      if-Kept a l (cl.tcp.syn && not cl.tcp.ack && not cl.tcp.psh)
        (or_fail r.0 (put_new r.2 a r.1) (continue (put_new r.2 a r.1))) (continue l)
        (or_fail-Kept a l r.0 (put_new r.2 a r.1) (continue (put_new r.2 a r.1)) put put) kept

  on_handshake-Kept :
      (s : State) (cap : ℕ) (draw : Draw) (info : ConnInfo) (cl : Layers)
      → IsPlainInfo info
      → Holds (KeptBy a l) (on_handshake s cap draw l a info cl)
  unfolding on_handshake
  on_handshake-Kept syn_received size draw info cl plain =
      if-KeptHolds a l (cl.tcp.ack && not cl.tcp.psh && not cl.tcp.fin && not cl.tcp.syn) _ _
        (by_http l.r.no_http) (on_syn_again-Kept info cl plain)
    where
      by_http :
          (b : Bool)
          → Kept a l (
              if b
              then promote l a
                  (record (set_seqn info (u32 (info.layer.tcp.seqn + 1))) { state = established })
              else put_new l a (record (set_seqn info (u32 (info.layer.tcp.seqn + 1))) {
                state = wait_http_req;
              }))
      by_http true = promote-Kept a l l _ plain kept
      by_http false = put_new-Kept a l l _ plain kept
  on_handshake-Kept wait_http_req size draw info cl plain =
      if-KeptHolds a l (cl.tcp.psh && cl.tcp.ack && ltb 20 (length cl.payload)) _ _
        (on_request-Kept size draw info cl plain) (on_syn_again-Kept info cl plain)
  on_handshake-Kept http_rep_sent size draw info cl plain = kept
  on_handshake-Kept established size draw info cl plain = kept

  on_stranger-Kept : (id seqn : ℕ) (cl : Layers) → Holds (KeptBy a l) (on_stranger id seqn l a cl)
  unfolding on_stranger
  on_stranger-Kept id seqn cl =
      if-KeptHolds a l (cl.tcp.syn && not cl.tcp.ack && not cl.tcp.psh && not cl.tcp.fin) _ _
        (Holds-bind (KeptBy a l) (get_mss_from_tcp_layer cl.tcp.options) _ λ mss _. called mss)
        (handle-Kept a l l (send_fin_with_layer (answer_to id cl) l.handle).2 kept)
    where
      called :
          (mss : ℕ)
          → let layer = answer_to id cl in
            let info : ConnInfo = record {
              state = syn_received;
              layer = record layer { tcp = record (layer.tcp) { seqn = seqn } };
              rep = none;
              hseqn = 0;
              mss = mss;
              tls = false;
            } in
            let r = sent_for info l (send_syn_ack_with_layer info.layer l.handle) in
            KeptBy a l (or_fail r.0 r.2 (continue (put_new r.2 a r.1)))
      called mss =
          let layer = answer_to id cl in
          let info : ConnInfo = record {
            state = syn_received;
            layer = record layer { tcp = record (layer.tcp) { seqn = seqn } };
            rep = none;
            hseqn = 0;
            mss = mss;
            tls = false;
          } in
          let r = sent_for info l (send_syn_ack_with_layer info.layer l.handle) in
          or_fail-Kept a l r.0 r.2 (continue (put_new r.2 a r.1))
            (handle-Kept a l l r.2.handle kept)
            (put_new-Kept a l r.2 r.1 refl (handle-Kept a l l r.2.handle kept))

  on_packet-Kept :
      (conn new : Option ConnInfo) (cap id : ℕ) (draw : Draw) (cl : Layers)
      → is_plain conn ≡ true
      → is_plain new ≡ true
      → Holds (KeptBy a l) (on_packet conn new cap id draw l a cl)
  unfolding on_packet on_data
  on_packet-Kept (some info) new size id draw cl pc pn =
      let plain : info.tls ≡ false = ground arith in
      if-KeptHolds a l (length cl.payload == 0)
        (ok (if cl.tcp.ack && cl.tcp.psh then deliver l [] a else continue l)) _
        (if-Kept a l (cl.tcp.ack && cl.tcp.psh) (deliver l [] a) (continue l) kept kept)
        (on_data_in-Kept a l c n info.state size (advance info cl) cl (advance-tls info cl ∙ plain))
  on_packet-Kept none (some info) size id draw cl pc pn =
      let plain : info.tls ≡ false = ground arith in
      on_handshake-Kept info.state size draw info cl plain
  on_packet-Kept none none size id draw cl pc pn = on_stranger-Kept id draw.seqn cl

-- Where no peer of the listener for other systems is marked for TLS, as in the beginning, a round that
-- does not panic marks none, whatever the packet; and it leaves what is known of every peer but the
-- packet's sender as it was.
pub step-Kept :
    (cap id : ℕ) (draw : Draw) (l : Listener) (cl : Layers)
    → AllPlain l.conns
    → AllPlain l.newcons
    → Holds (λ (r : Round). Kept (sender cl) l (listener_of r)) (step cap id draw l cl)
unfolding step
step-Kept size id draw l cl c n =
    let a : Addr = sender cl in
    if-KeptHolds a l (cl.tcp.rst || cl.tcp.fin) _ _ (close-Kept a l c n (l.newcons a) (l.conns a))
      (on_packet-Kept a l c n (l.conns a) (l.newcons a) size id draw cl (c a) (n a))
