-- ===== src/Pcap/Listener/Rounds/Data.antt =====
-- raw_other.go, RAWListener.ReadFrom: what a round for the data of an established peer leaves as it was.
use rawcon.Common.{ℕ, ◌+◌, ◌&&◌, ◌==◌, none, ltb, length, take, drop, if◌then◌else◌}
use rawcon.Common.Go.{Holds, Holds-bind}
use rawcon.Common.Bytes.{Bytes, u32}
use rawcon.Conn.{Addr, State, syn_received, wait_http_req, http_rep_sent, established}
use rawcon.Listener.Step.{rep_bytes}
use rawcon.Pcap.{Layers, ConnInfo, write_with_layer}
use rawcon.Pcap.Listener.{
  Listener, continue, deliver, or_fail, put_conn, sent_for, set_ackn, set_seqn, hand_on, is_request,
  answer_again, on_data_in,
}
use rawcon.Pcap.Listener.Kept.{
  AllPlain, Kept, KeptBy, same-Kept, handle-Kept, put_conn-Kept, or_fail-Kept, if-Kept,
  if-KeptHolds,
}
use rawcon.Pcap.Listener.Rounds.Infos.{IsPlainInfo}

module _ (a : Addr) (l : Listener) (c : AllPlain l.conns) (n : AllPlain l.newcons) where
  kept : Kept a l l
  kept = same-Kept a l c n

  hand_on-Kept :
      (cap : ℕ) (l' : Listener) (info : ConnInfo) (payload : Bytes)
      → Kept a l l'
      → KeptBy a l (hand_on cap l' a info payload)
  unfolding hand_on
  hand_on-Kept size l' info payload k =
      if-Kept a l info.tls
        (if ltb (length payload) 5 then continue l' else deliver l' (take size (drop 5 payload)) a)
        (deliver l' (take size payload) a)
        (if-Kept a l (ltb (length payload) 5) (continue l')
          (deliver l' (take size (drop 5 payload)) a) k k)
        k

  answer_again-Kept :
      (info : ConnInfo) (cl : Layers)
      → IsPlainInfo info
      → Holds (KeptBy a l) (answer_again l a info cl)
  unfolding answer_again
  answer_again-Kept info cl plain =
      let moved : ConnInfo =
        set_seqn (set_ackn info (u32 (cl.tcp.seqn + length cl.payload)))
          (u32 (info.layer.tcp.seqn + length (rep_bytes info.rep))) in
      let r = sent_for moved l (write_with_layer (rep_bytes info.rep) moved.layer l.handle) in
      let put : Kept a l (put_conn r.2 a r.1) =
        put_conn-Kept a l r.2 r.1 plain (handle-Kept a l l r.2.handle kept) in
      Holds-bind (KeptBy a l) (is_request l.r cl.payload) _ λ again _.
        if-Kept a l again (or_fail r.0 (put_conn r.2 a r.1) (continue (put_conn r.2 a r.1)))
          (continue (put_conn l a info))
          (or_fail-Kept a l r.0 (put_conn r.2 a r.1) (continue (put_conn r.2 a r.1)) put put)
          (put_conn-Kept a l l info plain kept)

  pub on_data_in-Kept :
      (s : State) (cap : ℕ) (info : ConnInfo) (cl : Layers)
      → IsPlainInfo info
      → Holds (KeptBy a l) (on_data_in s cap l a info cl)
  unfolding on_data_in
  on_data_in-Kept http_rep_sent size info cl plain =
      let up : ConnInfo =
        record (set_seqn info (u32 (info.layer.tcp.seqn + length (rep_bytes info.rep)))) {
          rep = none;
          state = established;
        } in
      if-KeptHolds a l (cl.tcp.psh && cl.tcp.ack) _ _
        (if-KeptHolds a l (cl.tcp.seqn == info.hseqn && ltb 20 (length cl.payload)) _ _
          (answer_again-Kept info cl plain)
          (hand_on-Kept size (put_conn l a up) up cl.payload (put_conn-Kept a l l up plain kept)))
        (put_conn-Kept a l l info plain kept)
  on_data_in-Kept established size info cl plain =
      hand_on-Kept size (put_conn l a info) info cl.payload (put_conn-Kept a l l info plain kept)
  on_data_in-Kept syn_received size info cl plain = put_conn-Kept a l l info plain kept
  on_data_in-Kept wait_http_req size info cl plain = put_conn-Kept a l l info plain kept
