-- ===== src/Link/Handshake/Connects.antt =====
-- raw_linux.go: the first loop of DialRAW and two rounds of doRead, one after the other.
use rawcon.Common.{
  ℕ, suc, ◌+◌, ◌<◌, ◌≤◌, ◌≡◌, refl, arith, true, false, ◌==◌, ltb, none, some, List, [], ◌∷◌,
  if◌then◌else◌, Bool-cases, inl, inr,
}
use rawcon.Common.Go.{ok}
use rawcon.Common.Bytes.{Bytes, IsU16, IsU32, u32}
use rawcon.Tcp.{TcpLayer, TcpOption, rst, syn, ack, chk_flag}
use rawcon.Tcp.Checksum.{to4}
use rawcon.Tcp.Decode.{decode_tcp_layer, get_mss_from_tcp_layer}
use rawcon.Tcp.Marshal.Layout.{encode_options, offset_of, padding_of}
use rawcon.Tcp.RoundTrip.{received, marshalled}
use rawcon.Conn.{Addr, PktLayers, ConnInfo, wait_http_req, established}
use rawcon.Conn.Send.{syn_options, send_syn_with_layer}
use rawcon.Conn.Send.Segment.{IsReady, refit-IsReady, with_sent}
use rawcon.Conn.Send.Handshake.{
  flagged_as, after_syn, send_with_syn_options-decoded, send_ack-decoded,
}
use rawcon.Listener.{Draw, Listener, continue, insert}
use rawcon.Listener.Step.{put_new, promote, set_seqn, fresh_info, is_any, step}
use rawcon.Client.{
  RawConn, Incoming, packet, Read, got, source_of, read_packet, read_tcp_layer, send_ack,
}
use rawcon.Client.Dial.{Clock, connected, send_syn, on_syn_ack, on_syn_read, syn_loop}
use rawcon.Client.Whole.{decode-in_buffer}
use rawcon.Listener.DoRead.Packet.{IsTaken}
use rawcon.Link.Handshake.{
  addr_eq_refl, address_of, answer_layer, answered-IsReady, synced, synced-IsReady, step-syn,
  step-ack,
}

-- The connection after its SYN.
abbrev syn_sent : RawConn → Bytes → Bytes → RawConn
syn_sent conn b first = record conn {
  layer = after_syn syn conn.layer b;
  socket = with_sent conn.socket conn.layer.dstip first;
}

send_syn-decoded :
    (conn : RawConn)
    → IsReady conn.layer
    → conn.layer.tcp.options ≡ []
    → conn.socket.faults ≡ []
    → (b first : Bytes) × (c : ℕ) × (send_syn conn ≡ ok (none, syn_sent conn b first))
      × (decode_tcp_layer first ≡ ok (received (flagged_as syn syn_options conn.layer.tcp) c))
unfolding send_syn send_syn_with_layer
send_syn-decoded conn ready bare calm =
    let (b, first, c, sent, read) =
      send_with_syn_options-decoded syn conn.layer conn.socket refl (omega arith) bare ready calm in
    (b, first, c, rw sent refl, read)

-- The connection after the acknowledgement that ends the handshake.
abbrev ack_sent : RawConn → Bytes → ℕ → Bytes → Bytes → Bytes → RawConn
ack_sent conn b ackn b2 first last = record conn {
  layer =
      let now = synced conn.layer b (conn.layer.tcp.seqn + 1) (ackn + 1) in
      record now { tcp = marshalled (flagged_as ack [] now.tcp) b2 };
  mss = 1460;
  socket = with_sent (with_sent conn.socket conn.layer.dstip first) conn.layer.dstip last;
}

on_syn_ack-connects :
    (conn : RawConn) (b first : Bytes) (t : TcpLayer) (c : ℕ)
    → IsReady conn.layer
    → conn.socket.faults ≡ []
    → (b2 last : Bytes) × (c2 : ℕ) × ((is : List Incoming)
        → on_syn_ack (received (flagged_as (syn + ack) syn_options t) c) (syn_sent conn b first) is
          ≡ ok (connected (ack_sent conn b t.seqn b2 first last) is))
      × (decode_tcp_layer last
          ≡ ok (
              received
                (flagged_as ack [] (synced conn.layer b (conn.layer.tcp.seqn + 1) (t.seqn + 1)).tcp)
                c2))
unfolding on_syn_ack send_ack get_mss_from_tcp_layer
on_syn_ack-connects conn b first t c ready calm =
    let (b2, last, c2, sent, read) =
      send_ack-decoded (synced conn.layer b (conn.layer.tcp.seqn + 1) (t.seqn + 1))
        (with_sent conn.socket conn.layer.dstip first) refl
        (synced-IsReady conn.layer b (conn.layer.tcp.seqn + 1) (t.seqn + 1) ready) calm in
    (b2, last, c2, λ is. rw sent refl, read)

reads_answer :
    (conn : RawConn) (ip segment : Bytes) (t : TcpLayer) (c : ℕ) (is : List Incoming)
    → let tcp = received (flagged_as (syn + ack) syn_options t) c in
      t.dst_port ≡ conn.dstport
      → decode_tcp_layer segment ≡ ok tcp
      → read_tcp_layer conn.r conn.dstport (packet ip segment ∷ is)
        ≡ ok (got tcp (source_of ip tcp), is)
unfolding read_tcp_layer read_packet chk_flag
reads_answer conn ip segment t c is own read =
    let mine : (t.dst_port == conn.dstport) ≡ true = ground arith in
    let whole =
      decode-in_buffer segment (received (flagged_as (syn + ack) syn_options t) c) read
        (omega arith) in
    simp (whole, mine) refl

-- One round of the loop, in which the answer is the next packet.
syn_loop-connects :
    (fuel retry : ℕ) (clock : Clock) (conn conn1 conn2 : RawConn) (read : Read)
    (is rest : List Incoming)
    → retry ≤ 5
    → clock.deadline_fails retry ≡ false
    → send_syn conn ≡ ok (none, conn1)
    → read_tcp_layer conn1.r conn1.dstport is ≡ ok (read, rest)
    → on_syn_read read conn1 rest ≡ ok (some (connected conn2 rest))
    → syn_loop (suc fuel) retry clock conn is ≡ ok (connected conn2 rest)
unfolding syn_loop
syn_loop-connects fuel retry clock conn conn1 conn2 read is rest few on_time sent found ended =
    let more : ltb 5 retry ≡ false = ground arith in simp (more, sent, on_time, found, ended) refl

on_syn_read-connects :
    (conn1 conn2 : RawConn) (t : TcpLayer) (c : ℕ) (a : Addr) (is : List Incoming)
    → on_syn_ack (received (flagged_as (syn + ack) syn_options t) c) conn1 is
      ≡ ok (connected conn2 is)
    → on_syn_read (got (received (flagged_as (syn + ack) syn_options t) c) a) conn1 is
      ≡ ok (some (connected conn2 is))
unfolding on_syn_read chk_flag
on_syn_read-connects conn1 conn2 t c a is e = rw e refl

acked-IsReady :
    (layer : PktLayers) (b : Bytes)
    → IsReady layer
    → IsReady (record layer { tcp = marshalled (flagged_as ack [] layer.tcp) b })
unfolding encode_options
acked-IsReady layer b ready =
    refit-IsReady layer layer.tcp.seqn layer.tcp.ackn (offset_of (flagged_as ack [] layer.tcp)) ack
      0 [] (padding_of (flagged_as ack [] layer.tcp)) [] b ready ready.fits.range.seqn_range
      ready.fits.range.ackn_range (omega arith) tt (omega arith)

flagged-IsTaken :
    (a : Addr) (flag : ℕ) (options : List TcpOption) (t : TcpLayer) (c : ℕ)
    → a.port ≡ t.src_port
    → chk_flag (received (flagged_as flag options t) c) rst ≡ false
    → offset_of (flagged_as flag options t) < 256
    → IsTaken a t.dst_port (received (flagged_as flag options t) c)
flagged-IsTaken a flag options t c from no_reset small = record {
  from_port = from;
  to_port = refl;
  no_reset = no_reset;
  short = omega arith;
}

-- A listener that answers from its own address, and has not met the peer.
pub record IsFresh (l : Listener) (a : Addr) : Type 0 where
  pub own_ip : Bytes
  pub own_ip4 : to4 l.laddr.ip ≡ some own_ip
  pub own_port : IsU16 l.laddr.port
  pub fixed : is_any l.laddr.ip ≡ false
  pub no_conn : l.conns a ≡ none
  pub no_new : l.newcons a ≡ none
  pub calm : l.socket.faults ≡ []

-- A connection that DialRAW has just made, whose packets come to its port.
pub record IsDialling (conn : RawConn) : Type 0 where
  pub ready : IsReady conn.layer
  pub bare : conn.layer.tcp.options ≡ []
  pub own : conn.layer.tcp.src_port ≡ conn.dstport
  pub calm : conn.socket.faults ≡ []

-- The three packets, the three states they lead to, and what the two ends know in the end. `is` is what
-- comes to the client after the answer to its SYN.
pub record Session (cap : ℕ) (clock : Clock) (retry : ℕ) (draw draw2 : Draw) (l : Listener)
    (conn : RawConn) : Type 0 where
  pub first : Bytes
  pub answer : Bytes
  pub last : Bytes
  pub syn_tcp : TcpLayer
  pub ack_tcp : TcpLayer
  pub met : Listener
  pub conn2 : RawConn
  pub shaken : Listener
  pub info : ConnInfo
  pub syn_comes : decode_tcp_layer first ≡ ok syn_tcp
  pub syn_answered : step cap draw l (address_of conn) syn_tcp ≡ ok (continue met)
  pub answer_sent : met.socket ≡ with_sent l.socket conn.layer.srcip answer
  pub connects :
      (fuel : ℕ) (is : List Incoming)
      → syn_loop (suc fuel) retry clock conn (packet l.laddr.ip answer ∷ is)
        ≡ ok (connected conn2 is)
  pub both_sent :
      conn2.socket ≡ with_sent (with_sent conn.socket conn.layer.dstip first) conn.layer.dstip last
  pub ack_comes : decode_tcp_layer last ≡ ok ack_tcp
  pub ack_taken : step cap draw2 met (address_of conn) ack_tcp ≡ ok (continue shaken)
  pub known :
      (if l.r.no_http then shaken.conns (address_of conn) else shaken.newcons (address_of conn))
      ≡ some info
  pub status : info.state ≡ (if l.r.no_http then established else wait_http_req)
  pub numbers :
      (info.layer.tcp.seqn ≡ conn2.layer.tcp.ackn) × (info.layer.tcp.ackn ≡ conn2.layer.tcp.seqn)
  pub sizes : (info.mss ≡ 1460) × (conn2.mss ≡ 1460)
  pub plain : (info.tls ≡ false) × (conn2.r ≡ conn.r)
  pub goes_on : IsReady conn2.layer × (conn2.socket.faults ≡ [])
  pub answers : IsReady info.layer × (shaken.socket.faults ≡ []) × (shaken.r ≡ l.r)
  pub ports :
      (info.layer.tcp.dst_port ≡ conn2.dstport)
      × (info.rep ≡ none)
      × (conn2.layer.tcp.dst_port ≡ conn.layer.tcp.dst_port)
  pub syn_fits : IsTaken (address_of conn) conn.layer.tcp.dst_port syn_tcp
  pub ack_fits : IsTaken (address_of conn) conn.layer.tcp.dst_port ack_tcp
  pub from : conn2.layer.tcp.src_port ≡ conn.layer.tcp.src_port
  pub no_options : conn2.layer.tcp.options ≡ []
  pub places : (met.laddr ≡ l.laddr) × (shaken.laddr ≡ l.laddr)
  pub alone : l.r.no_http ≡ false → shaken.conns (address_of conn) ≡ none

pub handshake-connects :
    (cap retry : ℕ) (clock : Clock) (draw draw2 : Draw) (l : Listener) (conn : RawConn)
    → IsFresh l (address_of conn)
    → IsDialling conn
    → IsU32 draw.seqn
    → retry ≤ 5
    → clock.deadline_fails retry ≡ false
    → Session cap clock retry draw draw2 l conn
unfolding insert chk_flag
handshake-connects cap retry clock draw draw2 l conn fresh dialling number few on_time =
    let a : Addr = address_of conn in
    let (b, first, c, sent, first_read) =
      send_syn-decoded conn dialling.ready dialling.bare dialling.calm in
    let syn_tcp : TcpLayer = received (flagged_as syn syn_options conn.layer.tcp) c in
    let (b2, answer, c2, answered, answer_read) =
      step-syn cap draw l a conn.layer.tcp c fresh.own_ip dialling.ready.from_ip fresh.own_ip4
        dialling.ready.from_ip4 fresh.own_port dialling.ready.fits.range.src_port_range number
        fresh.fixed fresh.no_conn fresh.no_new fresh.calm in
    let start : PktLayers = answer_layer l a draw.seqn syn_tcp in
    let info : ConnInfo = fresh_info (after_syn (syn + ack) start b2) 1460 in
    let met : Listener = put_new (record l { socket = with_sent l.socket a.ip answer }) a info in
    let (b3, last, c3, ended, last_read) =
      on_syn_ack-connects conn b first start.tcp c2 dialling.ready dialling.calm in
    let met_peer : met.newcons a ≡ some info = rw (addr_eq_refl a) refl in
    let up : ConnInfo = set_seqn info (u32 (info.layer.tcp.seqn + 1)) in
    let known : ConnInfo = record up {
      state = if l.r.no_http then established else wait_http_req;
    } in
    record {
      first = first;
      answer = answer;
      last = last;
      syn_tcp = syn_tcp;
      ack_tcp =
          received
            (flagged_as ack [] (synced conn.layer b (conn.layer.tcp.seqn + 1) (draw.seqn + 1)).tcp)
            c3;
      met = met;
      conn2 = ack_sent conn b draw.seqn b3 first last;
      shaken =
          if l.r.no_http
          then promote met a (record up { state = established })
          else put_new met a (record up { state = wait_http_req });
      info = known;
      syn_comes = first_read;
      syn_answered = answered;
      answer_sent = refl;
      connects = λ fuel is.
          syn_loop-connects fuel retry clock conn (syn_sent conn b first)
            (ack_sent conn b draw.seqn b3 first last) _ (packet l.laddr.ip answer ∷ is) is few
            on_time sent
            (reads_answer conn l.laddr.ip answer start.tcp c2 is dialling.own answer_read)
            (on_syn_read-connects (syn_sent conn b first) (ack_sent conn b draw.seqn b3 first last)
              start.tcp c2 _ is (ended is));
      both_sent = refl;
      ack_comes = last_read;
      ack_taken =
          step-ack cap draw2 met a info
            (synced conn.layer b (conn.layer.tcp.seqn + 1) (draw.seqn + 1)).tcp c3 fresh.no_conn
            met_peer refl;
      known = elim (Bool-cases l.r.no_http) [
        | inl h ↦ rw (h, addr_eq_refl a) refl
        | inr h ↦ rw (h, addr_eq_refl a) refl
      ];
      status = refl;
      numbers = (refl, refl);
      sizes = (refl, refl);
      plain = (refl, refl);
      goes_on = (
        acked-IsReady (synced conn.layer b (conn.layer.tcp.seqn + 1) (draw.seqn + 1)) b3
            (synced-IsReady conn.layer b (conn.layer.tcp.seqn + 1) (draw.seqn + 1) dialling.ready),
        dialling.calm,
      );
      answers = (
        answered-IsReady l a draw.seqn syn_tcp fresh.own_ip dialling.ready.from_ip b2
            (info.layer.tcp.seqn + 1) fresh.own_ip4 dialling.ready.from_ip4 fresh.own_port
            dialling.ready.fits.range.src_port_range number,
        elim (Bool-cases l.r.no_http) [ inl h ↦ rw h fresh.calm | inr h ↦ rw h fresh.calm ],
        elim (Bool-cases l.r.no_http) [ inl h ↦ rw h refl | inr h ↦ rw h refl ],
      );
      ports = (dialling.own, refl, refl);
      syn_fits = flagged-IsTaken a syn syn_options conn.layer.tcp c refl refl (omega arith);
      ack_fits =
          flagged-IsTaken a ack []
            (synced conn.layer b (conn.layer.tcp.seqn + 1) (draw.seqn + 1)).tcp c3 refl refl
            (omega arith);
      from = refl;
      no_options = refl;
      places = (refl, elim (Bool-cases l.r.no_http) [ inl h ↦ rw h refl | inr h ↦ rw h refl ]);
      alone = λ http. rw http fresh.no_conn;
    }
