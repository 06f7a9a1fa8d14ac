-- ===== src/Pcap/Listener.antt =====
-- raw_other.go, RAWListener: the maps of its peers, and one round of ReadFrom's loop, for the layers of
-- one packet. An address or a MAC that is kept from a packet is a value of its own.
pub mod Kept
pub mod Refines
pub mod Moves
pub mod Peer
pub mod Rounds
pub mod Runs
pub mod Spec
mod Tests
use rawcon.Common.{
  ℕ, ◌+◌, ◌%◌, Bool, true, false, not, ◌&&◌, ◌||◌, ◌==◌, Option, none, some, List, [], ◌∷◌, ltb,
  length, take, drop, replicate, if◌then◌else◌,
}
use rawcon.Common.Go.{Go, ok, err, panic, stuck, ◌>>=◌}
use rawcon.Common.Bytes.{Bytes, u32, slice_to}
use rawcon.Tcp.{Error}
use rawcon.Tcp.Decode.{get_mss_from_tcp_layer}
use rawcon.Tls.Records.Generate.{gen_tls_server_hello}
use rawcon.Conn.{
  Raw, Addr, ConnError, State, syn_received, wait_http_req, http_rep_sent, established, addr_eq,
  cannot_write,
}
use rawcon.Conn.Http.{build_http_response}
use rawcon.Conn.Frame.{tls_frame}
use rawcon.Listener.{Draw}
use rawcon.Listener.Step.{from_tls, client_hello, is_hello, is_post, rep_bytes}
use rawcon.Pcap.{
  TcpHeader, Ethernet, Layers, ConnInfo, Handle, send_syn_ack_with_layer, send_fin_with_layer,
  write_with_layer,
}

abbrev pub Peers : Type 0
Peers = Addr → Option ConnInfo

unfoldable pub insert : Addr → ConnInfo → Peers → Peers
insert a info peers b = if addr_eq a b then some info else peers b

unfoldable pub delete : Addr → Peers → Peers
delete a peers b = if addr_eq a b then none else peers b

pub record Listener : Type 0 where
  pub r : Raw
  pub newcons : Peers
  pub conns : Peers
  pub handle : Handle

-- How a round ends: the loop goes on, or ReadFrom returns bytes and an address, or an error.
pub data Round : Type 0 where
  continue : Listener → Round
  deliver : Listener → Bytes → Addr → Round
  failed : Listener → ConnError → Round

abbrev pub listener_of : Round → Listener
listener_of (continue l) = l
listener_of (deliver l b a) = l
listener_of (failed l e) = l

abbrev pub or_fail : Option ConnError → Listener → Round → Round
or_fail none l next = next
or_fail (some e) l next = failed l e

abbrev pub put_conn : Listener → Addr → ConnInfo → Listener
put_conn l a info = record l { conns = insert a info l.conns }

abbrev pub put_new : Listener → Addr → ConnInfo → Listener
put_new l a info = record l { newcons = insert a info l.newcons }

abbrev pub promote : Listener → Addr → ConnInfo → Listener
promote l a info = record l { conns = insert a info l.conns; newcons = delete a l.newcons }

abbrev pub set_ackn : ConnInfo → ℕ → ConnInfo
set_ackn info n = record info {
  layer = record (info.layer) { tcp = record (info.layer.tcp) { ackn = n } };
}

abbrev pub set_seqn : ConnInfo → ℕ → ConnInfo
set_seqn info n = record info {
  layer = record (info.layer) { tcp = record (info.layer.tcp) { seqn = n } };
}

-- A send for a peer: its layer and the handle are as the send leaves them.
abbrev pub sent_for :
    ConnInfo
    → Listener
    → Option ConnError × Layers × Handle
    → Option ConnError × ConnInfo × Listener
sent_for info l r = (r.0, record info { layer = r.1 }, record l { handle = r.2 })

-- closeConnByAddr: a peer of `newcons`, or else of `conns`, is forgotten and told so.
unfoldable pub close_conn : ConnInfo → Listener → Round
close_conn info l =
    let r = sent_for info l (send_fin_with_layer info.layer l.handle) in
    or_fail r.0 r.2 (continue r.2)

unfoldable pub close_conn_by_addr : Option ConnInfo → Option ConnInfo → Listener → Addr → Round
close_conn_by_addr (some info) conn l a =
    close_conn info (record l { newcons = delete a l.newcons })
close_conn_by_addr none (some info) l a = close_conn info (record l { conns = delete a l.conns })
close_conn_by_addr none none l a = continue l

-- The acknowledgement number moves forward only.
unfoldable pub advance : ConnInfo → Layers → ConnInfo
advance info cl =
    let n = length cl.payload in
    if ltb info.layer.tcp.ackn (cl.tcp.seqn + n)
    then set_ackn info (u32 (cl.tcp.seqn + n))
    else info

-- Data of an established peer.
unfoldable pub hand_on : ℕ → Listener → Addr → ConnInfo → Bytes → Round
hand_on cap l a info payload =
    if info.tls
    then (if ltb (length payload) 5 then continue l else deliver l (take cap (drop 5 payload)) a)
    else deliver l (take cap payload) a

-- Whether a payload is the request again.
unfoldable pub is_request : Raw → Bytes → Go Error Bool
is_request r payload =
    if r.tls || r.mixed
    then (do hello ← client_hello r payload; ok (is_hello hello))
    else is_post payload (length payload)

-- A repeated request: the numbers move past the answer each time that it is sent again.
unfoldable pub answer_again : Listener → Addr → ConnInfo → Layers → Go Error Round
answer_again l a info cl = do
  again ← is_request l.r cl.payload
  let n = length (rep_bytes info.rep)
  let moved =
      set_seqn (set_ackn info (u32 (cl.tcp.seqn + length cl.payload)))
        (u32 (info.layer.tcp.seqn + n))
  let r = sent_for moved l (write_with_layer (rep_bytes info.rep) moved.layer l.handle)
  ok (
      if again
      then or_fail r.0 (put_conn r.2 a r.1) (continue (put_conn r.2 a r.1))
      else continue (put_conn l a info))

unfoldable pub on_data_in : State → ℕ → Listener → Addr → ConnInfo → Layers → Go Error Round
on_data_in http_rep_sent cap l a info cl =
    let up = record (set_seqn info (u32 (info.layer.tcp.seqn + length (rep_bytes info.rep)))) {
      rep = none;
      state = established;
    } in
    if cl.tcp.psh && cl.tcp.ack
    then (if cl.tcp.seqn == info.hseqn && ltb 20 (length cl.payload)
        then answer_again l a info cl
        else ok (hand_on cap (put_conn l a up) a up cl.payload))
    else ok (continue (put_conn l a info))
on_data_in established cap l a info cl = ok (hand_on cap (put_conn l a info) a info cl.payload)
on_data_in _ cap l a info cl = ok (continue (put_conn l a info))

unfoldable pub on_data : ℕ → Listener → Addr → ConnInfo → Layers → Go Error Round
on_data cap l a info cl = on_data_in info.state cap l a (advance info cl) cl

-- The answer to a client hello, with the value that `n` has afterwards. `info.tls` is not set.
unfoldable pub prepare_hello : Draw → ConnInfo → Layers → Bytes → Go Error (ConnInfo × ℕ)
prepare_hello draw info cl session_id =
    let known = record (set_ackn info (u32 (info.layer.tcp.ackn + length cl.payload))) {
      hseqn = cl.tcp.seqn;
    } in
    elim info.rep [
      | some rep ↦ ok (known, length cl.payload)
      | none ↦ do
        (rep, n) ← from_tls (
            gen_tls_server_hello draw.now draw.random draw.fresh_id (replicate 2048 0)
              (draw.filler % 128) session_id)
        cut ← slice_to rep (draw.filler % 128 + n)
        ok (record known { rep = some cut }, n)
    ]

unfoldable pub prepared : Draw → ConnInfo → Layers → Option Bytes → Go Error (ConnInfo × ℕ)
prepared draw info cl (some id) = prepare_hello draw info cl id
prepared draw info cl none = ok (info, length cl.payload)

unfoldable pub prepare_post : Draw → ConnInfo → Layers → ℕ → Bool → ConnInfo
prepare_post draw info cl n post = elim info.rep [
  | some rep ↦ info
  | none ↦
      if post
      then record (set_ackn info (u32 (info.layer.tcp.ackn + n))) {
        rep = some (build_http_response [] draw.content);
        hseqn = cl.tcp.seqn;
      }
      else info
]

unfoldable pub reply : Option Bytes → ℕ → Listener → Addr → ConnInfo → Layers → ℕ → Round
reply (some rep) cap l a info cl n =
    let r = sent_for info l (write_with_layer rep info.layer l.handle) in
    or_fail r.0 (put_new r.2 a r.1)
      (continue (promote r.2 a (record (r.1) { state = http_rep_sent })))
reply none cap l a info cl n =
    if l.r.mixed
    then deliver
        (promote l a (record (set_ackn info (u32 (cl.tcp.seqn + n))) { state = established }))
        (take cap cl.payload) a
    else continue (put_new l a info)

-- The first data of a peer whose connection is up.
unfoldable pub on_request : ℕ → Draw → Listener → Addr → ConnInfo → Layers → Go Error Round
on_request cap draw l a info cl = do
  hello ← client_hello l.r cl.payload
  (info1, n) ← prepared draw info cl hello
  post ← is_post cl.payload n
  let info2 = prepare_post draw info1 cl n post
  ok (reply info2.rep cap l a info2 cl n)

-- A repeated SYN.
unfoldable pub on_syn_again : Listener → Addr → ConnInfo → Layers → Round
on_syn_again l a info cl =
    let r = sent_for info l (send_syn_ack_with_layer info.layer l.handle) in
    if cl.tcp.syn && not cl.tcp.ack && not cl.tcp.psh
    then or_fail r.0 (put_new r.2 a r.1) (continue (put_new r.2 a r.1))
    else continue l

unfoldable pub on_handshake :
    State → ℕ → Draw → Listener → Addr → ConnInfo → Layers → Go Error Round
on_handshake syn_received cap draw l a info cl =
    let up = set_seqn info (u32 (info.layer.tcp.seqn + 1)) in
    if cl.tcp.ack && not cl.tcp.psh && not cl.tcp.fin && not cl.tcp.syn
    then ok (
        continue (
          if l.r.no_http
          then promote l a (record up { state = established })
          else put_new l a (record up { state = wait_http_req })))
    else ok (on_syn_again l a info cl)
on_handshake wait_http_req cap draw l a info cl =
    if cl.tcp.psh && cl.tcp.ack && ltb 20 (length cl.payload)
    then on_request cap draw l a info cl
    else ok (on_syn_again l a info cl)
on_handshake _ cap draw l a info cl = ok (continue l)

-- The layers of an answer to a stranger; `id` is drawn at random.
abbrev pub answer_to : ℕ → Layers → Layers
answer_to id cl = record {
  eth = elim cl.eth [
    | none ↦ none
    | some e ↦
        some (record { src_mac = e.dst_mac; dst_mac = e.src_mac; ethernet_type = e.ethernet_type })
  ];
  src_ip = cl.dst_ip;
  dst_ip = cl.src_ip;
  id = id;
  tcp = record {
    src_port = cl.tcp.dst_port;
    dst_port = cl.tcp.src_port;
    seqn = 0;
    ackn = u32 (cl.tcp.seqn + 1);
    window = 32760;
    syn = false;
    ack = false;
    psh = false;
    fin = false;
    rst = false;
    options = [];
    padding = [];
  };
  payload = [];
}

-- A peer that is in neither map; `newcons` gets it only once the answer is written.
unfoldable pub on_stranger : ℕ → ℕ → Listener → Addr → Layers → Go Error Round
on_stranger id seqn l a cl =
    let layer = answer_to id cl in
    if cl.tcp.syn && not cl.tcp.ack && not cl.tcp.psh && not cl.tcp.fin
    then (do
      mss ← get_mss_from_tcp_layer cl.tcp.options
      let info : ConnInfo = record {
        state = syn_received;
        layer = record layer { tcp = record (layer.tcp) { seqn = seqn } };
        rep = none;
        hseqn = 0;
        mss = mss;
        tls = false;
      }
      let r = sent_for info l (send_syn_ack_with_layer info.layer l.handle)
      ok (or_fail r.0 r.2 (continue (put_new r.2 a r.1))))
    else ok (continue (record l { handle = (send_fin_with_layer layer l.handle).2 }))

-- A packet that ends no connection, with what `conns` and `newcons` hold of its sender.
unfoldable pub on_packet :
    Option ConnInfo → Option ConnInfo → ℕ → ℕ → Draw → Listener → Addr → Layers → Go Error Round
on_packet (some info) new cap id draw l a cl =
    if length cl.payload == 0
    then ok (if cl.tcp.ack && cl.tcp.psh then deliver l [] a else continue l)
    else on_data cap l a info cl
on_packet none (some info) cap id draw l a cl = on_handshake info.state cap draw l a info cl
on_packet none none cap id draw l a cl = on_stranger id draw.seqn l a cl

abbrev pub sender : Layers → Addr
sender cl = record { ip = cl.src_ip; port = cl.tcp.src_port }

-- One round of the loop.
unfoldable pub step : ℕ → ℕ → Draw → Listener → Layers → Go Error Round
step cap id draw l cl =
    let a = sender cl in
    if cl.tcp.rst || cl.tcp.fin
    then ok (close_conn_by_addr (l.newcons a) (l.conns a) l a)
    else on_packet (l.conns a) (l.newcons a) cap id draw l a cl

-- WriteTo to a peer; `buf` is what GetBuf returns.
unfoldable pub write_peer :
    Bytes → Bytes → Addr → ConnInfo → Listener → Go Error (ℕ × Option ConnError × Listener)
write_peer buf b a info l = do
  data' ← if info.tls then tls_frame buf b else ok b
  let r = sent_for info l (write_with_layer data' info.layer l.handle)
  ok (length data', r.0, put_conn r.2 a (set_seqn (r.1) (u32 (r.1.layer.tcp.seqn + length data'))))

unfoldable pub write_to :
    Bytes → Bytes → Addr → Listener → Go Error (ℕ × Option ConnError × Listener)
write_to buf b a l = elim (l.conns a) [
  | none ↦ ok (0, some cannot_write, l)
  | some info ↦ write_peer buf b a info l
]
