-- ===== src/Listener/Step.antt =====
-- raw_linux.go, RAWListener.doRead: one round of its loop, for one packet.
use rawcon.Common.{
  ℕ, ◌+◌, ◌-◌, Bool, true, false, not, Option, none, some, [], ◌∷◌, ◌++◌, ◌&&◌, ◌||◌, ◌==◌, ◌%◌,
  ltb, length, take, drop, replicate, if◌then◌else◌,
}
use rawcon.Common.Go.{Go, ok, err, panic, stuck, ◌>>=◌}
use rawcon.Common.Bytes.{Bytes, u32, slice_from, slice_to}
use rawcon.Tcp.{TcpLayer, Error, fin, syn, rst, psh, ack, chk_flag}
use rawcon.Tcp.Decode.{get_mss_from_tcp_layer}
use rawcon.Tcp.Checksum.{to4}
use rawcon.Tls.{Reject}
use rawcon.Tls.ClientHello.{ClientHelloMsg}
use rawcon.Tls.Records.{parse_tls_client_hello_msg}
use rawcon.Tls.Records.Generate.{gen_tls_server_hello}
use rawcon.Common.Text.{bytes_eq}
use rawcon.Conn.{
  Raw, Addr, PktLayers, ConnInfo, ConnError, State, syn_received, wait_http_req, http_rep_sent,
  established,
}
use rawcon.Conn.Send.{send_syn_ack_with_layer, send_fin_with_layer, write_with_layer}
use rawcon.Conn.Http.{codes, crlf, build_http_response}
use rawcon.Listener.{insert, delete, Listener, Draw, Round, continue, deliver, failed}

-- A call of the TLS code; its parsers report failure in their result.
abbrev pub from_tls : {A : Type 0} → Go Reject A → Go Error A
from_tls (ok a) = ok a
from_tls (err e) = panic
from_tls panic = panic
from_tls stuck = stuck

-- The session id of the client hello in a payload, where there is one.
abbrev pub hello_id : Bool × ℕ × Option ClientHelloMsg → Option Bytes
hello_id (true, n, some msg) = some msg.session_id
hello_id (true, n, none) = none
hello_id (false, n, m) = none

abbrev pub is_hello : Option Bytes → Bool
is_hello none = false
is_hello (some id) = true

unfoldable pub client_hello : Raw → Bytes → Go Error (Option Bytes)
client_hello r payload =
    if r.tls || r.mixed
    then (do res ← from_tls (parse_tls_client_hello_msg payload); ok (hello_id res))
    else ok none

-- `string(tcp.payload[:4]) == "POST"`, `string(tcp.payload[n-4:]) == "\r\n\r\n"`
unfoldable pub is_post : Bytes → ℕ → Go Error Bool
is_post payload n = do
  head ← slice_to payload 4
  tail ← slice_from payload (n - 4)
  ok (bytes_eq head (codes "POST") && bytes_eq tail (crlf ++ crlf))

abbrev pub set_ackn : ConnInfo → ℕ → ConnInfo
set_ackn info ackn = record info {
  layer = record (info.layer) { tcp = record (info.layer.tcp) { ackn = ackn } };
}

abbrev pub set_seqn : ConnInfo → ℕ → ConnInfo
set_seqn info seqn = record info {
  layer = record (info.layer) { tcp = record (info.layer.tcp) { seqn = seqn } };
}

abbrev pub rep_bytes : Option Bytes → Bytes
rep_bytes none = []
rep_bytes (some b) = b

-- A change of the connInfo that a map holds a pointer to is a new entry of that map.
abbrev pub put_conn : Listener → Addr → ConnInfo → Listener
put_conn l a info = record l { conns = insert a info l.conns }

abbrev pub put_new : Listener → Addr → ConnInfo → Listener
put_new l a info = record l { newcons = insert a info l.newcons }

-- `conns[addrstr] = info; delete(newcons, addrstr)`
abbrev pub promote : Listener → Addr → ConnInfo → Listener
promote l a info = record l { conns = insert a info l.conns; newcons = delete a l.newcons }

-- `writeWithLayer(info.rep, info.layer)`, with the layer and the socket as they are afterwards.
unfoldable pub write_rep : Listener → ConnInfo → Go Error (Option ConnError × ConnInfo × Listener)
write_rep l info = do
  r ← write_with_layer (rep_bytes info.rep) info.layer l.socket
  ok (r.0, record info { layer = r.1 }, record l { socket = r.2 })

unfoldable pub send_syn_ack :
    Listener → ConnInfo → Go Error (Option ConnError × ConnInfo × Listener)
send_syn_ack l info = do
  r ← send_syn_ack_with_layer info.layer l.socket
  ok (r.0, record info { layer = r.1 }, record l { socket = r.2 })

-- A write whose error ends doRead; `l` already holds the peer.
abbrev pub or_fail : Option ConnError → Listener → Round → Round
or_fail (some e) l next = failed l e
or_fail none l next = next

-- The acknowledgement number moves forward only.
unfoldable pub advance : ConnInfo → TcpLayer → ConnInfo
advance info tcp =
    let n = length tcp.payload in
    if ltb info.layer.tcp.ackn (tcp.seqn + n) then set_ackn info (u32 (tcp.seqn + n)) else info

-- The payload, into a buffer of `cap` bytes; a TLS record's header of five bytes is cut off.
unfoldable pub hand_on : ℕ → Listener → Addr → ConnInfo → Bytes → Round
hand_on cap l a info payload =
    if info.tls
    then (if ltb (length payload) 5 then continue l else deliver l (take cap (drop 5 payload)) a)
    else deliver l (take cap payload) a

-- A repeated request, answered by the same response.
unfoldable pub answer_again : Listener → Addr → ConnInfo → TcpLayer → Go Error Round
answer_again l a info tcp = do
  hello ← client_hello l.r tcp.payload
  post ← is_post tcp.payload (length tcp.payload)
  if is_hello hello || post
      then (do
        (e, info', l') ← write_rep l (set_ackn info (u32 (tcp.seqn + length tcp.payload)))
        ok (or_fail e (put_conn l' a info') (continue (put_conn l' a info'))))
      else ok (continue (put_conn l a info))

-- Data of a peer in `conns`, with its state.
unfoldable pub on_data_in : State → ℕ → Listener → Addr → ConnInfo → TcpLayer → Go Error Round
on_data_in http_rep_sent cap l a info tcp =
    let up = record (set_seqn info (u32 (info.layer.tcp.seqn + length (rep_bytes info.rep)))) {
      rep = none;
      state = established;
    } in
    if chk_flag tcp (psh + ack)
    then (if tcp.seqn == info.hseqn && ltb 20 (length tcp.payload)
        then answer_again l a info tcp
        else ok (hand_on cap (put_conn l a up) a up tcp.payload))
    else ok (continue (put_conn l a info))
on_data_in established cap l a info tcp = ok (hand_on cap (put_conn l a info) a info tcp.payload)
on_data_in _ cap l a info tcp = ok (continue (put_conn l a info))

unfoldable pub on_data : ℕ → Listener → Addr → ConnInfo → TcpLayer → Go Error Round
on_data cap l a info tcp = on_data_in info.state cap l a (advance info tcp) tcp

-- The answer to a client hello. The number of its bytes comes back too, since the source keeps it in
-- the variable `n` that held the length of the payload.
unfoldable pub prepare_hello : Draw → ConnInfo → TcpLayer → Bytes → Go Error (ConnInfo × ℕ)
prepare_hello draw info tcp session_id =
    let known = record (set_ackn info (u32 (tcp.seqn + length tcp.payload))) {
      hseqn = tcp.seqn;
      tls = true;
    } in
    elim info.rep [
      | some rep ↦ ok (known, length tcp.payload)
      | none ↦ do
        (rep, n) ← from_tls (
            gen_tls_server_hello draw.now draw.random draw.fresh_id (replicate 2048 0)
              (draw.filler % 128) session_id)
        cut ← slice_to rep (draw.filler % 128 + n)
        ok (record known { rep = some cut }, n)
    ]

unfoldable pub prepare_post : Draw → ConnInfo → TcpLayer → Bool → ConnInfo
prepare_post draw info tcp post = elim info.rep [
  | some rep ↦ info
  | none ↦
      if post
      then record (set_ackn info (u32 (tcp.seqn + length tcp.payload))) {
        rep = some (build_http_response [] draw.content);
        hseqn = tcp.seqn;
      }
      else info
]

-- With an answer at hand, `rep`, it is written, and the peer moves to `conns`.
unfoldable pub reply : Option Bytes → ℕ → Listener → Addr → ConnInfo → TcpLayer → Go Error Round
reply (some rep) cap l a info tcp = do
  (e, info', l') ← write_rep l info
  ok (
      or_fail e (put_new l' a info')
        (continue (promote l' a (record info' { state = http_rep_sent }))))
reply none cap l a info tcp =
    let up = record (set_ackn info (u32 (tcp.seqn + length tcp.payload))) { state = established } in
    if l.r.mixed
    then ok (deliver (promote l a up) (take cap tcp.payload) a)
    else ok (continue (put_new l a info))

unfoldable pub prepared : Draw → ConnInfo → TcpLayer → Option Bytes → Go Error (ConnInfo × ℕ)
prepared draw info tcp (some id) = prepare_hello draw info tcp id
prepared draw info tcp none = ok (info, length tcp.payload)

-- The first data of a peer whose connection is up.
unfoldable pub on_request : ℕ → Draw → Listener → Addr → ConnInfo → TcpLayer → Go Error Round
on_request cap draw l a info tcp = do
  hello ← client_hello l.r tcp.payload
  (info1, n) ← prepared draw info tcp hello
  post ← is_post tcp.payload n
  let info2 = prepare_post draw info1 tcp post
  reply info2.rep cap l a info2 tcp

-- A repeated SYN.
unfoldable pub on_syn_again : Listener → Addr → ConnInfo → TcpLayer → Go Error Round
on_syn_again l a info tcp =
    if chk_flag tcp syn && not (chk_flag tcp (ack + psh))
    then (do
      (e, info', l') ← send_syn_ack l info
      ok (or_fail e (put_new l' a info') (continue (put_new l' a info'))))
    else ok (continue l)

-- A peer in `newcons`, with its state. `chkFlag(PSH|FIN|SYN)` asks for all three flags.
unfoldable pub on_handshake :
    State → ℕ → Draw → Listener → Addr → ConnInfo → TcpLayer → Go Error Round
on_handshake syn_received cap draw l a info tcp =
    let up = set_seqn info (u32 (info.layer.tcp.seqn + 1)) in
    if chk_flag tcp ack && not (chk_flag tcp (psh + fin + syn))
    then (if l.r.no_http
        then ok (continue (promote l a (record up { state = established })))
        else ok (continue (put_new l a (record up { state = wait_http_req }))))
    else on_syn_again l a info tcp
on_handshake wait_http_req cap draw l a info tcp =
    if chk_flag tcp (ack + psh) && ltb 20 (length tcp.payload)
    then on_request cap draw l a info tcp
    else on_syn_again l a info tcp
on_handshake _ cap draw l a info tcp = ok (continue l)

abbrev pub new_layer : Bytes → ℕ → Addr → TcpLayer → PktLayers
new_layer srcip port a tcp = record {
  srcip = srcip;
  dstip = a.ip;
  tcp = record {
    src_port = port;
    dst_port = a.port;
    seqn = 0;
    ackn = u32 (tcp.seqn + 1);
    data_offset = 0;
    reserved = 0;
    ecn = 0;
    flags = 0;
    window = 12580;
    chksum = 0;
    urgent = 0;
    options = [];
    padding = [];
    payload = [];
    buffer = replicate 2048 0;
  };
}

abbrev pub fresh_info : PktLayers → ℕ → ConnInfo
fresh_info layer mss = record {
  state = syn_received;
  layer = layer;
  rep = none;
  hseqn = 0;
  mss = mss;
  tls = false;
}

-- A peer that is in neither map, with the address that its packets are answered from. `newcons` gets
-- it only once the answer is written.
unfoldable pub on_stranger : Draw → Listener → Addr → Bytes → TcpLayer → Go Error Round
on_stranger draw l a srcip tcp =
    let layer = new_layer srcip l.laddr.port a tcp in
    let start = record layer { tcp = record (layer.tcp) { seqn = draw.seqn } } in
    if chk_flag tcp syn && not (chk_flag tcp (ack + psh + fin))
    then (do
      mss ← get_mss_from_tcp_layer tcp.options
      (e, info, l') ← send_syn_ack l (fresh_info start mss)
      ok (or_fail e l' (continue (put_new l' a info))))
    else do r ← send_fin_with_layer layer l.socket; ok (continue (record l { socket = r.2 }))

-- `srcip.Equal(ipv4AddrAny)`, for an address of four or of sixteen bytes.
abbrev pub is_any : Bytes → Bool
is_any ip = elim (to4 ip) [ none ↦ false | some b ↦ bytes_eq b (0 ∷ 0 ∷ 0 ∷ 0 ∷ []) ]

abbrev pub drop_peer : Listener → Addr → Listener
drop_peer l a = record l { newcons = delete a l.newcons; conns = delete a l.conns }

-- A packet that ends no connection, with what `conns` and `newcons` hold of its sender.
unfoldable pub on_packet :
    Option ConnInfo → Option ConnInfo → ℕ → Draw → Listener → Addr → TcpLayer → Go Error Round
on_packet (some info) new cap draw l a tcp =
    if length tcp.payload == 0
    then (if chk_flag tcp (psh + ack) then ok (deliver l [] a) else ok (continue l))
    else on_data cap l a info tcp
on_packet none (some info) cap draw l a tcp = on_handshake info.state cap draw l a info tcp
on_packet none none cap draw l a tcp =
    elim (if is_any l.laddr.ip then draw.srcip else some l.laddr.ip) [
      | none ↦ ok (continue l)
      | some srcip ↦ on_stranger draw l a srcip tcp
    ]

-- One round, from ReadTCPLayer's return of a packet from `a` on.
unfoldable pub step : ℕ → Draw → Listener → Addr → TcpLayer → Go Error Round
step cap draw l a tcp =
    if chk_flag tcp rst || chk_flag tcp fin
    then ok (continue (drop_peer l a))
    else on_packet (l.conns a) (l.newcons a) cap draw l a tcp
