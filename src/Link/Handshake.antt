-- ===== src/Link/Handshake.antt =====
-- raw_linux.go: the three packets of the handshake, between the first loop of DialRAW and doRead.
pub mod Connects
pub mod Taken
pub mod FirstData
pub mod Writes
mod Tests
use rawcon.Common.{
  ℕ, suc, ◌+◌, ◌<◌, ◌≤◌, ◌≡◌, refl, sym, ap, ◌∙◌, arith, Bool, true, false, ◌&&◌, not, ◌||◌, ◌==◌,
  ltb, Option, none, some, List, [], ◌∷◌, if◌then◌else◌, Bool-cases, inl, inr,
}
use rawcon.Common.Go.{Go, ok, ◌>>=◌}
use rawcon.Common.Bytes.{Bytes, IsU16, IsU32, u32}
use rawcon.Common.Text.{bytes_eq, bytes_eq_refl}
use rawcon.Tcp.{TcpLayer, Error, fin, syn, rst, psh, ack, chk_flag}
use rawcon.Tcp.Checksum.{to4}
use rawcon.Tcp.Decode.{decode_tcp_layer, get_mss_from_tcp_layer}
use rawcon.Tcp.Marshal.Layout.{encode_options, padding_of}
use rawcon.Tcp.RoundTrip.{FitsWire, received, marshalled}
use rawcon.Conn.{
  Addr, PktLayers, ConnInfo, Socket, State, syn_received, wait_http_req, established, addr_eq,
}
use rawcon.Conn.Send.{
  syn_options, send_with_syn_options, send_syn_with_layer, send_syn_ack_with_layer,
}
use rawcon.Conn.Send.Segment.{IsReady, refit-IsReady, with_sent}
use rawcon.Conn.Send.Handshake.{
  flagged_as, after_syn, send_with_syn_options-decoded, send_ack-decoded, get_mss-syn_options,
}
use rawcon.Listener.{Draw, Listener, Round, continue, insert, delete}
use rawcon.Listener.Step.{
  put_new, promote, set_seqn, send_syn_ack, on_handshake, new_layer, fresh_info, on_stranger,
  is_any, on_packet, step,
}
use rawcon.Client.{RawConn, Incoming, packet, got, source_of, read_packet, read_tcp_layer, send_ack}
use rawcon.Client.Dial.{Clock, connected, send_syn, synchronised, on_syn_ack, on_syn_read, syn_loop}

pub addr_eq_refl : (a : Addr) → addr_eq a a ≡ true
unfolding addr_eq
addr_eq_refl a =
    let same : (a.port == a.port) ≡ true = ground arith in rw (bytes_eq_refl a.ip, same) refl

-- The address that the listener knows a RAWConn by.
abbrev pub address_of : RawConn → Addr
address_of conn = record { ip = conn.layer.srcip; port = conn.layer.tcp.src_port }

-- The layer that the listener answers a SYN with.
abbrev pub answer_layer : Listener → Addr → ℕ → TcpLayer → PktLayers
answer_layer l a seqn tcp =
    let layer = new_layer l.laddr.ip l.laddr.port a tcp in
    record layer { tcp = record (layer.tcp) { seqn = seqn } }

answer_layer-IsReady :
    (l : Listener) (a : Addr) (seqn : ℕ) (tcp : TcpLayer) (s d : Bytes)
    → to4 l.laddr.ip ≡ some s
    → to4 a.ip ≡ some d
    → IsU16 l.laddr.port
    → IsU16 a.port
    → IsU32 seqn
    → IsReady (answer_layer l a seqn tcp)
unfolding encode_options
answer_layer-IsReady l a seqn tcp s d hs hd from_port to_port number = record {
  fits = record {
    range = record {
      src_port_range = from_port;
      dst_port_range = to_port;
      seqn_range = number;
      ackn_range = omega arith;
      reserved_range = omega arith;
      ecn_range = omega arith;
      flags_range = omega arith;
      window_range = omega arith;
      urgent_range = omega arith;
    };
    wire = tt;
    short = omega arith;
  };
  from_ip = s;
  to_ip = d;
  from_ip4 = hs;
  to_ip4 = hd;
}

-- The listener's layer once its own number is past its SYN.
pub answered-IsReady :
    (l : Listener) (a : Addr) (seqn : ℕ) (tcp : TcpLayer) (s d b : Bytes) (n : ℕ)
    → to4 l.laddr.ip ≡ some s
    → to4 a.ip ≡ some d
    → IsU16 l.laddr.port
    → IsU16 a.port
    → IsU32 seqn
    → let sent = after_syn (syn + ack) (answer_layer l a seqn tcp) b in
      IsReady (record sent { tcp = record (sent.tcp) { seqn = u32 n } })
unfolding encode_options
answered-IsReady l a seqn tcp s d b n hs hd from_port to_port number =
    let layer : PktLayers = answer_layer l a seqn tcp in
    let sent : TcpLayer = (after_syn (syn + ack) layer b).tcp in
    refit-IsReady layer (u32 n) sent.ackn sent.data_offset (syn + ack) 0 [] sent.padding [] b
      (answer_layer-IsReady l a seqn tcp s d hs hd from_port to_port number) (omega arith)
      (omega arith) (omega arith) tt (omega arith)

-- The client's layer once both numbers are past the SYNs.
abbrev pub synced : PktLayers → Bytes → ℕ → ℕ → PktLayers
synced layer b seqn ackn =
    let sent = after_syn syn layer b in
    record sent { tcp = record (sent.tcp) { ackn = u32 ackn; seqn = u32 seqn } }

pub synced-IsReady :
    (layer : PktLayers) (b : Bytes) (seqn ackn : ℕ)
    → IsReady layer
    → IsReady (synced layer b seqn ackn)
unfolding encode_options
synced-IsReady layer b seqn ackn ready =
    let tcp : TcpLayer = (after_syn syn layer b).tcp in
    refit-IsReady layer (u32 seqn) (u32 ackn) tcp.data_offset syn 0 [] tcp.padding [] b ready
      (omega arith) (omega arith) (omega arith) tt (omega arith)

on_packet-stranger :
    (cap : ℕ) (draw : Draw) (l : Listener) (a : Addr) (tcp : TcpLayer) (any : Bool)
    → any ≡ false
    → Path
        (Go Error Round)
        (elim (if any then draw.srcip else some l.laddr.ip) [
          | none ↦ ok (continue l)
          | some srcip ↦ on_stranger draw l a srcip tcp
        ])
        (on_stranger draw l a l.laddr.ip tcp)
on_packet-stranger cap draw l a tcp any fixed = rw fixed refl

step-stranger :
    (cap : ℕ) (draw : Draw) (l : Listener) (a : Addr) (t : TcpLayer) (c : ℕ)
    → is_any l.laddr.ip ≡ false
    → l.conns a ≡ none
    → l.newcons a ≡ none
    → step cap draw l a (received (flagged_as syn syn_options t) c)
      ≡ on_stranger draw l a l.laddr.ip (received (flagged_as syn syn_options t) c)
unfolding step on_packet chk_flag
step-stranger cap draw l a t c fixed no_conn no_new =
    rw (no_conn, no_new)
      (on_packet-stranger cap draw l a (received (flagged_as syn syn_options t) c)
        (is_any l.laddr.ip) fixed)

-- The listener's round for the SYN of a stranger.
pub step-syn :
    (cap : ℕ) (draw : Draw) (l : Listener) (a : Addr) (t : TcpLayer) (c : ℕ) (s d : Bytes)
    → to4 l.laddr.ip ≡ some s
    → to4 a.ip ≡ some d
    → IsU16 l.laddr.port
    → IsU16 a.port
    → IsU32 draw.seqn
    → is_any l.laddr.ip ≡ false
    → l.conns a ≡ none
    → l.newcons a ≡ none
    → l.socket.faults ≡ []
    → let tcp = received (flagged_as syn syn_options t) c in
      let start = answer_layer l a draw.seqn tcp in
      (b segment : Bytes) × (c2 : ℕ) × (step cap draw l a tcp
        ≡ ok (
            continue (
              put_new
                (record l { socket = with_sent l.socket a.ip segment })
                a
                (fresh_info (after_syn (syn + ack) start b) 1460))))
      × (decode_tcp_layer segment ≡ ok (received (flagged_as (syn + ack) syn_options start.tcp) c2))
unfolding on_stranger send_syn_ack send_syn_ack_with_layer chk_flag get_mss_from_tcp_layer
step-syn cap draw l a t c s d hs hd from_port to_port number fixed no_conn no_new calm =
    let tcp : TcpLayer = received (flagged_as syn syn_options t) c in
    let (b, segment, c2, sent, read) =
      send_with_syn_options-decoded (syn + ack) (answer_layer l a draw.seqn tcp) l.socket refl
        (omega arith) refl
        (answer_layer-IsReady l a draw.seqn tcp s d hs hd from_port to_port number) calm in
    (b, segment, c2, step-stranger cap draw l a t c fixed no_conn no_new ∙ rw sent refl, read)

-- Its round for the acknowledgement that completes the handshake.
pub step-ack :
    (cap : ℕ) (draw : Draw) (l : Listener) (a : Addr) (info : ConnInfo) (t : TcpLayer) (c : ℕ)
    → l.conns a ≡ none
    → l.newcons a ≡ some info
    → info.state ≡ syn_received
    → let up = set_seqn info (u32 (info.layer.tcp.seqn + 1)) in
      step cap draw l a (received (flagged_as ack [] t) c)
      ≡ ok (
          continue (
            if l.r.no_http
            then promote l a (record up { state = established })
            else put_new l a (record up { state = wait_http_req })))
unfolding step on_packet on_handshake chk_flag
step-ack cap draw l a info t c no_conn new fresh = elim (Bool-cases l.r.no_http) [
  | inl h ↦ simp (no_conn, new, fresh, h) refl
  | inr h ↦ simp (no_conn, new, fresh, h) refl
]
