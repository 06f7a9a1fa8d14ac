-- ===== src/Link/Disguise.antt =====
-- raw_linux.go: the request and the response of a connection that is disguised as HTTP, between the second
-- loop of DialRAW and doRead.
pub mod Connects
pub mod FirstData
mod Tests
use rawcon.Common.{
  ℕ, suc, ◌+◌, ◌<◌, ◌≤◌, ◌≡◌, refl, ap, ◌∙◌, arith, Bool, true, false, ◌&&◌, ◌||◌, ◌==◌, ltb, leb,
  Option, none, some, List, [], ◌∷◌, length, if◌then◌else◌,
}
use rawcon.Common.Go.{Go, ok, ◌>>=◌}
use rawcon.Common.Bytes.{Bytes, u32}
use rawcon.Tcp.{TcpLayer, Error, fin, syn, rst, psh, ack, tcp_len, chk_flag}
use rawcon.Tcp.Decode.{decode_tcp_layer}
use rawcon.Tcp.RoundTrip.{received, marshalled}
use rawcon.Conn.{
  Raw, Addr, ConnInfo, State, wait_http_req, http_rep_sent, syn_received, established,
}
use rawcon.Conn.Http.{build_http_response}
use rawcon.Conn.Send.Segment.{
  loaded, loaded-calm, IsReady, numbered-IsReady, with_sent, write_with_layer-decoded,
}
use rawcon.Listener.{Draw, Listener, Round, continue}
use rawcon.Listener.Step.{
  client_hello, is_post, set_ackn, promote, write_rep, prepared, prepare_post, reply, on_request,
  on_handshake, on_packet, step,
}
use rawcon.Client.{RawConn, Incoming, packet, got, source_of, write, read_packet, read_tcp_layer}
use rawcon.Client.Dial.{
  Clock, connected, ends, Numbers, is_answer, answered, on_request_layer, on_request_read,
  send_request, request_loop,
}
use rawcon.Client.Whole.{decode-in_buffer}
use rawcon.Link.{IsShort, arrived, layer_read-arrived, loaded_flags}

client_hello-plain :
    (r : Raw) (payload : Bytes) → r.tls ≡ false → r.mixed ≡ false → client_hello r payload ≡ ok none
unfolding client_hello
client_hello-plain r payload no_tls unmixed = rw (no_tls, unmixed) refl

-- What the listener knows of a peer whose request it has accepted.
abbrev pub asked : Draw → ConnInfo → TcpLayer → ConnInfo
asked draw info tcp = record (set_ackn info (u32 (tcp.seqn + length tcp.payload))) {
  rep = some (build_http_response [] draw.content);
  hseqn = tcp.seqn;
}

prepare_post-asked :
    (draw : Draw) (info : ConnInfo) (tcp : TcpLayer)
    → info.rep ≡ none
    → prepare_post draw info tcp true ≡ asked draw info tcp
unfolding prepare_post
prepare_post-asked draw info tcp bare = by_rep info.rep bare
  where
    by_rep :
        (rep : Option Bytes)
        → rep ≡ none
        → Path ConnInfo
            (elim rep as (λ r. ConnInfo) [ some b ↦ info | none ↦ asked draw info tcp ])
            (asked draw info tcp)
    by_rep none e = refl
    by_rep (some b) e = cc

-- The peer once the response is written.
abbrev pub replied : Draw → ConnInfo → TcpLayer → Bytes → ConnInfo
replied draw info tcp buffer =
    let known = asked draw info tcp in
    record known {
      layer = record (known.layer) {
        tcp = marshalled (loaded (build_http_response [] draw.content) known.layer.tcp) buffer;
      };
      state = http_rep_sent;
    }

module _ (cap : ℕ) (draw : Draw) (l : Listener) (a : Addr) (info : ConnInfo) (tcp : TcpLayer) where
  abbrev rep : Bytes
  rep = build_http_response [] draw.content

  on_request-replied :
      l.r.tls ≡ false
      → l.r.mixed ≡ false
      → info.rep ≡ none
      → is_post tcp.payload (length tcp.payload) ≡ ok true
      → IsReady info.layer
      → l.socket.faults ≡ []
      → (buffer segment : Bytes) × (c : ℕ) × (on_request cap draw l a info tcp
          ≡ ok (
              continue (
                promote
                  (record l { socket = with_sent l.socket info.layer.dstip segment })
                  a
                  (replied draw info tcp buffer))))
        × (decode_tcp_layer segment ≡ ok (received (loaded rep (asked draw info tcp).layer.tcp) c))
  unfolding on_request prepared reply write_rep
  on_request-replied no_tls unmixed bare post ready calm =
      let (buffer, segment, c, written, read) =
        write_with_layer-decoded rep (asked draw info tcp).layer l.socket
          (numbered-IsReady info.layer info.layer.tcp.seqn (u32 (tcp.seqn + length tcp.payload))
            ready ready.fits.range.seqn_range (omega arith))
          calm in
      (
        buffer,
        segment,
        c,
        rw
            (
              client_hello-plain l.r tcp.payload no_tls unmixed,
              post,
              prepare_post-asked draw info tcp bare,
              written,
            )
            refl,
        read,
      )

waiting-request :
    (s : State) (cap : ℕ) (draw : Draw) (l : Listener) (a : Addr) (info : ConnInfo) (req : Bytes)
    (t : TcpLayer) (c : ℕ)
    → s ≡ wait_http_req
    → 20 < length req
    → on_handshake s cap draw l a info (received (loaded req t) c)
      ≡ on_request cap draw l a info (received (loaded req t) c)
unfolding on_handshake chk_flag
waiting-request wait_http_req cap draw l a info req t c e long =
    let enough : ltb 20 (length req) ≡ true = ground arith in rw enough refl
waiting-request syn_received cap draw l a info req t c e long = cc
waiting-request http_rep_sent cap draw l a info req t c e long = cc
waiting-request established cap draw l a info req t c e long = cc

-- The listener's round for the request of a peer that it waits for.
pub step-request :
    (cap : ℕ) (draw : Draw) (l : Listener) (a : Addr) (info : ConnInfo) (req : Bytes) (t : TcpLayer)
    (c : ℕ)
    → l.r.tls ≡ false
    → l.r.mixed ≡ false
    → l.conns a ≡ none
    → l.newcons a ≡ some info
    → info.state ≡ wait_http_req
    → info.rep ≡ none
    → 20 < length req
    → is_post req (length req) ≡ ok true
    → IsReady info.layer
    → l.socket.faults ≡ []
    → let tcp = received (loaded req t) c in
      (buffer segment : Bytes) × (c2 : ℕ) × (step cap draw l a tcp
        ≡ ok (
            continue (
              promote
                (record l { socket = with_sent l.socket info.layer.dstip segment })
                a
                (replied draw info tcp buffer))))
      × (decode_tcp_layer segment
          ≡ ok (
              received
                (loaded (build_http_response [] draw.content) (asked draw info tcp).layer.tcp)
                c2))
unfolding step on_packet
step-request cap draw l a info req t c no_tls unmixed here there waits bare long post ready calm =
    let tcp : TcpLayer = received (loaded req t) c in
    let (buffer, segment, c2, done, read) =
      on_request-replied cap draw l a info tcp no_tls unmixed bare post ready calm in
    let goes : (chk_flag tcp rst || chk_flag tcp fin) ≡ false = loaded-calm req t c in
    (
      buffer,
      segment,
      c2,
      rw (goes, here, there) (waiting-request info.state cap draw l a info req t c waits long)
          ∙ done,
      read,
    )

-- The connection after a write of the request.
abbrev pub req_sent : RawConn → Bytes → Bytes → Bytes → RawConn
req_sent conn req buffer segment = record conn {
  layer = record (conn.layer) { tcp = marshalled (loaded req conn.layer.tcp) buffer };
  socket = with_sent conn.socket conn.layer.dstip segment;
}

module _ (conn : RawConn) (rep : Bytes) (t : TcpLayer) (c : ℕ) (ip segment : Bytes)
    (is : List Incoming) where
  reads_response :
      decode_tcp_layer segment ≡ ok (received (loaded rep t) c)
      → IsShort t rep
      → t.dst_port ≡ conn.dstport
      → read_tcp_layer conn.r conn.dstport (packet ip segment ∷ is)
        ≡ ok (got (received (loaded rep t) c) (source_of ip (received (loaded rep t) c)), is)
  unfolding read_tcp_layer read_packet
  reads_response read short port =
      let whole = decode-in_buffer segment (received (loaded rep t) c) read short in
      simp (whole, layer_read-arrived conn 0 rep t c ip port) refl

  on_response :
      (req : Bytes) (n : Numbers) (late : Bool) (a : Addr)
      → 20 ≤ length rep
      → is_answer conn.r rep ≡ ok true
      → on_request_read req n late (got (received (loaded rep t) c) a) conn is
        ≡ ok (ends (connected (answered req (received (loaded rep t) c) conn) is))
  unfolding on_request_read on_request_layer
  on_response req n late a long right =
      let flags = loaded_flags rep t c in
      let enough : leb tcp_len (length rep) ≡ true = ground arith in
      simp (flags.2, flags.3, enough, right) refl

-- The second loop of DialRAW, where the response is the next packet after the request.
pub request_loop-answered :
    (fuel : ℕ) (clock : Clock) (req : Bytes) (n : Numbers) (conn conn1 : RawConn) (rep : Bytes)
    (t : TcpLayer) (c : ℕ) (ip segment : Bytes) (is : List Incoming)
    → clock.deadline_fails 0 ≡ false
    → write req conn ≡ ok (none, conn1)
    → decode_tcp_layer segment ≡ ok (received (loaded rep t) c)
    → IsShort t rep
    → t.dst_port ≡ conn1.dstport
    → 20 ≤ length rep
    → is_answer conn1.r rep ≡ ok true
    → request_loop (suc fuel) 0 0 true clock req n conn (packet ip segment ∷ is)
      ≡ ok (connected (answered req (received (loaded rep t) c) conn1) is)
unfolding request_loop send_request
request_loop-answered fuel clock req n conn conn1 rep t c ip segment is on_time sent read short port
      long right =
    let taken = reads_response conn1 rep t c ip segment is read short port in
    let over =
      on_response conn1 rep t c ip segment is req n (clock.late 0)
        (source_of ip (received (loaded rep t) c)) long right in
    simp (sent, on_time, taken, over) refl
