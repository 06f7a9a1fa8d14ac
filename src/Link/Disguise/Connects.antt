-- ===== src/Link/Disguise/Connects.antt =====
-- raw_linux.go: DialRAW from its first SYN to the response, and the four rounds of doRead for it.
use rawcon.Common.{
  ℕ, suc, ◌+◌, ◌<◌, ◌≤◌, ◌≡◌, refl, sym, ap, ◌∙◌, arith, true, false, none, some, List, [], ◌∷◌,
  length,
}
use rawcon.Common.Go.{ok}
use rawcon.Common.Bytes.{Bytes, IsU32, u32}
use rawcon.Tcp.{TcpLayer}
use rawcon.Tcp.Decode.{decode_tcp_layer}
use rawcon.Tcp.RoundTrip.{received}
use rawcon.Conn.{Raw, Addr, ConnInfo, http_rep_sent}
use rawcon.Conn.Http.{build_http_response}
use rawcon.Conn.Http.Shape.{request-is_post, response-is_answer, length-response}
use rawcon.Conn.Send.Segment.{
  loaded, IsReady, numbered-IsReady, marshalled-IsReady, with_sent, write_with_layer-decoded,
}
use rawcon.Listener.{Draw, Listener, continue, insert, delete}
use rawcon.Listener.Step.{rep_bytes, is_post, promote}
use rawcon.Listener.DoRead.{do_read_round}
use rawcon.Listener.DoRead.Packet.{do_read_round-step}
use rawcon.Link.{IsShort-bare, loaded-IsTaken}
use rawcon.Link.Handshake.Taken.{Taken, Session-Taken}
use rawcon.Client.{RawConn, Incoming, packet, write}
use rawcon.Client.Dial.{Clock, connected, answered, syn_loop, request_loop}
use rawcon.Client.Request.{
  RequestDraw, hosts_of, choose_host, http_request, request, after_syn, give_up, dial,
}
use rawcon.Link.Handshake.{address_of, addr_eq_refl}
use rawcon.Link.Handshake.Connects.{IsFresh, IsDialling, Session, handshake-connects}
use rawcon.Link.Disguise.{asked, replied, step-request, req_sent, request_loop-answered}

pub http_request-is_post :
    (host : Bytes) (port : ℕ) (draw : RequestDraw)
    → let req = http_request host port draw in
      (20 < length req) × (is_post req (length req) ≡ ok true)
unfolding http_request
http_request-is_post host port draw = request-is_post draw.path _ draw.content

request-plain :
    (r : Raw) (host : Bytes) (port : ℕ) (draw : RequestDraw)
    → r.tls ≡ false
    → request r host port draw ≡ ok (http_request host port draw)
unfolding request
request-plain r host port draw plain = rw plain refl

dial-answered :
    (first second : Clock) (host : Bytes) (hosts : List Bytes) (draw : RequestDraw)
    (conn conn2 conn3 : RawConn) (is rest is' : List Incoming) (req : Bytes)
    → syn_loop 7 0 first conn is ≡ ok (connected conn2 rest)
    → conn2.r.no_http ≡ false
    → request conn2.r (choose_host (hosts_of host hosts) draw.host) conn2.layer.tcp.dst_port draw
      ≡ ok req
    → request_loop
        (suc (length is))
        0
        0
        true
        second
        req
        (record { ackn = conn2.layer.tcp.ackn; seqn = conn2.layer.tcp.seqn })
        conn2
        rest
      ≡ ok (connected conn3 is')
    → dial first second host hosts draw conn is ≡ ok (connected conn3 is')
unfolding dial after_syn give_up
dial-answered first second host hosts draw conn conn2 conn3 is rest is' req looped http asks ended =
    simp (looped, http, asks, ended) refl

write-decoded :
    (req : Bytes) (conn : RawConn)
    → IsReady conn.layer
    → conn.socket.faults ≡ []
    → (buffer segment : Bytes) × (c : ℕ) × (write req conn
        ≡ ok (none, req_sent conn req buffer segment))
      × (decode_tcp_layer segment ≡ ok (received (loaded req conn.layer.tcp) c))
unfolding write
write-decoded req conn ready calm =
    let (buffer, segment, c, written, read) =
      write_with_layer-decoded req conn.layer conn.socket ready calm in
    (buffer, segment, c, rw written refl, read)

-- The text of the request, to the port that the connection dials.
abbrev pub text_of : RawConn → Bytes → List Bytes → RequestDraw → Bytes
text_of conn host hosts req =
    http_request (choose_host (hosts_of host hosts) req.host) conn.layer.tcp.dst_port req

-- After the session `h`: the request and the response, the states they lead to, and what the two ends know
-- in the end. `is` is what comes to the client after the response.
pub record Disguised (cap : ℕ) (first second : Clock) (draw draw2 draw3 : Draw) (l : Listener)
    (conn : RawConn) (host : Bytes) (hosts : List Bytes) (req : RequestDraw) : Type 0 where
  pub h : Session cap first 0 draw draw2 l conn
  pub asking : Bytes
  pub response : Bytes
  pub req_tcp : TcpLayer
  pub conn3 : RawConn
  pub served : Listener
  pub info : ConnInfo
  pub request_sent : conn3.socket ≡ with_sent h.conn2.socket h.conn2.layer.dstip asking
  pub request_comes : decode_tcp_layer asking ≡ ok req_tcp
  pub handshake_taken : Taken cap first 0 draw draw2 l conn h
  pub request_taken :
      (is : List Incoming)
      → do_read_round cap draw3 h.shaken (packet conn.layer.srcip asking ∷ is)
        ≡ ok (some (continue served), is)
  pub response_sent : served.socket ≡ with_sent h.shaken.socket h.info.layer.dstip response
  pub connects :
      (is : List Incoming)
      → dial first second host hosts req conn
          (packet l.laddr.ip h.answer ∷ packet l.laddr.ip response ∷ is)
        ≡ ok (connected conn3 is)
  pub known :
      (served.conns (address_of conn) ≡ some info) × (served.newcons (address_of conn) ≡ none)
  pub status : (info.state ≡ http_rep_sent) × (info.tls ≡ false) × (conn3.r ≡ conn.r)
  pub numbers :
      (info.layer.tcp.ackn ≡ conn3.layer.tcp.seqn)
      × (u32 (info.layer.tcp.seqn + length (rep_bytes info.rep)) ≡ conn3.layer.tcp.ackn)
  pub marks : (info.hseqn ≡ h.conn2.layer.tcp.seqn) × (conn3.hseqn ≡ info.layer.tcp.seqn)
  pub moved : conn3.layer.tcp.seqn ≡ u32 (info.hseqn + length (text_of conn host hosts req))
  pub range : IsU32 info.hseqn
  pub ports :
      (conn3.layer.tcp.src_port ≡ conn.layer.tcp.src_port)
      × (conn3.layer.tcp.dst_port ≡ served.laddr.port)
  pub no_options : conn3.layer.tcp.options ≡ []
  pub goes_on : IsReady conn3.layer × (conn3.socket.faults ≡ [])

-- A connection and a fresh listener on one fixed address and the port that the connection dials, both
-- disguised as HTTP, without TLS and Mixed, where no write to a socket fails, the first deadline of each
-- loop is set, the five packets arrive in the order in which they are sent, and the request has at most
-- 2008 bytes: doRead takes the SYN and answers it, and takes the acknowledgement and the request, which
-- it takes for one and answers; DialRAW takes the answers for what they are and returns the connection; and
-- the listener has the peer in conns, with the response sent. The listener expects the sequence number that
-- the connection sends next, and its own, moved past the response, is the one that the connection expects.
pub disguise-connects :
    (cap : ℕ) (first second : Clock) (draw draw2 draw3 : Draw) (l : Listener) (conn : RawConn)
    (host : Bytes) (hosts : List Bytes) (req : RequestDraw)
    → IsFresh l (address_of conn)
    → IsDialling conn
    → conn.layer.tcp.dst_port ≡ l.laddr.port
    → IsU32 draw.seqn
    → first.deadline_fails 0 ≡ false
    → second.deadline_fails 0 ≡ false
    → l.r.no_http ≡ false
    → l.r.tls ≡ false
    → l.r.mixed ≡ false
    → conn.r.no_http ≡ false
    → conn.r.tls ≡ false
    → length (text_of conn host hosts req) ≤ 2008
    → Disguised cap first second draw draw2 draw3 l conn host hosts req
unfolding insert delete
disguise-connects size first second draw draw2 draw3 l conn host hosts req fresh dialling to number
      on_time on_time2 hides no_tls unmixed asks plain few =
    let a : Addr = address_of conn in
    let h : Session size first 0 draw draw2 l conn =
      handshake-connects size 0 first draw draw2 l conn fresh dialling number (omega arith)
        on_time in
    let kept : h.conn2.r ≡ conn.r = h.plain.1 in
    let plain2 : h.conn2.r.tls ≡ false = ap (λ (r : Raw). r.tls) kept ∙ plain in
    let asks2 : h.conn2.r.no_http ≡ false = ap (λ (r : Raw). r.no_http) kept ∙ asks in
    let text : Bytes = text_of h.conn2 host hosts req in
    let (long, post) =
      http_request-is_post (choose_host (hosts_of host hosts) req.host) h.conn2.layer.tcp.dst_port
        req in
    let (buffer, asking, c, written, read) = write-decoded text h.conn2 h.goes_on.0 h.goes_on.1 in
    let tcp : TcpLayer = received (loaded text h.conn2.layer.tcp) c in
    let conn1 : RawConn = req_sent h.conn2 text buffer asking in
    let settings : h.shaken.r ≡ l.r = h.answers.2 in
    let rep : Bytes = build_http_response [] draw3.content in
    let to_it : h.conn2.layer.tcp.dst_port ≡ h.shaken.laddr.port =
      h.ports.2 ∙ to ∙ ap (λ (b : Addr). b.port) (sym h.places.1) in
    let (buffer2, response, c2, taken, back) =
      step-request size draw3 h.shaken a h.info text h.conn2.layer.tcp c
        (ap (λ (r : Raw). r.tls) settings ∙ no_tls) (ap (λ (r : Raw). r.mixed) settings ∙ unmixed)
        (h.alone hides) (rw hides at h.known) (rw hides at h.status) h.ports.1 long post h.answers.0
        h.answers.1 in
    let (enough, right) = response-is_answer conn1.r [] draw3.content plain2 in
    let answer_tcp : TcpLayer = received (loaded rep (asked draw3 h.info tcp).layer.tcp) c2 in
    let conn3 : RawConn = answered text answer_tcp conn1 in
    record {
      h = h;
      asking = asking;
      response = response;
      req_tcp = tcp;
      conn3 = conn3;
      served =
          promote
            (record (h.shaken) { socket = with_sent h.shaken.socket h.info.layer.dstip response }) a
            (replied draw3 h.info tcp buffer2);
      info = replied draw3 h.info tcp buffer2;
      request_sent = refl;
      request_comes = read;
      handshake_taken = Session-Taken size first 0 draw draw2 l conn h to;
      request_taken = λ is.
          do_read_round-step size draw3 h.shaken a tcp asking is _ read
            (loaded-IsTaken a h.shaken.laddr.port text h.conn2.layer.tcp c (sym h.from) to_it (
              IsShort-bare h.conn2.layer.tcp text h.no_options (
                rw
                  (ap
                    (λ (p : ℕ).
                      length (http_request (choose_host (hosts_of host hosts) req.host) p req))
                    h.ports.2)
                  few)))
            taken;
      response_sent = refl;
      connects = λ is.
          dial-answered first second host hosts req conn h.conn2 conn3
            (packet l.laddr.ip h.answer ∷ packet l.laddr.ip response ∷ is)
            (packet l.laddr.ip response ∷ is) is text
            (h.connects 6 (packet l.laddr.ip response ∷ is)) asks2
            (request-plain h.conn2.r (choose_host (hosts_of host hosts) req.host)
              h.conn2.layer.tcp.dst_port req plain2)
            (request_loop-answered _ second text _ h.conn2 conn1 rep
              (asked draw3 h.info tcp).layer.tcp c2 l.laddr.ip response is on_time2 written back
              (omega (arith, length-response draw3.content)) h.ports.0 enough right);
      known = (rw (addr_eq_refl a) refl, rw (addr_eq_refl a) refl);
      status = (refl, h.plain.0, kept);
      numbers = (refl, refl);
      marks = (refl, refl);
      moved =
          ap
            (λ (p : ℕ). u32 (
              h.conn2.layer.tcp.seqn
              + length (http_request (choose_host (hosts_of host hosts) req.host) p req)))
            h.ports.2;
      range = h.goes_on.0.fits.range.seqn_range;
      ports = (h.from, to_it);
      no_options = h.no_options;
      goes_on = (
        numbered-IsReady conn1.layer conn3.layer.tcp.seqn conn3.layer.tcp.ackn
            (marshalled-IsReady text buffer h.conn2.layer h.goes_on.0) (omega arith) (omega arith),
        h.goes_on.1,
      );
    }
