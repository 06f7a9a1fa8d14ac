-- ===== src/Client/Request.antt =====
-- raw_linux.go, DialRAW: the request that hides the connection, and the two loops one after the other.
use rawcon.Common.{
  ℕ, suc, ◌+◌, ◌%◌, true, not, ◌&&◌, ◌==◌, List, [], ◌∷◌, ◌++◌, length, get_or, if◌then◌else◌,
}
use rawcon.Common.Go.{Go, ok, ◌>>=◌}
use rawcon.Common.Bytes.{Bytes, slice_from, slice, slice_to, copy_at}
use rawcon.Common.Text.{split}
use rawcon.Tcp.{Error}
use rawcon.Tls.Records.Generate.{gen_tls_client_hello}
use rawcon.Conn.{Raw}
use rawcon.Conn.Http.{codes, crlf, decimal, build_http_request}
use rawcon.Conn.Send.{send_fin_with_layer}
use rawcon.Listener.Step.{from_tls}
use rawcon.Client.{RawConn, Incoming, sent_by}
use rawcon.Client.Dial.{Clock, Dialled, connected, failed, blocked, Numbers, syn_loop, request_loop}

-- What is drawn for the request: the index of the host, the random bytes and their share that makes the
-- ticket, the clock, the buffer that GetBuf returns, and the path and length of the HTTP request.
pub record RequestDraw : Type 0 where
  pub host : ℕ
  pub random_bytes : Bytes
  pub ticket_len : ℕ
  pub now : ℕ
  pub random : Bytes
  pub buffer : Bytes
  pub path : Bytes
  pub content : ℕ

-- `r.Hosts`, filled from `r.Host` at the first call.
unfoldable pub hosts_of : Bytes → List Bytes → List Bytes
hosts_of host [] = if length host == 0 then [] else split 44 host
hosts_of host (h ∷ hs) = h ∷ hs

unfoldable pub choose_host : List Bytes → ℕ → Bytes
choose_host [] n = []
choose_host (h ∷ hs) n = get_or (h ∷ hs) (n % length (h ∷ hs)) []

unfoldable pub http_request : Bytes → ℕ → RequestDraw → Bytes
http_request host port draw =
    let host' = if port == 80 then host else host ++ decimal 10 port in
    build_http_request draw.path
      (codes "Host: " ++ (host' ++ (crlf ++ (codes "X-Online-Host: " ++ (host' ++ crlf)))))
      draw.content

unfoldable pub tls_request : Bytes → RequestDraw → Go Error Bytes
tls_request host draw = do
  let b = copy_at draw.buffer 1816 draw.random_bytes
  session ← slice_from b 2016
  ticket ← slice b 1816 (1816 + draw.ticket_len % 200)
  (b', n) ← from_tls (gen_tls_client_hello draw.now draw.random b host session ticket)
  slice_to b' n

unfoldable pub request : Raw → Bytes → ℕ → RequestDraw → Go Error Bytes
request r host port draw = if r.tls then tls_request host draw else ok (http_request host port draw)

-- Close, of a connection that DialRAW gives up: the error of its last send is dropped.
unfoldable pub give_up : Dialled → Go Error Dialled
give_up (connected conn is) = ok (connected conn is)
give_up (failed e conn) = do
  r ← send_fin_with_layer conn.layer conn.socket
  ok (failed e (sent_by conn r).1)
give_up (blocked conn) = ok (blocked conn)

-- From the end of the first loop on.
unfoldable pub after_syn : ℕ → Clock → Bytes → List Bytes → RequestDraw → Dialled → Go Error Dialled
after_syn fuel clock host hosts draw (failed e conn) = ok (failed e conn)
after_syn fuel clock host hosts draw (blocked conn) = ok (blocked conn)
after_syn fuel clock host hosts draw (connected conn is) =
    let numbers : Numbers = record { ackn = conn.layer.tcp.ackn; seqn = conn.layer.tcp.seqn } in
    if conn.r.no_http && not conn.r.tls then ok (connected conn is) else do
      req ←
          request conn.r (choose_host (hosts_of host hosts) draw.host) conn.layer.tcp.dst_port draw
      request_loop fuel 0 0 true clock req numbers conn is

-- The first loop runs at most six rounds; each round of the second one that does not end it takes a packet.
unfoldable pub dial :
    Clock → Clock → Bytes → List Bytes → RequestDraw → RawConn → List Incoming → Go Error Dialled
dial first second host hosts draw conn is = do
  d ← syn_loop 7 0 first conn is
  d' ← after_syn (suc (length is)) second host hosts draw d
  give_up d'
