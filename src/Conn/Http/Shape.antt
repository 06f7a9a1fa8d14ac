-- ===== src/Conn/Http/Shape.antt =====
-- utils.go: the first and the last bytes of the request and of the response, by which both ends tell them.
use rawcon.Common.{
  ℕ, false, ◌%◌, ◌+◌, ◌-◌, ◌≤◌, ◌<◌, ◌≡◌, refl, sym, ◌∙◌, ap, arith, true, [], ◌∷◌, ◌++◌,
  append_assoc, zero, suc, ◌/◌, ltb, Bool-cases, inl, inr, length, length-append,
  drop_length_append,
}
use rawcon.Common.Go.{ok, Go}
use rawcon.Common.Bytes.{Bytes, slice_to, slice_from, slice_to_lem, slice_from_lem}
use rawcon.Tcp.{Error}
use rawcon.Conn.Http.{codes, crlf, decimal, build_http_request, build_http_response}
use rawcon.Listener.Step.{is_post}
use rawcon.Client.Dial.{is_answer}
use rawcon.Conn.{Raw}

-- A text that ends in an empty line, after `n` bytes or more.
record IsClosed (n : ℕ) (b : Bytes) : Type 0 where
  front : Bytes
  whole : b ≡ front ++ (crlf ++ crlf)
  long : n ≤ length front

IsClosed-end : IsClosed 0 (crlf ++ crlf)
IsClosed-end = record { front = []; whole = refl; long = omega arith }

IsClosed-append :
    (k : ℕ) {m : ℕ} (a : Bytes) {b : Bytes} → IsClosed m b → k ≤ length a + m → IsClosed k (a ++ b)
IsClosed-append k a closed h = record {
  front = a ++ closed.front;
  whole = ap (λ x. a ++ x) closed.whole ∙ sym (append_assoc a closed.front (crlf ++ crlf));
  long = omega (arith, length-append {0} a closed.front, closed.long);
}

IsClosed-tail :
    (n : ℕ) (b : Bytes)
    → IsClosed n b
    → (n + 4 ≤ length b) × (Path (Go Error Bytes) (slice_from b (length b - 4)) (ok (crlf ++ crlf)))
IsClosed-tail n b closed =
    let size : length b ≡ length closed.front + 4 =
      ap length closed.whole ∙ length-append {0} closed.front (crlf ++ crlf) in
    let start : length b - 4 ≡ length closed.front = omega arith in
    (
      omega (arith, closed.long),
      slice_from_lem b (length b - 4) (omega arith)
          ∙ ap ok (rw (start, closed.whole) (drop_length_append closed.front (crlf ++ crlf))),
    )

request-IsClosed :
    (path headers : Bytes) (content : ℕ) → IsClosed 17 (build_http_request path headers content)
unfolding build_http_request
request-IsClosed path headers content =
    let size =
      IsClosed-append 0 (decimal 10 (content % 65536 + 10485760)) IsClosed-end (omega arith) in
    let field = IsClosed-append 0 (codes "Content-Length:") size (omega arith) in
    let more = IsClosed-append 0 headers field (omega arith) in
    let alive =
      IsClosed-append 0 (codes "Connection: keep-alive") (IsClosed-append 0 crlf more (omega arith))
        (omega arith) in
    let language =
      IsClosed-append 0 (codes "Accept-Language: zh-CN")
        (IsClosed-append 0 crlf alive (omega arith)) (omega arith) in
    let encoding =
      IsClosed-append 0 (codes "Accept-Encoding: */*")
        (IsClosed-append 0 crlf language (omega arith)) (omega arith) in
    let accept =
      IsClosed-append 11 (codes "Accept: */*") (IsClosed-append 0 crlf encoding (omega arith))
        (omega arith) in
    let version =
      IsClosed-append 11 (codes " HTTP/1.1") (IsClosed-append 11 crlf accept (omega arith))
        (omega arith) in
    IsClosed-append 17 (codes "POST /") (IsClosed-append 11 path version (omega arith))
      (omega arith)

response-IsClosed :
    (headers : Bytes) (content : ℕ) → IsClosed 17 (build_http_response headers content)
unfolding build_http_response
response-IsClosed headers content =
    let size =
      IsClosed-append 0 (decimal 10 (content % 65536 + 104857600)) IsClosed-end (omega arith) in
    let field = IsClosed-append 0 (codes "Content-Length: ") size (omega arith) in
    let more = IsClosed-append 0 headers field (omega arith) in
    let alive =
      IsClosed-append 0 (codes "Connection: keep-alive") (IsClosed-append 0 crlf more (omega arith))
        (omega arith) in
    let server =
      IsClosed-append 0 (codes "Server: openresty/1.11.2")
        (IsClosed-append 0 crlf alive (omega arith)) (omega arith) in
    let encoding =
      IsClosed-append 0 (codes "Content-Encoding: gzip")
        (IsClosed-append 0 crlf server (omega arith)) (omega arith) in
    let type =
      IsClosed-append 0 (codes "Content-Type: text/html; charset=utf-8")
        (IsClosed-append 0 crlf encoding (omega arith)) (omega arith) in
    let cache =
      IsClosed-append 2 (codes "Cache-Control: private, no-store, max-age=0, no-cache")
        (IsClosed-append 0 crlf type (omega arith)) (omega arith) in
    IsClosed-append 17 (codes "HTTP/1.1 200 OK") (IsClosed-append 2 crlf cache (omega arith))
      (omega arith)

-- The listener takes the request for one.
pub request-is_post :
    (path headers : Bytes) (content : ℕ)
    → let req = build_http_request path headers content in
      (20 < length req) × (is_post req (length req) ≡ ok true)
unfolding is_post build_http_request
request-is_post path headers content =
    let req : Bytes = build_http_request path headers content in
    let (long, tail) = IsClosed-tail 17 req (request-IsClosed path headers content) in
    let head : Path (Go Error Bytes) (slice_to req 4) (ok (codes "POST")) =
      slice_to_lem req 4 (omega arith) in
    (omega arith, rw (head, tail) refl)

-- The client takes the response for one.
pub response-is_answer :
    (r : Raw) (headers : Bytes) (content : ℕ)
    → r.tls ≡ false
    → let rep = build_http_response headers content in
      (20 ≤ length rep) × (is_answer r rep ≡ ok true)
unfolding is_answer build_http_response
response-is_answer r headers content plain =
    let rep : Bytes = build_http_response headers content in
    let (long, tail) = IsClosed-tail 17 rep (response-IsClosed headers content) in
    let head : Path (Go Error Bytes) (slice_to rep 4) (ok (codes "HTTP")) =
      slice_to_lem rep 4 (omega arith) in
    (omega arith, rw (plain, head, tail) refl)

length-decimal : (fuel n : ℕ) → length (decimal fuel n) ≤ fuel
unfolding decimal
length-decimal zero n = omega arith
length-decimal (suc fuel) n = elim (Bool-cases (ltb n 10)) [
  | inl h ↦ rw h (omega arith)
  | inr h ↦ rw h (
      omega (
        arith,
        length-decimal fuel (n / 10),
        length-append (decimal fuel (n / 10)) ((48 + n % 10) ∷ []),
      ))
]

pub length-response : (content : ℕ) → length (build_http_response [] content) ≤ 300
unfolding build_http_response
length-response content =
    let digits : Bytes = decimal 10 (content % 65536 + 104857600) in
    omega (
      arith,
      length-decimal 10 (content % 65536 + 104857600),
      length-append {0} digits (crlf ++ crlf),
    )
