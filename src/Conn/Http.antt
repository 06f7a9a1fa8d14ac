-- ===== src/Conn/Http.antt =====
-- utils.go: the request and the response that hide a handshake as HTTP. Text is its bytes.
pub mod Shape
use Prim.Native.Char.{code}
use Prim.Native.String.{String}
use rawcon.Common.{ℕ, zero, suc, ◌+◌, ◌/◌, ◌%◌, [], ◌∷◌, ◌++◌, ltb, if◌then◌else◌}
use rawcon.Common.Bytes.{Bytes}

abbrev pub codes : String → Bytes
codes String.[] = []
codes (String.◌∷◌ c s) = code c ∷ codes s

abbrev pub crlf : Bytes
crlf = 13 ∷ 10 ∷ []

-- `%d`; ten digits are enough for what is printed here.
unfoldable pub decimal : ℕ → ℕ → Bytes
decimal zero n = []
decimal (suc fuel) n =
    let front = decimal fuel (n / 10) in
    if ltb n 10 then (48 + n) ∷ [] else front ++ ((48 + n % 10) ∷ [])

-- `responseFromat`, with the headers and the content length put in.
unfoldable pub build_http_response : Bytes → ℕ → Bytes
build_http_response headers random =
    codes "HTTP/1.1 200 OK"
    ++ (crlf
        ++ (codes "Cache-Control: private, no-store, max-age=0, no-cache"
            ++ (crlf
                ++ (codes "Content-Type: text/html; charset=utf-8"
                    ++ (crlf
                        ++ (codes "Content-Encoding: gzip"
                            ++ (crlf
                                ++ (codes "Server: openresty/1.11.2"
                                    ++ (crlf
                                        ++ (codes "Connection: keep-alive"
                                            ++ (crlf
                                                ++ (headers
                                                    ++ (codes "Content-Length: "
                                                        ++ (decimal 10 (random % 65536 + 104857600)
                                                            ++ (crlf ++ crlf)))))))))))))))

-- `requestFormat`, with the path, the headers and the content length put in.
unfoldable pub build_http_request : Bytes → Bytes → ℕ → Bytes
build_http_request path headers random =
    codes "POST /"
    ++ (path
        ++ (codes " HTTP/1.1"
            ++ (crlf
                ++ (codes "Accept: */*"
                    ++ (crlf
                        ++ (codes "Accept-Encoding: */*"
                            ++ (crlf
                                ++ (codes "Accept-Language: zh-CN"
                                    ++ (crlf
                                        ++ (codes "Connection: keep-alive"
                                            ++ (crlf
                                                ++ (headers
                                                    ++ (codes "Content-Length:"
                                                        ++ (decimal 10 (random % 65536 + 10485760)
                                                            ++ (crlf ++ crlf)))))))))))))))
