-- ===== src/Tls/Records/Safety.antt =====
-- utils/tls.go, ParseTLSClientHelloMsg and ParseTLSServerHelloMsg on any bytes.
use rawcon.Common.{ℕ, ◌+◌, arith, not, ◌||◌, ◌==◌, ltb, length, take, drop}
use rawcon.Common.Go.{Go, ok, err, panic, stuck, Safe, Safe-if}
use rawcon.Common.Bytes.{Bytes, be16, index-Safe, slice-Safe}
use rawcon.Tls.{Reject}
use rawcon.Tls.ClientHello.{new_client_hello}
use rawcon.Tls.ClientHello.Unmarshal.Safety.{client_hello-unmarshal-Safe}
use rawcon.Tls.ServerHello.{new_server_hello}
use rawcon.Tls.ServerHello.Unmarshal.Safety.{server_hello-unmarshal-Safe}
use rawcon.Tls.Records.{
  answer, parse_record, parse_tls_client_hello_msg, parse_tls_server_hello_msg,
}

answer-Safe : {A : Type 0} (n : ℕ) (m : Go Reject A) → Safe m → Safe (answer n m)
answer-Safe n (ok m) h = tt
answer-Safe n (err e) h = tt
answer-Safe n panic h = absurd h
answer-Safe n stuck h = absurd h

parse_record-Safe :
    {A : Type 0} (unmarshal : Bytes → Go Reject A)
    → ((b : Bytes) → Safe (unmarshal b))
    → (b : Bytes) → Safe (parse_record unmarshal b)
unfolding parse_record
parse_record-Safe unmarshal safe b =
    Safe-if (ltb (length b) 5) _ _ (λ _. tt)
      λ long. index-Safe b 0 _ (ground arith) λ rtype.
        Safe-if (not (rtype == 22)) _ _ (λ _. tt)
          λ _. index-Safe b 1 _ (ground arith) λ v1. index-Safe b 2 _ (ground arith) λ v0.
            Safe-if (ltb (be16 v1 v0) 0x0300 || ltb (0x0303 + 1) (be16 v1 v0)) _ _ (λ _. tt)
              λ _. index-Safe b 3 _ (ground arith) λ l1. index-Safe b 4 _ (ground arith) λ l0.
                Safe-if (ltb (length b) (be16 l1 l0 + 5)) _ _ (λ _. tt)
                  λ fits.
                    slice-Safe b 5 (be16 l1 l0 + 5) _ (omega arith) (ground arith)
                      (answer-Safe _ _ (safe (drop 5 (take (be16 l1 l0 + 5) b))))

-- On any bytes the two parsers return: they neither panic nor loop.
pub parse_hello-Safe :
    (b : Bytes) → Safe (parse_tls_client_hello_msg b) × Safe (parse_tls_server_hello_msg b)
unfolding parse_tls_client_hello_msg parse_tls_server_hello_msg
parse_hello-Safe b = (
  parse_record-Safe _ (client_hello-unmarshal-Safe new_client_hello) b,
  parse_record-Safe _ (server_hello-unmarshal-Safe new_server_hello) b,
)
