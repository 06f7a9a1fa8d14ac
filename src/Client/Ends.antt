-- ===== src/Client/Ends.antt =====
-- raw_linux.go, RAWConn: how its writes and reads end.
use rawcon.Common.{
  ℕ, zero, suc, ◌+◌, ◌<◌, ◌≡◌, ◌≢◌, sym, ap, ◌⊎◌, inl, inr, arith, not, ◌||◌, ◌==◌, ltb, Option,
  none, some, List, [], ◌∷◌, length,
}
use rawcon.Common.Go.{Go, ok, err, panic, stuck, >>=-eq-ok, Ends, Ends-bind, Ends-if, Ends-ne-stuck}
use rawcon.Common.Bytes.{Bytes}
use rawcon.Tcp.{TcpLayer, Error, syn, psh, ack, fin, chk_flag}
use rawcon.Tcp.Decode.{decode_tcp_layer}
use rawcon.Tcp.Decode.Safety.{decode-Ends}
use rawcon.Tcp.Marshal.{marshal}
use rawcon.Tcp.Marshal.Ends.{marshal-Ends}
use rawcon.Conn.{Raw, Addr, PktLayers, ConnError, Socket}
use rawcon.Conn.Send.{send_packet_with_layer, send_ack_with_layer, write_with_layer}
use rawcon.Client.{
  RawConn, Incoming, failure, packet, Read, got, reset, read_error, decode_error, drained,
  read_packet, in_buffer, read_tcp_layer, write, send_ack, failed, on_layer, on_read, read_from,
  Received, waiting,
}

-- The parts of what a read returns.
abbrev read_of : Go Error (Read × List Incoming) → Read
read_of (ok r) = r.0
read_of _ = drained

abbrev rest_of : Go Error (Read × List Incoming) → List Incoming
rest_of (ok r) = r.1
rest_of _ = []

pub send_packet-Ends : (layer : PktLayers) (s : Socket) → Ends (send_packet_with_layer layer s)
unfolding send_packet_with_layer
send_packet-Ends layer s =
    Ends-bind (marshal layer.tcp layer.srcip layer.dstip) _ (marshal-Ends _ _ _) (λ _ _. tt)

pub send_ack-Ends : (conn : RawConn) → Ends (send_ack conn)
unfolding send_ack send_ack_with_layer
send_ack-Ends conn =
    Ends-bind (send_ack_with_layer conn.layer conn.socket) _ (send_packet-Ends _ conn.socket)
      (λ _ _. tt)

pub write-Ends : (b : Bytes) (conn : RawConn) → Ends (write b conn)
unfolding write write_with_layer
write-Ends b conn =
    Ends-bind (write_with_layer b conn.layer conn.socket) _ (send_packet-Ends _ conn.socket)
      (λ _ _. tt)

read_packet-Ends :
    (r : Raw) (port : ℕ) (ip : Bytes) (m : Go Error TcpLayer)
    → Ends m
    → Ends (read_packet r port ip m)
unfolding read_packet
read_packet-Ends r port ip (ok tcp) h = tt
read_packet-Ends r port ip (err e) h = tt
read_packet-Ends r port ip panic h = tt
read_packet-Ends r port ip stuck h = absurd h

pub read_tcp_layer-Ends :
    (r : Raw) (port : ℕ) (is : List Incoming) → Ends (read_tcp_layer r port is)
unfolding read_tcp_layer
read_tcp_layer-Ends r port [] = tt
read_tcp_layer-Ends r port (failure t ∷ is) = tt
read_tcp_layer-Ends r port (packet ip b ∷ is) =
    Ends-bind (read_packet r port ip (decode_tcp_layer (in_buffer b))) _
      (read_packet-Ends r port ip (decode_tcp_layer (in_buffer b)) (decode-Ends (in_buffer b)))
      λ one _. next (read_tcp_layer-Ends r port is) one
  where
    next :
        Ends (read_tcp_layer r port is)
        → (one : Option Read)
        → Ends (elim one [ none ↦ read_tcp_layer r port is | some read ↦ ok (read, is) ])
    next rest none = rest
    next rest (some read) = tt

-- A read that finds something takes a packet.
pub read_tcp_layer-shorter :
    (r : Raw) (port : ℕ) (is : List Incoming) (read : Read) (rest : List Incoming)
    → read_tcp_layer r port is ≡ ok (read, rest)
    → (read ≡ drained) ⊎ (length rest < length is)
unfolding read_tcp_layer
read_tcp_layer-shorter r port [] read rest h =
    inl (sym (ap (λ (m : Go Error (Read × List Incoming)). read_of m) h))
read_tcp_layer-shorter r port (failure t ∷ is) read rest h =
    inr (let e : is ≡ rest = ap rest_of h in rw (← e) (omega arith))
read_tcp_layer-shorter r port (packet ip b ∷ is) read rest h =
    let (one, read1, h2) = >>=-eq-ok (read_packet r port ip (decode_tcp_layer (in_buffer b))) _ h in
    next (λ k. read_tcp_layer-shorter r port is read rest k) one h2
  where
    next :
        (read_tcp_layer r port is ≡ ok (read, rest) → (read ≡ drained) ⊎ (length rest < length is))
        → (one : Option Read)
        → elim one [ none ↦ read_tcp_layer r port is | some found ↦ ok (found, is) ]
          ≡ ok (read, rest)
        → (read ≡ drained) ⊎ (length rest < length (packet ip b ∷ is))
    next rec none k = elim (rec k) [ inl e ↦ inl e | inr e ↦ inr (omega arith) ]
    next rec (some found) k = inr (let e : is ≡ rest = ap rest_of k in rw (← e) (omega arith))

sent_or-Ends :
    (e : Option ConnError) (conn' : RawConn)
    → Ends {E = Error} {A = Option Received × RawConn}
        (elim e [ some e' ↦ ok (some (failed e'), conn') | none ↦ ok (none, conn') ])
sent_or-Ends none conn' = tt
sent_or-Ends (some e) conn' = tt

on_layer-Ends :
    (cap : ℕ) (tcp : TcpLayer) (a : Addr) (conn : RawConn) → Ends (on_layer cap tcp a conn)
unfolding on_layer
on_layer-Ends cap tcp a conn =
    Ends-if (chk_flag tcp fin) _ _ (λ _. tt)
      λ _.
        Ends-if (chk_flag tcp (syn + ack)) _ _
          (λ _. Ends-bind (send_ack conn) _ (send_ack-Ends conn) λ r _. sent_or-Ends r.0 r.1)
          λ _.
            Ends-if (not (chk_flag tcp (psh + ack)) || tcp.seqn == conn.hseqn) _ _ (λ _. tt)
              λ _.
                Ends-if (length tcp.payload == 0) _ _ (λ _. tt)
                  λ _.
                    Ends-if conn.r.tls _ _
                      (λ _. Ends-if (ltb (length tcp.payload) 5) _ _ (λ _. tt) (λ _. tt)) (λ _. tt)

on_read-Ends : (cap : ℕ) (read : Read) (conn : RawConn) → Ends (on_read cap read conn)
unfolding on_read
on_read-Ends cap (got tcp a) conn = on_layer-Ends cap tcp a conn
on_read-Ends cap (reset tcp a) conn = tt
on_read-Ends cap (read_error t) conn = tt
on_read-Ends cap (decode_error e) conn = tt
on_read-Ends cap drained conn = tt

read_from-Ends :
    (fuel cap : ℕ) (conn : RawConn) (is : List Incoming)
    → length is < fuel
    → Ends (read_from fuel cap conn is)
unfolding read_from on_read
read_from-Ends zero size conn is h = absurd (omega arith)
read_from-Ends (suc fuel) cap conn is h =
    Ends-bind (read_tcp_layer conn.r conn.dstport is) _ (read_tcp_layer-Ends conn.r conn.dstport is)
      λ r found. Ends-bind (on_read cap r.0 conn) _ (on_read-Ends cap r.0 conn) λ out came.
        next (λ conn' rest shorter. read_from-Ends fuel cap conn' rest (omega arith)) r.0 r.1
          (read_tcp_layer-shorter conn.r conn.dstport is r.0 r.1 found) out.0 out.1 came
  where
    out_of : Go Error (Option Received × RawConn) → Option Received
    out_of (ok r) = r.0
    out_of _ = none

    next :
        ((conn' : RawConn) (rest : List Incoming)
          → length rest < length is
          → Ends (read_from fuel cap conn' rest))
        → (read : Read) (rest : List Incoming) → (read ≡ drained) ⊎ (length rest < length is)
        → (out : Option Received) (conn' : RawConn) → on_read cap read conn ≡ ok (out, conn')
        → Ends {E = Error} {A = Received × RawConn × List Incoming} (elim out [
          | some received ↦ ok (received, conn', rest)
          | none ↦ read_from fuel cap conn' rest
        ])
    next rec read rest shorter (some received) conn' came = tt
    next rec read rest (inr shorter) none conn' came = rec conn' rest shorter
    next rec read rest (inl idle) none conn' came = absurd (waits (rw idle at came))
      where
        waits : on_read cap drained conn ≡ ok (none, conn') → ⊥
        waits k = let e : some waiting ≡ none = ap out_of k in cc

-- ReadFrom does not go on for ever on any packets: in at most one round more than there are packets and
-- errors it returns, panics, or waits for the next packet.
pub read_from-ne-stuck :
    (cap : ℕ) (conn : RawConn) (is : List Incoming)
    → read_from (suc (length is)) cap conn is ≢ stuck
read_from-ne-stuck cap conn is =
    Ends-ne-stuck _ (read_from-Ends (suc (length is)) cap conn is (omega arith))
