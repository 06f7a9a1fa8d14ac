-- ===== src/Pcap/Client/Ends.antt =====
-- raw_other.go, RAWConn: how ReadFrom ends.
use rawcon.Common.{
  ℕ, zero, suc, ◌<◌, ◌≢◌, arith, Bool, true, false, ◌&&◌, Option, none, some, List, [], ◌∷◌, length,
  if◌then◌else◌,
}
use rawcon.Common.Go.{ok, stuck, Ends, Ends-ne-stuck}
use rawcon.Tcp.{Error}
use rawcon.Pcap.Client.{
  RawConn, Incoming, timeout, undecodable, read_error, packet, Read, got, failed, eof, drained,
  close, read_loop, read_layers, Received, on_layers, on_read, read_from,
}

-- A read that finds something takes a packet.
abbrev pub IsSpent : Read → List Incoming → List Incoming → Type 0
IsSpent (got cl) rest is = length rest < length is
IsSpent (failed temporary) rest is = length rest < length is
IsSpent eof rest is = Unit
IsSpent drained rest is = Unit

IsSpent-cons :
    (read : Read) (rest is : List Incoming) (i : Incoming)
    → IsSpent read rest is
    → IsSpent read rest (i ∷ is)
IsSpent-cons (got cl) rest is i h = omega arith
IsSpent-cons (failed temporary) rest is i h = omega arith
IsSpent-cons eof rest is i h = tt
IsSpent-cons drained rest is i h = tt

abbrev pub Spent : List Incoming → Read × RawConn × List Incoming → Type 0
Spent is r = IsSpent r.0 r.2 is

read_loop-Spent : (conn : RawConn) (is : List Incoming) → Spent is (read_loop conn is)
unfolding read_loop
read_loop-Spent conn [] = tt
read_loop-Spent conn (timeout ∷ is) =
    IsSpent-cons (read_loop conn is).0 (read_loop conn is).2 is timeout (read_loop-Spent conn is)
read_loop-Spent conn (undecodable ∷ is) =
    IsSpent-cons (read_loop (close conn) is).0 (read_loop (close conn) is).2 is undecodable
      (read_loop-Spent (close conn) is)
read_loop-Spent conn (read_error temporary ∷ is) = omega arith
read_loop-Spent conn (packet cl ∷ is) =
    by_reset (cl.tcp.rst && conn.r.ign_rst) (read_loop-Spent conn is)
  where
    by_reset :
        (b : Bool)
        → Spent is (read_loop conn is)
        → Spent (packet cl ∷ is) (if b then read_loop conn is else (got cl, conn, is))
    by_reset true h = IsSpent-cons (read_loop conn is).0 (read_loop conn is).2 is (packet cl) h
    by_reset false h = omega arith

pub read_layers-Spent : (conn : RawConn) (is : List Incoming) → Spent is (read_layers conn is)
unfolding read_layers
read_layers-Spent conn is = by_dead conn.dead
  where
    by_dead : (b : Bool) → Spent is (if b then (eof, conn, is) else read_loop conn is)
    by_dead true = tt
    by_dead false = read_loop-Spent conn is

read_from-Ends :
    (fuel cap : ℕ) (conn : RawConn) (is : List Incoming)
    → length is < fuel
    → Ends (read_from fuel cap conn is)
unfolding read_from on_read
read_from-Ends zero size conn is h = absurd (omega arith)
read_from-Ends (suc fuel) size conn is h =
    by_read (λ conn' rest shorter. read_from-Ends fuel size conn' rest (omega arith))
      (read_layers conn is).0 (read_layers conn is).1 (read_layers conn is).2
      (read_layers-Spent conn is)
  where
    next :
        (rest : List Incoming) (out : Option Received × RawConn)
        → Ends (read_from fuel size out.1 rest)
        → Ends {E = Error} {A = Received × RawConn × List Incoming} (elim out.0 [
          | some received ↦ ok (received, out.1, rest)
          | none ↦ read_from fuel size out.1 rest
        ])
    next rest (some received, conn') k = tt
    next rest (none, conn') k = k

    by_read :
        ((conn' : RawConn) (rest : List Incoming)
          → length rest < length is
          → Ends (read_from fuel size conn' rest))
        → (read : Read) (conn1 : RawConn) (rest : List Incoming) → IsSpent read rest is
        → Ends {E = Error} {A = Received × RawConn × List Incoming}
            (elim (on_read size read conn1).0 [
              | some received ↦ ok (received, (on_read size read conn1).1, rest)
              | none ↦ read_from fuel size (on_read size read conn1).1 rest
            ])
    by_read rec (got cl) conn1 rest spent =
        next rest (on_layers size cl conn1) (rec (on_layers size cl conn1).1 rest spent)
    by_read rec (failed temporary) conn1 rest spent = tt
    by_read rec eof conn1 rest spent = tt
    by_read rec drained conn1 rest spent = tt

-- ReadFrom comes to an end on whatever the capture gives, in at most one round more than it gives
-- packets and errors.
pub pcap_read_from-ne-stuck :
    (cap : ℕ) (conn : RawConn) (is : List Incoming)
    → read_from (suc (length is)) cap conn is ≢ stuck
pcap_read_from-ne-stuck size conn is =
    Ends-ne-stuck _ (read_from-Ends (suc (length is)) size conn is (omega arith))
