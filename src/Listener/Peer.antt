-- ===== src/Listener/Peer.antt =====
-- raw_linux.go, RAWListener: what the listener knows of one peer, and the moves that doRead may make.
use rawcon.Common.{ℕ, ◌≡◌, refl, arith, true, false, Option, none, some, ◌==◌}
use rawcon.Common.Bytes.{Bytes}
use rawcon.Common.Text.{bytes_eq, bytes_eq_refl, bytes_eq-eq}
use rawcon.Conn.{
  Raw, Addr, ConnInfo, Socket, State, syn_received, wait_http_req, http_rep_sent, established,
  addr_eq,
}
use rawcon.Listener.{insert, delete, Listener}
use rawcon.Listener.Step.{put_conn, put_new, promote, drop_peer}

-- A peer of neither map, of `newcons`, of `conns`, or of both.
pub data Status : Type 0 where
  absent clash : Status
  pending : State → Status
  joined : State → Status

abbrev pub status_of : Option ConnInfo → Option ConnInfo → Status
status_of none none = absent
status_of (some i) none = pending i.state
status_of none (some j) = joined j.state
status_of (some i) (some j) = clash

abbrev pub peer : Listener → Addr → Status
peer l a = status_of (l.newcons a) (l.conns a)

-- The states that belong to each map.
abbrev pub IsProper : Status → Type 0
IsProper absent = Unit
IsProper clash = ⊥
IsProper (pending syn_received) = Unit
IsProper (pending wait_http_req) = Unit
IsProper (pending http_rep_sent) = ⊥
IsProper (pending established) = ⊥
IsProper (joined syn_received) = ⊥
IsProper (joined wait_http_req) = ⊥
IsProper (joined http_rep_sent) = Unit
IsProper (joined established) = Unit

-- The moves of one peer under the settings `r`.
pub data Move (r : Raw) : Status → Status → Type 0 where
  stays : {s : Status} → Move r s s
  lost : {s : Status} → Move r s absent
  called : Move r absent (pending syn_received)
  awaited : r.no_http ≡ false → Move r (pending syn_received) (pending wait_http_req)
  connected : r.no_http ≡ true → Move r (pending syn_received) (joined established)
  answered : Move r (pending wait_http_req) (joined http_rep_sent)
  unmasked : r.mixed ≡ true → Move r (pending wait_http_req) (joined established)
  confirmed : Move r (joined http_rep_sent) (joined established)

pub Move-IsProper : {r : Raw} (s t : Status) → Move r s t → IsProper s → IsProper t
Move-IsProper s t stays h = h
Move-IsProper s t lost h = tt
Move-IsProper s t called h = tt
Move-IsProper s t (awaited e) h = tt
Move-IsProper s t (connected e) h = tt
Move-IsProper s t answered h = tt
Move-IsProper s t (unmasked e) h = tt
Move-IsProper s t confirmed h = tt

pub addr_eq_refl : (a : Addr) → addr_eq a a ≡ true
unfolding addr_eq
addr_eq_refl a =
    let same : (a.port == a.port) ≡ true = ground arith in rw (bytes_eq_refl a.ip, same)

abbrev addr_of : Bytes → ℕ → Addr
addr_of ip port = record { ip = ip; port = port }

same_addr : (i j : Bytes) (p q : ℕ) → i ≡ j → p ≡ q → addr_of i p ≡ addr_of j q
same_addr i j p q h k = rw (h, k)

pub addr_eq-eq : (a b : Addr) → addr_eq a b ≡ true → a ≡ b
unfolding addr_eq
addr_eq-eq a b h =
    let ips : bytes_eq a.ip b.ip ≡ true = ground arith in
    let ports : a.port ≡ b.port = ground arith in
    same_addr a.ip b.ip a.port b.port (bytes_eq-eq a.ip b.ip ips) ports

-- The settings are as before, and so is all that is known of other addresses.
abbrev pub Keeps : Listener → Addr → Listener → Type 0
Keeps l a l' =
    (l'.r ≡ l.r)
    × ((b : Addr) → addr_eq a b ≡ false → (l'.newcons b ≡ l.newcons b) × (l'.conns b ≡ l.conns b))

abbrev pub Moves : Listener → Addr → Listener → Type 0
Moves l a l' = Keeps l a l' × Move l.r (peer l a) (peer l' a)

module _ (l : Listener) (a : Addr) (s : Socket) where
  pub Moves-same : Moves l a (record l { socket = s })
  Moves-same = ((refl, λ b other. (refl, refl)), stays)

  pub Moves-drop : Moves l a (drop_peer l a)
  unfolding delete
  Moves-drop =
      let gone : peer (drop_peer l a) a ≡ absent = rw (addr_eq_refl a) in
      ((refl, λ b other. (rw other, rw other)), rw gone lost)

  pub peer-put_conn :
      (info : ConnInfo)
      → l.newcons a ≡ none
      → peer (put_conn (record l { socket = s }) a info) a ≡ joined info.state
  unfolding insert
  peer-put_conn info free = rw (addr_eq_refl a, free)

  pub Moves-put_conn :
      (info : ConnInfo)
      → l.newcons a ≡ none
      → Move l.r (peer l a) (joined info.state)
      → Moves l a (put_conn (record l { socket = s }) a info)
  unfolding insert
  Moves-put_conn info free move =
      let now : peer (put_conn (record l { socket = s }) a info) a ≡ joined info.state =
        rw (addr_eq_refl a, free) in
      ((refl, λ b other. (refl, rw other)), rw now move)

  pub Moves-put_new :
      (info : ConnInfo)
      → l.conns a ≡ none
      → Move l.r (peer l a) (pending info.state)
      → Moves l a (put_new (record l { socket = s }) a info)
  unfolding insert
  Moves-put_new info free move =
      let now : peer (put_new (record l { socket = s }) a info) a ≡ pending info.state =
        rw (addr_eq_refl a, free) in
      ((refl, λ b other. (rw other, refl)), rw now move)

  pub peer-promote :
      (info : ConnInfo) → peer (promote (record l { socket = s }) a info) a ≡ joined info.state
  unfolding insert delete
  peer-promote info = rw (addr_eq_refl a)

  pub Moves-promote :
      (info : ConnInfo)
      → Move l.r (peer l a) (joined info.state)
      → Moves l a (promote (record l { socket = s }) a info)
  unfolding insert delete
  Moves-promote info move = ((refl, λ b other. (rw other, rw other)), rw (peer-promote info) move)
