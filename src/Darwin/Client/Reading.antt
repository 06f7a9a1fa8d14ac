-- ===== src/Darwin/Client/Reading.antt =====
-- raw_darwin.go, readLayers: which packet of those that come in it returns.
use rawcon.Common.{
  ℕ, ◌≡◌, refl, ◌<◌, arith, ◌↔◌, ap, ◌⊎◌, Bool, true, false, not, ◌&&◌, Option, none, some, List,
  [], ◌∷◌, ◌++◌, All, Bool-cases, inl, inr,
}
use rawcon.Common.Bytes.{Bytes}
use rawcon.Pcap.{Layers}
use rawcon.Darwin.Client.{
  RawConn, Incoming, timeout, read_error, foreign, packet, got, accepts, waits, ip_equal, ip_passes,
  port_passes, read_layers,
}

abbrev pub Matches : Option Bytes → Bytes → Type 0
Matches none ip = Unit
Matches (some own) ip = ip_equal own ip ≡ true

abbrev pub IsInTime : Option ℕ → ℕ → Type 0
IsInTime none now = Unit
IsInTime (some deadline) now = now < deadline

-- What a packet of the connection is: an address or a port that the connection does not name is any.
pub record IsOurs (conn : RawConn) (cl : Layers) : Type 0 where
  pub from : Matches conn.sip cl.src_ip
  pub to : Matches conn.dip cl.dst_ip
  pub no_reset : (conn.r.ign_rst ≡ false) ⊎ (cl.tcp.rst ≡ false)
  pub from_port : (conn.sport ≡ 0) ⊎ (conn.sport ≡ cl.tcp.src_port)
  pub to_port : (conn.dport ≡ 0) ⊎ (conn.dport ≡ cl.tcp.dst_port)

-- What readLayers reads past.
abbrev pub IsSkipped : RawConn → Incoming → Type 0
IsSkipped conn (timeout now) = IsInTime conn.rtime now
IsSkipped conn (read_error temporary) = ⊥
IsSkipped conn foreign = Unit
IsSkipped conn (packet cl) = ¬ IsOurs conn cl

abbrev pub Found : RawConn → List Incoming → Layers → List Incoming → Type 0
Found conn is cl rest =
    (skipped : List Incoming) × (is ≡ skipped ++ packet cl ∷ rest)
    × All (IsSkipped conn) skipped
    × IsOurs conn cl

ip_passes-Matches : (own : Option Bytes) (ip : Bytes) → (ip_passes own ip ≡ true) ↔ Matches own ip
ip_passes-Matches none ip = (λ _. tt, λ _. refl)
ip_passes-Matches (some own) ip = (λ h. h, λ h. h)

port_passes-lem : (own port : ℕ) → (port_passes own port ≡ true) ↔ ((own ≡ 0) ⊎ (own ≡ port))
port_passes-lem own port = (λ h. ground arith, λ h. ground arith)

all_five :
    (a b c d e : Bool)
    → ((a && b && c && d && e) ≡ true)
      ↔ ((a ≡ true) × (b ≡ true) × (c ≡ true) × (d ≡ true) × (e ≡ true))
all_five a b c d e = (λ h. ground arith, λ h. ground arith)

not_both : (a b : Bool) → (not (a && b) ≡ true) ↔ ((a ≡ false) ⊎ (b ≡ false))
not_both true b = (λ h. inr (ground arith), λ h. ground arith)
not_both false b = (λ _. inl refl, λ _. refl)

accepts-IsOurs : (conn : RawConn) (cl : Layers) → (accepts conn cl ≡ true) ↔ IsOurs conn cl
unfolding accepts
accepts-IsOurs conn cl = (
  λ h.
      let (from', to', no_reset', from_port', to_port') = (all_five _ _ _ _ _).0 h in
      record {
        from = (ip_passes-Matches conn.sip cl.src_ip).0 from';
        to = (ip_passes-Matches conn.dip cl.dst_ip).0 to';
        no_reset = (not_both conn.r.ign_rst cl.tcp.rst).0 no_reset';
        from_port = (port_passes-lem conn.sport cl.tcp.src_port).0 from_port';
        to_port = (port_passes-lem conn.dport cl.tcp.dst_port).0 to_port';
      },
  λ ours. (all_five _ _ _ _ _).1 (
    (ip_passes-Matches conn.sip cl.src_ip).1 ours.from,
    (ip_passes-Matches conn.dip cl.dst_ip).1 ours.to,
    (not_both conn.r.ign_rst cl.tcp.rst).1 ours.no_reset,
    (port_passes-lem conn.sport cl.tcp.src_port).1 ours.from_port,
    (port_passes-lem conn.dport cl.tcp.dst_port).1 ours.to_port,
  ),
)

waits-IsInTime : (rtime : Option ℕ) (now : ℕ) → (waits rtime now ≡ true) ↔ IsInTime rtime now
waits-IsInTime none now = (λ _. tt, λ _. refl)
waits-IsInTime (some deadline) now = (λ h. ground arith, λ h. ground arith)

Found-cons :
    (conn : RawConn) (i : Incoming) (is : List Incoming) (cl : Layers) (rest : List Incoming)
    → IsSkipped conn i
    → Found conn is cl rest
    → Found conn (i ∷ is) cl rest
Found-cons conn i is cl rest h (skipped, e, all, fits) =
    (i ∷ skipped, ap (λ t. i ∷ t) e, (h, all), fits)

finds :
    (conn : RawConn) (is : List Incoming) (cl : Layers) (rest : List Incoming)
    → read_layers conn is ≡ (got cl, rest)
    → Found conn is cl rest
unfolding read_layers
finds conn [] cl rest e = cc
finds conn (timeout now ∷ is) cl rest e = elim (Bool-cases (waits conn.rtime now)) [
  | inl h ↦
      Found-cons conn (timeout now) is cl rest ((waits-IsInTime conn.rtime now).0 h)
        (finds conn is cl rest (rw h at e))
  | inr h ↦ absurd (cc (rw h at e))
]
finds conn (read_error temporary ∷ is) cl rest e = cc
finds conn (foreign ∷ is) cl rest e =
    Found-cons conn foreign is cl rest tt (finds conn is cl rest e)
finds conn (packet cl' ∷ is) cl rest e = elim (Bool-cases (accepts conn cl')) [
  | inl h ↦
      let found = rw h at e in
      let same : cl' ≡ cl = cc in
      let left : is ≡ rest = cc in
      ([], rw (same, left) refl, tt, (accepts-IsOurs conn cl).0 (rw (← same) h))
  | inr h ↦
      Found-cons conn (packet cl') is cl rest (λ ours. cc ((accepts-IsOurs conn cl').1 ours, h))
        (finds conn is cl rest (rw h at e))
]

skips :
    (conn : RawConn) (skipped : List Incoming) (cl : Layers) (rest : List Incoming)
    → All (IsSkipped conn) skipped
    → IsOurs conn cl
    → read_layers conn (skipped ++ packet cl ∷ rest) ≡ (got cl, rest)
unfolding read_layers
skips conn [] cl rest all ours = rw ((accepts-IsOurs conn cl).1 ours) refl
skips conn (timeout now ∷ skipped) cl rest all ours =
    rw ((waits-IsInTime conn.rtime now).1 all.0) (skips conn skipped cl rest all.1 ours)
skips conn (read_error temporary ∷ skipped) cl rest all ours = absurd all.0
skips conn (foreign ∷ skipped) cl rest all ours = skips conn skipped cl rest all.1 ours
skips conn (packet cl' ∷ skipped) cl rest all ours = elim (Bool-cases (accepts conn cl')) [
  | inl h ↦ absurd (all.0 ((accepts-IsOurs conn cl').0 h))
  | inr h ↦ rw h (skips conn skipped cl rest all.1 ours)
]

-- readLayers on macOS returns a packet exactly if it is of the connection's addresses and ports and
-- is no reset where resets are ignored, and before it there are only timeouts before the deadline,
-- if there is one, packets without all three layers, and packets that are not such; it is then the
-- packets behind it that are left.
pub read_layers-got :
    (conn : RawConn) (is : List Incoming) (cl : Layers) (rest : List Incoming)
    → (read_layers conn is ≡ (got cl, rest)) ↔ Found conn is cl rest
read_layers-got conn is cl rest =
    (finds conn is cl rest, λ (skipped, e, all, ours). rw e (skips conn skipped cl rest all ours))
