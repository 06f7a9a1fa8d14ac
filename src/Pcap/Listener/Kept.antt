-- ===== src/Pcap/Listener/Kept.antt =====
-- raw_other.go, RAWListener.ReadFrom: what a round for a packet leaves as it was.
use rawcon.Common.{
  ◌≡◌, refl, Bool, true, false, not, Option, none, some, if◌then◌else◌, Bool-cases, inl, inr,
}
use rawcon.Common.Go.{Go, Holds}
use rawcon.Tcp.{Error}
use rawcon.Conn.{Addr, ConnError, addr_eq}
use rawcon.Pcap.{ConnInfo, Handle}
use rawcon.Pcap.Listener.{
  Peers, insert, delete, Listener, Round, listener_of, or_fail, put_conn, put_new, promote,
}

-- No TLS flag.
abbrev pub is_plain : Option ConnInfo → Bool
is_plain none = true
is_plain (some info) = not info.tls

abbrev pub AllPlain : Peers → Type 0
AllPlain peers = (b : Addr) → is_plain (peers b) ≡ true

-- The maps agree away from `a`.
abbrev pub SameBut : Addr → Peers → Peers → Type 0
SameBut a p q = (b : Addr) → addr_eq a b ≡ false → q b ≡ p b

insert-AllPlain :
    (a : Addr) (info : ConnInfo) (p : Peers)
    → info.tls ≡ false
    → AllPlain p
    → AllPlain (insert a info p)
unfolding insert
insert-AllPlain a info p plain all b = elim (Bool-cases (addr_eq a b)) [
  | inl same ↦ rw (same, plain) refl
  | inr other ↦ rw other (all b)
]

delete-AllPlain : (a : Addr) (p : Peers) → AllPlain p → AllPlain (delete a p)
unfolding delete
delete-AllPlain a p all b = elim (Bool-cases (addr_eq a b)) [
  | inl same ↦ rw same refl
  | inr other ↦ rw other (all b)
]

insert-SameBut :
    (a : Addr) (info : ConnInfo) (p q : Peers) → SameBut a p q → SameBut a p (insert a info q)
unfolding insert
insert-SameBut a info p q near b other = rw other (near b other)

delete-SameBut : (a : Addr) (p q : Peers) → SameBut a p q → SameBut a p (delete a q)
unfolding delete
delete-SameBut a p q near b other = rw other (near b other)

-- What a round for `a` that begins in `l` may leave behind.
pub record Kept (a : Addr) (l l' : Listener) : Type 0 where
  pub conns_same : SameBut a l.conns l'.conns
  pub newcons_same : SameBut a l.newcons l'.newcons
  pub conns_plain : AllPlain l'.conns
  pub newcons_plain : AllPlain l'.newcons
  pub same_r : l'.r ≡ l.r

module _ (a : Addr) (l : Listener) where
  abbrev pub KeptBy : Round → Type 0
  KeptBy r = Kept a l (listener_of r)

  pub same-Kept : AllPlain l.conns → AllPlain l.newcons → Kept a l l
  same-Kept c n = record {
    conns_same = λ b h. refl;
    newcons_same = λ b h. refl;
    conns_plain = c;
    newcons_plain = n;
    same_r = refl;
  }

  pub handle-Kept : (l' : Listener) (h : Handle) → Kept a l l' → Kept a l (record l' { handle = h })
  handle-Kept l' h k = record {
    conns_same = k.conns_same;
    newcons_same = k.newcons_same;
    conns_plain = k.conns_plain;
    newcons_plain = k.newcons_plain;
    same_r = k.same_r;
  }

  pub put_conn-Kept :
      (l' : Listener) (info : ConnInfo)
      → info.tls ≡ false
      → Kept a l l'
      → Kept a l (put_conn l' a info)
  put_conn-Kept l' info plain k = record {
    conns_same = insert-SameBut a info l.conns l'.conns k.conns_same;
    newcons_same = k.newcons_same;
    conns_plain = insert-AllPlain a info l'.conns plain k.conns_plain;
    newcons_plain = k.newcons_plain;
    same_r = k.same_r;
  }

  pub put_new-Kept :
      (l' : Listener) (info : ConnInfo)
      → info.tls ≡ false
      → Kept a l l'
      → Kept a l (put_new l' a info)
  put_new-Kept l' info plain k = record {
    conns_same = k.conns_same;
    newcons_same = insert-SameBut a info l.newcons l'.newcons k.newcons_same;
    conns_plain = k.conns_plain;
    newcons_plain = insert-AllPlain a info l'.newcons plain k.newcons_plain;
    same_r = k.same_r;
  }

  pub drop_conn-Kept :
      (l' : Listener) → Kept a l l' → Kept a l (record l' { conns = delete a l'.conns })
  drop_conn-Kept l' k = record {
    conns_same = delete-SameBut a l.conns l'.conns k.conns_same;
    newcons_same = k.newcons_same;
    conns_plain = delete-AllPlain a l'.conns k.conns_plain;
    newcons_plain = k.newcons_plain;
    same_r = k.same_r;
  }

  pub drop_new-Kept :
      (l' : Listener) → Kept a l l' → Kept a l (record l' { newcons = delete a l'.newcons })
  drop_new-Kept l' k = record {
    conns_same = k.conns_same;
    newcons_same = delete-SameBut a l.newcons l'.newcons k.newcons_same;
    conns_plain = k.conns_plain;
    newcons_plain = delete-AllPlain a l'.newcons k.newcons_plain;
    same_r = k.same_r;
  }

  pub promote-Kept :
      (l' : Listener) (info : ConnInfo)
      → info.tls ≡ false
      → Kept a l l'
      → Kept a l (promote l' a info)
  promote-Kept l' info plain k = drop_new-Kept (put_conn l' a info) (put_conn-Kept l' info plain k)

  pub or_fail-Kept :
      (e : Option ConnError) (l' : Listener) (next : Round)
      → Kept a l l'
      → KeptBy next
      → KeptBy (or_fail e l' next)
  or_fail-Kept none l' next k n = n
  or_fail-Kept (some e) l' next k n = k

  pub if-Kept : (b : Bool) (x y : Round) → KeptBy x → KeptBy y → KeptBy (if b then x else y)
  if-Kept true x y h k = h
  if-Kept false x y h k = k

  pub if-KeptHolds :
      (b : Bool) (x y : Go Error Round)
      → Holds KeptBy x
      → Holds KeptBy y
      → Holds KeptBy (if b then x else y)
  if-KeptHolds true x y h k = h
  if-KeptHolds false x y h k = k
