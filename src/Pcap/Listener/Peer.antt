-- ===== src/Pcap/Listener/Peer.antt =====
-- raw_other.go and raw_darwin.go, RAWListener: what the listener knows of one peer, as in
-- Listener/Peer.antt, and how a change of its maps moves the peer.
use rawcon.Common.{
  ℕ, ◌≤◌, ◌≡◌, refl, Bool, true, false, ◌⊎◌, Option, none, some, [], length, if◌then◌else◌,
}
use rawcon.Common.Go.{Go, Holds}
use rawcon.Tcp.{Error}
use rawcon.Conn.{Addr, ConnError, established}
use rawcon.Listener.Peer.{Status, absent, clash, pending, joined, Move, stays, lost, addr_eq_refl}
use rawcon.Pcap.{ConnInfo, Handle}
use rawcon.Pcap.Listener.{
  insert, delete, Listener, Round, continue, deliver, failed, listener_of, or_fail, put_conn,
  put_new, promote,
}
use rawcon.Pcap.Listener.Kept.{SameBut}

abbrev pub status_of : Option ConnInfo → Option ConnInfo → Status
status_of none none = absent
status_of (some i) none = pending i.state
status_of none (some j) = joined j.state
status_of (some i) (some j) = clash

abbrev pub peer : Listener → Addr → Status
peer l a = status_of (l.newcons a) (l.conns a)

-- The settings are as before, and so is all that is known of other addresses; `a` has made a move.
pub record Moved (l : Listener) (a : Addr) (l' : Listener) : Type 0 where
  pub same_r : l'.r ≡ l.r
  pub newcons_same : SameBut a l.newcons l'.newcons
  pub conns_same : SameBut a l.conns l'.conns
  pub move : Move l.r (peer l a) (peer l' a)

-- Bytes are handed on only from the sender, at most `cap` of them, and, if there are any, only once
-- its connection is established.
abbrev pub Delivers : ℕ → Addr → Round → Type 0
Delivers cap a (continue l) = Unit
Delivers cap a (failed l e) = Unit
Delivers cap a (deliver l b from) =
    (from ≡ a) × (length b ≤ cap) × ((b ≡ []) ⊎ (peer l a ≡ joined established))

abbrev pub Sound : ℕ → Listener → Addr → Round → Type 0
Sound cap l a round = Moved l a (listener_of round) × Delivers cap a round

module _ (l : Listener) (a : Addr) (h : Handle) where
  pub same-Moved : Moved l a (record l { handle = h })
  same-Moved = record {
    same_r = refl;
    newcons_same = λ b other. refl;
    conns_same = λ b other. refl;
    move = stays;
  }

  pub drop_new-Moved :
      l.conns a ≡ none → Moved l a (record l { newcons = delete a l.newcons; handle = h })
  unfolding delete
  drop_new-Moved free =
      let gone : peer (record l { newcons = delete a l.newcons; handle = h }) a ≡ absent =
        rw (addr_eq_refl a, free) in
      record {
        same_r = refl;
        newcons_same = λ b other. rw other;
        conns_same = λ b other. refl;
        move = rw gone lost;
      }

  pub drop_conn-Moved :
      l.newcons a ≡ none → Moved l a (record l { conns = delete a l.conns; handle = h })
  unfolding delete
  drop_conn-Moved free =
      let gone : peer (record l { conns = delete a l.conns; handle = h }) a ≡ absent =
        rw (addr_eq_refl a, free) in
      record {
        same_r = refl;
        newcons_same = λ b other. refl;
        conns_same = λ b other. rw other;
        move = rw gone lost;
      }

  module _ (info : ConnInfo) where
    pub peer-put_conn :
        l.newcons a ≡ none → peer (put_conn (record l { handle = h }) a info) a ≡ joined info.state
    unfolding insert
    peer-put_conn free = rw (addr_eq_refl a, free)

    pub put_conn-Moved :
        l.newcons a ≡ none
        → Move l.r (peer l a) (joined info.state)
        → Moved l a (put_conn (record l { handle = h }) a info)
    unfolding insert
    put_conn-Moved free move = record {
      same_r = refl;
      newcons_same = λ b other. refl;
      conns_same = λ b other. rw other;
      move = rw (peer-put_conn free) move;
    }

    pub put_new-Moved :
        l.conns a ≡ none
        → Move l.r (peer l a) (pending info.state)
        → Moved l a (put_new (record l { handle = h }) a info)
    unfolding insert
    put_new-Moved free move =
        let now : peer (put_new (record l { handle = h }) a info) a ≡ pending info.state =
          rw (addr_eq_refl a, free) in
        record {
          same_r = refl;
          newcons_same = λ b other. rw other;
          conns_same = λ b other. refl;
          move = rw now move;
        }

    pub peer-promote : peer (promote (record l { handle = h }) a info) a ≡ joined info.state
    unfolding insert delete
    peer-promote = rw (addr_eq_refl a)

    pub promote-Moved :
        Move l.r (peer l a) (joined info.state)
        → Moved l a (promote (record l { handle = h }) a info)
    unfolding insert delete
    promote-Moved move = record {
      same_r = refl;
      newcons_same = λ b other. rw other;
      conns_same = λ b other. rw other;
      move = rw peer-promote move;
    }

module _ (cap : ℕ) (l : Listener) (a : Addr) where
  pub go_on-Sound : (l' : Listener) → Moved l a l' → Sound cap l a (continue l')
  go_on-Sound l' moved = (moved, tt)

  pub or_fail-Sound :
      (e : Option ConnError) (l' : Listener) (next : Round)
      → Moved l a l'
      → Sound cap l a next
      → Sound cap l a (or_fail e l' next)
  or_fail-Sound none l' next moved sound = sound
  or_fail-Sound (some e) l' next moved sound = (moved, tt)

  pub if-Sound :
      (b : Bool) (x y : Round)
      → (b ≡ true → Sound cap l a x)
      → (b ≡ false → Sound cap l a y)
      → Sound cap l a (if b then x else y)
  if-Sound true x y h k = h refl
  if-Sound false x y h k = k refl

  pub if-SoundHolds :
      (b : Bool) (x y : Go Error Round)
      → Holds (Sound cap l a) x
      → Holds (Sound cap l a) y
      → Holds (Sound cap l a) (if b then x else y)
  if-SoundHolds true x y h k = h
  if-SoundHolds false x y h k = k
