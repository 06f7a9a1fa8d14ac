-- ===== src/Darwin/Listener.antt =====
-- raw_darwin.go, RAWListener.ReadFrom. What a round does for a reset, for the data of an established
-- peer, for a stranger, and at the end of a handshake is, statement for statement, what it does in
-- raw_other.go (Pcap/Listener.antt); the answer to a client hello is not.
pub mod Refines
pub mod Records
mod Tests
use rawcon.Common.{
  ℕ, true, ◌+◌, ◌%◌, ◌&&◌, ◌||◌, Option, none, some, ltb, length, replicate, if◌then◌else◌,
}
use rawcon.Common.Go.{Go, ok, err, panic, stuck, ◌>>=◌}
use rawcon.Common.Bytes.{Bytes, u32, slice_to}
use rawcon.Tcp.{Error}
use rawcon.Tls.Records.Generate.{gen_tls_server_hello}
use rawcon.Conn.{Addr, State, wait_http_req, syn_received, http_rep_sent, established}
use rawcon.Listener.{Draw}
use rawcon.Listener.Step.{from_tls, client_hello, is_post}
use rawcon.Pcap.{Layers, ConnInfo}
use rawcon.Pcap.Listener
use rawcon.Pcap.Listener.{
  Listener, Round, set_ackn, prepare_post, reply, on_syn_again, close_conn_by_addr, sender,
}

-- The answer to a client hello, with the value that `n` has afterwards. The peer's later data are taken
-- for TLS records.
unfoldable pub prepare_hello : Draw → ConnInfo → Layers → Bytes → Go Error (ConnInfo × ℕ)
prepare_hello draw info cl session_id =
    let known = record (set_ackn info (u32 (info.layer.tcp.ackn + length cl.payload))) {
      hseqn = cl.tcp.seqn;
      tls = true;
    } in
    elim info.rep [
      | some rep ↦ ok (known, length cl.payload)
      | none ↦ do
        (rep, n) ← from_tls (
            gen_tls_server_hello draw.now draw.random draw.fresh_id (replicate 2048 0)
              (draw.filler % 128) session_id)
        cut ← slice_to rep (draw.filler % 128 + n)
        ok (record known { rep = some cut }, n)
    ]

unfoldable pub prepared : Draw → ConnInfo → Layers → Option Bytes → Go Error (ConnInfo × ℕ)
prepared draw info cl (some id) = prepare_hello draw info cl id
prepared draw info cl none = ok (info, length cl.payload)

-- The first data of a peer whose connection is up.
unfoldable pub on_request : ℕ → Draw → Listener → Addr → ConnInfo → Layers → Go Error Round
on_request cap draw l a info cl = do
  hello ← client_hello l.r cl.payload
  (info1, n) ← prepared draw info cl hello
  post ← is_post cl.payload n
  let info2 = prepare_post draw info1 cl n post
  ok (reply info2.rep cap l a info2 cl n)

unfoldable pub on_handshake :
    State → ℕ → Draw → Listener → Addr → ConnInfo → Layers → Go Error Round
on_handshake wait_http_req cap draw l a info cl =
    if cl.tcp.psh && cl.tcp.ack && ltb 20 (length cl.payload)
    then on_request cap draw l a info cl
    else ok (on_syn_again l a info cl)
on_handshake syn_received cap draw l a info cl =
    Listener.on_handshake syn_received cap draw l a info cl
on_handshake http_rep_sent cap draw l a info cl =
    Listener.on_handshake http_rep_sent cap draw l a info cl
on_handshake established cap draw l a info cl =
    Listener.on_handshake established cap draw l a info cl

-- A packet that ends no connection, with what `conns` and `newcons` hold of its sender.
unfoldable pub on_packet :
    Option ConnInfo → Option ConnInfo → ℕ → ℕ → Draw → Listener → Addr → Layers → Go Error Round
on_packet none (some info) cap id draw l a cl = on_handshake info.state cap draw l a info cl
on_packet (some info) new cap id draw l a cl = Listener.on_packet (some info) new cap id draw l a cl
on_packet none none cap id draw l a cl = Listener.on_packet none none cap id draw l a cl

-- One round of the loop.
unfoldable pub step : ℕ → ℕ → Draw → Listener → Layers → Go Error Round
step cap id draw l cl =
    let a = sender cl in
    if cl.tcp.rst || cl.tcp.fin
    then ok (close_conn_by_addr (l.newcons a) (l.conns a) l a)
    else on_packet (l.conns a) (l.newcons a) cap id draw l a cl
