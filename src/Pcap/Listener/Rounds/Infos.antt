-- ===== src/Pcap/Listener/Rounds/Infos.antt =====
-- raw_other.go, RAWListener.ReadFrom: the steps of a round that do not mark a peer for TLS.
use rawcon.Common.{
  ℕ, ◌+◌, ◌%◌, ◌≡◌, refl, Bool, true, false, Option, none, some, [], ltb, length, replicate,
  if◌then◌else◌, Bool-cases, inl, inr,
}
use rawcon.Common.Go.{ok, ◌>>=◌, Holds, Holds-bind}
use rawcon.Common.Bytes.{Bytes, slice_to, u32}
use rawcon.Tcp.{Error}
use rawcon.Tls.Records.Generate.{gen_tls_server_hello}
use rawcon.Conn.Http.{build_http_response}
use rawcon.Listener.{Draw}
use rawcon.Listener.Step.{from_tls}
use rawcon.Pcap.{Layers, ConnInfo}
use rawcon.Pcap.Listener.{set_ackn, advance, prepare_hello, prepared, prepare_post}

abbrev pub IsPlainInfo : ConnInfo → Type 0
IsPlainInfo info = info.tls ≡ false

pub advance-tls : (info : ConnInfo) (cl : Layers) → (advance info cl).tls ≡ info.tls
unfolding advance
advance-tls info cl =
    elim (Bool-cases (ltb info.layer.tcp.ackn (cl.tcp.seqn + length cl.payload))) [
      | inl h ↦ rw h refl
      | inr h ↦ rw h refl
    ]

pub prepare_post-tls :
    (draw : Draw) (info : ConnInfo) (cl : Layers) (n : ℕ) (post : Bool)
    → (prepare_post draw info cl n post).tls ≡ info.tls
unfolding prepare_post
prepare_post-tls draw info cl n post = by_rep info.rep post
  where
    by_rep :
        (rep : Option Bytes) (post' : Bool)
        → ConnInfo.tls (elim rep as (λ r. ConnInfo) [
          | some b ↦ info
          | none ↦
              if post'
              then record (set_ackn info (u32 (info.layer.tcp.ackn + n))) {
                rep = some (build_http_response [] draw.content);
                hseqn = cl.tcp.seqn;
              }
              else info
        ])
          ≡ info.tls
    by_rep (some b) post' = refl
    by_rep none true = refl
    by_rep none false = refl

prepare_hello-tls :
    (draw : Draw) (info : ConnInfo) (cl : Layers) (id : Bytes)
    → IsPlainInfo info
    → Holds (λ p. IsPlainInfo p.0) (prepare_hello draw info cl id)
unfolding prepare_hello
prepare_hello-tls draw info cl id plain = by_rep info.rep
  where
    by_rep :
        (rep : Option Bytes)
        → Holds {E = Error} {A = ConnInfo × ℕ}
            (λ p. IsPlainInfo p.0)
            (elim rep [
              | some rep' ↦ ok (
                record (set_ackn info (u32 (info.layer.tcp.ackn + length cl.payload))) {
                  hseqn = cl.tcp.seqn;
                },
                length cl.payload,
              )
              | none ↦ do
                (rep', m) ← from_tls (
                    gen_tls_server_hello draw.now draw.random draw.fresh_id
                      (replicate 2048 0)
                      (draw.filler % 128)
                      id)
                cut ← slice_to rep' (draw.filler % 128 + m)
                ok (
                  record (set_ackn info (u32 (info.layer.tcp.ackn + length cl.payload))) {
                    hseqn = cl.tcp.seqn;
                    rep = some cut;
                  },
                  m,
                )
            ])
    by_rep (some rep') = plain
    by_rep none =
        Holds-bind {A = Bytes × ℕ} (λ (p : ConnInfo × ℕ). IsPlainInfo p.0)
          (from_tls (
            gen_tls_server_hello draw.now draw.random draw.fresh_id (replicate 2048 0)
              (draw.filler % 128) id))
          _
          λ r _.
            Holds-bind (λ (p : ConnInfo × ℕ). IsPlainInfo p.0)
              (slice_to r.0 (draw.filler % 128 + r.1)) _ (λ _ _. plain)

pub prepared-tls :
    (draw : Draw) (info : ConnInfo) (cl : Layers) (hello : Option Bytes)
    → IsPlainInfo info
    → Holds (λ p. IsPlainInfo p.0) (prepared draw info cl hello)
unfolding prepared
prepared-tls draw info cl (some id) plain = prepare_hello-tls draw info cl id plain
prepared-tls draw info cl none plain = plain
