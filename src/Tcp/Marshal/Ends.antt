-- ===== src/Tcp/Marshal/Ends.antt =====
-- raw_linux.go: tcpLayer.marshal, decodeTCPlayer and getMssFromTcpLayer come to an end.
use rawcon.Common.{
  arith, ℕ, zero, suc, ◌+◌, not, ◌||◌, Option-cases, inl, inr, List, [], ◌∷◌, ◌==◌, leb, length,
}
use rawcon.Common.Go.{ok, panic, Ends, Ends-bind, Ends-if, Ends-eq}
use rawcon.Common.Bytes.{Bytes, index, index-Ends, slice_to, slice_to-Ends, put, put16}
use rawcon.Tcp.{TcpOption, TcpLayer, Error, kind_mss}
use rawcon.Tcp.Checksum.{to4, csum_of, csum}
use rawcon.Tcp.Decode.{u16_at, get_mss_from_tcp_layer}
use rawcon.Tcp.Marshal.{
  is_single, put32, copy_within, copy_from, write_header, write_option, write_options, write_tail,
  marshal,
}

put-Ends : (b : Bytes) (i v : ℕ) → Ends {E = Error} (put b i v)
put-Ends [] i v = tt
put-Ends (x ∷ xs) zero v = tt
put-Ends (x ∷ xs) (suc i) v = Ends-bind (put {E = Error} xs i v) _ (put-Ends xs i v) (λ _ _. tt)

put16-Ends : (b : Bytes) (i v : ℕ) → Ends {E = Error} (put16 b i v)
unfolding put16
put16-Ends b i v =
    Ends-bind (put {E = Error} b i _) _ (put-Ends b i _) (λ b' _. put-Ends b' (suc i) _)

put32-Ends : (b : Bytes) (i v : ℕ) → Ends (put32 b i v)
unfolding put32
put32-Ends b i v = Ends-bind (put b i _) _ (put-Ends b i _) λ b1 _.
    Ends-bind (put b1 (suc i) _) _ (put-Ends b1 (suc i) _) λ b2 _.
      Ends-bind (put b2 (suc (suc i)) _) _ (put-Ends b2 (suc (suc i)) _) λ b3 _. put-Ends b3 _ _

copy_from-Ends : (b : Bytes) (i : ℕ) (src : Bytes) → Ends (copy_from b i src)
unfolding copy_from
copy_from-Ends b i src = Ends-if (leb i (length b)) _ _ (λ _. tt) (λ _. tt)

copy_within-Ends : (b : Bytes) (i : ℕ) (src : Bytes) → Ends (copy_within b i src)
unfolding copy_within
copy_within-Ends b i src = Ends-if (leb (i + length src) (length b)) _ _ (λ _. tt) (λ _. tt)

write_header-Ends : (b : Bytes) (tcp : TcpLayer) (offset : ℕ) → Ends (write_header b tcp offset)
unfolding write_header
write_header-Ends b tcp offset = Ends-bind (put16 b 0 _) _ (put16-Ends b 0 _) λ b1 _.
    Ends-bind (put16 b1 2 _) _ (put16-Ends b1 2 _) λ b2 _.
      Ends-bind (put32 b2 4 _) _ (put32-Ends b2 4 _) λ b3 _.
        Ends-bind (put32 b3 8 _) _ (put32-Ends b3 8 _) λ b4 _.
          Ends-bind (put16 b4 12 _) _ (put16-Ends b4 12 _)
            λ b5 _. Ends-bind (put16 b5 14 _) _ (put16-Ends b5 14 _) λ b6 _. put16-Ends b6 18 _

write_option-Ends : (b : Bytes) (start : ℕ) (v : TcpOption) → Ends (write_option b start v)
unfolding write_option
write_option-Ends b start v = Ends-bind (put b start _) _ (put-Ends b start _) λ b1 _.
    Ends-if (is_single v.kind) _ _ (λ _. tt)
      λ _. Ends-bind (put b1 (start + 1) _) _ (put-Ends b1 (start + 1) _) λ b2 _.
        Ends-bind (copy_within b2 (start + 2) _) _ (copy_within-Ends b2 (start + 2) _) λ b3 _. tt

write_options-Ends : (b : Bytes) (start : ℕ) (vs : List TcpOption) → Ends (write_options b start vs)
unfolding write_options
write_options-Ends b start [] = tt
write_options-Ends b start (v ∷ vs) =
    Ends-bind (write_option b start v) _ (write_option-Ends b start v)
      λ r _. write_options-Ends r.0 r.1 vs

write_tail-Ends :
    (b : Bytes) (start : ℕ) (padding payload : Bytes) → Ends (write_tail b start padding payload)
unfolding write_tail
write_tail-Ends b start padding payload =
    Ends-bind (copy_from b start _) _ (copy_from-Ends b start _)
      λ b1 _. Ends-bind (copy_from b1 _ _) _ (copy_from-Ends b1 _ _) λ b2 _. put16-Ends b2 16 0

csum-Ends : (b srcip dstip : Bytes) → Ends (csum b srcip dstip)
unfolding csum
csum-Ends b srcip dstip = elim (Option-cases (to4 srcip)) [
  | inl e ↦ Ends-eq _ panic (ground arith) tt
  | inr (s, e) ↦ elim (Option-cases (to4 dstip)) [
    | inl f ↦ Ends-eq _ panic (ground arith) tt
    | inr (d, f) ↦ Ends-eq _ (ok (csum_of b s d)) (ground arith) tt
  ]
]

pub marshal-Ends : (tcp : TcpLayer) (srcip dstip : Bytes) → Ends (marshal tcp srcip dstip)
unfolding marshal
marshal-Ends tcp srcip dstip =
    Ends-bind (write_header _ tcp _) _ (write_header-Ends _ tcp _) λ b1 _.
      Ends-bind (write_options b1 20 tcp.options) _ (write_options-Ends b1 20 tcp.options) λ r _.
        Ends-bind (write_tail r.0 r.1 _ _) _ (write_tail-Ends r.0 r.1 _ _) λ b3 _.
          Ends-bind (slice_to b3 _) _ (slice_to-Ends Error b3 _) λ segment _.
            Ends-bind (csum segment srcip dstip) _ (csum-Ends segment srcip dstip) λ sum _.
              Ends-bind (put16 segment 16 sum) _ (put16-Ends segment 16 sum)
                λ s _. Ends-bind (put16 b3 16 sum) _ (put16-Ends b3 16 sum) λ b4 _. tt

pub get_mss-Ends : (vs : List TcpOption) → Ends (get_mss_from_tcp_layer vs)
unfolding get_mss_from_tcp_layer
get_mss-Ends [] = tt
get_mss-Ends (v ∷ vs) =
    Ends-if (not (v.kind == kind_mss) || length v.content == 0) _ _ (λ _. get_mss-Ends vs)
      (λ _. u16_at-Ends v.content 0)
  where
    u16_at-Ends : (b : Bytes) (i : ℕ) → Ends (u16_at b i)
    u16_at-Ends b i =
        Ends-bind (index b i) _ (index-Ends Error b i)
          λ hi _. Ends-bind (index b (suc i)) _ (index-Ends Error b (suc i)) λ lo _. tt
