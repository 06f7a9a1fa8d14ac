-- ===== src/Tcp/Decode/Safety.antt =====
-- raw_linux.go, decodeTCPlayer on any bytes: it ends, what a success says of the packet, and the
-- packets that make it panic.
use rawcon.Common.{
  ℕ, zero, suc, ◌*◌, ◌/◌, ◌≤◌, ◌<◌, ◌≡◌, ◌≢◌, sym, ap, ◌∙◌, arith, false, List, [], ◌∷◌, ◌++◌,
  length, length-drop, drop, drop_all, ltb, ◌==◌, Bool-cases, inl, inr, if◌then◌else◌, All,
}
use rawcon.Common.Go.{
  ok, panic, stuck, >>=-eq-ok, Ends, Ends-bind, Ends-if, Ends-ne-stuck, Safe, Safe-if, Safe→Ends,
}
use rawcon.Common.Bytes.{
  Bytes, IsByte, be16, slice, slice_from, slice_backwards, index, index-Ends, slice_from-Ends,
  slice-Ends, slice_from-ok, slice-ok,
}
use rawcon.Tcp.{TcpOption, TcpLayer, Error, tcp_len}
use rawcon.Tcp.Decode.{decode_option, decode_options, decode_fixed, decode_tcp_layer}
use rawcon.Tcp.Decode.Options.{IsWire, decode_options-encode, decode_options-lone}
use rawcon.Tcp.Marshal.{is_single}
use rawcon.Tcp.Marshal.Layout.{encode_options}

-- An option that is read takes one byte at least.
decode_option-takes :
    (d p : Bytes) (v : TcpOption) (q : Bytes) → decode_option d p ≡ ok (v, q) → 1 ≤ v.length
unfolding decode_option
decode_option-takes d p v q e = ground arith

decode_option-Ends : (d p : Bytes) → Ends (decode_option d p)
unfolding decode_option
decode_option-Ends d p = Ends-bind (index d 0) _ (index-Ends Error d 0) λ kind _.
    Ends-if (kind == 0) _ _
      (λ _. Ends-bind (slice_from d 1) _ (slice_from-Ends Error d 1) (λ _ _. tt))
      λ _.
        Ends-if (kind == 1) _ _ (λ _. tt)
          λ _. Ends-bind (index d 1) _ (index-Ends Error d 1) λ len _.
            Ends-if (ltb len 2) _ _ (λ _. tt)
              λ _.
                Ends-if (ltb (length d) len) _ _ (λ _. tt)
                  λ _. Ends-bind (slice d 2 len) _ (slice-Ends Error d 2 len) (λ _ _. tt)

decode_options-Ends :
    (fuel : ℕ) (d : Bytes) (options : List TcpOption) (p : Bytes)
    → length d ≤ fuel
    → Ends (decode_options fuel d options p)
unfolding decode_options
decode_options-Ends fuel [] options p h = tt
decode_options-Ends zero (x ∷ d) options p h = absurd (omega arith)
decode_options-Ends (suc fuel) (x ∷ d) options p h =
    Ends-bind (decode_option (x ∷ d) p) _ (decode_option-Ends (x ∷ d) p) λ r e.
      Ends-bind (slice_from (x ∷ d) r.0.length) _ (slice_from-Ends Error (x ∷ d) r.0.length)
        λ rest cut.
          let (_, is_drop) = slice_from-ok (x ∷ d) r.0.length cut in
          decode_options-Ends fuel rest (options ++ (r.0 ∷ [])) r.1 (
            omega (
              arith,
              decode_option-takes (x ∷ d) p r.0 r.1 e,
              ap (length {A = ℕ}) is_drop,
              length-drop r.0.length (x ∷ d),
            ))

-- Twenty bytes are enough for every read of the fixed header.
decode_fixed-Safe : (b : Bytes) → 20 ≤ length b → Safe (decode_fixed b)
unfolding decode_fixed
decode_fixed-Safe
      (b0 ∷ b1 ∷ b2 ∷ b3 ∷ b4 ∷ b5 ∷ b6 ∷ b7 ∷ b8 ∷ b9 ∷ b10 ∷ b11 ∷ b12 ∷ b13 ∷ b14 ∷ b15 ∷ b16
        ∷ b17 ∷ b18 ∷ b19 ∷ rest)
      h =
    Safe-if
      (ltb
        (length (
            b0 ∷ b1 ∷ b2 ∷ b3 ∷ b4 ∷ b5 ∷ b6 ∷ b7 ∷ b8 ∷ b9 ∷ b10 ∷ b11 ∷ b12 ∷ b13 ∷ b14 ∷ b15
            ∷ b16 ∷ b17 ∷ b18 ∷ b19 ∷ rest)
          / 4)
        (be16 b12 b13 / 4096))
      _ _ (λ _. tt) (λ _. tt)
decode_fixed-Safe _ h = absurd (omega arith)

pub decode-Ends : (b : Bytes) → Ends (decode_tcp_layer b)
unfolding decode_tcp_layer
decode-Ends b =
    Ends-if (ltb (length b) tcp_len) _ _ (λ _. tt)
      λ long.
        Ends-bind (decode_fixed b) _ (Safe→Ends _ (decode_fixed-Safe b (ground arith))) λ tcp _.
          Ends-if (tcp.data_offset * 4 == tcp_len) _ _ (λ _. tt)
            λ _.
              Ends-bind (slice b tcp_len (tcp.data_offset * 4)) _
                (slice-Ends Error b tcp_len (tcp.data_offset * 4))
                λ d _.
                  Ends-bind (decode_options (length d) d [] []) _
                    (decode_options-Ends (length d) d [] [] (omega arith)) (λ _ _. tt)

-- On every packet the loop over the options ends: the fuel is never used up.
pub decode-ne-stuck : (b : Bytes) → decode_tcp_layer b ≢ stuck
decode-ne-stuck b = Ends-ne-stuck (decode_tcp_layer b) (decode-Ends b)

-- A data offset below five words passes the code's only test of it, and then the options are cut
-- out of `data` backwards.
pub decode-short_offset :
    (front : Bytes) (x y : ℕ) (back : Bytes)
    → length front ≡ 12
    → 6 ≤ length back
    → x < 80
    → IsByte y
    → decode_tcp_layer (front ++ (x ∷ y ∷ back)) ≡ panic
unfolding decode_tcp_layer decode_fixed
decode-short_offset (b0 ∷ b1 ∷ b2 ∷ b3 ∷ b4 ∷ b5 ∷ b6 ∷ b7 ∷ b8 ∷ b9 ∷ b10 ∷ b11 ∷ []) x y
      (c0 ∷ c1 ∷ c2 ∷ c3 ∷ c4 ∷ c5 ∷ rest) hf hb hx hy =
    let b : Bytes =
      b0 ∷ b1 ∷ b2 ∷ b3 ∷ b4 ∷ b5 ∷ b6 ∷ b7 ∷ b8 ∷ b9 ∷ b10 ∷ b11 ∷ x ∷ y ∷ c0 ∷ c1 ∷ c2 ∷ c3 ∷ c4
      ∷ c5 ∷ rest in
    let long : ltb (length b) 20 ≡ false = ground arith in
    let fits : ltb (length b / 4) (be16 x y / 4096) ≡ false = ground arith in
    let short : (be16 x y / 4096 * 4 == 20) ≡ false = ground arith in
    let back : slice {E = Error} b 20 (be16 x y / 4096 * 4) ≡ panic =
      slice_backwards b 20 _ (omega arith) in
    rw (long, fits, short, back)
decode-short_offset _ x y _ hf hb hx hy = absurd (omega arith)

-- Go's test before slicing the payload off changes nothing: behind the end there is no byte.
pub payload_test : (n : ℕ) (b : Bytes) → (if ltb n (length b) then drop n b else []) ≡ drop n b
payload_test n b = elim (Bool-cases (ltb n (length b))) [
  | inl before ↦ rw before
  | inr past ↦ rw past (sym (drop_all n b (ground arith)))
]

abbrev Bounds : Bytes → TcpLayer → Type 0
Bounds b tcp =
    (tcp.data_offset * 4 ≤ length b)
    × (tcp.payload ≡ drop (tcp.data_offset * 4) b)
    × (tcp.flags < 64)

decode_fixed-Bounds :
    (b : Bytes) (tcp : TcpLayer) → 20 ≤ length b → decode_fixed b ≡ ok tcp → Bounds b tcp
unfolding decode_fixed
decode_fixed-Bounds
      (b0 ∷ b1 ∷ b2 ∷ b3 ∷ b4 ∷ b5 ∷ b6 ∷ b7 ∷ b8 ∷ b9 ∷ b10 ∷ b11 ∷ b12 ∷ b13 ∷ b14 ∷ b15 ∷ b16
        ∷ b17 ∷ b18 ∷ b19 ∷ rest)
      tcp h e =
    let b : Bytes =
      b0 ∷ b1 ∷ b2 ∷ b3 ∷ b4 ∷ b5 ∷ b6 ∷ b7 ∷ b8 ∷ b9 ∷ b10 ∷ b11 ∷ b12 ∷ b13 ∷ b14 ∷ b15 ∷ b16
      ∷ b17 ∷ b18 ∷ b19 ∷ rest in
    let test : (if ltb (be16 b12 b13 / 4096 * 4) (length b)
          then drop (be16 b12 b13 / 4096 * 4) b
          else [])
        ≡ drop (be16 b12 b13 / 4096 * 4) b =
      payload_test (be16 b12 b13 / 4096 * 4) b in
    ground (arith, rw test at e)
decode_fixed-Bounds _ tcp h e = absurd (omega arith)

-- What a success says of the packet: it holds a header of at least twenty bytes, and the payload is
-- all that follows that header.
pub decode-ok_bounds :
    (b : Bytes) (tcp : TcpLayer)
    → decode_tcp_layer b ≡ ok tcp
    → (20 ≤ length b)
      × (5 ≤ tcp.data_offset)
      × (tcp.data_offset * 4 ≤ length b)
      × (tcp.payload ≡ drop (tcp.data_offset * 4) b)
      × (tcp.flags < 64)
unfolding decode_tcp_layer
decode-ok_bounds b tcp h = elim (Bool-cases (ltb (length b) 20)) [
  | inl short ↦ absurd (cc (rw short at h))
  | inr long ↦
      let room : 20 ≤ length b = ground arith in
      let (t, fixed, h2) = >>=-eq-ok (decode_fixed b) _ (rw long at h) in
      let bounds = decode_fixed-Bounds b t room fixed in
      elim (Bool-cases (t.data_offset * 4 == 20)) [
        | inl bare ↦ ground (arith, bounds, rw bare at h2)
        | inr more ↦
            let (d, cut, h3) = >>=-eq-ok (slice b 20 (t.data_offset * 4)) _ (rw more at h2) in
            let (r, read, h4) = >>=-eq-ok (decode_options (length d) d [] []) _ h3 in
            ground (arith, bounds, slice-ok b 20 (t.data_offset * 4) cut, h4)
      ]
]

-- Any options and then a lone byte that is no single-byte option: its length byte is read past the
-- end of the header.
pub decode_options-lone_panics :
    (vs : List TcpOption) (k : ℕ)
    → All IsWire vs
    → is_single k ≡ false
    → let d = encode_options vs ++ (k ∷ []) in decode_options (length d) d [] [] ≡ panic
decode_options-lone_panics vs k h wide =
    let d : Bytes = encode_options vs ++ (k ∷ []) in
    let (left, room, e) = decode_options-encode (length d) vs (k ∷ []) [] [] h (omega arith) in
    e ∙ lone left room
  where
    lone : (left : ℕ) → 1 ≤ left → decode_options left (k ∷ []) vs [] ≡ panic
    lone zero room = absurd (omega arith)
    lone (suc left) room = decode_options-lone left k vs [] wide
