-- ===== src/Tcp/Decode/Options.antt =====
-- raw_linux.go, decodeTCPlayer: the loop over the options, on the bytes that `marshal` writes.
use mathlib.Core.Path.{subst}
use rawcon.Common.{
  ℕ, zero, suc, ◌≤◌, ◌≡◌, ◌≢◌, refl, sym, ap, ◌∙◌, arith, true, false, List, [], ◌∷◌, ◌++◌,
  append_assoc, append-nil, length, length-append, replicate, All, Bool-cases, inl, inr,
  take_length_append, drop_length_append, ltb, ◌==◌,
}
use rawcon.Common.Go.{ok, panic}
use rawcon.Common.Bytes.{Bytes, slice, slice_from, slice_lem, slice_from_lem}
use rawcon.Tcp.{TcpOption, Error, kind_end_list, kind_nop}
use rawcon.Tcp.Decode.{decode_option, decode_options}
use rawcon.Tcp.Marshal.{is_single}
use rawcon.Tcp.Marshal.Layout.{IsSized, encode_option, encode_options}

-- An option that the loop reads back: no end of list, and the two lengths agree.
pub record IsWire (v : TcpOption) : Type 0 where
  pub no_end : v.kind ≢ kind_end_list
  pub bare : is_single v.kind ≡ true → (v.length ≡ 1) × (v.content ≡ [])
  pub sized : IsSized v

abbrev pub end_marker : TcpOption
end_marker = record { kind = kind_end_list; length = 1; content = [] }

single_kind : (k : ℕ) → is_single k ≡ true → k ≢ kind_end_list → k ≡ kind_nop
single_kind k s h = ground arith

-- Reading one written option gives it back, with what follows it.
decode_option-wide :
    (v : TcpOption) (rest padding : Bytes)
    → is_single v.kind ≡ false
    → v.length ≡ suc (suc (length v.content))
    → decode_option (v.kind ∷ v.length ∷ (v.content ++ rest)) padding ≡ ok (v, padding)
unfolding decode_option
decode_option-wide v rest padding wide e =
    let room = length-append v.content rest in
    let kind_ne0 : (v.kind == 0) ≡ false = ground arith in
    let kind_ne1 : (v.kind == 1) ≡ false = ground arith in
    let long : ltb v.length 2 ≡ false = ground arith in
    let fits : ltb (suc (suc (length (v.content ++ rest)))) v.length ≡ false =
      ground (arith, room) in
    let cut : slice {E = Error} (v.kind ∷ v.length ∷ (v.content ++ rest)) 2 v.length
        ≡ ok v.content =
      slice_lem _ 2 v.length (omega arith) (omega arith)
      ∙ rw e (ap ok (take_length_append v.content rest)) in
    rw (kind_ne0, kind_ne1, long, fits, cut)

abbrev nop : TcpOption
nop = record { kind = kind_nop; length = 1; content = [] }

after_one : (x : ℕ) (rest : Bytes) → slice_from {E = Error} (x ∷ rest) 1 ≡ ok rest
after_one x rest = slice_from_lem (x ∷ rest) 1 (omega arith)

decode_options-nop :
    (fuel : ℕ) (rest : Bytes) (options : List TcpOption) (padding : Bytes)
    → decode_options (suc fuel) (kind_nop ∷ rest) options padding
      ≡ decode_options fuel rest (options ++ (nop ∷ [])) padding
unfolding decode_options decode_option
decode_options-nop fuel rest options padding = rw (after_one kind_nop rest)

decode_options-wide :
    (fuel : ℕ) (v : TcpOption) (rest : Bytes) (options : List TcpOption) (padding : Bytes)
    → is_single v.kind ≡ false
    → v.length ≡ suc (suc (length v.content))
    → decode_options (suc fuel) (v.kind ∷ v.length ∷ (v.content ++ rest)) options padding
      ≡ decode_options fuel rest (options ++ (v ∷ [])) padding
unfolding decode_options
decode_options-wide fuel v rest options padding wide e =
    let skip : slice_from {E = Error} (v.kind ∷ v.length ∷ (v.content ++ rest)) v.length ≡ ok rest =
      slice_from_lem _ v.length (omega (arith, length-append v.content rest))
      ∙ rw e (ap ok (drop_length_append v.content rest)) in
    rw (decode_option-wide v rest padding wide e, skip)

decode_options-wire :
    (fuel : ℕ) (v : TcpOption) (rest : Bytes) (options : List TcpOption) (padding : Bytes)
    → IsWire v
    → decode_options (suc fuel) (encode_option v ++ rest) options padding
      ≡ decode_options fuel rest (options ++ (v ∷ [])) padding
unfolding encode_option
decode_options-wire fuel v rest options padding w = elim (Bool-cases (is_single v.kind)) [
  | inl single ↦
      let e : nop ≡ v = λ i. record {
        kind = sym (single_kind v.kind single w.no_end) i;
        length = sym (w.bare single).0 i;
        content = sym (w.bare single).1 i;
      } in
      subst
        (λ u.
          decode_options (suc fuel) (encode_option u ++ rest) options padding
          ≡ decode_options fuel rest (options ++ (u ∷ [])) padding)
        e (decode_options-nop fuel rest options padding)
  | inr wide ↦
      rw wide (decode_options-wide fuel v rest options padding wide (omega (arith, w.sized wide)))
]

decode_options-end :
    (fuel : ℕ) (rest : Bytes) (options : List TcpOption) (padding : Bytes)
    → decode_options (suc fuel) (kind_end_list ∷ rest) options padding
      ≡ decode_options fuel rest (options ++ (end_marker ∷ [])) rest
unfolding decode_options decode_option
decode_options-end fuel rest options padding =
    rw (after_one kind_end_list rest, after_one kind_end_list rest)

pub length-encode_option : (v : TcpOption) → 1 ≤ length (encode_option v)
unfolding encode_option
length-encode_option v = ground arith

-- The whole list, with anything behind it.
pub decode_options-encode :
    (fuel : ℕ) (vs : List TcpOption) (rest : Bytes) (options : List TcpOption) (padding : Bytes)
    → All IsWire vs
    → length (encode_options vs ++ rest) ≤ fuel
    → (left : ℕ) × (length rest ≤ left)
      × (decode_options fuel (encode_options vs ++ rest) options padding
          ≡ decode_options left rest (options ++ vs) padding)
unfolding encode_options
decode_options-encode fuel [] rest options padding h room = (fuel, room, rw (append-nil options))
decode_options-encode zero (v ∷ vs) rest options padding h room = absurd (
    omega (
      arith,
      length-encode_option v,
      length-append (encode_option v ++ encode_options vs) rest,
      length-append (encode_option v) (encode_options vs),
    ))
decode_options-encode (suc fuel) (v ∷ vs) rest options padding h room =
    let bytes = append_assoc (encode_option v) (encode_options vs) rest in
    let (left, more, e) = decode_options-encode fuel vs rest (options ++ (v ∷ [])) padding h.1 (
      omega (
        arith,
        length-encode_option v,
        ap (length {A = ℕ}) bytes,
        length-append (encode_option v) (encode_options vs ++ rest),
      )) in
    (
      left,
      more,
      rw (
        bytes,
        decode_options-wire fuel v (encode_options vs ++ rest) options padding h.0,
        e,
        append_assoc options (v ∷ []) vs,
      ),
    )

padding_after :
    (n fuel : ℕ) (options : List TcpOption) (p : Bytes)
    → suc n ≤ fuel
    → decode_options fuel (replicate (suc n) 0) options p
      ≡ ok (options ++ replicate (suc n) end_marker, [])
padding_after n zero options p h = absurd (omega arith)
padding_after zero (suc fuel) options p h =
    rw (decode_options-end fuel [] options p) (unfold decode_options in refl)
padding_after (suc n) (suc fuel) options p h = rw (
  decode_options-end fuel (replicate (suc n) 0) options p,
  padding_after n fuel (options ++ (end_marker ∷ [])) (replicate (suc n) 0) (omega arith),
  append_assoc options (end_marker ∷ []) (replicate (suc n) end_marker),
)

-- The padding that `marshal` writes comes back as that many end-of-list options.
pub decode_options-padding :
    (n fuel : ℕ) (options : List TcpOption)
    → n ≤ fuel
    → decode_options fuel (replicate n 0) options [] ≡ ok (options ++ replicate n end_marker, [])
decode_options-padding zero fuel options h = rw (append-nil options) (unfold decode_options in refl)
decode_options-padding (suc n) fuel options h = padding_after n fuel options [] h

-- A lone byte of any other kind at the end: the length byte that is read next is not there.
pub decode_options-lone :
    (fuel k : ℕ) (options : List TcpOption) (padding : Bytes)
    → is_single k ≡ false
    → decode_options (suc fuel) (k ∷ []) options padding ≡ panic
unfolding decode_options decode_option
decode_options-lone fuel k options padding h = ground arith
