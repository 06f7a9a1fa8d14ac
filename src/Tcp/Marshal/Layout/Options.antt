-- ===== src/Tcp/Marshal/Layout/Options.antt =====
-- raw_linux.go, tcpLayer.marshal: the bytes of the fixed header and of the options.
use rawcon.Common.{
  ℕ, zero, suc, ◌+◌, ◌≤◌, ◌<◌, ◌≡◌, refl, ap, ◌∙◌, arith, true, false, List, [], ◌∷◌, ◌++◌,
  append_assoc, length, length-append, drop, length-drop, All, Bool-cases, inl, inr, if◌then◌else◌,
  drop-append,
}
use native.Mathlib.Nat.{add-zero, add_assoc}
use rawcon.Common.Go.{ok}
use rawcon.Common.Bytes.{
  Bytes, u8, bytes16, bytes32, put, put16, copy, copy_at, copy-append, copy_at-append, put-append,
}
use rawcon.Tcp.{TcpOption, TcpLayer, Error}
use rawcon.Tcp.Marshal.{
  is_single, header_len, put32, copy_within, copy_from, flag_word, write_header, write_option,
  write_options,
}

-- An option whose stored length is the one that the first loop of `marshal` computes.
abbrev pub IsSized : TcpOption → Type 0
IsSized v = is_single v.kind ≡ false → (v.length ≡ length v.content + 2) × (v.length < 256)

unfoldable pub encode_option : TcpOption → Bytes
encode_option v = if is_single v.kind then v.kind ∷ [] else v.kind ∷ v.length ∷ v.content

unfoldable pub encode_options : List TcpOption → Bytes
encode_options [] = []
encode_options (v ∷ vs) = encode_option v ++ encode_options vs

pub header_len-encode :
    (n : ℕ) (vs : List TcpOption)
    → All IsSized vs
    → header_len n vs ≡ n + length (encode_options vs)
unfolding header_len encode_options encode_option
header_len-encode n [] h = omega arith
header_len-encode n (v ∷ vs) h = elim (Bool-cases (is_single v.kind)) [
  | inl single ↦ rw (single, header_len-encode (n + 1) vs h.1) (omega arith)
  | inr wide ↦
      rw (wide, header_len-encode (n + u8 (length v.content + 2)) vs h.1)
        (omega (arith, h.0 wide, length-append v.content (encode_options vs)))
]

-- The twenty bytes of the fixed header, with two that are still to be written.
abbrev pub header_bytes : TcpLayer → ℕ → ℕ → ℕ → Bytes → Bytes
header_bytes tcp offset x y rest =
    bytes16 tcp.src_port
    ++ (bytes16 tcp.dst_port
        ++ (bytes32 tcp.seqn
            ++ (bytes32 tcp.ackn
                ++ (bytes16 (flag_word tcp offset)
                    ++ (bytes16 tcp.window ++ (x ∷ y ∷ (bytes16 tcp.urgent ++ rest)))))))

pub write_header_lem :
    (b : Bytes) (tcp : TcpLayer) (offset : ℕ)
    → 20 ≤ length b
    → (x : ℕ) × (y : ℕ) × (write_header b tcp offset ≡ ok (header_bytes tcp offset x y (drop 20 b)))
unfolding write_header put16 put32
write_header_lem
      (b0 ∷ b1 ∷ b2 ∷ b3 ∷ b4 ∷ b5 ∷ b6 ∷ b7 ∷ b8 ∷ b9 ∷ b10 ∷ b11 ∷ b12 ∷ b13 ∷ b14 ∷ b15 ∷ b16
        ∷ b17 ∷ b18 ∷ b19 ∷ rest)
      tcp offset h =
    (b16, b17, refl)
write_header_lem _ tcp offset h = absurd (omega arith)

-- Room for `n` more bytes, as a front part and the rest.
split :
    (n : ℕ) (b : Bytes)
    → n ≤ length b
    → (a : Bytes) × (c : Bytes) × (b ≡ a ++ c) × (length a ≡ n) × (c ≡ drop n b)
split zero b h = ([], b, refl, refl, refl)
split (suc n) [] h = absurd (omega arith)
split (suc n) (x ∷ b) h =
    let (a, c, e, l, d) = split n b (omega arith) in (x ∷ a, c, ap (λ t. x ∷ t) e, ap suc l, d)

copy_at_lem :
    (front b src : Bytes)
    → length src ≤ length b
    → copy_at (front ++ b) (length front) src ≡ front ++ (src ++ drop (length src) b)
copy_at_lem front b src h =
    let (a, c, e, l, d) = split (length src) b h in
    copy_at-append front b src
    ∙ ap (λ t. front ++ t) (ap (λ t. copy t src) e ∙ copy-append a c src l ∙ ap (λ t. src ++ t) d)

copy_within_lem :
    (front b src : Bytes)
    → length src ≤ length b
    → copy_within (front ++ b) (length front) src ≡ ok (front ++ (src ++ drop (length src) b))
unfolding copy_within
copy_within_lem front b src h = ground (arith, length-append front b, copy_at_lem front b src h)

pub copy_from_lem :
    (front b src : Bytes)
    → length src ≤ length b
    → copy_from (front ++ b) (length front) src ≡ ok (front ++ (src ++ drop (length src) b))
unfolding copy_from
copy_from_lem front b src h = ground (arith, length-append front b, copy_at_lem front b src h)

-- The same writes behind a front in two parts.
put_at :
    (front mid : Bytes) (x : ℕ) (b : Bytes) (i v : ℕ)
    → length front + length mid ≡ i
    → put {E = Error} (front ++ (mid ++ (x ∷ b))) i v ≡ ok (front ++ (mid ++ (v ∷ b)))
put_at front mid x b i v e =
    rw
      (
        ← append_assoc front mid (x ∷ b),
        ← append_assoc front mid (v ∷ b),
        ← e,
        ← length-append front mid,
      )
      (put-append (front ++ mid) x b v)

copy_within_at :
    (front mid b src : Bytes) (i : ℕ)
    → length front + length mid ≡ i
    → length src ≤ length b
    → copy_within (front ++ (mid ++ b)) i src ≡ ok (front ++ (mid ++ (src ++ drop (length src) b)))
copy_within_at front mid b src i e h =
    rw
      (
        ← append_assoc front mid b,
        ← append_assoc front mid (src ++ drop (length src) b),
        ← e,
        ← length-append front mid,
      )
      (copy_within_lem (front ++ mid) b src h)

write_single :
    (front b : Bytes) (v : TcpOption)
    → is_single v.kind ≡ true
    → 1 ≤ length b
    → write_option (front ++ b) (length front) v
      ≡ ok (front ++ (v.kind ∷ drop 1 b), length front + 1)
unfolding write_option
write_single front [] v single h = absurd (omega arith)
write_single front (x ∷ b) v single h = rw (put-append front x b v.kind, single)

write_wide :
    (front b : Bytes) (v : TcpOption)
    → is_single v.kind ≡ false
    → v.length ≡ suc (suc (length v.content))
    → suc (suc (length v.content)) ≤ length b
    → write_option (front ++ b) (length front) v
      ≡ ok (
        front ++ (v.kind ∷ v.length ∷ (v.content ++ drop (suc (suc (length v.content))) b)),
        length front + suc (suc (length v.content)),
      )
unfolding write_option
write_wide front [] v wide e h = absurd (omega arith)
write_wide front (x ∷ []) v wide e h = absurd (omega arith)
write_wide front (x ∷ y ∷ b) v wide e h =
    rw
      (
        put-append front x (y ∷ b) v.kind,
        wide,
        put_at front (v.kind ∷ []) y b (length front + 1) v.length (omega arith),
        copy_within_at front (v.kind ∷ v.length ∷ []) b v.content (length front + 2) (omega arith)
            (omega arith),
      )
      (ap
        (λ (t : ℕ). ok (
          front ++ (v.kind ∷ v.length ∷ (v.content ++ drop (length v.content) b)),
          length front + t,
        ))
        e)

write_option_lem :
    (front b : Bytes) (v : TcpOption)
    → IsSized v
    → length (encode_option v) ≤ length b
    → write_option (front ++ b) (length front) v
      ≡ ok (
        front ++ (encode_option v ++ drop (length (encode_option v)) b),
        length front + length (encode_option v),
      )
unfolding encode_option
write_option_lem front b v sized room = elim (Bool-cases (is_single v.kind)) [
  | inl single ↦ rw (write_single front b v single (rw single at room), single)
  | inr wide ↦ rw (write_wide front b v wide (omega (arith, sized wide)) (rw wide at room), wide)
]

pub write_options_lem :
    (front b : Bytes) (vs : List TcpOption)
    → All IsSized vs
    → length (encode_options vs) ≤ length b
    → write_options (front ++ b) (length front) vs
      ≡ ok (
        front ++ (encode_options vs ++ drop (length (encode_options vs)) b),
        length front + length (encode_options vs),
      )
unfolding write_options encode_options
write_options_lem front b [] sized room = rw add-zero
write_options_lem front b (v ∷ vs) sized room =
    let n : ℕ = length (encode_option v) in
    let m : ℕ = length (encode_options vs) in
    let both : length (encode_option v ++ encode_options vs) ≡ n + m =
      length-append (encode_option v) (encode_options vs) in
    rw (
      write_option_lem front b v sized.0 (omega arith),
      ← append_assoc front (encode_option v) (drop n b),
      ← length-append front (encode_option v),
      write_options_lem (front ++ encode_option v) (drop n b) vs sized.1
          (omega (arith, length-drop n b)),
      drop-append (encode_option v) (encode_options vs) b,
      length-append front (encode_option v),
      both,
      append_assoc,
      append_assoc,
      add_assoc,
    )
