-- ===== src/Tcp/RoundTrip.antt =====
-- raw_linux.go: decodeTCPlayer reads back what tcpLayer.marshal wrote.
pub mod Fixed
use rawcon.Common.{
  ℕ, zero, suc, ◌+◌, ◌-◌, ◌*◌, ◌/◌, ◌%◌, ◌≤◌, ◌<◌, ◌≡◌, refl, sym, ap, ◌∙◌, arith, Bool, true,
  false, Option, some, List, [], ◌∷◌, ◌++◌, append_assoc, append-nil, length, length-append,
  length-replicate, take, drop, replicate, All, All-append, All-replicate, ltb, ◌==◌, if◌then◌else◌,
  Bool-cases, inl, inr, take_length_append, drop_length_append,
}
use rawcon.Common.Go.{Go, ok, ◌>>=◌}
use rawcon.Common.Bytes.{Bytes, IsByte, IsU16, bytes16, bytes32, u8, slice, slice_lem}
use rawcon.Tcp.{TcpOption, TcpLayer, Error, tcp_len}
use rawcon.Tcp.Checksum.{to4, csum, csum_of}
use rawcon.Tcp.Checksum.Verify.{csum-eq, csum_verifies}
use rawcon.Tcp.Decode.{decode_options, decode_fixed, decode_tcp_layer}
use rawcon.Tcp.Decode.Options.{
  IsWire, end_marker, length-encode_option, decode_options-encode, decode_options-padding,
}
use rawcon.Tcp.Marshal.{marshal, header_len, pad_len, flag_word}
use rawcon.Tcp.Marshal.Layout.{
  IsSized, encode_option, encode_options, header_len-encode, segment, header_bytes, padding_of,
  length-padding_of, offset_of, marshal_layout,
}
use Fixed.{InRange, decode_fixed-header}

-- A layer that fits the wire: the header takes at most fifteen words of four bytes.
pub record FitsWire (tcp : TcpLayer) : Type 0 where
  pub range : InRange tcp
  pub wire : All IsWire tcp.options
  pub short : length (encode_options tcp.options) ≤ 40

wire-IsSized : (vs : List TcpOption) → All IsWire vs → All IsSized vs
wire-IsSized [] h = tt
wire-IsSized (v ∷ vs) h = (h.0.sized, wire-IsSized vs h.1)

encode_options-empty : (vs : List TcpOption) → length (encode_options vs) ≡ 0 → vs ≡ []
unfolding encode_options
encode_options-empty [] h = refl
encode_options-empty (v ∷ vs) h =
    absurd
      (omega (arith, length-encode_option v, length-append (encode_option v) (encode_options vs)))

-- What the decoder returns for the segment.
abbrev pub received : TcpLayer → ℕ → TcpLayer
received tcp c = record tcp {
  data_offset = offset_of tcp;
  chksum = c;
  options = tcp.options ++ replicate (length (padding_of tcp)) end_marker;
  padding = [];
  buffer = [];
}

module _ (tcp : TcpLayer) (fits : FitsWire tcp) where
  abbrev opts : Bytes
  opts = encode_options tcp.options

  header_size :
      (offset_of tcp * 4 ≡ 20 + (length opts + length (padding_of tcp))) × (offset_of tcp < 16)
  header_size = omega (
    arith,
    header_len-encode tcp_len tcp.options (wire-IsSized tcp.options fits.wire),
    length-padding_of tcp,
    fits.short,
  )

  abbrev written : ℕ → Bytes
  written c = segment tcp (offset_of tcp) (padding_of tcp) c

  fixed_back :
      (c : ℕ)
      → IsU16 c
      → decode_fixed (written c)
        ≡ ok (record tcp {
          data_offset = offset_of tcp;
          chksum = c;
          options = [];
          padding = [];
          buffer = [];
        })
  unfolding segment
  fixed_back c hc =
      let pad : Bytes = padding_of tcp in
      let front : Bytes =
        header_bytes tcp (offset_of tcp) (c / 256 % 256) (c % 256) (opts ++ pad) in
      let size : offset_of tcp * 4 ≡ length front =
        omega (arith, header_size, length-append opts pad) in
      let rest : drop (offset_of tcp * 4) (written c) ≡ tcp.payload =
        ap
          (λ t.
            drop (offset_of tcp * 4) (header_bytes tcp (offset_of tcp) (c / 256 % 256) (c % 256) t))
          (sym (append_assoc opts pad tcp.payload))
        ∙ rw size (drop_length_append front tcp.payload) in
      decode_fixed-header tcp (offset_of tcp) c (opts ++ (pad ++ tcp.payload)) fits.range hc
        (omega (arith, header_size, fits.short))
        (omega (
          arith,
          header_size,
          length-append opts (pad ++ tcp.payload),
          length-append pad tcp.payload,
        ))
      ∙ ap
          (λ t. ok (record tcp {
            data_offset = offset_of tcp;
            chksum = c;
            options = [];
            padding = [];
            payload = t;
            buffer = [];
          }))
          rest

  options_cut :
      (c : ℕ) → slice {E = Error} (written c) 20 (offset_of tcp * 4) ≡ ok (opts ++ padding_of tcp)
  unfolding segment
  options_cut c =
      let pad : Bytes = padding_of tcp in
      let front : Bytes =
        header_bytes tcp (offset_of tcp) (c / 256 % 256) (c % 256) (opts ++ pad) in
      let size : offset_of tcp * 4 ≡ length front =
        omega (arith, header_size, length-append opts pad) in
      slice_lem (written c) 20 (offset_of tcp * 4) (omega (arith, header_size)) (
        omega (
          arith,
          header_size,
          length-append opts (pad ++ tcp.payload),
          length-append pad tcp.payload,
        ))
      ∙ ap
          (λ t. ok (
            drop 20 (
              take (offset_of tcp * 4)
                (header_bytes tcp (offset_of tcp) (c / 256 % 256) (c % 256) t))))
          (sym (append_assoc opts pad tcp.payload))
      ∙ rw size (ap (λ t. ok (drop 20 t)) (take_length_append front tcp.payload))

  options_back :
      decode_options (length (opts ++ padding_of tcp)) (opts ++ padding_of tcp) [] []
      ≡ ok (tcp.options ++ replicate (length (padding_of tcp)) end_marker, [])
  options_back =
      let pad : Bytes = padding_of tcp in
      let (left, room, e) =
        decode_options-encode (length (opts ++ pad)) tcp.options pad [] [] fits.wire
          (omega arith) in
      let n : ℕ = pad_len (header_len tcp_len tcp.options) in
      e
      ∙ decode_options-padding n left tcp.options (omega (arith, room, length-padding_of tcp))
      ∙ ap (λ (t : ℕ). ok (tcp.options ++ replicate t end_marker, [])) (sym (length-padding_of tcp))

  -- Decoding a written segment gives the layer that was written, its checksum, and one end-of-list
  -- option for each byte of padding.
  decode-segment : (c : ℕ) → IsU16 c → decode_tcp_layer (written c) ≡ ok (received tcp c)
  unfolding decode_tcp_layer
  decode-segment c hc =
      let long : ltb (length (written c)) 20 ≡ false = unfold segment in ground arith in
      elim (Bool-cases (offset_of tcp * 4 == 20)) [
        | inl bare ↦
            let no_bytes : length opts + length (padding_of tcp) ≡ 0 =
              ground (arith, header_size) in
            let unpadded : length (padding_of tcp) ≡ 0 = omega (arith, no_bytes) in
            let bare_options : tcp.options ≡ [] =
              encode_options-empty tcp.options (omega (arith, no_bytes)) in
            let same : [] ≡ tcp.options ++ replicate (length (padding_of tcp)) end_marker =
              rw unpadded (sym (append-nil tcp.options ∙ bare_options)) in
            rw (long, fixed_back c hc, bare)
              (ap
                (λ t. ok (record tcp {
                  data_offset = offset_of tcp;
                  chksum = c;
                  options = t;
                  padding = [];
                  buffer = [];
                }))
                same)
        | inr more ↦ rw (long, fixed_back c hc, more, options_cut c, options_back)
      ]

csum_of-IsU16 : (b s d : Bytes) → IsU16 (csum_of b s d)
unfolding csum_of
csum_of-IsU16 b s d = omega arith

-- The layer as `marshal` leaves it.
abbrev pub marshalled : TcpLayer → Bytes → TcpLayer
marshalled tcp b = record tcp { data_offset = offset_of tcp; padding = padding_of tcp; buffer = b }

pub marshal-received :
    (tcp : TcpLayer) (srcip dstip s d : Bytes)
    → FitsWire tcp
    → to4 srcip ≡ some s
    → to4 dstip ≡ some d
    → (b data' : Bytes) × (c : ℕ) × (marshal tcp srcip dstip ≡ ok (marshalled tcp b, data'))
      × (decode_tcp_layer data' ≡ ok (received tcp c))
marshal-received tcp srcip dstip s d fits hs hd =
    let c : ℕ = csum_of (written tcp fits 0) s d in
    let (b, e) = marshal_layout tcp (wire-IsSized tcp.options fits.wire) srcip dstip s d hs hd in
    (
      b,
      written tcp fits c,
      c,
      e,
      decode-segment tcp fits c (csum_of-IsU16 (written tcp fits 0) s d),
    )

-- Between two IPv4 addresses `marshal` of a layer that fits the wire neither panics nor fails, and
-- decoding its segment gives the layer back: ports, numbers, flags, window, urgent pointer, payload,
-- and the options followed by one end-of-list option for each byte of padding.
pub decode-marshal :
    (tcp : TcpLayer) (srcip dstip s d : Bytes)
    → FitsWire tcp
    → to4 srcip ≡ some s
    → to4 dstip ≡ some d
    → (out : TcpLayer) × (data' : Bytes) × (c : ℕ) × (marshal tcp srcip dstip ≡ ok (out, data'))
      × (decode_tcp_layer data' ≡ ok (received tcp c))
decode-marshal tcp srcip dstip s d fits hs hd =
    let (b, data', c, e, back) = marshal-received tcp srcip dstip s d fits hs hd in
    (marshalled tcp b, data', c, e, back)

-- The segment that `marshal` writes sums up to zero, as its receiver checks.
pub csum-marshal :
    (tcp : TcpLayer) (srcip dstip s d : Bytes)
    → All IsSized tcp.options
    → to4 srcip ≡ some s
    → to4 dstip ≡ some d
    → All IsByte srcip × All IsByte dstip
    → All IsByte (encode_options tcp.options) × All IsByte tcp.payload
    → length (encode_options tcp.options) + length tcp.payload ≤ 60000
    → (out : TcpLayer) × (data' : Bytes) × (marshal tcp srcip dstip ≡ ok (out, data'))
      × (csum data' srcip dstip ≡ ok 0)
unfolding segment
csum-marshal tcp srcip dstip s d sized hs hd ips bytes short =
    let pad : Bytes = padding_of tcp in
    let offset : ℕ = offset_of tcp in
    let c : ℕ = csum_of (segment tcp offset pad 0) s d in
    let first = csum-eq (segment tcp offset pad 0) srcip dstip s d hs hd in
    let (b, e) = marshal_layout tcp sized srcip dstip s d hs hd in
    let back : Bytes = bytes16 tcp.urgent ++ (encode_options tcp.options ++ (pad ++ tcp.payload)) in
    let front : Bytes =
      bytes16 tcp.src_port
      ++ (bytes16 tcp.dst_port
          ++ (bytes32 tcp.seqn
              ++ (bytes32 tcp.ackn ++ (bytes16 (flag_word tcp offset) ++ bytes16 tcp.window)))) in
    let zeros : All IsByte pad =
      All-replicate IsByte (pad_len (header_len tcp_len tcp.options)) 0 (omega arith) in
    let back_bytes : All IsByte back = (
      omega arith,
      (
        omega arith,
        All-append IsByte (encode_options tcp.options) (pad ++ tcp.payload) bytes.0
            (All-append IsByte pad tcp.payload zeros bytes.1),
      ),
    ) in
    let front_bytes : All IsByte front = omega arith in
    (
      _,
      segment tcp offset pad c,
      e,
      csum_verifies front back srcip dstip c (omega arith)
          (omega (
            arith,
            length-append (encode_options tcp.options) (pad ++ tcp.payload),
            length-append pad tcp.payload,
            length-padding_of tcp,
          ))
          (front_bytes, back_bytes, ips.0, ips.1) first,
    )
