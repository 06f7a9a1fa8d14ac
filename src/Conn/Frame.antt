-- ===== src/Conn/Frame.antt =====
-- raw_linux.go, RAWConn.Write and RAWListener.WriteTo: the header of a TLS record before the data, in a
-- buffer from GetBuf, which holds what its last user left there.
use rawcon.Common.{◌+◌, ◌≡◌, sym, ap, ◌∙◌, arith, [], ◌∷◌, ◌++◌, length, take_all, append-nil}
use rawcon.Common.Go.{Go, ok, ◌>>=◌}
use rawcon.Common.Bytes.{
  Bytes, u16, bytes16, put16, copy, copy_at, copy-append, slice_to, slice_to_lem,
}
use rawcon.Tcp.{Error}

unfoldable pub tls_frame : Bytes → Bytes → Go Error Bytes
tls_frame buf b = do
  b1 ← put16 (copy buf (0x17 ∷ 0x3 ∷ 0x3 ∷ [])) 3 (u16 (length b))
  slice_to (copy_at b1 5 b) (5 + length b)

-- The record: its type, its version, its length, and the data.
abbrev pub framed : Bytes → Bytes
framed b = 0x17 ∷ 0x3 ∷ 0x3 ∷ (bytes16 (u16 (length b)) ++ b)

-- In a buffer of the length that is asked of GetBuf, whatever it holds, the record is written whole.
pub tls_frame-framed : (buf b : Bytes) → length buf ≡ length b + 5 → tls_frame buf b ≡ ok (framed b)
unfolding tls_frame put16
tls_frame-framed (x0 ∷ x1 ∷ x2 ∷ x3 ∷ x4 ∷ rest) b h =
    let same : length rest ≡ length b = omega arith in
    let whole : copy rest b ≡ b =
      ap (λ t. copy t b) (sym (append-nil rest)) ∙ copy-append rest [] b same ∙ append-nil b in
    rw whole (slice_to_lem _ (5 + length b) (omega arith) ∙ ap ok (take_all _ _ (omega arith)))
tls_frame-framed _ b h = absurd (omega arith)
