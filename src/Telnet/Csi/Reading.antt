-- ===== src/Telnet/Csi/Reading.antt =====
-- Where the reading of an escape sequence stops (telnet/csi.go).
use mathlib.Core.List.{append-nil, append_assoc}
use wheel_mud.Base.{
  ℕ, zero, suc, ◌≡◌, true, false, [], ◌∷◌, ◌++◌, arith, length, drop, ltb, if◌then◌else◌,
}
use wheel_mud.Base.Text.{Bytes}
use wheel_mud.Telnet.Csi.{op, too_long, csi_max_len, classify_csi, is_final, read_body, read_csi}

-- None of the bytes ends a sequence.
abbrev pub AreParams : Bytes → Type 0
AreParams [] = Unit
AreParams (b ∷ s) = (is_final b ≡ false) × AreParams s

read_body_lem :
    (room : ℕ) (sofar params : Bytes) (final : ℕ) (rest : Bytes)
    → AreParams params
    → is_final final ≡ true
    → read_body room sofar (params ++ final ∷ rest) ≡ (
        if ltb (length params) room
        then op (classify_csi (sofar ++ params) final) rest
        else too_long (drop room (params ++ final ∷ rest)))
unfolding read_body
read_body_lem zero sofar [] final rest ps f = ground arith
read_body_lem zero sofar (b ∷ params) final rest ps f = ground arith
read_body_lem (suc room) sofar [] final rest ps f = rw append-nil (ground arith)
read_body_lem (suc room) sofar (b ∷ params) final rest ps f = ground (
  arith,
  read_body_lem room (sofar ++ b ∷ []) params final rest ps.1 f,
  append_assoc sofar (b ∷ []) params,
)

-- A sequence of parameter bytes and a final byte is read to its end and no further, and classified
-- by the two, if it has less than 32 parameter bytes; and else reading gives up behind 32 of them.
pub read_csi_sequence :
    (params : Bytes) (final : ℕ) (rest : Bytes)
    → AreParams params
    → is_final final ≡ true
    → read_csi (b'[' ∷ (params ++ final ∷ rest)) ≡ (
        if ltb (length params) csi_max_len
        then op (classify_csi params final) rest
        else too_long (drop csi_max_len (params ++ final ∷ rest)))
unfolding read_csi
read_csi_sequence params final rest ps f = read_body_lem csi_max_len [] params final rest ps f
