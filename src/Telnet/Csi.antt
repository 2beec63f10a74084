-- ===== src/Telnet/Csi.antt =====
-- telnet/csi.go: reading an escape sequence behind its ESC byte. The reader is the list of the
-- bytes to come, and its end is an error.
pub mod Reading
mod Tests
use wheel_mud.Base.{
  ℕ, zero, suc, Bool, true, false, ◌&&◌, List, [], ◌∷◌, ◌++◌, leb, ◌==◌, if◌then◌else◌,
}
use wheel_mud.Base.Text.{Bytes, codes, one_of}

pub data CsiOp : Type 0 where
  csi_unknown csi_up csi_down csi_right csi_left csi_home csi_end csi_delete : CsiOp

abbrev pub csi_max_len : ℕ
csi_max_len = 32

pub data CsiResult : Type 0 where
  op : CsiOp → Bytes → CsiResult
  end_of_input : CsiResult
  too_long : Bytes → CsiResult

unfoldable pub classify_csi : Bytes → ℕ → CsiOp
classify_csi params final =
    if final == b'A'
    then csi_up
    else if final == b'B'
    then csi_down
    else if final == b'C'
    then csi_right
    else if final == b'D'
    then csi_left
    else if final == b'H'
    then csi_home
    else if final == b'F'
    then csi_end
    else if final == b'~'
    then (if one_of params (codes "1" ∷ codes "7" ∷ [])
        then csi_home
        else if one_of params (codes "4" ∷ codes "8" ∷ [])
        then csi_end
        else if one_of params (codes "3" ∷ [])
        then csi_delete
        else csi_unknown)
    else csi_unknown

unfoldable pub ss3_op : ℕ → CsiOp
ss3_op final =
    if final == b'A'
    then csi_up
    else if final == b'B'
    then csi_down
    else if final == b'C'
    then csi_right
    else if final == b'D'
    then csi_left
    else if final == b'H'
    then csi_home
    else if final == b'F'
    then csi_end
    else csi_unknown

abbrev pub is_final : ℕ → Bool
is_final b = leb 64 b && leb b 126

-- The loop, with `room` rounds left before `params` is full.
unfoldable pub read_body : ℕ → Bytes → Bytes → CsiResult
read_body zero params r = too_long r
read_body (suc room) params [] = end_of_input
read_body (suc room) params (b ∷ r) =
    let more = read_body room (params ++ b ∷ []) r in
    if is_final b then op (classify_csi params b) r else more

read_ss3 : Bytes → CsiResult
read_ss3 [] = end_of_input
read_ss3 (final ∷ r) = op (ss3_op final) r

unfoldable pub read_csi : Bytes → CsiResult
unfolding read_ss3
read_csi [] = end_of_input
read_csi (first ∷ r) =
    if first == b'['
    then read_body csi_max_len [] r
    else if first == b'O'
    then read_ss3 r
    else op csi_unknown r
