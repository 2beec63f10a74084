-- ===== src/Telnet/Pager/Tests.antt =====
-- Runs of telnet/pager.go.
use wheel_mud.Base.{◌≡◌, refl, true, [], ◌∷◌, ◌++◌, arith}
use wheel_mud.Base.Text.{Bytes, codes, same}
use wheel_mud.Telnet.Pager.{new_pager_mode, split_lines, split_crlf_lines, index_crlf}
use wheel_mud.Telnet.Pager.Pages.{shown, shown-split_crlf_lines}

abbrev two_lines : Bytes
two_lines = codes "north" ++ (13 ∷ 10 ∷ codes "south")

cut_in_two : split_crlf_lines two_lines ≡ (codes "north" ++ 13 ∷ 10 ∷ []) ∷ codes "south" ∷ []
unfolding split_crlf_lines split_lines index_crlf
cut_in_two = refl

shown-split_crlf_lines_example :
    shown (λ s. s) (new_pager_mode (split_crlf_lines two_lines) 2) ([] ∷ codes "next" ∷ [])
    ≡ (two_lines, true)
unfolding same split_crlf_lines split_lines index_crlf
shown-split_crlf_lines_example =
    shown-split_crlf_lines (λ s. s) two_lines 2 ([] ∷ codes "next" ∷ []) (refl, (refl, tt))
      (omega arith) (omega arith)
