-- ===== src/Telnet/Ansi/Tests.antt =====
-- Runs of telnet/color.go.
use wheel_mud.Base.{ℕ, ◌+◌, ◌%◌, ◌≡◌, true, [], ◌∷◌, ◌++◌, arith}
use native.Mathlib.Nat.{mod-lt}
use wheel_mud.Base.Int.{pos}
use wheel_mud.Base.Text.{Bytes, codes}
use wheel_mud.Telnet.Ansi.{esc, strip_ansi, render_rgb_fg, render_rgb_bg, color_level_256}
use wheel_mud.Telnet.Ansi.Strip.{all_digits, color_stripped}

abbrev red : Bytes
red = esc ∷ codes "[31mblood"

-- The last digit of a number.
abbrev last_digit : ℕ → Bytes
last_digit n = (b'0' + n % 10) ∷ []

last_digit_shown : (n : ℕ) → all_digits (last_digit n) ≡ true
unfolding all_digits
last_digit_shown n = ground (arith, mod-lt n {m = 10} (omega arith))

color_stripped_example :
    (strip_ansi (render_rgb_fg last_digit color_level_256 (pos 200) (pos 0) (pos 0) ++ red)
      ≡ strip_ansi red)
    × (strip_ansi (render_rgb_bg last_digit color_level_256 (pos 200) (pos 0) (pos 0) ++ red)
        ≡ strip_ansi red)
color_stripped_example =
    color_stripped last_digit last_digit_shown color_level_256 (pos 200) (pos 0) (pos 0) red
