-- ===== src/Telnet/Ansi.antt =====
-- telnet/color.go: colors as escape sequences for what a terminal can show, and taking the sequences
-- out again. `show` stands for the verb %d of fmt.Sprintf.
pub mod Colors
pub mod Strip
mod Tests
use wheel_mud.Base.{
  ℕ, ◌+◌, ◌*◌, Bool, true, false, ◌&&◌, ◌||◌, not, Option, none, some, List, [], ◌∷◌, ◌++◌, ltb,
  leb, ◌==◌, if◌then◌else◌,
}
use wheel_mud.Base.Int.{ℤ, pos, ltb_ℤ, pos_part}
use wheel_mud.Base.Text.{Bytes, codes}

abbrev pub color_level_none : ℕ
color_level_none = 0

abbrev pub color_level_basic : ℕ
color_level_basic = 8

abbrev pub color_level_16 : ℕ
color_level_16 = 16

abbrev pub color_level_256 : ℕ
color_level_256 = 256

abbrev pub color_level_true_color : ℕ
color_level_true_color = 16777216

-- ESC.
abbrev pub esc : ℕ
esc = 27

-- Where the loop of `StripANSI` is: in text, behind an ESC, or inside a sequence.
pub data Place : Type 0 where
  in_text behind_esc in_sequence : Place

abbrev pub ends_sequence : ℕ → Bool
ends_sequence c = leb 64 c && leb c 126

unfoldable pub strip_from : Place → Bytes → Bytes
strip_from place [] = []
strip_from in_text (c ∷ s) =
    let escaped = strip_from behind_esc s in
    let rest = strip_from in_text s in if c == esc then escaped else c ∷ rest
strip_from behind_esc (c ∷ s) =
    let inside = strip_from in_sequence s in
    let rest = strip_from in_text s in if c == b'[' then inside else rest
strip_from in_sequence (c ∷ s) =
    let rest = strip_from in_text s in
    let inside = strip_from in_sequence s in if ends_sequence c then rest else inside

-- `bytes.Contains(b, []byte{0x1b})`.
unfoldable pub has_esc : Bytes → Bool
has_esc [] = false
has_esc (c ∷ s) = c == esc || has_esc s

unfoldable pub strip_ansi : Bytes → Bytes
strip_ansi b = if not (has_esc b) then b else strip_from in_text b

abbrev pub clamp8 : ℤ → ℕ
clamp8 v = if ltb_ℤ v (pos 0) then 0 else if ltb_ℤ (pos 255) v then 255 else pos_part v

unfoldable pub rgb6 : ℕ → ℕ
rgb6 v =
    if ltb v 48
    then 0
    else if ltb v 115
    then 1
    else if ltb v 155
    then 2
    else if ltb v 195
    then 3
    else if ltb v 235
    then 4
    else 5

unfoldable pub rgb_to_256 : (r g b : ℤ) → ℕ
rgb_to_256 r g b =
    let rr = rgb6 (clamp8 r) in
    let gg = rgb6 (clamp8 g) in let bb = rgb6 (clamp8 b) in 16 + 36 * rr + 6 * gg + bb

-- The hue from the three flags.
unfoldable pub hue : (r g b : Bool) → ℕ
hue r g b =
    if not r && not g && not b
    then 0
    else if r && g && b
    then 7
    else if r && g
    then 3
    else if g && b
    then 6
    else if r && b
    then 5
    else if r
    then 1
    else if g
    then 2
    else if b
    then 4
    else 7

abbrev pub larger : ℕ → ℕ → ℕ
larger a b = if ltb a b then b else a

unfoldable pub rgb_to_16 : (r g b : ℤ) → (bg : Bool) → ℕ
rgb_to_16 r g b bg =
    let mx = larger (larger (clamp8 r) (clamp8 g)) (clamp8 b) in
    let bright = leb 128 mx in
    let hi : ℕ → Bool = λ v. leb mx (v + 64) && ltb 0 mx in
    let idx = hue (hi (clamp8 r)) (hi (clamp8 g)) (hi (clamp8 b)) in
    let base = if bg then 40 else 30 in
    let base' = if bright then base + 60 else base in base' + idx

module _ (show : ℕ → Bytes) where
  -- The codes of a foreground are written behind 38, those of a background behind 48.
  unfoldable pub render_rgb : (plane : Bytes) → (bg : Bool) → ℕ → (r g b : ℤ) → Bytes
  render_rgb plane bg level r g b =
      if level == color_level_none
      then []
      else if level == color_level_true_color
      then esc
        ∷ b'['
        ∷ (plane
            ++ b';'
              ∷ b'2'
              ∷ b';'
              ∷ (show (clamp8 r)
                  ++ b';' ∷ (show (clamp8 g) ++ b';' ∷ (show (clamp8 b) ++ b'm' ∷ []))))
      else if level == color_level_256
      then esc ∷ b'[' ∷ (plane ++ b';' ∷ b'5' ∷ b';' ∷ (show (rgb_to_256 r g b) ++ b'm' ∷ []))
      else esc ∷ b'[' ∷ (show (rgb_to_16 r g b bg) ++ b'm' ∷ [])

  unfoldable pub render_rgb_fg : ℕ → (r g b : ℤ) → Bytes
  render_rgb_fg level r g b = render_rgb (codes "38") false level r g b

  unfoldable pub render_rgb_bg : ℕ → (r g b : ℤ) → Bytes
  render_rgb_bg level r g b = render_rgb (codes "48") true level r g b
