-- ===== src/Telnet/Ansi/Colors.antt =====
-- The codes that colors are reduced to (telnet/color.go, rgbTo256 and rgbTo16).
use wheel_mud.Base.{ℕ, ◌+◌, ◌≤◌, ◌⊎◌, inl, inr, Bool, true, false, arith, if◌then◌else◌}
use wheel_mud.Base.Int.{ℤ}
use wheel_mud.Telnet.Ansi.{clamp8, rgb6, rgb_to_256, hue, rgb_to_16}

rgb6-le : (v : ℕ) → rgb6 v ≤ 5
unfolding rgb6
rgb6-le v = ground arith

hue-le : (r g b : Bool) → hue r g b ≤ 7
unfolding hue
hue-le r g b = ground arith

coded :
    (bg bright : Bool) (idx : ℕ)
    → idx ≤ 7
    → let shift : ℕ = if bg then 10 else 0 in
      let base : ℕ = if bg then 40 else 30 in
      let code = (if bright then base + 60 else base) + idx in
      ((30 + shift ≤ code) × (code ≤ 37 + shift)) ⊎ ((90 + shift ≤ code) × (code ≤ 97 + shift))
coded true true idx h = inr (omega arith, omega arith)
coded true false idx h = inl (omega arith, omega arith)
coded false true idx h = inr (omega arith, omega arith)
coded false false idx h = inl (omega arith, omega arith)

-- Whatever the three values are, the code for 256 colors is one of the color cube, 16 to 231, and
-- the code for 16 colors is a foreground code, 30 to 37 or 90 to 97, or 10 more for a background.
pub rgb_codes :
    (r g b : ℤ) (bg : Bool)
    → (16 ≤ rgb_to_256 r g b)
      × (rgb_to_256 r g b ≤ 231)
      × (let base = rgb_to_16 r g b bg in
          let shift : ℕ = if bg then 10 else 0 in
          ((30 + shift ≤ base) × (base ≤ 37 + shift)) ⊎ ((90 + shift ≤ base) × (base ≤ 97 + shift)))
unfolding rgb_to_256 rgb_to_16
rgb_codes r g b bg =
    let x = rgb6-le (clamp8 r) in
    let y = rgb6-le (clamp8 g) in
    let z = rgb6-le (clamp8 b) in (omega arith, omega arith, coded bg _ _ (hue-le _ _ _))
