-- ===== src/Progression/Curve.antt =====
-- internal/progression/curve.go. `int` and `int64` are integers; no value here comes near their
-- bounds, since a level is clamped to 20 before it is multiplied.
pub mod Laws
mod Tests
use wheel_mud.Base.{ℕ, zero, suc, ◌+◌, Bool, if◌then◌else◌}
use wheel_mud.Base.Int.{ℤ, pos, ◌-ℤ◌, ◌*ℤ◌, ◌/ℤ◌, ◌+ℤ◌, leb_ℤ, ltb_ℤ}

abbrev pub max_level : ℕ
max_level = 20

unfoldable pub xp_for_level : ℤ → ℤ
xp_for_level n =
    if leb_ℤ n (pos 1)
    then pos 0
    else (let k = (if ltb_ℤ (pos max_level) n then pos max_level else n) in
        pos 1000 *ℤ k *ℤ (k -ℤ pos 1) /ℤ pos 2)

-- The loop `for n := MaxLevel; n >= 2; n--`, with `rounds` rounds left: `n` is `rounds + 1`.
unfoldable pub walk_down : ℕ → ℤ → ℤ
walk_down zero xp = pos 1
walk_down (suc rounds) xp =
    let lower = walk_down rounds xp in
    if leb_ℤ (xp_for_level (pos (suc (suc rounds)))) xp then pos (suc (suc rounds)) else lower

unfoldable pub level_for_xp : ℤ → ℤ
level_for_xp xp = if leb_ℤ xp (pos 0) then pos 1 else walk_down 19 xp

unfoldable pub xp_to_next : ℤ → ℤ × ℤ
xp_to_next xp =
    let level = level_for_xp xp in
    if leb_ℤ (pos max_level) level
    then (level, pos 0)
    else (let next = xp_for_level (level +ℤ pos 1) in
        if leb_ℤ next xp then (level, pos 0) else (level, next -ℤ xp))
