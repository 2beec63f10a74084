-- ===== src/Combat/XpDebt.antt =====
-- internal/combat/xp_debt.go. Experience and debt are int64; no operation here leaves the range
-- between 0 and its operands where the operands are not negative.
pub mod Laws
mod Tests
use wheel_mud.Base.{if◌then◌else◌}
use wheel_mud.Base.Int.{ℤ, pos, ◌-ℤ◌, ◌/ℤ◌, leb_ℤ}
use wheel_mud.Progression.Curve.{xp_for_level}

abbrev pub death_penalty_fraction : ℤ
death_penalty_fraction = pos 10

unfoldable pub death_debt : ℤ → ℤ → ℤ
death_debt cur_xp cur_level =
    let floor = xp_for_level cur_level in
    if leb_ℤ cur_xp floor then pos 0 else (cur_xp -ℤ floor) /ℤ death_penalty_fraction

-- What is gained, and the debt that remains.
unfoldable pub apply_xp_award : ℤ → ℤ → ℤ × ℤ
apply_xp_award award current_debt =
    if leb_ℤ award (pos 0)
    then (pos 0, current_debt)
    else if leb_ℤ current_debt (pos 0)
    then (award, pos 0)
    else if leb_ℤ award current_debt
    then (pos 0, current_debt -ℤ award)
    else (award -ℤ current_debt, pos 0)
