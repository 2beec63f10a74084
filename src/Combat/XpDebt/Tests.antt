-- ===== src/Combat/XpDebt/Tests.antt =====
-- Runs of internal/combat/xp_debt.go.
use wheel_mud.Base.{arith}
use wheel_mud.Base.Int.{pos, ◌-ℤ◌, ◌≤ℤ◌}
use wheel_mud.Progression.Curve.{xp_for_level, level_for_xp}
use wheel_mud.Combat.XpDebt.{death_debt}
use wheel_mud.Combat.XpDebt.Laws.{death_debt_keeps_level}

death_debt_keeps_level_example :
    (pos 0 ≤ℤ death_debt (pos 3500) (level_for_xp (pos 3500)))
    × (xp_for_level (level_for_xp (pos 3500))
        ≤ℤ pos 3500 -ℤ death_debt (pos 3500) (level_for_xp (pos 3500)))
death_debt_keeps_level_example = death_debt_keeps_level (pos 3500) (omega arith)
