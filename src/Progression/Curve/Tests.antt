-- ===== src/Progression/Curve/Tests.antt =====
-- Runs of internal/progression/curve.go.
use wheel_mud.Base.{ℕ, ◌≤◌, ◌≡◌, ◌↔◌, arith}
use wheel_mud.Base.Int.{pos, ◌≤ℤ◌}
use wheel_mud.Progression.Curve.{max_level, xp_for_level, level_for_xp}
use wheel_mud.Progression.Curve.Laws.{level_for_xp_lem}

level_for_xp_lem_example :
    (l : ℕ) × (level_for_xp (pos 2999) ≡ pos l)
    × (1 ≤ l)
    × (l ≤ max_level)
    × ((m : ℕ) → 1 ≤ m → m ≤ max_level → (m ≤ l) ↔ (xp_for_level (pos m) ≤ℤ pos 2999))
level_for_xp_lem_example = level_for_xp_lem (pos 2999) (omega arith)
