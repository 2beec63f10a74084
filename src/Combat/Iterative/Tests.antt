-- ===== src/Combat/Iterative/Tests.antt =====
-- A run of internal/combat/iterative.go.
use wheel_mud.Base.{◌≡◌, refl, [], ◌∷◌}
use wheel_mud.Base.Int.{pos, neg}
use wheel_mud.Combat.Iterative.{iterative_bonuses_for}

three_swings : iterative_bonuses_for (pos 12) ≡ pos 0 ∷ neg 5 ∷ neg 10 ∷ []
unfolding iterative_bonuses_for
three_swings = refl
