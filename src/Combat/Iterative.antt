-- ===== src/Combat/Iterative.antt =====
-- internal/combat/iterative.go, IterativeBonusesFor: the swings of one pulse. `bab` is an int16.
mod Tests
use wheel_mud.Base.{
  ℕ, zero, suc, ◌+◌, ◌-◌, ◌*◌, ◌/◌, ◌≤◌, ◌≡◌, refl, Bool, Option, none, some, List, [], ◌∷◌, arith,
  length, get_elem?, if◌then◌else◌,
}
use Prim.Native.Nat.{min}
use wheel_mud.Base.Int.{ℤ, pos, negsuc, neg, leb_ℤ, ◌≤ℤ◌, ◌+ℤ◌, pos_part, neg_part}

unfoldable pub iterative_bonuses_for : ℤ → List ℤ
iterative_bonuses_for bab =
    if leb_ℤ (pos 16) bab
    then pos 0 ∷ neg 5 ∷ neg 10 ∷ neg 15 ∷ []
    else if leb_ℤ (pos 11) bab
    then pos 0 ∷ neg 5 ∷ neg 10 ∷ []
    else if leb_ℤ (pos 6) bab
    then pos 0 ∷ neg 5 ∷ []
    else pos 0 ∷ []

-- The bonuses fall by 5 from 0 on.
abbrev pub Falls : ℕ → List ℤ → Type 0
Falls k [] = Unit
Falls k (b ∷ bs) = (b ≡ neg k) × Falls (k + 5) bs

-- A creature has one swing, and one more for each 5 points of a base attack bonus above 1, but four
-- at most; the first is at no penalty, and each further one at 5 more.
pub iterative_bonuses_for_lem :
    (bab : ℤ)
    → (length (iterative_bonuses_for bab) ≡ 1 + min 3 ((pos_part bab - 1) / 5))
      × Falls 0 (iterative_bonuses_for bab)
unfolding iterative_bonuses_for
iterative_bonuses_for_lem bab = ground arith
