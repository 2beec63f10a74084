-- ===== src/Combat/Resolution/Tests.antt =====
-- Runs of internal/combat/resolution.go with a source that gives a fixed list of numbers, cut to the
-- range asked for.
use native.Mathlib.Nat.{mod-lt}
use wheel_mud.Base.{
  ℕ, ◌%◌, ◌≡◌, refl, true, false, Option, none, some, List, [], ◌∷◌, arith, ◌*◌, ◌⊎◌, ◌||◌,
  if◌then◌else◌,
}
use wheel_mud.Base.Int.{ℤ, pos, ◌+ℤ◌, ◌-ℤ◌, ◌*ℤ◌, ◌/ℤ◌, ◌%ℤ◌, ◌≤ℤ◌, wrap}
use wheel_mud.Base.Text.{Bytes, codes, same}
use wheel_mud.Combat.Fight.{power}
use wheel_mud.Combat.Resolution.{
  ability_mod, Core, WeaponStats, slash, effective_defense, threat_low_of, roll_attack, roll_damage,
  roll_term, DiceTerm, parse_dice, parse_flat, parse_counts, first_term, index_where, reduce,
  resist, apply_damage,
}
use wheel_mud.Combat.Resolution.Attack.{Implies, roll_attack_mono}
use wheel_mud.Combat.Resolution.Dice.{Fair, InLimits, roll_dice_lem}
use wheel_mud.Combat.Resolution.Damage.{Hurt, apply_damage_lem, roll_damage_bounds}

abbrev next_of : List ℕ → ℕ
next_of [] = 0
next_of (k ∷ ks) = k

abbrev rest_of : List ℕ → List ℕ
rest_of [] = []
rest_of (k ∷ ks) = ks

abbrev fixed : ℕ → List ℕ → ℕ × List ℕ
fixed n ks = (next_of ks % n, rest_of ks)

fixed-Fair : Fair fixed
fixed-Fair n s h = mod-lt (next_of s) h

abbrev fighter : Core
fighter = record {
  str = pos 16;
  dex = pos 14;
  bab = pos 4;
  defense = pos 17;
  hp_current = pos 30;
  subdual = pos 0;
  init_mod = pos 0;
  reductions = record { amount = pos 2; bypassed = false } ∷ [];
  resists = record { kind = slash; pct = pos 50 } ∷ [];
}

abbrev sword : WeaponStats
sword = record { damage = codes "1d8+1"; threat_low = pos 19; crit_mult = pos 2 }

-- 9 on the die and 7 for skill and strength do not beat 17, but a defender caught flat-footed.
misses : (roll_attack fixed fighter fighter sword false (pos 0) (8 ∷ [])).0.hit ≡ false
unfolding roll_attack ability_mod effective_defense threat_low_of ◌+ℤ◌ ◌-ℤ◌ ◌*ℤ◌ ◌/ℤ◌ ◌%ℤ◌
misses = refl

flat_footed_hit : (roll_attack fixed fighter fighter sword true (pos 0) (8 ∷ [])).0.hit ≡ true
unfolding roll_attack ability_mod effective_defense threat_low_of ◌+ℤ◌ ◌-ℤ◌ ◌*ℤ◌ ◌/ℤ◌ ◌%ℤ◌ wrap
flat_footed_hit = refl

-- 20 points less 2, and half of that.
hurts : (apply_damage fighter (pos 20) slash).0 ≡ pos 9
unfolding apply_damage reduce resist ◌+ℤ◌ ◌-ℤ◌ ◌*ℤ◌ ◌/ℤ◌ wrap
hurts = refl

roll_attack_mono_example :
    Implies
      (roll_attack fixed fighter fighter sword false (pos 0) (19 ∷ 15 ∷ [])).0.hit
      (roll_attack fixed fighter fighter sword true (pos 1) (19 ∷ 15 ∷ [])).0.hit
    × Implies
        (roll_attack fixed fighter fighter sword false (pos 0) (19 ∷ 15 ∷ [])).0.is_crit
        (roll_attack fixed fighter fighter sword true (pos 1) (19 ∷ 15 ∷ [])).0.is_crit
unfolding ability_mod ◌-ℤ◌ ◌/ℤ◌ ◌%ℤ◌ ◌*ℤ◌
roll_attack_mono_example =
    roll_attack_mono fixed fighter fighter sword (19 ∷ 15 ∷ []) false true (pos 0) (pos 1)
      (λ h. refl) (omega arith) (omega arith, omega arith)

-- `strconv.Atoi` on the numbers that are met here.
abbrev atoi : Bytes → Option ℤ
atoi s =
    if same s (codes "1") || same s (codes "+1")
    then some (pos 1)
    else if same s (codes "8")
    then some (pos 8)
    else none

abbrev term : DiceTerm
term = record { count = 1; sides = 8; flat = pos 1 }

reads_dice : parse_dice (λ s. s) atoi (codes "1d8+1/1d6") ≡ some term
unfolding parse_dice parse_flat parse_counts first_term index_where same
reads_dice = refl

roll_dice_lem_example :
    InLimits term
    × (term.flat +ℤ pos 1 ≤ℤ (roll_term fixed term (5 ∷ [])).0)
    × ((roll_term fixed term (5 ∷ [])).0 ≤ℤ term.flat +ℤ pos (1 * 8))
roll_dice_lem_example =
    roll_dice_lem fixed (λ s. s) atoi (codes "1d8+1/1d6") term (5 ∷ []) fixed-Fair reads_dice

roll_damage_bounds_example :
    (pos 1 ≤ℤ (roll_damage fixed fighter sword (some term) true power (5 ∷ [])).0)
    × ((roll_damage fixed fighter sword (some term) true power (5 ∷ [])).0 ≤ℤ pos 2147483647)
roll_damage_bounds_example = roll_damage_bounds fixed fighter sword (some term) true power (5 ∷ [])

apply_damage_lem_example :
    (pos 0 ≤ℤ (apply_damage fighter (pos 20) slash).0)
    × ((apply_damage fighter (pos 20) slash).0 ≤ℤ pos 20)
    × (((apply_damage fighter (pos 20) slash).0 ≡ pos 0)
          × ((apply_damage fighter (pos 20) slash).1 ≡ fighter)
        ⊎ Hurt fighter slash
            (apply_damage fighter (pos 20) slash).0
            (apply_damage fighter (pos 20) slash).1)
apply_damage_lem_example =
    apply_damage_lem fighter (pos 20) slash (omega arith, omega arith)
      ((omega arith, omega arith), tt) (omega arith, tt)
