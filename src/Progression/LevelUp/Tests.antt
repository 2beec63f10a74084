-- ===== src/Progression/LevelUp/Tests.antt =====
-- Runs of internal/progression/levelup.go: an armsman at level 2 with one level of noble.
use wheel_mud.Base.{ℕ, ◌≡◌, ◌≢◌, ◌⊎◌, refl, false, some, List, [], ◌∷◌, arith}
use wheel_mud.Base.Int.{pos, ◌+ℤ◌, ◌/ℤ◌}
use wheel_mud.Base.Dict.{lookup}
use wheel_mud.Progression.LevelUp.{
  Class, Character, LevelGains, bab_high, bab_low, save_high, save_low, class_by_enum,
  compute_level_up, bab_total, sum_over, bab_per_class, level_in,
}
use wheel_mud.Progression.LevelUp.Gains.{bab_of, level_up_bab}

abbrev armsman : Class
armsman = record {
  hit_die = pos 10;
  bab = bab_high;
  save_fort = save_high;
  save_ref = save_low;
  save_will = save_low;
  skill_points = pos 4;
  channeler = false;
  enum = 1;
}

abbrev noble : Class
noble = record {
  hit_die = pos 8;
  bab = bab_low;
  save_fort = save_low;
  save_ref = save_high;
  save_will = save_high;
  skill_points = pos 4;
  channeler = false;
  enum = 3;
}

abbrev catalog : List Class
catalog = armsman ∷ noble ∷ []

abbrev uno : Character
uno = record {
  class_levels = (1, pos 2) ∷ (3, pos 1) ∷ [];
  hp_current = pos 9;
  hp_max = pos 27;
  con = pos 14;
  dex = pos 12;
  wis = pos 9;
  int = pos 10;
}

armsman_found : class_by_enum catalog 1 ≡ some armsman
unfolding class_by_enum
armsman_found = refl

armsman_level : level_in 1 uno.class_levels ≡ pos 2
unfolding lookup
armsman_level = refl

uno_bab : sum_over bab_of catalog uno.class_levels ≡ pos 2
unfolding sum_over class_by_enum bab_per_class ◌+ℤ◌ ◌/ℤ◌
uno_bab = refl

level_up_bab_example :
    (g : LevelGains) × (compute_level_up uno (some catalog) 1 ≡ some g)
    × (g.new_level ≡ pos 3)
    × (lookup 1 g.gained_levels ≡ some (pos 3))
    × ((k : ℕ) → 1 ≢ k → lookup k g.gained_levels ≡ lookup k uno.class_levels)
    × ((g.new_bab ≡ bab_total uno.class_levels (some catalog))
        ⊎ (g.new_bab ≡ bab_total uno.class_levels (some catalog) +ℤ pos 1))
level_up_bab_example =
    level_up_bab uno catalog 1 armsman 2 armsman_found armsman_level (omega arith)
      (rw uno_bab (omega arith, omega arith))
