-- ===== src/Progression/LevelUp.antt =====
-- internal/progression/levelup.go: what a character gains with a level in a class. The catalog is
-- what `cat.Classes()` returns, or none if it is nil. `int` arithmetic is exact here: its operands
-- are int8 values and the catalog's small numbers; conversions to narrower types wrap around.
pub mod Totals
pub mod Gains
pub mod Hp
mod Tests
use wheel_mud.Base.{
  ℕ, Bool, true, false, not, ◌&&◌, Option, none, some, List, [], ◌∷◌, ◌==◌, if◌then◌else◌,
}
use wheel_mud.Base.Int.{ℤ, pos, negsuc, ◌+ℤ◌, ◌-ℤ◌, ◌*ℤ◌, ◌/ℤ◌, ◌%ℤ◌, ltb_ℤ, leb_ℤ, ◌==ℤ◌, wrap}
use wheel_mud.Base.Dict.{Dict, lookup, insert}

-- The strings "high", "medium" and "low", and any other.
pub data BabProgression : Type 0 where
  bab_high bab_medium bab_low bab_other : BabProgression

pub data SaveProgression : Type 0 where
  save_high save_low save_other : SaveProgression

-- The fields of `chargen.Class` that are read here.
pub record Class : Type 0 where
  pub hit_die : ℤ
  pub bab : BabProgression
  pub save_fort : SaveProgression
  pub save_ref : SaveProgression
  pub save_will : SaveProgression
  pub skill_points : ℤ
  pub channeler : Bool
  pub enum : ℕ

-- The fields of `repo.Character` and its `Core` that are read here.
pub record Character : Type 0 where
  pub class_levels : Dict ℤ
  pub hp_current : ℤ
  pub hp_max : ℤ
  pub con : ℤ
  pub dex : ℤ
  pub wis : ℤ
  pub int : ℤ

pub record Saves : Type 0 where
  pub fort : ℤ
  pub ref : ℤ
  pub will : ℤ

pub record LevelGains : Type 0 where
  pub new_hp_current : ℤ
  pub new_hp_max : ℤ
  pub new_bab : ℤ
  pub new_saves : Saves
  pub gained_levels : Dict ℤ
  pub gained_hp : ℤ
  pub new_level : ℤ
  pub feat_delta : ℤ
  pub skill_delta : ℤ
  pub ability_delta : ℤ
  pub weave_delta : ℤ
  pub practice_delta : ℤ

abbrev pub int8 : ℤ → ℤ
int8 = wrap 128

abbrev pub int16 : ℤ → ℤ
int16 = wrap 32768

abbrev pub int32 : ℤ → ℤ
int32 = wrap 2147483648

unfoldable pub ability_modifier : ℤ → ℤ
ability_modifier score =
    let diff = score -ℤ pos 10 in
    if ltb_ℤ diff (pos 0) && not (diff %ℤ pos 2 ==ℤ pos 0)
    then (diff -ℤ pos 1) /ℤ pos 2
    else diff /ℤ pos 2

unfoldable pub hp_delta : (hit_die con_mod : ℤ) → ℤ
hp_delta hit_die con_mod =
    let die = if ltb_ℤ hit_die (pos 1) then pos 1 else hit_die in
    let avg_up =
      if die %ℤ pos 2 ==ℤ pos 1 then (die +ℤ pos 1) /ℤ pos 2 +ℤ pos 1 else die /ℤ pos 2 +ℤ pos 1 in
    let delta = avg_up +ℤ con_mod in if ltb_ℤ delta (pos 1) then pos 1 else int32 delta

unfoldable pub bab_per_class : BabProgression → ℤ → ℤ
bab_per_class bab_high n = if leb_ℤ n (pos 0) then pos 0 else n
bab_per_class bab_medium n = if leb_ℤ n (pos 0) then pos 0 else n *ℤ pos 3 /ℤ pos 4
bab_per_class bab_low n = if leb_ℤ n (pos 0) then pos 0 else n /ℤ pos 2
bab_per_class bab_other n = pos 0

unfoldable pub save_per_class : SaveProgression → ℤ → ℤ
save_per_class save_high n = if leb_ℤ n (pos 0) then pos 0 else pos 2 +ℤ n /ℤ pos 2
save_per_class _ n = if leb_ℤ n (pos 0) then pos 0 else n /ℤ pos 3

unfoldable pub class_by_enum : List Class → ℕ → Option Class
class_by_enum [] k = none
class_by_enum (c ∷ cs) k = if c.enum == k then some c else class_by_enum cs k

-- The body of the loops of `BABTotal` and `SaveTotal`: a class that the catalog does not have is
-- skipped.
abbrev pub counted : (Class → ℤ → ℤ) → ℤ → ℤ → Option Class → ℤ
counted f n rest none = rest
counted f n rest (some cl) = f cl n +ℤ rest

unfoldable pub sum_over : (Class → ℤ → ℤ) → List Class → Dict ℤ → ℤ
sum_over f cat [] = pos 0
sum_over f cat ((k, n) ∷ levels) = counted f n (sum_over f cat levels) (class_by_enum cat k)

unfoldable pub bab_total : Dict ℤ → Option (List Class) → ℤ
bab_total levels none = pos 0
bab_total levels (some cat) = int16 (sum_over (λ cl n. bab_per_class cl.bab n) cat levels)

unfoldable pub save_total :
    Dict ℤ → Option (List Class) → (Class → SaveProgression) → (ability_mod : ℤ) → ℤ
save_total levels none pick_save ability_mod = int16 ability_mod
save_total levels (some cat) pick_save ability_mod =
    int16 (sum_over (λ cl n. save_per_class (pick_save cl) n) cat levels +ℤ ability_mod)

-- A missing key reads as 0.
abbrev pub or_zero : Option ℤ → ℤ
or_zero none = pos 0
or_zero (some n) = n

abbrev pub level_in : ℕ → Dict ℤ → ℤ
level_in k levels = or_zero (lookup k levels)

-- `newLevels[classKey] = newLevels[classKey] + 1` on the copy.
abbrev pub bumped : Dict ℤ → ℕ → Dict ℤ
bumped levels k = insert k (int8 (level_in k levels +ℤ pos 1)) levels

-- The gains once the class is found.
unfoldable pub gains_of : Character → List Class → ℕ → Class → LevelGains
gains_of ch cat class_key cl =
    let new_levels = bumped ch.class_levels class_key in
    let con_mod = ability_modifier ch.con in
    let delta = hp_delta cl.hit_die con_mod in
    let new_max = int32 (ch.hp_max +ℤ delta) in
    let grown = int32 (ch.hp_current +ℤ delta) in
    let level = level_in class_key new_levels in
    let skill = int32 (int32 cl.skill_points +ℤ int32 (ability_modifier ch.int)) in
    record {
      new_hp_current = if ltb_ℤ new_max grown then new_max else grown;
      new_hp_max = new_max;
      new_bab = bab_total new_levels (some cat);
      new_saves = record {
        fort = save_total new_levels (some cat) (λ c. c.save_fort) con_mod;
        ref = save_total new_levels (some cat) (λ c. c.save_ref) (ability_modifier ch.dex);
        will = save_total new_levels (some cat) (λ c. c.save_will) (ability_modifier ch.wis);
      };
      gained_levels = new_levels;
      gained_hp = delta;
      new_level = level;
      feat_delta = if level %ℤ pos 3 ==ℤ pos 0 then pos 1 else pos 0;
      skill_delta = if ltb_ℤ skill (pos 1) then pos 1 else skill;
      ability_delta = if level %ℤ pos 4 ==ℤ pos 0 then pos 1 else pos 0;
      weave_delta = if cl.channeler then pos 1 else pos 0;
      practice_delta = pos 1;
    }

-- `none` is ErrUnknownClass.
abbrev pub gains_for : Character → List Class → ℕ → Option Class → Option LevelGains
gains_for ch cat class_key none = none
gains_for ch cat class_key (some cl) = some (gains_of ch cat class_key cl)

unfoldable pub compute_level_up : Character → Option (List Class) → ℕ → Option LevelGains
compute_level_up ch none class_key = none
compute_level_up ch (some cat) class_key = gains_for ch cat class_key (class_by_enum cat class_key)
