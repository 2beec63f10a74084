-- ===== src/Affects.antt =====
-- internal/affects/affects.go: timed effects on a creature (creature.Affect of internal/creature).
pub mod Stacking
pub mod Applying
pub mod Latest
pub mod Ticking
pub mod Effective
mod Tests
use Prim.Native.Nat.{bit_or}
use wheel_mud.Base.{
  ℕ, zero, suc, ◌+◌, Bool, true, false, ◌&&◌, Option, none, some, List, [], ◌∷◌, ◌++◌, take, drop,
  ltb, if◌then◌else◌,
}
use wheel_mud.Base.Int.{ℤ, pos, negsuc, ◌+ℤ◌, ◌-ℤ◌, ◌==ℤ◌, leb_ℤ, ltb_ℤ, wrap}
use wheel_mud.Base.Text.{Bytes, same}

-- The fields that a modifier can name; any other name is ignored.
pub data Field : Type 0 where
  str_current dex_current con_current int_current wis_current cha_current : Field
  defense saves_fort saves_ref saves_will speed_base bab unknown : Field

pub record StatMod : Type 0 where
  pub field : Field
  pub delta : ℤ

pub record Affect : Type 0 where
  pub source : ℤ
  pub name : Bytes
  pub modifiers : List StatMod
  pub duration_ticks : ℤ
  pub tick_effect : Bytes
  pub condition_mask : ℕ
  pub tick_damage : ℤ
  pub expire_message : Bytes

abbrev pub max_affects_per_name : ℕ
max_affects_per_name = 4

-- 2 ^ 31 and 2 ^ 15: an int32 and an int16 lie from minus that to one less.
abbrev pub int32_bound : ℕ
int32_bound = 2147483648

abbrev pub int16_bound : ℕ
int16_bound = 32768

-- Both results of `Tick`: what stays, and what has expired.
unfoldable pub tick : List Affect → List Affect × List Affect
tick [] = ([], [])
tick (a ∷ affects) =
    let (out, expired) = tick affects in
    let left = wrap int32_bound (a.duration_ticks -ℤ pos 1) in
    if leb_ℤ left (pos 0)
    then (out, record a { duration_ticks = pos 0 } ∷ expired)
    else (record a { duration_ticks = left } ∷ out, expired)

abbrev pub same_key : Affect → Affect → Bool
same_key prev a = prev.source ==ℤ a.source && same prev.name a.name

abbrev pub in_front : Affect → Option (List Affect) → Option (List Affect)
in_front a none = none
in_front a (some out) = some (a ∷ out)

-- The first loop of `Apply`: the list with `a` in the place of an entry with its key, if there is one.
unfoldable pub refresh : List Affect → Affect → Option (List Affect)
refresh [] a = none
refresh (prev ∷ affects) a =
    if same_key prev a then some (a ∷ affects) else in_front prev (refresh affects a)

unfoldable pub name_count : List Affect → Bytes → ℕ
name_count [] name = 0
name_count (a ∷ affects) name =
    let rest = name_count affects name in if same a.name name then suc rest else rest

-- The step of the second loop of `evictForName`; `none` is a victim of -1.
abbrev pub shorter : (name : Bytes) → ℕ → Affect → Option (ℕ × ℤ) → Option (ℕ × ℤ)
shorter name i a none = if same a.name name then some (i, a.duration_ticks) else none
shorter name i a (some (victim, least)) =
    if same a.name name && ltb_ℤ a.duration_ticks least
    then some (i, a.duration_ticks)
    else some (victim, least)

unfoldable pub find_victim :
    (name : Bytes) → (i : ℕ) → List Affect → Option (ℕ × ℤ) → Option (ℕ × ℤ)
find_victim name i [] best = best
find_victim name i (a ∷ affects) best = find_victim name (suc i) affects (shorter name i a best)

abbrev pub without : List Affect → Option (ℕ × ℤ) → List Affect
without affects none = affects
without affects (some (victim, least)) = take victim affects ++ drop (suc victim) affects

unfoldable pub evict_for_name : List Affect → Bytes → List Affect
evict_for_name affects name =
    if ltb (name_count affects name) max_affects_per_name
    then affects
    else without affects (find_victim name 0 affects none)

abbrev pub or_appended : List Affect → Affect → Option (List Affect) → List Affect
or_appended affects a (some out) = out
or_appended affects a none = evict_for_name affects a.name ++ a ∷ []

unfoldable pub apply : List Affect → Affect → List Affect
apply affects a = or_appended affects a (refresh affects a)

-- The part of creature.Core that `Effective` reads and changes.
pub record Core : Type 0 where
  pub str : ℤ
  pub dex : ℤ
  pub con : ℤ
  pub int : ℤ
  pub wis : ℤ
  pub cha : ℤ
  pub defense_bonus : ℤ
  pub fort : ℤ
  pub reflex : ℤ
  pub will : ℤ
  pub base_ft : ℤ
  pub base_attack : ℤ
  pub conditions : ℕ
  pub affects : List Affect

unfoldable pub clamp_int8 : ℤ → ℤ
clamp_int8 v = if ltb_ℤ v (negsuc 127) then negsuc 127 else if ltb_ℤ (pos 127) v then pos 127 else v

-- A sum of type int16.
unfoldable pub plus_int16 : ℤ → ℤ → ℤ
plus_int16 a d = wrap int16_bound (a +ℤ d)

abbrev pub not_negative : ℤ → ℤ
not_negative v = if ltb_ℤ v (pos 0) then pos 0 else v

unfoldable pub apply_mod : Core → Field → ℤ → Core
apply_mod c str_current d = record c { str = clamp_int8 (plus_int16 c.str d) }
apply_mod c dex_current d = record c { dex = clamp_int8 (plus_int16 c.dex d) }
apply_mod c con_current d = record c { con = clamp_int8 (plus_int16 c.con d) }
apply_mod c int_current d = record c { int = clamp_int8 (plus_int16 c.int d) }
apply_mod c wis_current d = record c { wis = clamp_int8 (plus_int16 c.wis d) }
apply_mod c cha_current d = record c { cha = clamp_int8 (plus_int16 c.cha d) }
apply_mod c defense d = record c { defense_bonus = plus_int16 c.defense_bonus d }
apply_mod c saves_fort d = record c { fort = plus_int16 c.fort d }
apply_mod c saves_ref d = record c { reflex = plus_int16 c.reflex d }
apply_mod c saves_will d = record c { will = plus_int16 c.will d }
apply_mod c speed_base d = record c { base_ft = not_negative (plus_int16 c.base_ft d) }
apply_mod c bab d = record c { base_attack = plus_int16 c.base_attack d }
apply_mod c unknown d = c

unfoldable pub apply_mods : Core → List StatMod → Core
apply_mods c [] = c
apply_mods c (m ∷ mods) = apply_mods (apply_mod c m.field m.delta) mods

unfoldable pub fold_affects : Core → List Affect → Core
fold_affects c [] = c
fold_affects c (a ∷ affects) =
    let out = apply_mods c a.modifiers in
    fold_affects (record out { conditions = bit_or out.conditions a.condition_mask }) affects

unfoldable pub effective : Core → Core
effective c = fold_affects c c.affects
