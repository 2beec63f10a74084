-- ===== src/Affects/Effective.antt =====
-- `Effective` of internal/affects/affects.go: the values that combat reads stay in their types.
use Prim.Native.Nat.{bit_or}
use wheel_mud.Base.{List, [], ◌∷◌, arith, if-cases}
use wheel_mud.Base.Int.{ℤ, pos, negsuc, ◌+ℤ◌, ◌≤ℤ◌, ltb_ℤ, InRange, wrap-InRange}
use wheel_mud.Affects.{
  Field, str_current, dex_current, con_current, int_current, wis_current, cha_current, defense,
  saves_fort, saves_ref, saves_will, speed_base, bab, unknown, StatMod, Affect, Core, int16_bound,
  clamp_int8, plus_int16, not_negative, apply_mod, apply_mods, fold_affects, effective,
}

-- The abilities are of type int8, the other numbers of type int16, and the speed is not negative.
abbrev pub Typed : Core → Type 0
Typed c =
    InRange 128 c.str
    × InRange 128 c.dex
    × InRange 128 c.con
    × InRange 128 c.int
    × InRange 128 c.wis
    × InRange 128 c.cha
    × InRange int16_bound c.defense_bonus
    × InRange int16_bound c.fort
    × InRange int16_bound c.reflex
    × InRange int16_bound c.will
    × InRange int16_bound c.base_attack
    × InRange int16_bound c.base_ft
    × (pos 0 ≤ℤ c.base_ft)

clamp-InRange : (v : ℤ) → InRange 128 (clamp_int8 v)
unfolding clamp_int8
clamp-InRange v =
    if-cases (InRange 128) (ltb_ℤ v (negsuc 127)) (λ h. (omega arith, omega arith))
      (λ h.
        if-cases (InRange 128) (ltb_ℤ (pos 127) v) (λ g. (omega arith, omega arith))
          (λ g. (ground (arith, h, g), ground (arith, h, g))))

plus-InRange : (a d : ℤ) → InRange int16_bound (plus_int16 a d)
unfolding plus_int16
plus-InRange a d = wrap-InRange int16_bound (a +ℤ d) (omega arith)

forward-InRange : (v : ℤ) → InRange int16_bound v → InRange int16_bound (not_negative v)
forward-InRange v h =
    if-cases (InRange int16_bound) (ltb_ℤ v (pos 0)) (λ g. (omega arith, omega arith)) (λ g. h)

forward_lem : (v : ℤ) → pos 0 ≤ℤ not_negative v
forward_lem v =
    if-cases (λ x. pos 0 ≤ℤ x) (ltb_ℤ v (pos 0)) (λ g. omega arith) (λ g. ground (arith, g))

apply_mod-Typed : (c : Core) (f : Field) (d : ℤ) → Typed c → Typed (apply_mod c f d)
unfolding apply_mod
apply_mod-Typed c str_current d t = (
  clamp-InRange (plus_int16 c.str d),
  t.1,
  t.2,
  t.3,
  t.4,
  t.5,
  t.6,
  t.7,
  t.8,
  t.9,
  t.10,
  t.11,
  t.12,
)
apply_mod-Typed c dex_current d t = (
  t.0,
  clamp-InRange (plus_int16 c.dex d),
  t.2,
  t.3,
  t.4,
  t.5,
  t.6,
  t.7,
  t.8,
  t.9,
  t.10,
  t.11,
  t.12,
)
apply_mod-Typed c con_current d t = (
  t.0,
  t.1,
  clamp-InRange (plus_int16 c.con d),
  t.3,
  t.4,
  t.5,
  t.6,
  t.7,
  t.8,
  t.9,
  t.10,
  t.11,
  t.12,
)
apply_mod-Typed c int_current d t = (
  t.0,
  t.1,
  t.2,
  clamp-InRange (plus_int16 c.int d),
  t.4,
  t.5,
  t.6,
  t.7,
  t.8,
  t.9,
  t.10,
  t.11,
  t.12,
)
apply_mod-Typed c wis_current d t = (
  t.0,
  t.1,
  t.2,
  t.3,
  clamp-InRange (plus_int16 c.wis d),
  t.5,
  t.6,
  t.7,
  t.8,
  t.9,
  t.10,
  t.11,
  t.12,
)
apply_mod-Typed c cha_current d t = (
  t.0,
  t.1,
  t.2,
  t.3,
  t.4,
  clamp-InRange (plus_int16 c.cha d),
  t.6,
  t.7,
  t.8,
  t.9,
  t.10,
  t.11,
  t.12,
)
apply_mod-Typed c defense d t =
    (t.0, t.1, t.2, t.3, t.4, t.5, plus-InRange c.defense_bonus d, t.7, t.8, t.9, t.10, t.11, t.12)
apply_mod-Typed c saves_fort d t =
    (t.0, t.1, t.2, t.3, t.4, t.5, t.6, plus-InRange c.fort d, t.8, t.9, t.10, t.11, t.12)
apply_mod-Typed c saves_ref d t =
    (t.0, t.1, t.2, t.3, t.4, t.5, t.6, t.7, plus-InRange c.reflex d, t.9, t.10, t.11, t.12)
apply_mod-Typed c saves_will d t =
    (t.0, t.1, t.2, t.3, t.4, t.5, t.6, t.7, t.8, plus-InRange c.will d, t.10, t.11, t.12)
apply_mod-Typed c bab d t =
    (t.0, t.1, t.2, t.3, t.4, t.5, t.6, t.7, t.8, t.9, plus-InRange c.base_attack d, t.11, t.12)
apply_mod-Typed c speed_base d t = (
  t.0,
  t.1,
  t.2,
  t.3,
  t.4,
  t.5,
  t.6,
  t.7,
  t.8,
  t.9,
  t.10,
  forward-InRange (plus_int16 c.base_ft d) (plus-InRange c.base_ft d),
  forward_lem (plus_int16 c.base_ft d),
)
apply_mod-Typed c unknown d t = t

apply_mods-Typed : (c : Core) (mods : List StatMod) → Typed c → Typed (apply_mods c mods)
unfolding apply_mods
apply_mods-Typed c [] t = t
apply_mods-Typed c (m ∷ mods) t =
    apply_mods-Typed (apply_mod c m.field m.delta) mods (apply_mod-Typed c m.field m.delta t)

fold_affects-Typed : (c : Core) (affects : List Affect) → Typed c → Typed (fold_affects c affects)
unfolding fold_affects
fold_affects-Typed c [] t = t
fold_affects-Typed c (a ∷ affects) t =
    let out = apply_mods c a.modifiers in
    fold_affects-Typed (record out { conditions = bit_or out.conditions a.condition_mask }) affects
      (apply_mods-Typed c a.modifiers t)

-- Whatever the affects, the values of `Effective` stay in their types, abilities in an int8 and the
-- other numbers in an int16, and the speed does not become negative, if that holds of the creature.
pub effective-Typed : (c : Core) → Typed c → Typed (effective c)
unfolding effective
effective-Typed c t = fold_affects-Typed c c.affects t
