-- ===== src/Combat/Resolution/Damage.antt =====
-- `RollDamage` and `applyDamage` of internal/combat/resolution.go.
use native.Mathlib.Nat.{mul-le-mul_left}
use wheel_mud.Base.{
  ℕ, ◌+◌, ◌*◌, ◌≤◌, ◌<◌, ◌≡◌, ◌⊎◌, inl, inr, refl, sym, Bool, not, ◌||◌, Option, some, List, [],
  ◌∷◌, arith, if◌then◌else◌, Bool-cases, Option-cases,
}
use wheel_mud.Base.Int.{
  ℤ, pos, negsuc, ◌+ℤ◌, ◌-ℤ◌, ◌*ℤ◌, ◌/ℤ◌, ◌≤ℤ◌, pos_part, neg_part, leb_ℤ, ltb_ℤ, ◌==ℤ◌, InRange,
  wrap, wrap-eq_of_InRange, -ℤ_parts,
}
use wheel_mud.Combat.Fight.{AttackVariant, normal, power, quick}
use wheel_mud.Combat.Resolution.{
  int16_bound, int32_bound, Core, WeaponStats, DiceTerm, DamageReduction, Resist, DamageType,
  subdued, same_type, scale_damage, at_least_one, at_least_zero, with_crit, roll_base, roll_damage,
  reduce, resist, resisted, apply_damage,
}

-- Damage that a roll can give, or the protections can leave: from 0 on, and an int32.
abbrev pub IsAmount : ℤ → Type 0
IsAmount n = (pos 0 ≤ℤ n) × (n ≤ℤ pos 2147483647)

scale_damage_pos : (v : AttackVariant) (d : ℤ) → pos 1 ≤ℤ d → pos 1 ≤ℤ scale_damage v d
unfolding scale_damage
scale_damage_pos normal d h = h
scale_damage_pos power d h = ground arith
scale_damage_pos quick d h = ground arith

at_least_one_pos : (d : ℤ) → pos 1 ≤ℤ at_least_one d
at_least_one_pos d = ground arith

capped_bounds :
    (d : ℤ)
    → pos 1 ≤ℤ d
    → (pos 1 ≤ℤ (if ltb_ℤ (pos 2147483647) d then pos 2147483647 else d))
      × ((if ltb_ℤ (pos 2147483647) d then pos 2147483647 else d) ≤ℤ pos 2147483647)
capped_bounds d h = ground arith

-- Whatever the weapon, the strength, the dice and the variant are, a hit has between 1 and 2147483647
-- points of damage.
pub roll_damage_bounds :
    {S : Type 0} (intn : ℕ → S → ℕ × S) (attacker : Core) (stats : WeaponStats)
    (dice : Option DiceTerm) (is_crit : Bool) (variant : AttackVariant) (s : S)
    → (pos 1 ≤ℤ (roll_damage intn attacker stats dice is_crit variant s).0)
      × ((roll_damage intn attacker stats dice is_crit variant s).0 ≤ℤ pos 2147483647)
unfolding roll_damage
roll_damage_bounds intn attacker stats dice is_crit variant s =
    let dmg = at_least_one (with_crit attacker stats is_crit (roll_base intn dice s).0) in
    capped_bounds (scale_damage variant dmg) (
      scale_damage_pos variant dmg
        (at_least_one_pos (with_crit attacker stats is_crit (roll_base intn dice s).0)))

InRange-of_bounds :
    (h : ℕ) (z : ℤ) → neg_part z ≤ pos_part z + h → pos_part z < h + neg_part z → InRange h z
InRange-of_bounds h (pos n) lo hi = (omega (arith, hi), omega arith)
InRange-of_bounds h (negsuc n) lo hi = (omega (arith, hi, lo), omega (arith, lo))

-- The amounts are int16.
abbrev pub Small : List DamageReduction → Type 0
Small [] = Unit
Small (dr ∷ l) = InRange int16_bound dr.amount × Small l

-- No reduction makes the damage larger.
reduce_le :
    (amount : ℤ) (l : List DamageReduction)
    → IsAmount amount
    → Small l
    → (left : ℤ) → reduce amount l ≡ some left
    → IsAmount left × (left ≤ℤ amount)
unfolding reduce
reduce_le amount [] (lo, hi) small left h =
    let same : amount ≡ left = ground (arith, h) in rw (sym same) ((lo, hi), omega arith)
reduce_le amount (dr ∷ l) (lo, hi) (range, small) left h =
    elim (Bool-cases (leb_ℤ dr.amount (pos 0) || dr.bypassed)) [
      | inl e ↦ reduce_le amount l (lo, hi) small left (ground (arith, e, h))
      | inr e ↦
          let less = amount -ℤ dr.amount in
          let plus : pos 1 ≤ℤ dr.amount = ground (arith, e) in
          let parts = -ℤ_parts amount dr.amount in
          let exact : wrap int32_bound less ≡ less =
            wrap-eq_of_InRange int32_bound less (omega arith) (
              InRange-of_bounds int32_bound less (omega (arith, lo, hi, plus, range, parts))
                (omega (arith, lo, hi, plus, range, parts))) in
          elim (Bool-cases (leb_ℤ less (pos 0))) [
            | inl z ↦ absurd (ground (arith, e, exact, z, h))
            | inr z ↦
                let some_left : IsAmount less =
                  (ground (arith, z), omega (arith, hi, plus, parts)) in
                let (amount', le) =
                  reduce_le less l some_left small left (ground (arith, e, exact, z, h)) in
                (amount', omega (arith, le, plus, parts))
          ]
    ]

-- Each resistance lowers the damage by a part of it: none is a weakness.
abbrev pub Resistant : List Resist → Type 0
Resistant [] = Unit
Resistant (r ∷ rs) = (pos 0 ≤ℤ r.pct) × Resistant rs

-- A part of the damage, in percent.
quot_le : (x : ℤ) (n : ℕ) → pos_part x ≤ n * 100 → pos_part (x /ℤ pos 100) ≤ n
unfolding ◌/ℤ◌
quot_le x n h = ground arith

pos_times_le : (n : ℕ) (d : ℤ) → pos_part (pos n *ℤ d) ≤ n * pos_part d
unfolding ◌*ℤ◌
pos_times_le n d = ground arith

rest_le : (p : ℕ) → pos_part (pos 100 -ℤ pos p) ≤ 100
unfolding ◌-ℤ◌
rest_le p = ground arith

times_le : (n p : ℕ) → pos_part (pos n *ℤ (pos 100 -ℤ pos p)) ≤ n * 100
times_le n p =
    let d = pos 100 -ℤ pos p in
    let le : n * pos_part d ≤ n * 100 = mul-le-mul_left n (rest_le p) in
    omega (arith, le, pos_times_le n d)

part_le :
    (amount pct : ℤ)
    → IsAmount amount
    → pos 0 ≤ℤ pct
    → IsAmount (at_least_zero ((amount *ℤ (pos 100 -ℤ pct)) /ℤ pos 100))
      × (at_least_zero ((amount *ℤ (pos 100 -ℤ pct)) /ℤ pos 100) ≤ℤ amount)
part_le (pos n) (pos p) (lo, hi) h =
    ground (arith, hi, quot_le (pos n *ℤ (pos 100 -ℤ pos p)) n (times_le n p))
part_le (negsuc n) pct (lo, hi) h = absurd (omega (arith, lo))
part_le (pos n) (negsuc p) (lo, hi) h = absurd (omega (arith, h))

resist_le :
    (dt : DamageType) (amount : ℤ) (rs : List Resist)
    → IsAmount amount
    → Resistant rs
    → IsAmount (resist dt amount rs) × (resist dt amount rs ≤ℤ amount)
unfolding resist
resist_le dt amount [] a h = (a, omega arith)
resist_le dt amount (r ∷ rs) a (first, more) =
    elim (Bool-cases (not (same_type r.kind dt) || r.pct ==ℤ pos 0)) [
      | inl e ↦ rw (e, resist) (resist_le dt amount rs a more)
      | inr e ↦
          let part = at_least_zero ((amount *ℤ (pos 100 -ℤ r.pct)) /ℤ pos 100) in
          let (b, le) = part_le amount r.pct a first in
          let exact : wrap int32_bound part ≡ part =
            wrap-eq_of_InRange int32_bound part (omega arith)
              (InRange-of_bounds int32_bound part (omega (arith, b)) (omega (arith, b))) in
          let (c, le') = resist_le dt part rs b more in
          rw (e, resist) (rw exact (c, omega (arith, le, le')))
    ]

-- What is left of an amount behind the reductions and the resistances.
left_of : DamageType → Core → ℤ → ℤ
left_of dt target amount = resisted dt target.resists (reduce amount target.reductions)

left_of-bounds :
    (dt : DamageType) (target : Core) (amount : ℤ)
    → IsAmount amount
    → Small target.reductions
    → Resistant target.resists
    → IsAmount (left_of dt target amount) × (left_of dt target amount ≤ℤ amount)
unfolding left_of
left_of-bounds dt target amount a small res =
    elim (Option-cases (reduce amount target.reductions)) [
      | inl e ↦ rw e ((omega arith, omega arith), omega (arith, a))
      | inr (left, e) ↦
          let (b, le) = reduce_le amount target.reductions a small left e in
          let (c, le') = resist_le dt left target.resists b res in rw e (ground (arith, c, le, le'))
    ]

-- The creature with the damage taken from the one pool that it goes to.
abbrev pub Hurt : Core → DamageType → ℤ → Core → Type 0
Hurt target dt dealt after = after ≡ (
    if same_type dt subdued
    then record target { subdual = wrap int32_bound (target.subdual +ℤ dealt) }
    else record target { hp_current = wrap int32_bound (target.hp_current -ℤ dealt) })

-- On a creature without a weakness, damage from 0 on that is an int32 is at most lowered by reductions
-- and resistances, never below 0; and what is dealt either is 0 and changes nothing, or goes to the hit
-- points alone or, if it is subdual damage, to the subdual pool alone.
pub apply_damage_lem :
    (target : Core) (amount : ℤ) (dt : DamageType)
    → IsAmount amount
    → Small target.reductions
    → Resistant target.resists
    → (pos 0 ≤ℤ (apply_damage target amount dt).0)
      × ((apply_damage target amount dt).0 ≤ℤ amount)
      × (((apply_damage target amount dt).0 ≡ pos 0) × ((apply_damage target amount dt).1 ≡ target)
          ⊎ Hurt target dt (apply_damage target amount dt).0 (apply_damage target amount dt).1)
unfolding apply_damage left_of
apply_damage_lem target amount dt a small res =
    let (b, le) = left_of-bounds dt target amount a small res in
    elim (Bool-cases (leb_ℤ amount (pos 0))) [
      | inl e ↦ rw (e, apply_damage) (omega arith, omega (arith, a), inl (refl, refl))
      | inr e ↦ elim (Bool-cases (leb_ℤ (left_of dt target amount) (pos 0))) [
        | inl z ↦ rw (e, z, apply_damage) (omega arith, omega (arith, a), inl (refl, refl))
        | inr z ↦ elim (Bool-cases (same_type dt subdued)) [
          | inl d ↦ rw (e, z, d, apply_damage) (omega (arith, b), le, inr refl)
          | inr d ↦ rw (e, z, d, apply_damage) (omega (arith, b), le, inr refl)
        ]
      ]
    ]
