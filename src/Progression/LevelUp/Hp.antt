-- ===== src/Progression/LevelUp/Hp.antt =====
-- Hit points with a level (internal/progression/levelup.go, HPDelta and ComputeLevelUp).
use wheel_mud.Base.{
  ℕ, ◌+◌, ◌*◌, ◌≤◌, ◌≡◌, refl, true, false, some, List, arith, if◌then◌else◌, if-cases, Bool-cases,
  inl, inr,
}
use wheel_mud.Base.Int.{
  ℤ, pos, negsuc, ◌+ℤ◌, ◌*ℤ◌, ◌/ℤ◌, ◌%ℤ◌, ◌≤ℤ◌, ltb_ℤ, ◌==ℤ◌, InRange, pos_part, neg_part, -ℤ_parts,
  wrap-eq_of_InRange, +ℤ_parts,
}
use wheel_mud.Progression.LevelUp.{
  Class, Character, LevelGains, class_by_enum, int32, gains_of, compute_level_up, hp_delta,
  ability_modifier,
}
use wheel_mud.Progression.LevelUp.Totals.{ability_modifier_lem}

abbrev Modest : ℤ → Type 0
Modest d = (pos 1 ≤ℤ d) × (d ≤ℤ pos 2000)

sum-Modest :
    (a c : ℤ)
    → a ≤ℤ pos 1000
    → c ≤ℤ pos 1000
    → Modest (if ltb_ℤ (a +ℤ c) (pos 1) then pos 1 else int32 (a +ℤ c))
sum-Modest a c ha hc =
    if-cases Modest (ltb_ℤ (a +ℤ c) (pos 1)) (λ _. (omega arith, omega arith))
      λ big.
        let lem = +ℤ_parts a c in
        let fits =
          wrap-eq_of_InRange 2147483648 (a +ℤ c) (omega arith)
            (ground (arith, lem), ground (arith, lem)) in
        rw fits (ground (arith, lem), ground (arith, lem))

average :
    (d : ℕ)
    → d ≤ 1000
    → ((pos d +ℤ pos 1) /ℤ pos 2 +ℤ pos 1 ≤ℤ pos 1000) × (pos d /ℤ pos 2 +ℤ pos 1 ≤ℤ pos 1000)
unfolding ◌+ℤ◌ ◌/ℤ◌
average d h = (ground arith, ground arith)

some_die :
    (die : ℤ)
    → die ≤ℤ pos 1000
    → (d : ℕ) × ((if ltb_ℤ die (pos 1) then pos 1 else die) ≡ pos d) × (d ≤ 1000)
some_die (pos n) h = elim (Bool-cases (ltb_ℤ (pos n) (pos 1))) [
  | inl e ↦ (1, rw e refl, omega arith)
  | inr e ↦ (n, rw e refl, omega arith)
]
some_die (negsuc n) h =
    let e : ltb_ℤ (negsuc n) (pos 1) ≡ true = ground arith in (1, rw e refl, omega arith)

hp_delta-Modest : (die c : ℤ) → die ≤ℤ pos 1000 → c ≤ℤ pos 1000 → Modest (hp_delta die c)
unfolding hp_delta
hp_delta-Modest die c hd hc =
    let (d, e, small) = some_die die hd in
    rw e (
      sum-Modest _ c
        (if-cases (λ r. r ≤ℤ pos 1000) (pos d %ℤ pos 2 ==ℤ pos 1) (λ _. (average d small).0)
          λ _. (average d small).1)
        hc)

sum_fits :
    (a d : ℤ)
    → negsuc 2147483647 ≤ℤ a
    → a ≤ℤ pos 2147481000
    → pos 1 ≤ℤ d
    → d ≤ℤ pos 2000
    → InRange 2147483648 (a +ℤ d)
unfolding ◌+ℤ◌
sum_fits a d lo hi more most = ground arith

twice_parts :
    (m : ℤ) → pos_part (pos 2 *ℤ m) + 2 * neg_part m ≡ neg_part (pos 2 *ℤ m) + 2 * pos_part m
unfolding ◌*ℤ◌
twice_parts (pos n) = ground arith
twice_parts (negsuc n) = ground arith

-- A score that is an int8 has a small modifier.
modifier_small : (score : ℤ) → score ≤ℤ pos 127 → ability_modifier score ≤ℤ pos 1000
modifier_small score h = omega (
  arith,
  ability_modifier_lem score,
  twice_parts (ability_modifier score),
  -ℤ_parts score (pos 10),
)

-- With an int8 for the constitution, a hit die of at most 1000, and hit points that are not above
-- their maximum and that leave room for 2000 more in an int32, a level-up in a class of the
-- catalog succeeds; it adds at least 1 hit point, the same to the hit points and to their maximum,
-- so that the wounds stay.
pub level_up_hp :
    (ch : Character) (cat : List Class) (key : ℕ) (cl : Class)
    → class_by_enum cat key ≡ some cl
    → cl.hit_die ≤ℤ pos 1000
    → InRange 128 ch.con
    → ch.hp_current ≤ℤ ch.hp_max
    → ch.hp_max ≤ℤ pos 2147481000
    → InRange 2147483648 ch.hp_current
    → (g : LevelGains) × (compute_level_up ch (some cat) key ≡ some g)
      × (pos 1 ≤ℤ g.gained_hp)
      × (g.new_hp_max ≡ ch.hp_max +ℤ g.gained_hp)
      × (g.new_hp_current ≡ ch.hp_current +ℤ g.gained_hp)
unfolding compute_level_up gains_of
level_up_hp ch cat key cl e die con le max cur =
    let (more, most) =
      hp_delta-Modest cl.hit_die (ability_modifier ch.con) die
        (modifier_small ch.con (omega arith)) in
    let delta = hp_delta cl.hit_die (ability_modifier ch.con) in
    let p = +ℤ_parts ch.hp_max delta in
    let q = +ℤ_parts ch.hp_current delta in
    let top : int32 (ch.hp_max +ℤ delta) ≡ ch.hp_max +ℤ delta =
      wrap-eq_of_InRange 2147483648 _ (omega arith)
        (sum_fits ch.hp_max delta (omega arith) (omega arith) (omega arith) (omega arith)) in
    let now : int32 (ch.hp_current +ℤ delta) ≡ ch.hp_current +ℤ delta =
      wrap-eq_of_InRange 2147483648 _ (omega arith)
        (sum_fits ch.hp_current delta (omega arith) (omega arith) (omega arith) (omega arith)) in
    let below : ltb_ℤ (ch.hp_max +ℤ delta) (ch.hp_current +ℤ delta) ≡ false =
      ground (arith, p, q) in
    (gains_of ch cat key cl, rw e refl, more, top, rw (top, now, below) refl)
