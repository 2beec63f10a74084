-- ===== src/Combat/Resolution/Attack.antt =====
-- `RollAttack` of internal/combat/resolution.go: when an attack hits, and when it is a critical one.
use wheel_mud.Base.{ℕ, ◌≡◌, ◌∙◌, refl, sym, Bool, true, false, ◌&&◌, inl, inr, arith, Bool-cases}
use wheel_mud.Base.Int.{
  ℤ, pos, ◌+ℤ◌, ◌-ℤ◌, ◌≤ℤ◌, leb_ℤ, InRange, wrap-eq_of_InRange, +ℤ_parts, -ℤ_parts,
}
use wheel_mud.Combat.Resolution.{
  int16_bound, ability_mod, Core, WeaponStats, threat_low_of, effective_defense, beats, d20,
  AttackRoll, roll_attack,
}

-- The defense without the dexterity is an int16.
abbrev pub Narrow : Core → Type 0
Narrow d = InRange int16_bound (d.defense -ℤ ability_mod d.dex)

abbrev pub Implies : Bool → Bool → Type 0
Implies a b = a ≡ true → b ≡ true

effective_defense_mono :
    (d : Core) (flat flat' : Bool)
    → Implies flat flat'
    → Narrow d
    → effective_defense d flat' ≤ℤ effective_defense d flat
unfolding effective_defense
effective_defense_mono d true flat' h narrow = rw (h refl) (omega arith)
effective_defense_mono d false false h narrow = omega arith
effective_defense_mono d false true h narrow =
    elim (Bool-cases (leb_ℤ (ability_mod d.dex) (pos 0))) [
      | inl e ↦ rw e (omega arith)
      | inr e ↦
          rw
            (
              e,
              wrap-eq_of_InRange int16_bound (d.defense -ℤ ability_mod d.dex) (omega arith) narrow,
            )
            (ground (arith, e, -ℤ_parts d.defense (ability_mod d.dex)))
    ]

beats_mono :
    (raw : ℕ) (t t' d d' : ℤ) → t ≤ℤ t' → d' ≤ℤ d → Implies (beats raw t d) (beats raw t' d')
beats_mono raw t t' d d' h k b = ground (arith, h, k, b)

module _ {S : Type 0} (intn : ℕ → S → ℕ × S) (a d : Core) (stats : WeaponStats) (s : S) where
  abbrev attack : Bool → ℤ → AttackRoll
  attack flat bonus = (roll_attack intn a d stats flat bonus s).0

  abbrev plus : ℤ → ℤ
  plus bonus = a.bab +ℤ ability_mod a.str +ℤ bonus

  abbrev raw_roll : ℕ
  raw_roll = (d20 intn s).0

  abbrev confirm_roll : ℕ
  confirm_roll = (d20 intn (d20 intn s).1).0

  hit_lem :
      (flat : Bool) (bonus : ℤ)
      → (attack flat bonus).hit
        ≡ beats raw_roll (pos raw_roll +ℤ plus bonus) (effective_defense d flat)
  unfolding roll_attack
  hit_lem flat bonus = ground arith

  crit_lem :
      (flat : Bool) (bonus : ℤ)
      → (attack flat bonus).is_crit ≡ (
          (attack flat bonus).hit
          && leb_ℤ (threat_low_of stats) (pos raw_roll)
          && beats confirm_roll (pos confirm_roll +ℤ plus bonus) (effective_defense d flat))
  unfolding roll_attack
  crit_lem flat bonus = ground arith

  plus_mono : (k b b' : ℤ) → b ≤ℤ b' → k +ℤ plus b ≤ℤ k +ℤ plus b'
  plus_mono k b b' h = omega (
    arith,
    h,
    +ℤ_parts k (plus b),
    +ℤ_parts k (plus b'),
    +ℤ_parts (a.bab +ℤ ability_mod a.str) b,
    +ℤ_parts (a.bab +ℤ ability_mod a.str) b',
  )

  -- On the same dice, a higher bonus to the attack, or a defender that is caught flat-footed, never turns
  -- a hit into a miss, nor a critical hit into none, if the defense of the defender less the bonus of its
  -- dexterity is an int16.
  pub roll_attack_mono :
      (flat flat' : Bool) (bonus bonus' : ℤ)
      → Implies flat flat'
      → bonus ≤ℤ bonus'
      → Narrow d
      → Implies
          (roll_attack intn a d stats flat bonus s).0.hit
          (roll_attack intn a d stats flat' bonus' s).0.hit
        × Implies
            (roll_attack intn a d stats flat bonus s).0.is_crit
            (roll_attack intn a d stats flat' bonus' s).0.is_crit
  roll_attack_mono flat flat' bonus bonus' h le narrow =
      let lower = effective_defense_mono d flat flat' h narrow in
      let hits : Implies (attack flat bonus).hit (attack flat' bonus').hit = λ e.
        hit_lem flat' bonus'
        ∙ beats_mono raw_roll (pos raw_roll +ℤ plus bonus) (pos raw_roll +ℤ plus bonus')
            (effective_defense d flat) (effective_defense d flat')
            (plus_mono (pos raw_roll) bonus bonus' le) lower (sym (hit_lem flat bonus) ∙ e) in
      (
        hits,
        λ e.
            let parts = sym (crit_lem flat bonus) ∙ e in
            let hit : (attack flat bonus).hit ≡ true = ground (arith, parts) in
            let range : leb_ℤ (threat_low_of stats) (pos raw_roll) ≡ true = ground (arith, parts) in
            let sure =
              beats_mono confirm_roll (pos confirm_roll +ℤ plus bonus)
                (pos confirm_roll +ℤ plus bonus') (effective_defense d flat)
                (effective_defense d flat') (plus_mono (pos confirm_roll) bonus bonus' le) lower
                (ground (arith, parts)) in
            crit_lem flat' bonus' ∙ rw (hits hit, range) sure,
      )
