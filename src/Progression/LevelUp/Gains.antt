-- ===== src/Progression/LevelUp/Gains.antt =====
-- What `ComputeLevelUp` of internal/progression/levelup.go gives.
use wheel_mud.Base.{
  ℕ, suc, ◌<◌, ◌≡◌, ◌≢◌, ◌⊎◌, inl, inr, ◌∙◌, refl, sym, ap, Option, none, some, List, arith,
}
use wheel_mud.Base.Int.{
  ℤ, pos, ◌+ℤ◌, pos_part, neg_part, InRange, wrap-eq_of_InRange, int_laws, eq_of_parts,
}
use wheel_mud.Base.Dict.{Dict, lookup, insert, lookup-insert}
use wheel_mud.Progression.LevelUp.{
  Class, Character, LevelGains, bab_per_class, class_by_enum, sum_over, bab_total, int8, int16,
  level_in, or_zero, gains_of, compute_level_up,
}
use wheel_mud.Progression.LevelUp.Totals.{part, sum_over-insert, bab_per_class-step}

abbrev pub bab_of : Class → ℤ → ℤ
bab_of cl n = bab_per_class cl.bab n

no_levels : (cl : Class) → bab_of cl (pos 0) ≡ pos 0
unfolding bab_per_class
no_levels cl = ground arith

part-level :
    (cat : List Class) (k : ℕ) (cl : Class) (o : Option ℤ)
    → class_by_enum cat k ≡ some cl
    → part bab_of cat k o ≡ bab_of cl (or_zero o)
part-level cat k cl none e = sym (no_levels cl)
part-level cat k cl (some n) e = rw e refl

one_step : (a s b c : ℤ) → a +ℤ b ≡ s +ℤ c → (c ≡ b) ⊎ (c ≡ b +ℤ pos 1) → (a ≡ s) ⊎ (a ≡ s +ℤ pos 1)
one_step a s b c h (inl e) =
    inl (
      eq_of_parts a s
        (omega (int_laws, ap pos_part h, ap neg_part h, ap pos_part e, ap neg_part e)))
one_step a s b c h (inr e) = inr (
    eq_of_parts a (s +ℤ pos 1)
      (omega (int_laws, ap pos_part h, ap neg_part h, ap pos_part e, ap neg_part e)))

bumped_sum :
    (cat : List Class) (k : ℕ) (cl : Class) (levels : Dict ℤ) (n : ℕ)
    → class_by_enum cat k ≡ some cl
    → level_in k levels ≡ pos n
    → (sum_over bab_of cat (insert k (pos (suc n)) levels) ≡ sum_over bab_of cat levels)
      ⊎ (sum_over bab_of cat (insert k (pos (suc n)) levels) ≡ sum_over bab_of cat levels +ℤ pos 1)
bumped_sum cat k cl levels n e at =
    let h = sum_over-insert bab_of cat k (pos (suc n)) levels in
    let before = part-level cat k cl (lookup k levels) e ∙ ap (bab_of cl) at in
    let written = part-level cat k cl (some (pos (suc n))) e in
    one_step _ _ (bab_of cl (pos n)) (bab_of cl (pos (suc n)))
      (ap (λ x. sum_over bab_of cat (insert k (pos (suc n)) levels) +ℤ x) (sym before)
        ∙ h
        ∙ ap (λ x. sum_over bab_of cat levels +ℤ x) written)
      (bab_per_class-step cl.bab n)

int16_step :
    (a s : ℤ)
    → InRange 32767 s
    → (a ≡ s) ⊎ (a ≡ s +ℤ pos 1)
    → (int16 a ≡ int16 s) ⊎ (int16 a ≡ int16 s +ℤ pos 1)
int16_step a s r (inl e) = inl (ap int16 e)
int16_step a s r (inr e) =
    let fits = wrap-eq_of_InRange 32768 s (omega arith) (omega arith, omega arith) in
    let next : InRange 32768 (s +ℤ pos 1) = unfold ◌+ℤ◌ in ground arith in
    inr (
      ap int16 e
      ∙ wrap-eq_of_InRange 32768 (s +ℤ pos 1) (omega arith) next
      ∙ ap (λ x. x +ℤ pos 1) (sym fits))

level_bumped : (n : ℕ) → n < 127 → int8 (pos n +ℤ pos 1) ≡ pos (suc n)
level_bumped n h =
    let plus : pos n +ℤ pos 1 ≡ pos (suc n) = unfold ◌+ℤ◌ in ground arith in
    rw plus (wrap-eq_of_InRange 128 (pos (suc n)) (omega arith) (omega arith, omega arith))

-- For a class of the catalog at a level from 0 to 126, and a sum of the base attack bonuses that is
-- below the largest int16, a level-up succeeds: in the levels gained and as the new level the class
-- has one level more, the other classes are as they were, and the base attack bonus is as it was or 1 higher.
pub level_up_bab :
    (ch : Character) (cat : List Class) (key : ℕ) (cl : Class) (n : ℕ)
    → class_by_enum cat key ≡ some cl
    → level_in key ch.class_levels ≡ pos n
    → n < 127
    → InRange 32767 (sum_over bab_of cat ch.class_levels)
    → (g : LevelGains) × (compute_level_up ch (some cat) key ≡ some g)
      × (g.new_level ≡ pos (suc n))
      × (lookup key g.gained_levels ≡ some (pos (suc n)))
      × ((k : ℕ) → key ≢ k → lookup k g.gained_levels ≡ lookup k ch.class_levels)
      × ((g.new_bab ≡ bab_total ch.class_levels (some cat))
          ⊎ (g.new_bab ≡ bab_total ch.class_levels (some cat) +ℤ pos 1))
unfolding compute_level_up gains_of bab_total
level_up_bab ch cat key cl n e at small range =
    let bump : int8 (level_in key ch.class_levels +ℤ pos 1) ≡ pos (suc n) =
      rw at (level_bumped n small) in
    let look = lookup-insert key key (pos (suc n)) ch.class_levels in
    (
      gains_of ch cat key cl,
      rw e refl,
      rw bump (rw look (ground arith)),
      rw bump (look ∙ ground arith),
      λ k ne. rw bump (rw (lookup-insert key k (pos (suc n)) ch.class_levels) (ground arith)),
      rw bump (int16_step _ _ range (bumped_sum cat key cl ch.class_levels n e at)),
    )
