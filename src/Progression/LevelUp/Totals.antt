-- ===== src/Progression/LevelUp/Totals.antt =====
-- The totals over the classes of a character (internal/progression/levelup.go, BABTotal), and how
-- they change with one level.
use native.Mathlib.Nat.{div-add-mod'}
use wheel_mud.Base.{
  ◌/◌, ◌%◌, ◌*◌, ℕ, suc, ◌≡◌, ◌⊎◌, inl, inr, refl, ap, true, false, ◌&&◌, not, Option, none, some,
  List, [], ◌∷◌, arith, ◌==◌, if◌then◌else◌, Bool-cases,
}
use wheel_mud.Base.Int.{
  ℤ, pos, negsuc, neg, ◌+ℤ◌, ◌-ℤ◌, ◌*ℤ◌, ◌/ℤ◌, ◌%ℤ◌, ◌≤ℤ◌, ◌<ℤ◌, pos_part, ltb_ℤ, ◌==ℤ◌, neg_part,
  int_laws, eq_of_parts,
}
use wheel_mud.Base.Dict.{Dict, lookup, insert}
use wheel_mud.Progression.LevelUp.{
  BabProgression, bab_high, bab_medium, bab_low, bab_other, Class, ability_modifier, bab_per_class,
  class_by_enum, sum_over, counted,
}

abbrev Halves : ℤ → ℤ → Type 0
Halves m d = (pos 2 *ℤ m ≤ℤ d) × (d <ℤ pos 2 *ℤ m +ℤ pos 2)

half_pos : (n : ℕ) → Halves (pos n /ℤ pos 2) (pos n)
unfolding ◌+ℤ◌ ◌*ℤ◌ ◌/ℤ◌
half_pos n = ground arith

negsuc_half : (n : ℕ) → negsuc n /ℤ pos 2 ≡ neg (suc n / 2)
unfolding ◌/ℤ◌
negsuc_half n = ground arith

twice_neg : (m : ℕ) → pos 2 *ℤ neg m ≡ neg (2 * m)
unfolding ◌*ℤ◌
twice_neg m = ground arith

neg_twice : (m : ℕ) → neg m *ℤ pos 2 ≡ neg (m * 2)
unfolding ◌*ℤ◌
neg_twice m = ground arith

negsuc_parity : (n : ℕ) → negsuc n %ℤ pos 2 ≡ neg (suc n % 2)
unfolding ◌%ℤ◌
negsuc_parity n =
    rw (negsuc_half n, neg_twice (suc n / 2))
      (unfold ◌-ℤ◌ in ground (arith, div-add-mod' (suc n) 2))

half_even : (n : ℕ) → suc n % 2 ≡ 0 → Halves (neg (suc n / 2)) (negsuc n)
half_even n h = rw (twice_neg (suc n / 2)) (unfold ◌+ℤ◌ in ground arith)

half_odd : (n : ℕ) → suc n % 2 ≡ 1 → Halves (neg (suc (suc n) / 2)) (negsuc n)
half_odd n h = rw (twice_neg (suc (suc n) / 2)) (unfold ◌+ℤ◌ in ground arith)

one_less : (n : ℕ) → negsuc n -ℤ pos 1 ≡ negsuc (suc n)
unfolding ◌-ℤ◌
one_less n = ground arith

halved :
    (d : ℤ)
    → Halves
        (if ltb_ℤ d (pos 0) && not (d %ℤ pos 2 ==ℤ pos 0)
          then (d -ℤ pos 1) /ℤ pos 2
          else d /ℤ pos 2)
        d
halved (pos n) = let e : ltb_ℤ (pos n) (pos 0) ≡ false = ground arith in rw e (half_pos n)
halved (negsuc n) =
    let e : ltb_ℤ (negsuc n) (pos 0) ≡ true = ground arith in
    elim (Bool-cases (negsuc n %ℤ pos 2 ==ℤ pos 0)) [
      | inl h ↦ rw (e, h, negsuc_half n) (half_even n (ground (arith, rw (negsuc_parity n) at h)))
      | inr h ↦
          rw (e, h, one_less n, negsuc_half (suc n))
            (half_odd n (ground (arith, rw (negsuc_parity n) at h)))
    ]

-- The modifier is the half of the score less 10, rounded down, for odd scores below 10 also.
pub ability_modifier_lem :
    (score : ℤ)
    → (pos 2 *ℤ ability_modifier score ≤ℤ score -ℤ pos 10)
      × (score -ℤ pos 10 <ℤ pos 2 *ℤ ability_modifier score +ℤ pos 2)
unfolding ability_modifier
ability_modifier_lem score = halved (score -ℤ pos 10)

-- What a class adds to a sum.
abbrev adds : (Class → ℤ → ℤ) → ℤ → Option Class → ℤ
adds f n none = pos 0
adds f n (some cl) = f cl n

abbrev pub part : (Class → ℤ → ℤ) → List Class → ℕ → Option ℤ → ℤ
part f cat k none = pos 0
part f cat k (some n) = adds f n (class_by_enum cat k)

counted-adds :
    (f : Class → ℤ → ℤ) (n rest : ℤ) (o : Option Class) → counted f n rest o ≡ adds f n o +ℤ rest
counted-adds f n rest none = eq_of_parts _ _ (omega int_laws)
counted-adds f n rest (some cl) = refl

sum_over-cons :
    (f : Class → ℤ → ℤ) (cat : List Class) (k : ℕ) (n : ℤ) (levels : Dict ℤ)
    → sum_over f cat ((k, n) ∷ levels) ≡ part f cat k (some n) +ℤ sum_over f cat levels
unfolding sum_over
sum_over-cons f cat k n levels = counted-adds f n (sum_over f cat levels) (class_by_enum cat k)

add_front : (a b c d e : ℤ) → b +ℤ c ≡ d +ℤ e → a +ℤ b +ℤ c ≡ a +ℤ d +ℤ e
add_front a b c d e h = eq_of_parts _ _ (omega (int_laws, ap pos_part h, ap neg_part h))

-- Writing one level changes the sum by what its class adds.
pub sum_over-insert :
    (f : Class → ℤ → ℤ) (cat : List Class) (k : ℕ) (v : ℤ) (levels : Dict ℤ)
    → sum_over f cat (insert k v levels) +ℤ part f cat k (lookup k levels)
      ≡ sum_over f cat levels +ℤ part f cat k (some v)
unfolding insert lookup
sum_over-insert f cat k v [] = rw (sum_over-cons f cat k v []) (eq_of_parts _ _ (omega int_laws))
sum_over-insert f cat k v ((j, n) ∷ levels) = elim (Bool-cases (j == k)) [
  | inl e ↦
      let same : j ≡ k = ground arith in
      rw (e, sum_over-cons f cat k v levels, sum_over-cons f cat j n levels, same)
        (eq_of_parts _ _ (omega int_laws))
  | inr e ↦
      rw (e, sum_over-cons f cat j n (insert k v levels), sum_over-cons f cat j n levels)
        (add_front _ _ _ _ _ (sum_over-insert f cat k v levels))
]

-- One more level of a class adds 0 or 1 to what the class adds, and a class never takes away.
bab_rounded : (n : ℕ) → (pos n *ℤ pos 3 /ℤ pos 4 ≡ pos (n * 3 / 4)) × (pos n /ℤ pos 2 ≡ pos (n / 2))
unfolding ◌*ℤ◌ ◌/ℤ◌
bab_rounded n = (ground arith, ground arith)

pub bab_per_class-step :
    (p : BabProgression) (n : ℕ)
    → (bab_per_class p (pos (suc n)) ≡ bab_per_class p (pos n))
      ⊎ (bab_per_class p (pos (suc n)) ≡ bab_per_class p (pos n) +ℤ pos 1)
unfolding bab_per_class ◌+ℤ◌
bab_per_class-step bab_high n = ground arith
bab_per_class-step bab_medium n = ground (arith, bab_rounded n, bab_rounded (suc n))
bab_per_class-step bab_low n = ground (arith, bab_rounded n, bab_rounded (suc n))
bab_per_class-step bab_other n = ground arith
