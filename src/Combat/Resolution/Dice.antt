-- ===== src/Combat/Resolution/Dice.antt =====
-- `rollDice` of internal/combat/resolution.go: the range of what it rolls.
use wheel_mud.Base.{
  ℕ, zero, suc, ◌+◌, ◌*◌, ◌≤◌, ◌<◌, ◌≡◌, inl, inr, ◌||◌, Option, some, arith, length, take, drop,
  ◌==◌, Bool-cases, Option-cases,
}
use wheel_mud.Base.Int.{ℤ, pos, neg, ◌+ℤ◌, ◌≤ℤ◌, +ℤ_parts}
use wheel_mud.Base.Text.{Bytes}
use wheel_mud.Combat.Resolution.{
  index_where, DiceTerm, between, first_term, parse_counts, parse_flat, parse_dice, add_dice,
  roll_term,
}

-- `Intn` returns a number below its argument.
abbrev pub Fair : {S : Type 0} → (ℕ → S → ℕ × S) → Type 0
Fair {S} intn = (n : ℕ) (s : S) → 0 < n → (intn n s).0 < n

add_dice_bounds :
    {S : Type 0} (intn : ℕ → S → ℕ × S) (left sides : ℕ) (sum : ℤ) (s : S)
    → Fair intn
    → 0 < sides
    → (sum +ℤ pos left ≤ℤ (add_dice intn left sides sum s).0)
      × ((add_dice intn left sides sum s).0 ≤ℤ sum +ℤ pos (left * sides))
unfolding add_dice
add_dice_bounds intn zero sides sum s fair h =
    (omega (arith, +ℤ_parts sum (pos 0)), omega (arith, +ℤ_parts sum (pos (0 * sides))))
add_dice_bounds intn (suc left) sides sum s fair h =
    let (k, s') = intn sides s in
    let die = fair sides s h in
    let next = sum +ℤ pos (k + 1) in
    let (lo, hi) = add_dice_bounds intn left sides next s' fair h in
    let product : suc left * sides ≡ sides + left * sides = grind arith in
    (
      omega (
        arith,
        lo,
        +ℤ_parts next (pos left),
        +ℤ_parts sum (pos (k + 1)),
        +ℤ_parts sum (pos (suc left)),
      ),
      omega (
        arith,
        hi,
        die,
        product,
        +ℤ_parts next (pos (left * sides)),
        +ℤ_parts sum (pos (k + 1)),
        +ℤ_parts sum (pos (suc left * sides)),
      ),
    )

abbrev pub InLimits : DiceTerm → Type 0
InLimits t =
    (1 ≤ t.count)
    × (t.count ≤ 100)
    × (1 ≤ t.sides)
    × (t.sides ≤ 1000)
    × (neg 10000 ≤ℤ t.flat)
    × (t.flat ≤ℤ pos 10000)

module _ (trim : Bytes → Bytes) (atoi : Bytes → Option ℤ) where
  parse_counts-InLimits :
      (expr : Bytes) (flat : ℤ) (t : DiceTerm)
      → neg 10000 ≤ℤ flat
      → flat ≤ℤ pos 10000
      → parse_counts trim atoi expr flat ≡ some t
      → InLimits t
  unfolding parse_counts
  parse_counts-InLimits expr flat t lo hi h = ground arith

  parse_flat-InLimits :
      (expr : Bytes) (t : DiceTerm) → parse_flat trim atoi expr ≡ some t → InLimits t
  unfolding parse_flat
  parse_flat-InLimits expr t h =
      elim (Option-cases (index_where (λ b. b == b'+' || b == b'-') expr)) [
        | inl e ↦
            parse_counts-InLimits expr (pos 0) t (omega arith) (omega arith) (ground (arith, e, h))
        | inr (zero, e) ↦
            parse_counts-InLimits expr (pos 0) t (omega arith) (omega arith) (ground (arith, e, h))
        | inr (suc i, e) ↦ elim (Option-cases (atoi (drop (suc i) expr))) [
          | inl a ↦ absurd (ground (arith, e, a, h))
          | inr (m, a) ↦ elim (Bool-cases (between (neg 10000) (pos 10000) m)) [
            | inl b ↦
                parse_counts-InLimits (take (suc i) expr) m t (ground (arith, b))
                  (ground (arith, b)) (ground (arith, e, a, b, h))
            | inr b ↦ absurd (ground (arith, e, a, b, h))
          ]
        ]
      ]

  parse_dice-InLimits :
      (expr : Bytes) (t : DiceTerm) → parse_dice trim atoi expr ≡ some t → InLimits t
  unfolding parse_dice
  parse_dice-InLimits expr t h = elim (Bool-cases (length (trim expr) == 0)) [
    | inl e ↦ absurd (ground (arith, e, h))
    | inr e ↦ parse_flat-InLimits (first_term (trim expr)) t (ground (arith, e, h))
  ]

-- An expression that `rollDice` accepts has at most 100 dice of at most 1000 sides and a modifier of at
-- most 10000; with a fair source its roll lies between one point for each die and all sides of each,
-- with the modifier.
pub roll_dice_lem :
    {S : Type 0} (intn : ℕ → S → ℕ × S) (trim : Bytes → Bytes) (atoi : Bytes → Option ℤ)
    (expr : Bytes) (t : DiceTerm) (s : S)
    → Fair intn
    → parse_dice trim atoi expr ≡ some t
    → InLimits t
      × (t.flat +ℤ pos t.count ≤ℤ (roll_term intn t s).0)
      × ((roll_term intn t s).0 ≤ℤ t.flat +ℤ pos (t.count * t.sides))
unfolding roll_term
roll_dice_lem intn trim atoi expr t s fair h =
    let limits = parse_dice-InLimits trim atoi expr t h in
    let (_, _, sides, _, _, _) = limits in
    let (lo, hi) = add_dice_bounds intn t.count t.sides t.flat s fair sides in (limits, lo, hi)
