-- ===== src/Currency/Arithmetic.antt =====
-- The checked int64 arithmetic of internal/currency/currency.go is exact.
use wheel_mud.Base.{
  ◌≡◌, ◌≢◌, ◌⊎◌, refl, sym, ap, ◌∙◌, true, false, ◌&&◌, ◌||◌, arith, if◌then◌else◌, Bool-cases, inl,
  inr, if-cases,
}
use wheel_mud.Base.Int.{
  ℤ, pos, negsuc, ◌+ℤ◌, ◌-ℤ◌, ◌*ℤ◌, ◌/ℤ◌, ◌≤ℤ◌, ◌<ℤ◌, ltb_ℤ, leb_ℤ, ◌==ℤ◌, wrap, InRange, in_range,
  ==ℤ_iff, eq_of_parts, +ℤ_parts, -ℤ_parts, int_laws, wrap-eq_of_InRange, wrap-InRange,
}
use wheel_mud.Currency.Signs.{product_test, quotient-InRange}
use wheel_mud.Currency.{
  Result, ok, err, overflow, insufficient_funds, int64_bound, max_int64, min_int64, safe_add,
  safe_sub, safe_mul, sub,
}

abbrev pub IsInt64 : ℤ → Type 0
IsInt64 = InRange int64_bound

-- The value if it is an int64, and an overflow if not.
abbrev pub checked : ℤ → Result ℤ
checked v = if in_range int64_bound v then ok v else err overflow

-- On int64 operands, `safeAdd` gives the sum if that is an int64, and an overflow if not.
pub safe_add_lem : (a b : ℤ) → IsInt64 a → IsInt64 b → safe_add a b ≡ checked (a +ℤ b)
unfolding safe_add
safe_add_lem a b ha hb = ground (arith, +ℤ_parts a b, -ℤ_parts max_int64 b, -ℤ_parts min_int64 b)

-- On int64 operands, `safeSub` gives the difference if that is an int64, and an overflow if not.
pub safe_sub_lem : (a b : ℤ) → IsInt64 a → IsInt64 b → safe_sub a b ≡ checked (a -ℤ b)
unfolding safe_sub
safe_sub_lem a b ha hb = ground (arith, -ℤ_parts a b, +ℤ_parts max_int64 b, +ℤ_parts min_int64 b)

product_zero : (a b : ℤ) → (a ≡ pos 0) ⊎ (b ≡ pos 0) → a *ℤ b ≡ pos 0
unfolding ◌*ℤ◌
product_zero a b (inl e) = rw e (ground arith)
product_zero a b (inr e) = rw e (ground arith)

-- The least int64 and -1 have no int64 for a product.
least_times_minus_one :
    (in_range int64_bound (min_int64 *ℤ negsuc 0) ≡ false)
    × (in_range int64_bound (negsuc 0 *ℤ min_int64) ≡ false)
unfolding ◌*ℤ◌
least_times_minus_one = (refl, refl)

-- Only the least int64 has no negation.
negated : (a : ℤ) → IsInt64 a → a ≢ min_int64 → IsInt64 (a *ℤ negsuc 0)
unfolding ◌*ℤ◌
negated (pos n) r ne = ground (arith, r)
negated (negsuc n) r ne = ground (arith, r, ne)

tested :
    (a b : ℤ)
    → IsInt64 a
    → a ≢ pos 0
    → b ≢ pos 0
    → (b ≡ negsuc 0 → a ≢ min_int64)
    → (let c = wrap int64_bound (a *ℤ b) in
        if wrap int64_bound (c /ℤ b) ==ℤ a then ok c else err overflow)
      ≡ checked (a *ℤ b)
tested a b ra za zb ne =
    let test = product_test int64_bound a b (omega arith) za zb in
    let c = wrap int64_bound (a *ℤ b) in
    let fits : IsInt64 (a *ℤ b) → wrap int64_bound (c /ℤ b) ≡ a = (λ range.
      ap (wrap int64_bound) (test.1 range) ∙ wrap-eq_of_InRange int64_bound a (omega arith) ra) in
    let exact : wrap int64_bound (c /ℤ b) ≡ a → IsInt64 (a *ℤ b) = (λ passed.
      elim (Bool-cases (b ==ℤ negsuc 0)) [
        | inl e ↦ let minus : b ≡ negsuc 0 = (==ℤ_iff _ _).0 e in rw minus (negated a ra (ne minus))
        | inr e ↦
            let apart : b ≢ negsuc 0 = (λ minus. ground (arith, e, minus)) in
            let range =
              quotient-InRange int64_bound c b (omega arith)
                (wrap-InRange int64_bound (a *ℤ b) (omega arith)) apart in
            test.0 (sym (wrap-eq_of_InRange int64_bound (c /ℤ b) (omega arith) range) ∙ passed)
      ]) in
    if-cases (λ r. r ≡ checked (a *ℤ b)) (wrap int64_bound (c /ℤ b) ==ℤ a)
      (λ passed.
        let range : IsInt64 (a *ℤ b) = exact ((==ℤ_iff _ _).0 passed) in
        rw (wrap-eq_of_InRange int64_bound (a *ℤ b) (omega arith) range) (ground arith))
      λ failed. elim (Bool-cases (in_range int64_bound (a *ℤ b))) [
        | inl inside ↦
            let hit : (wrap int64_bound (c /ℤ b) ==ℤ a) ≡ true =
              (==ℤ_iff _ _).1 (fits (ground arith)) in
            cc
        | inr big ↦ rw big
      ]

-- On int64 operands, `safeMul` gives the product if that is an int64, and an overflow if not: the
-- wrapped product divided by a factor, wrapped too, shows every overflow but that of the least int64
-- times -1, for which there is a test of its own.
pub safe_mul_lem : (a b : ℤ) → IsInt64 a → IsInt64 b → safe_mul a b ≡ checked (a *ℤ b)
unfolding safe_mul
safe_mul_lem a b ha hb =
    if-cases (λ r. r ≡ checked (a *ℤ b)) (a ==ℤ pos 0 || b ==ℤ pos 0)
      (λ z. rw (product_zero a b (ground arith)) refl)
      λ nz.
        if-cases (λ r. r ≡ checked (a *ℤ b))
          ((a ==ℤ min_int64 && b ==ℤ negsuc 0) || (b ==ℤ min_int64 && a ==ℤ negsuc 0))
          (λ least. elim (least_cases least) [
            | inl (p, q) ↦ rw (p, q) (rw (least_times_minus_one.0) refl)
            | inr (p, q) ↦ rw (p, q) (rw (least_times_minus_one.1) refl)
          ])
          (λ other.
            tested a b ha (λ e. ground arith) (λ e. ground arith) (λ minus least. ground arith))
  where
    least_cases :
        ((a ==ℤ min_int64 && b ==ℤ negsuc 0) || (b ==ℤ min_int64 && a ==ℤ negsuc 0)) ≡ true
        → ((a ≡ min_int64) × (b ≡ negsuc 0)) ⊎ ((a ≡ negsuc 0) × (b ≡ min_int64))
    least_cases h = ground arith

-- `Sub` on int64 operands refuses to take an amount that is not negative from a smaller one, and
-- gives the difference, checked for overflow, in every other case.
pub sub_lem :
    (a b : ℤ)
    → IsInt64 a
    → IsInt64 b
    → sub a b ≡ (if leb_ℤ (pos 0) b && ltb_ℤ a b then err insufficient_funds else checked (a -ℤ b))
unfolding sub
sub_lem a b ha hb = rw (safe_sub_lem a b ha hb)

-- For int64 amounts, a purse that is not negative stays so when `Sub` takes an amount that is not
-- negative from it, and what is taken and what is left make up the purse; `Sub` succeeds if the
-- purse is large enough, and reports insufficient funds if it is not.
pub sub_purse :
    (a b : ℤ)
    → IsInt64 a
    → IsInt64 b
    → pos 0 ≤ℤ a
    → pos 0 ≤ℤ b
    → (b ≤ℤ a → sub a b ≡ ok (a -ℤ b))
      × (a <ℤ b → sub a b ≡ err insufficient_funds)
      × ((c : ℤ) → sub a b ≡ ok c → (pos 0 ≤ℤ c) × (c +ℤ b ≡ a))
sub_purse a b ha hb na nb =
    let lem = sub_lem a b ha hb in
    let parts = -ℤ_parts a b in
    (
      λ le. rw lem (ground (arith, parts)),
      λ lt. rw lem (ground arith),
      λ c e. ground (arith, lem ∙ refl, parts, eq_of_parts (a -ℤ b +ℤ b) a (omega int_laws)),
    )
