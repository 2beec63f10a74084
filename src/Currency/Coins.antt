-- ===== src/Currency/Coins.antt =====
-- Making an amount out of coins, and splitting it into coins (internal/currency/currency.go).
use native.Mathlib.Nat.{div-add-mod'}
use wheel_mud.Base.{
  ℕ, suc, ◌+◌, ◌*◌, ◌/◌, ◌%◌, ◌≤◌, ◌<◌, ◌≡◌, ◌≢◌, ap, ◌∙◌, false, List, [], ◌∷◌, arith, ltb,
  if◌then◌else◌, Bool-cases, inl, inr,
}
use wheel_mud.Base.Int.{
  ℤ, pos, negsuc, ◌+ℤ◌, ◌-ℤ◌, ◌/ℤ◌, ◌%ℤ◌, pos_part, neg_part, wrap-eq_of_InRange,
}
use wheel_mud.Currency.Signs.{signed-*, signed-/}
use wheel_mud.Currency.Arithmetic.{IsInt64, checked, safe_add_lem, safe_mul_lem}
use wheel_mud.Currency.{
  Result, ok, err, overflow, int64_bound, safe_add, safe_mul, add_parts, new, gc, mk, sp, cp, Coin,
  coin_order, split_from, split, magnitude, min_int64,
}

plus_pos : (m n : ℕ) → pos m +ℤ pos n ≡ pos (m + n)
unfolding ◌+ℤ◌
plus_pos m n = ground arith

-- The worth of the counts with their worth in copper, added to a total.
abbrev worth : ℕ → List (ℕ × ℕ) → ℕ
worth t [] = t
worth t ((n, k) ∷ more) = worth (t + n * k) more

abbrev counted : List (ℕ × ℕ) → List (ℤ × ℤ)
counted [] = []
counted ((n, k) ∷ more) = (pos n, pos k) ∷ counted more

abbrev Fit : List (ℕ × ℕ) → Type 0
Fit [] = Unit
Fit ((n, k) ∷ more) = (n < int64_bound) × (k < int64_bound) × Fit more

worth-le : (t : ℕ) (l : List (ℕ × ℕ)) → t ≤ worth t l
worth-le t [] = omega arith
worth-le t ((n, k) ∷ more) = omega (arith, worth-le (t + n * k) more)

checked-pos : (n : ℕ) → checked (pos n) ≡ (if ltb n int64_bound then ok (pos n) else err overflow)
checked-pos n = ground arith

abbrev fitting : ℕ → Result ℤ
fitting n = if ltb n int64_bound then ok (pos n) else err overflow

mul_counted :
    (n k : ℕ) → n < int64_bound → k < int64_bound → safe_mul (pos n) (pos k) ≡ fitting (n * k)
mul_counted n k fn fk =
    safe_mul_lem (pos n) (pos k) (fn, omega arith) (fk, omega arith)
    ∙ rw (signed-* false false n k) (checked-pos (n * k))

add_counted :
    (t w : ℕ) → t < int64_bound → w < int64_bound → safe_add (pos t) (pos w) ≡ fitting (t + w)
add_counted t w ft fw =
    safe_add_lem (pos t) (pos w) (ft, omega arith) (fw, omega arith)
    ∙ rw (plus_pos t w) (checked-pos (t + w))

add_parts-counted :
    (t : ℕ) (l : List (ℕ × ℕ))
    → t < int64_bound
    → Fit l
    → add_parts (pos t) (counted l) ≡ fitting (worth t l)
unfolding add_parts
add_parts-counted t [] h f = ground arith
add_parts-counted t ((n, k) ∷ more) h (fn, fk, fm) =
    let mul = mul_counted n k fn fk in
    let large = worth-le (t + n * k) more in
    elim (Bool-cases (ltb (n * k) int64_bound)) [
      | inr big ↦ rw (mul, big) (ground (arith, large))
      | inl fits ↦
          let sum = add_counted t (n * k) h (ground arith) in
          elim (Bool-cases (ltb (t + n * k) int64_bound)) [
            | inr over ↦ rw (mul, fits) (rw (sum, over) (ground (arith, large)))
            | inl room ↦
                rw (mul, fits)
                  (rw (sum, room) (add_parts-counted (t + n * k) more (ground arith) fm))
          ]
    ]

-- `New` on int64 counts that are not negative gives their exact worth in copper if that is an
-- int64, and an overflow if it is not.
pub new_lem :
    (gold mark silver copper : ℕ)
    → gold < int64_bound
    → mark < int64_bound
    → silver < int64_bound
    → copper < int64_bound
    → new (pos gold) (pos mark) (pos silver) (pos copper) ≡ (
        let total = gold * 1000 + mark * 100 + silver * 10 + copper in
        if ltb total int64_bound then ok (pos total) else err overflow)
unfolding new
new_lem gold mark silver copper fg fm fs fc =
    let coins : List (ℕ × ℕ) = (gold, 1000) ∷ (mark, 100) ∷ (silver, 10) ∷ (copper, 1) ∷ [] in
    let e : worth 0 coins ≡ gold * 1000 + mark * 100 + silver * 10 + copper = omega arith in
    add_parts-counted 0 coins (omega arith)
      (fg, omega arith, (fm, omega arith, (fs, omega arith, (fc, omega arith, tt))))
    ∙ ap fitting e

quotient_pos : (n v : ℕ) → pos n /ℤ pos v ≡ pos (n / v)
quotient_pos n v = signed-/ false false n v

remainder_pos : (n v : ℕ) → pos n %ℤ pos v ≡ pos (n % v)
unfolding ◌%ℤ◌
remainder_pos n v =
    rw (quotient_pos n v, signed-* false false (n / v) v)
      (unfold ◌-ℤ◌ in ground (arith, div-add-mod' n v))

abbrev coins_of : ℕ → List (Coin × ℤ)
coins_of n =
    (gc, pos (n / 1000))
    ∷ (mk, pos (n % 1000 / 100))
    ∷ (sp, pos (n % 1000 % 100 / 10))
    ∷ (cp, pos (n % 1000 % 100 % 10 / 1))
    ∷ []

split_from-pos : (n : ℕ) → split_from (pos n) coin_order ≡ coins_of n
unfolding split_from
split_from-pos n = simp (quotient_pos, remainder_pos)

magnitude-pos : (a : ℤ) → IsInt64 a → a ≢ min_int64 → magnitude a ≡ pos (pos_part a + neg_part a)
magnitude-pos (pos n) h ne = ground arith
magnitude-pos (negsuc n) h ne =
    let small : suc n < int64_bound = ground arith in
    let minus : pos 0 -ℤ negsuc n ≡ pos (suc n) = unfold ◌-ℤ◌ in ground arith in
    let whole = wrap-eq_of_InRange int64_bound (pos (suc n)) (omega arith) (small, omega arith) in
    rw minus (ground (arith, whole))

-- `Split` of an int64 other than the least one gives the counts of the four coins, largest first:
-- they are worth the size of the amount, and of every coin but the largest there are fewer than
-- ten.
pub split_lem :
    (a : ℤ)
    → IsInt64 a
    → a ≢ min_int64
    → (g m s c : ℕ) × (split a ≡ (gc, pos g) ∷ (mk, pos m) ∷ (sp, pos s) ∷ (cp, pos c) ∷ [])
      × (g * 1000 + m * 100 + s * 10 + c ≡ pos_part a + neg_part a)
      × (m < 10)
      × (s < 10)
      × (c < 10)
unfolding split
split_lem a h ne =
    let n = pos_part a + neg_part a in
    (
      n / 1000,
      n % 1000 / 100,
      n % 1000 % 100 / 10,
      n % 1000 % 100 % 10 / 1,
      rw (magnitude-pos a h ne) (split_from-pos n),
      omega arith,
      omega arith,
      omega arith,
      omega arith,
    )
