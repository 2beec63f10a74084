-- ===== src/Currency/Signs.antt =====
-- Products and quotients of integers by sign and size, and the overflow test of `safeMul` in
-- internal/currency/currency.go.
use mathlib.Core.Path.{ap₂}
use native.Mathlib.Nat.{mul-div_cancel, le-div_iff_mul-le, div-le_self, div-lt_self}
use wheel_mud.Base.{
  ℕ, zero, suc, ◌*◌, ◌/◌, ◌≤◌, ◌<◌, ◌≡◌, ◌≢◌, ◌↔◌, refl, sym, ◌∙◌, Bool, true, false, arith,
}
use wheel_mud.Base.Int.{
  ℤ, pos, negsuc, ◌*ℤ◌, ◌/ℤ◌, neg, wrap, InRange, wrap-eq_of_InRange, wrap-InRange,
}

-- -n if the flag is set, and n if not.
abbrev pub signed : Bool → ℕ → ℤ
signed false n = pos n
signed true n = neg n

abbrev pub differ : Bool → Bool → Bool
differ false t = t
differ true false = true
differ true true = false

pub signed-* : (s t : Bool) (m n : ℕ) → signed s m *ℤ signed t n ≡ signed (differ s t) (m * n)
unfolding ◌*ℤ◌
signed-* false false m n = ground arith
signed-* false true zero n = ground arith
signed-* false true (suc m) zero = ground arith
signed-* false true (suc m) (suc n) = ground arith
signed-* true false zero n = ground arith
signed-* true false (suc m) zero = ground arith
signed-* true false (suc m) (suc n) = ground arith
signed-* true true zero n = ground arith
signed-* true true (suc m) zero = ground arith
signed-* true true (suc m) (suc n) = ground arith

pub signed-/ : (s t : Bool) (m n : ℕ) → signed s m /ℤ signed t n ≡ signed (differ s t) (m / n)
unfolding ◌/ℤ◌
signed-/ false false m n = ground arith
signed-/ false true m zero = ground arith
signed-/ false true m (suc n) = ground arith
signed-/ true false zero n = ground arith
signed-/ true false (suc m) n = ground arith
signed-/ true true zero zero = ground arith
signed-/ true true zero (suc n) = ground arith
signed-/ true true (suc m) zero = ground arith
signed-/ true true (suc m) (suc n) = ground arith

by_sign : (a : ℤ) → (s : Bool) × (n : ℕ) × (a ≡ signed s n)
by_sign (pos n) = (false, n, refl)
by_sign (negsuc n) = (true, suc n, ground arith)

signed-inj : (s t : Bool) (m n : ℕ) → signed s m ≡ signed t n → 0 < n → (m ≡ n) × (s ≡ t)
signed-inj false false m n e h = ground arith
signed-inj false true m n e h = ground arith
signed-inj true false m n e h = ground arith
signed-inj true true m n e h = ground arith

differ-inj : (s t u : Bool) → differ s t ≡ u → s ≡ differ u t
differ-inj s t u e = ground arith

differ_twice : (s t : Bool) → differ (differ s t) t ≡ s
differ_twice s t = ground arith

InRange-signed_mono :
    (h : ℕ) (s : Bool) (m n : ℕ) → m ≤ n → InRange h (signed s n) → InRange h (signed s m)
InRange-signed_mono h false m n le r = ground arith
InRange-signed_mono h true m n le r = ground arith

-- The wrapped product divided by one factor is the other only if nothing was lost.
quotient_exact :
    (h : ℕ) (s t r : Bool) (m n c : ℕ)
    → 0 < m
    → 0 < n
    → InRange h (signed r c)
    → signed r c /ℤ signed t n ≡ signed s m
    → InRange h (signed s m *ℤ signed t n)
quotient_exact h s t r m n c pm pn range e =
    let (q, sg) = signed-inj (differ r t) s (c / n) m (sym (signed-/ r t c n) ∙ e) pm in
    let same : r ≡ differ s t = differ-inj r t s sg in
    let le : m * n ≤ c = (le-div_iff_mul-le pn).0 (omega (arith, q)) in
    rw (signed-* s t m n) (InRange-signed_mono h (differ s t) (m * n) c le (rw same at range))

exact : (s t : Bool) (m n : ℕ) → 0 < n → signed s m *ℤ signed t n /ℤ signed t n ≡ signed s m
exact s t m n pn =
    rw (signed-* s t m n)
      (rw (signed-/ (differ s t) t (m * n) n, differ_twice s t, mul-div_cancel m pn) refl)

sized : (s : Bool) (n : ℕ) → signed s n ≢ pos 0 → 0 < n
sized false n h = ground arith
sized true zero h = absurd (h refl)
sized true (suc n) h = omega arith

-- So the test that the code makes accepts exactly the products that are in range.
pub product_test :
    (h : ℕ) (a b : ℤ)
    → 0 < h
    → a ≢ pos 0
    → b ≢ pos 0
    → (wrap h (a *ℤ b) /ℤ b ≡ a) ↔ InRange h (a *ℤ b)
product_test h a b ph za zb =
    let (s, m, ea) = by_sign a in
    let (t, n, eb) = by_sign b in
    let (r, c, ec) = by_sign (wrap h (a *ℤ b)) in
    (
      λ e.
          rw (ea, eb)
            (quotient_exact h s t r m n c (sized s m λ z. za (ea ∙ z)) (sized t n λ z. zb (eb ∙ z))
              (rw ec at (wrap-InRange h (a *ℤ b) ph)) (ap₂ ◌/ℤ◌ (sym ec) (sym eb) ∙ e ∙ ea)),
      λ range.
          rw (wrap-eq_of_InRange h (a *ℤ b) ph range)
            (rw (ea, eb) (exact s t m n (sized t n λ z. zb (eb ∙ z)))),
    )

halved : (x n h : ℕ) → 0 < h → x ≤ h → 1 < n → x / n < h
halved zero n h ph le more = omega (arith, ph, div-le_self zero n)
halved (suc x) n h ph le more =
    omega (arith, le, div-lt_self {n = suc x} {k = n} (omega arith) more)

InRange-small : (h : ℕ) (s : Bool) (n : ℕ) → n < h → InRange h (signed s n)
InRange-small h false n lt = ground arith
InRange-small h true n lt = ground arith

size-InRange : (h : ℕ) (r : Bool) (x : ℕ) → InRange h (signed r x) → x ≤ h
size-InRange h false x range = ground arith
size-InRange h true x range = ground arith

-- A quotient by another divisor than -1 does not leave the range.
pub quotient-InRange : (h : ℕ) (c b : ℤ) → 0 < h → InRange h c → b ≢ negsuc 0 → InRange h (c /ℤ b)
quotient-InRange h c b ph range apart =
    let (r, x, ec) = by_sign c in
    let (t, n, eb) = by_sign b in
    rw (ec, eb, signed-/ r t x n) (by_size r t x n (rw ec at range) (λ e. apart (eb ∙ e)))
  where
    by_size :
        (r t : Bool) (x n : ℕ)
        → InRange h (signed r x)
        → signed t n ≢ negsuc 0
        → InRange h (signed (differ r t) (x / n))
    by_size r t x zero range ne = InRange-small h (differ r t) (x / zero) (ground arith)
    by_size r t x (suc (suc n)) range ne =
        InRange-small h (differ r t) (x / suc (suc n))
          (halved x (suc (suc n)) h ph (size-InRange h r x range) (omega arith))
    by_size false false x (suc zero) range ne =
        InRange-signed_mono h false (x / 1) x (div-le_self x 1) range
    by_size true false x (suc zero) range ne =
        InRange-signed_mono h true (x / 1) x (div-le_self x 1) range
    by_size r true x (suc zero) range ne = absurd (ne refl)
