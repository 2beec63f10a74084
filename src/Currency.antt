-- ===== src/Currency.antt =====
-- internal/currency/currency.go: coins, and the checked arithmetic of amounts. An int64 is an
-- integer with its range as a hypothesis; where the code multiplies before it checks, the product and
-- the quotient, of the least int64 and -1, are wrapped around as Go does it.
pub mod Arithmetic
pub mod Signs
pub mod Coins
mod Tests
use wheel_mud.Base.{
  ℕ, Bool, true, false, ◌&&◌, ◌||◌, Option, none, some, List, [], ◌∷◌, if◌then◌else◌,
}
use wheel_mud.Base.Int.{ℤ, pos, negsuc, ◌+ℤ◌, ◌-ℤ◌, ◌*ℤ◌, ◌/ℤ◌, ◌%ℤ◌, ltb_ℤ, leb_ℤ, ◌==ℤ◌, wrap}

pub data Coin : Type 0 where
  cp sp mk gc : Coin

-- Largest first.
abbrev pub coin_order : List Coin
coin_order = gc ∷ mk ∷ sp ∷ cp ∷ []

abbrev pub ratio : Coin → ℤ
ratio cp = pos 1
ratio sp = pos 10
ratio mk = pos 100
ratio gc = pos 1000

pub data CurrencyError : Type 0 where
  overflow insufficient_funds : CurrencyError

pub data Result {ℓ} (A : Type ℓ) : Type ℓ where
  ok : A → Result A
  err : CurrencyError → Result A

infixl 5 ◌>>=◌
abbrev pub ◌>>=◌ {ℓ κ} : {A : Type ℓ} {B : Type κ} → Result A → (A → Result B) → Result B
ok a >>= f = f a
err e >>= f = err e

-- 2 ^ 63: an int64 lies from -2 ^ 63 to 2 ^ 63 - 1.
abbrev pub int64_bound : ℕ
int64_bound = 9223372036854775808

abbrev pub max_int64 : ℤ
max_int64 = pos 9223372036854775807

abbrev pub min_int64 : ℤ
min_int64 = negsuc 9223372036854775807

unfoldable pub safe_add : ℤ → ℤ → Result ℤ
safe_add a b =
    if (ltb_ℤ (pos 0) b && ltb_ℤ (max_int64 -ℤ b) a)
      || (ltb_ℤ b (pos 0) && ltb_ℤ a (min_int64 -ℤ b))
    then err overflow
    else ok (a +ℤ b)

unfoldable pub safe_sub : ℤ → ℤ → Result ℤ
safe_sub a b =
    if (ltb_ℤ b (pos 0) && ltb_ℤ (max_int64 +ℤ b) a)
      || (ltb_ℤ (pos 0) b && ltb_ℤ a (min_int64 +ℤ b))
    then err overflow
    else ok (a -ℤ b)

unfoldable pub safe_mul : ℤ → ℤ → Result ℤ
safe_mul a b =
    if a ==ℤ pos 0 || b ==ℤ pos 0
    then ok (pos 0)
    else if (a ==ℤ min_int64 && b ==ℤ negsuc 0) || (b ==ℤ min_int64 && a ==ℤ negsuc 0)
    then err overflow
    else (let c = wrap int64_bound (a *ℤ b) in
        if wrap int64_bound (c /ℤ b) ==ℤ a then ok c else err overflow)

-- The loop of `New` over the counts with their worth.
unfoldable pub add_parts : ℤ → List (ℤ × ℤ) → Result ℤ
add_parts total [] = ok total
add_parts total ((count, mult) ∷ more) = do
  v ← safe_mul count mult
  next ← safe_add total v
  add_parts next more

unfoldable pub new : (gold mark silver copper : ℤ) → Result ℤ
new gold mark silver copper =
    add_parts (pos 0)
      ((gold, ratio gc) ∷ (mark, ratio mk) ∷ (silver, ratio sp) ∷ (copper, ratio cp) ∷ [])

unfoldable pub add : ℤ → ℤ → Result ℤ
add a b = safe_add a b

unfoldable pub sub : ℤ → ℤ → Result ℤ
sub a b = if leb_ℤ (pos 0) b && ltb_ℤ a b then err insufficient_funds else safe_sub a b

unfoldable pub in_coin : ℤ → Coin → ℤ
in_coin a c = a /ℤ ratio c

unfoldable pub split_from : ℤ → List Coin → List (Coin × ℤ)
split_from rem [] = []
split_from rem (c ∷ more) = (c, rem /ℤ ratio c) ∷ split_from (rem %ℤ ratio c) more

-- `-rem` wraps around for the least int64.
abbrev pub magnitude : ℤ → ℤ
magnitude a = if ltb_ℤ a (pos 0) then wrap int64_bound (pos 0 -ℤ a) else a

unfoldable pub split : ℤ → List (Coin × ℤ)
split a = split_from (magnitude a) coin_order
