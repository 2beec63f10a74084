-- ===== src/Combat/Resolution.antt =====
-- internal/combat/resolution.go: the rolls of an attack, and damage; `AbilityMod` of
-- internal/creature/creature.go; the variants of an attack of internal/combat/action.go. Integers have
-- the ranges of their Go types where the source narrows or can wrap. The random source is a state with
-- `intn`. `int(float64(dmg) * f)` for f = 1.5 and 0.6 is the integer quotient, which it equals for
-- damage below 2 ^ 50.
pub mod Dice
pub mod Attack
pub mod Damage
mod Tests
use mathlib.Core.Option
use wheel_mud.Base.{
  ℕ, zero, suc, ◌+◌, ◌-◌, Bool, true, false, not, ◌&&◌, ◌||◌, Option, none, some, List, [], ◌∷◌,
  ltb, leb, ◌==◌, if◌then◌else◌, length, take, drop,
}
use wheel_mud.Base.Int.{
  ℤ, pos, negsuc, neg, ◌+ℤ◌, ◌-ℤ◌, ◌*ℤ◌, ◌/ℤ◌, ◌%ℤ◌, ltb_ℤ, leb_ℤ, ◌==ℤ◌, pos_part, wrap,
}
use wheel_mud.Base.Text.{Bytes}
use wheel_mud.Combat.Fight.{AttackVariant, normal, power, quick}

abbrev pub int16_bound : ℕ
int16_bound = 32768

abbrev pub int32_bound : ℕ
int32_bound = 2147483648

abbrev pub int64_bound : ℕ
int64_bound = 9223372036854775808

-- Go's division truncates, so an odd negative difference is lowered first.
unfoldable pub ability_mod : ℤ → ℤ
ability_mod score =
    let diff = score -ℤ pos 10 in
    if ltb_ℤ diff (pos 0) && not (diff %ℤ pos 2 ==ℤ pos 0)
    then (diff -ℤ pos 1) /ℤ pos 2
    else diff /ℤ pos 2

-- `subdued` is DamageSubdual.
pub data DamageType : Type 0 where
  slash pierce bludgeon fire cold lightning air earth spirit subdued taint : DamageType

abbrev pub type_code : DamageType → ℕ
type_code slash = 0
type_code pierce = 1
type_code bludgeon = 2
type_code fire = 3
type_code cold = 4
type_code lightning = 5
type_code air = 6
type_code earth = 7
type_code spirit = 8
type_code subdued = 9
type_code taint = 10

abbrev pub same_type : DamageType → DamageType → Bool
same_type a b = type_code a == type_code b

-- `bypassed` says that a bypass is named.
pub record DamageReduction : Type 0 where
  pub amount : ℤ
  pub bypassed : Bool

pub record Resist : Type 0 where
  pub kind : DamageType
  pub pct : ℤ

-- What a roll reads of a creature: `str` and `dex` are the current scores.
pub record Core : Type 0 where
  pub str : ℤ
  pub dex : ℤ
  pub bab : ℤ
  pub defense : ℤ
  pub hp_current : ℤ
  pub subdual : ℤ
  pub init_mod : ℤ
  pub reductions : List DamageReduction
  pub resists : List Resist

pub record WeaponStats : Type 0 where
  pub damage : Bytes
  pub threat_low : ℤ
  pub crit_mult : ℤ

unfoldable pub threat_low_of : WeaponStats → ℤ
threat_low_of stats =
    if leb_ℤ stats.threat_low (pos 0) || ltb_ℤ (pos 20) stats.threat_low
    then pos 20
    else stats.threat_low

unfoldable pub crit_mult_of : WeaponStats → ℤ
crit_mult_of stats = if leb_ℤ stats.crit_mult (pos 1) then pos 2 else stats.crit_mult

unfoldable pub effective_defense : Core → (flat_footed : Bool) → ℤ
effective_defense defender flat_footed =
    let dex = ability_mod defender.dex in
    if not flat_footed || leb_ℤ dex (pos 0)
    then defender.defense
    else wrap int16_bound (defender.defense -ℤ dex)

unfoldable pub variant_attack_bonus : AttackVariant → ℤ
variant_attack_bonus power = negsuc 1
variant_attack_bonus quick = pos 1
variant_attack_bonus normal = pos 0

-- `VariantDamageFactor` and the conversion back to an integer.
unfoldable pub scale_damage : AttackVariant → ℤ → ℤ
scale_damage normal dmg = dmg
scale_damage power dmg =
    let scaled = (dmg *ℤ pos 3) /ℤ pos 2 in if ltb_ℤ scaled (pos 1) then pos 1 else scaled
scale_damage quick dmg =
    let scaled = (dmg *ℤ pos 3) /ℤ pos 5 in if ltb_ℤ scaled (pos 1) then pos 1 else scaled

pub record AttackRoll : Type 0 where
  pub raw : ℕ
  pub total : ℤ
  pub hit : Bool
  pub threat : Bool
  pub is_crit : Bool
  pub fumble : Bool

-- A natural 1 misses and a natural 20 hits, whatever the total.
abbrev pub beats : (raw : ℕ) → (total defense : ℤ) → Bool
beats raw total defense =
    if raw == 1 then false else if raw == 20 then true else leb_ℤ defense total

infixl 5 ◌>>=◌
abbrev pub ◌>>=◌ : {A B : Type 0} → Option A → (A → Option B) → Option B
none >>= f = none
some a >>= f = f a

abbrev pub reject_if : Bool → Option (Unit {0})
reject_if true = none
reject_if false = some tt

abbrev pub rolled : (raw : ℕ) → ℤ → (hit threat is_crit : Bool) → AttackRoll
rolled raw total hit threat is_crit = record {
  raw = raw;
  total = total;
  hit = hit;
  threat = threat;
  is_crit = is_crit;
  fumble = raw == 1;
}

-- The place of the first byte that passes the test.
unfoldable pub index_where : (ℕ → Bool) → Bytes → Option ℕ
index_where test [] = none
index_where test (b ∷ s) = if test b then some 0 else Option.map suc (index_where test s)

-- `NdM` and a modifier: their numbers, if they are in range.
pub record DiceTerm : Type 0 where
  pub count : ℕ
  pub sides : ℕ
  pub flat : ℤ

abbrev pub between : ℤ → ℤ → ℤ → Bool
between lo hi n = leb_ℤ lo n && leb_ℤ n hi

-- The part of the expression before a slash.
unfoldable pub first_term : Bytes → Bytes
first_term expr = elim (index_where (λ b. b == b'/') expr) [ none ↦ expr | some i ↦ take i expr ]

-- `trim` is `strings.TrimSpace`, and `atoi` is `strconv.Atoi` with `none` for its error.
module _ (trim : Bytes → Bytes) (atoi : Bytes → Option ℤ) where
  unfoldable pub parse_counts : Bytes → ℤ → Option DiceTerm
  parse_counts expr flat = do
    d ← index_where (λ b. b == b'd') expr
    _ ← reject_if (d == 0 || d + 1 == length expr)
    n ← atoi (take d expr)
    _ ← reject_if (not (between (pos 1) (pos 100) n))
    m ← atoi (drop (d + 1) expr)
    _ ← reject_if (not (between (pos 1) (pos 1000) m))
    some (record { count = pos_part n; sides = pos_part m; flat = flat })

  unfoldable pub parse_flat : Bytes → Option DiceTerm
  parse_flat expr = elim (index_where (λ b. b == b'+' || b == b'-') expr) [
    | none ↦ parse_counts expr (pos 0)
    | some zero ↦ parse_counts expr (pos 0)
    | some (suc i) ↦ atoi (drop (suc i) expr) >>= (λ mod_by.
        if between (neg 10000) (pos 10000) mod_by
        then parse_counts (take (suc i) expr) mod_by
        else none)
  ]

  -- What `rollDice` makes of the expression before it rolls.
  unfoldable pub parse_dice : Bytes → Option DiceTerm
  parse_dice expr =
      let term = trim expr in if length term == 0 then none else parse_flat (first_term term)

abbrev pub at_least_one : ℤ → ℤ
at_least_one dmg = if ltb_ℤ dmg (pos 1) then pos 1 else dmg

-- The damage with the strength and, on a critical hit, the multiplier.
unfoldable pub with_crit : Core → WeaponStats → (is_crit : Bool) → (base : ℤ) → ℤ
with_crit attacker stats is_crit base =
    let dmg = at_least_one (base +ℤ ability_mod attacker.str) in
    if is_crit then wrap int64_bound (dmg *ℤ crit_mult_of stats) else dmg

module _ {S : Type 0} (intn : ℕ → S → ℕ × S) where
  abbrev pub d20 : S → ℕ × S
  d20 s = let (k, s') = intn 20 s in (k + 1, s')

  unfoldable pub roll_attack :
      (attacker defender : Core)
      → WeaponStats
      → (flat_footed : Bool) → (bonus : ℤ) → S
      → AttackRoll × S
  roll_attack attacker defender stats flat_footed bonus s =
      let (raw, s') = d20 s in
      let plus = attacker.bab +ℤ ability_mod attacker.str +ℤ bonus in
      let total = pos raw +ℤ plus in
      let defense = effective_defense defender flat_footed in
      let hit = beats raw total defense in
      let threat = hit && leb_ℤ (threat_low_of stats) (pos raw) in
      let (confirm, s'') = d20 s' in
      if threat
      then (rolled raw total hit threat (beats confirm (pos confirm +ℤ plus) defense), s'')
      else (rolled raw total hit threat false, s')

  unfoldable pub roll_parry : Core → S → ℤ × S
  roll_parry defender s =
      let (raw, s') = d20 s in (pos raw +ℤ defender.bab +ℤ ability_mod defender.dex, s')

  -- The loop that adds up the dice.
  unfoldable pub add_dice : (left sides : ℕ) → ℤ → S → ℤ × S
  add_dice zero sides sum s = (sum, s)
  add_dice (suc left) sides sum s =
      let (k, s') = intn sides s in add_dice left sides (sum +ℤ pos (k + 1)) s'

  -- `rollDice` on a term that has been read.
  unfoldable pub roll_term : DiceTerm → S → ℤ × S
  roll_term t s = add_dice t.count t.sides t.flat s

  -- The dice of the weapon, or 1d3 where there are none or they come to nothing.
  unfoldable pub roll_base : Option DiceTerm → S → ℤ × S
  roll_base none s = let (k, s') = intn 3 s in (pos (k + 1), s')
  roll_base (some t) s =
      let (base, s') = roll_term t s in
      let (k, s'') = intn 3 s' in if leb_ℤ base (pos 0) then (pos (k + 1), s'') else (base, s')

  -- `dice` is what `parse_dice` makes of the damage of the weapon.
  unfoldable pub roll_damage :
      Core → WeaponStats → Option DiceTerm → (is_crit : Bool) → AttackVariant → S → ℤ × S
  roll_damage attacker stats dice is_crit variant s =
      let (base, s') = roll_base dice s in
      let scaled = scale_damage variant (at_least_one (with_crit attacker stats is_crit base)) in
      (if ltb_ℤ (pos 2147483647) scaled then pos 2147483647 else scaled, s')

-- The loop over the reductions; `none` is the return with nothing left.
unfoldable pub reduce : ℤ → List DamageReduction → Option ℤ
reduce amount [] = some amount
reduce amount (dr ∷ more) =
    let rest = reduce amount more in
    let left = wrap int32_bound (amount -ℤ dr.amount) in
    let lowered = reduce left more in
    if leb_ℤ dr.amount (pos 0) || dr.bypassed
    then rest
    else if leb_ℤ left (pos 0)
    then none
    else lowered

abbrev pub at_least_zero : ℤ → ℤ
at_least_zero n = if ltb_ℤ n (pos 0) then pos 0 else n

unfoldable pub resist : DamageType → ℤ → List Resist → ℤ
resist dt amount [] = amount
resist dt amount (r ∷ more) =
    resist dt
      (if not (same_type r.kind dt) || r.pct ==ℤ pos 0
        then amount
        else wrap int32_bound (at_least_zero ((amount *ℤ (pos 100 -ℤ r.pct)) /ℤ pos 100)))
      more

abbrev pub resisted : DamageType → List Resist → Option ℤ → ℤ
resisted dt rs none = pos 0
resisted dt rs (some amount) = at_least_zero (resist dt amount rs)

-- The damage taken: no damage changes nothing, and subdual damage has a pool of its own.
unfoldable pub apply_damage : Core → (amount : ℤ) → DamageType → ℤ × Core
apply_damage target amount dt =
    let left =
      if leb_ℤ amount (pos 0)
      then pos 0
      else resisted dt target.resists (reduce amount target.reductions) in
    if leb_ℤ left (pos 0)
    then (pos 0, target)
    else if same_type dt subdued
    then (left, record target { subdual = wrap int32_bound (target.subdual +ℤ left) })
    else (left, record target { hp_current = wrap int32_bound (target.hp_current -ℤ left) })
