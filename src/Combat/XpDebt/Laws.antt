-- ===== src/Combat/XpDebt/Laws.antt =====
-- The debt of a death stays within the level, and awards pay it off exactly
-- (internal/combat/xp_debt.go).
use wheel_mud.Base.{ℕ, ◌+◌, ◌≡◌, refl, List, [], ◌∷◌, arith, if-cases, ap}
use wheel_mud.Base.Int.{
  ℤ, pos, negsuc, ◌+ℤ◌, ◌-ℤ◌, ◌/ℤ◌, ◌≤ℤ◌, ◌<ℤ◌, leb_ℤ, pos_part, neg_part, int_laws,
}
use wheel_mud.Progression.Curve.{xp_for_level, level_for_xp}
use wheel_mud.Progression.Curve.Laws.{level_for_xp_lem}
use wheel_mud.Combat.XpDebt.{death_debt, apply_xp_award}

abbrev Pays : ℤ → ℤ → ℤ × ℤ → Type 0
Pays award debt (gain, rest) =
    (gain +ℤ (debt -ℤ rest) ≡ award)
    × (pos 0 ≤ℤ rest)
    × (rest ≤ℤ debt)
    × (pos 0 ≤ℤ gain)
    × (pos 0 <ℤ gain → rest ≡ pos 0)

-- An award that is not negative, and a debt that is not: what is gained and what the debt falls by
-- make up the award, the debt does not rise or fall below 0, and something is gained only when the
-- debt is paid off.
pub apply_xp_award_lem :
    (award debt : ℤ)
    → pos 0 ≤ℤ award
    → pos 0 ≤ℤ debt
    → let (gain, rest) = apply_xp_award award debt in
      (gain +ℤ (debt -ℤ rest) ≡ award)
      × (pos 0 ≤ℤ rest)
      × (rest ≤ℤ debt)
      × (pos 0 ≤ℤ gain)
      × (pos 0 <ℤ gain → rest ≡ pos 0)
unfolding apply_xp_award
apply_xp_award_lem award debt a d =
    if-cases (Pays award debt) (leb_ℤ award (pos 0))
      (λ h.
        let z : award ≤ℤ pos 0 = ground arith in
        (omega int_laws, omega int_laws, omega int_laws, omega int_laws, λ p. omega int_laws))
      λ h.
        let z : pos 0 <ℤ award = ground arith in
        if-cases (Pays award debt) (leb_ℤ debt (pos 0))
          (λ k.
            let y : debt ≤ℤ pos 0 = ground arith in
            (omega int_laws, omega int_laws, omega int_laws, omega int_laws, λ p. refl))
          λ k.
            if-cases (Pays award debt) (leb_ℤ award debt)
              (λ m.
                let y : award ≤ℤ debt = ground arith in
                (
                  omega int_laws,
                  omega int_laws,
                  omega int_laws,
                  omega int_laws,
                  λ p. omega int_laws,
                ))
              (λ m.
                let y : debt <ℤ award = ground arith in
                (omega int_laws, omega int_laws, omega int_laws, omega int_laws, λ p. refl))

-- A run of awards that are not negative.
unfoldable pub award_all : ℤ → ℤ → List ℕ → ℤ × ℤ
award_all xp debt [] = (xp, debt)
award_all xp debt (a ∷ more) =
    let (gain, rest) = apply_xp_award (pos a) debt in award_all (xp +ℤ gain) rest more

abbrev total : List ℕ → ℕ
total [] = 0
total (a ∷ more) = a + total more

-- Over any run of awards, with a debt that is not negative, the experience gained and what the debt
-- falls by add up to the awards, and the debt does not fall below 0.
pub award_all_balance :
    (xp debt : ℤ) (awards : List ℕ)
    → pos 0 ≤ℤ debt
    → let (xp', debt') = award_all xp debt awards in
      ((xp' -ℤ xp) +ℤ (debt -ℤ debt') ≡ pos (total awards)) × (pos 0 ≤ℤ debt')
unfolding award_all
award_all_balance xp debt [] d = (omega int_laws, d)
award_all_balance xp debt (a ∷ more) d =
    let step = apply_xp_award (pos a) debt in
    let (pays, nonneg, _, _, _) = apply_xp_award_lem (pos a) debt (omega arith) d in
    let (balance, owed) = award_all_balance (xp +ℤ step.0) step.1 more nonneg in
    (
      omega
          (int_laws, ap pos_part pays, ap neg_part pays, ap pos_part balance, ap neg_part balance),
      owed,
    )

abbrev Keeps : ℤ → ℤ → ℤ → Type 0
Keeps xp floor debt = (pos 0 ≤ℤ debt) × (floor ≤ℤ xp -ℤ debt)

tenth : (a : ℤ) → pos 0 ≤ℤ a → (pos 0 ≤ℤ a /ℤ pos 10) × (a /ℤ pos 10 ≤ℤ a)
unfolding ◌/ℤ◌
tenth (pos n) h = ground arith
tenth (negsuc n) h = absurd (omega arith)

-- With experience from 0 on, the debt of a death at the level that the experience stands for is not
-- negative, and taking it off the experience at once would not lead below that level's threshold.
pub death_debt_keeps_level :
    (xp : ℤ)
    → pos 0 ≤ℤ xp
    → (pos 0 ≤ℤ death_debt xp (level_for_xp xp))
      × (xp_for_level (level_for_xp xp) ≤ℤ xp -ℤ death_debt xp (level_for_xp xp))
unfolding death_debt
death_debt_keeps_level xp nn =
    let (l, p, one, le, reach) = level_for_xp_lem xp nn in
    let floor = xp_for_level (level_for_xp xp) in
    let met : floor ≤ℤ xp = rw p ((reach l one le).0 (omega arith)) in
    if-cases (Keeps xp floor) (leb_ℤ xp floor) (λ h. (omega int_laws, omega int_laws))
      λ h. (omega (int_laws, tenth (xp -ℤ floor)), omega (int_laws, tenth (xp -ℤ floor)))
