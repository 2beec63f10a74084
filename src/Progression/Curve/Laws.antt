-- ===== src/Progression/Curve/Laws.antt =====
-- Levels and thresholds belong to each other (internal/progression/curve.go).
use wheel_mud.Base.{
  ℕ, zero, suc, ◌+◌, ◌*◌, ◌≤◌, ◌<◌, ◌≡◌, ◌↔◌, ◌⊎◌, inl, inr, refl, true, arith, holds_to,
  holds_to_at, Bool-cases, ap, sym, ◌∙◌,
}
use native.Mathlib.Decide.{dec_le, dec_lt}
use wheel_mud.Base.Int.{
  ℤ, pos, ◌-ℤ◌, ◌*ℤ◌, ◌/ℤ◌, ◌+ℤ◌, ◌≤ℤ◌, ◌<ℤ◌, leb_ℤ, ◌==ℤ◌, ==ℤ_iff, +ℤ_parts, -ℤ_parts, int_laws,
}
use wheel_mud.Progression.Curve.{max_level, xp_for_level, walk_down, level_for_xp, xp_to_next}

-- 1000 for the first step, and 1000 more for each further one.
pub threshold : ℕ → ℕ
threshold zero = 0
threshold (suc k) = threshold k + 1000 * k

table : holds_to (λ n. xp_for_level (pos n) ==ℤ pos (threshold n)) max_level ≡ true
unfolding holds_to xp_for_level threshold ◌-ℤ◌ ◌*ℤ◌ ◌/ℤ◌
table = refl

xp_for_level-threshold : (n : ℕ) → n ≤ max_level → xp_for_level (pos n) ≡ pos (threshold n)
xp_for_level-threshold n h =
    (==ℤ_iff _ _).0
      (holds_to_at (λ k. xp_for_level (pos k) ==ℤ pos (threshold k)) max_level n h table)

threshold_mono : (m n : ℕ) → m ≤ n → threshold m ≤ threshold n
unfolding threshold
threshold_mono m zero h = let e : m ≡ 0 = omega arith in rw e (omega arith)
threshold_mono m (suc n) h = elim (dec_le m n) [
  | yes le ↦ omega (arith, threshold_mono m n le)
  | no gt ↦ let e : m ≡ suc n = omega arith in rw e (omega arith)
]

-- The walk stops at a level from 1 on, whose threshold is met, and meets no higher one below it.
walk_down_lem :
    (r : ℕ) (xp : ℤ)
    → r ≤ 19
    → pos 0 ≤ℤ xp
    → (l : ℕ) × (walk_down r xp ≡ pos l)
      × (1 ≤ l)
      × (l ≤ r + 1)
      × (pos (threshold l) ≤ℤ xp)
      × ((m : ℕ) → m ≤ r + 1 → pos (threshold m) ≤ℤ xp → m ≤ l)
unfolding walk_down
walk_down_lem zero xp h nn =
    (1, refl, omega arith, omega arith, unfold threshold in omega arith, λ m le _. omega arith)
walk_down_lem (suc r) xp h nn =
    let e = xp_for_level-threshold (suc (suc r)) (omega arith) in
    elim (Bool-cases (leb_ℤ (xp_for_level (pos (suc (suc r)))) xp)) [
      | inl met ↦
          (suc (suc r), rw met, omega arith, omega arith, ground (arith, e), λ m le _. omega arith)
      | inr missed ↦
          let (l, p, one, le, at, top) = walk_down_lem r xp (omega arith) nn in
          (
            l,
            rw missed p,
            one,
            omega arith,
            at,
            λ m lem hm. higher m lem hm l top (ground (arith, e)),
          )
    ]
  where
    higher :
        (m : ℕ)
        → m ≤ suc r + 1
        → pos (threshold m) ≤ℤ xp
        → (l : ℕ) → ((k : ℕ) → k ≤ r + 1 → pos (threshold k) ≤ℤ xp → k ≤ l)
        → xp <ℤ pos (threshold (suc (suc r)))
        → m ≤ l
    higher m le hm l top missed = elim (dec_le m (r + 1)) [
      | yes inside ↦ top m inside hm
      | no outside ↦ let e : m ≡ suc (suc r) = omega arith in absurd (omega (arith, ap threshold e))
    ]

-- For experience from 0 on, `LevelForXP` is a level from 1 to 20, and it reaches a level of these
-- exactly when the experience reaches the threshold that `XPForLevel` has for it.
pub level_for_xp_lem :
    (xp : ℤ)
    → pos 0 ≤ℤ xp
    → (l : ℕ) × (level_for_xp xp ≡ pos l)
      × (1 ≤ l)
      × (l ≤ max_level)
      × ((m : ℕ) → 1 ≤ m → m ≤ max_level → (m ≤ l) ↔ (xp_for_level (pos m) ≤ℤ xp))
unfolding level_for_xp
level_for_xp_lem xp nn = elim (Bool-cases (leb_ℤ xp (pos 0))) [
  | inl none_yet ↦ (
    1,
    rw none_yet,
    omega arith,
    omega arith,
    reaches 1 (unfold threshold in nn) (λ m le hm. first m hm (ground arith)),
  )
  | inr some_xp ↦
      let (l, p, one, le, at, top) = walk_down_lem 19 xp (omega arith) nn in
      (l, rw some_xp p, one, le, reaches l at top)
]
  where
    reaches :
        (l : ℕ)
        → pos (threshold l) ≤ℤ xp
        → ((m : ℕ) → m ≤ 20 → pos (threshold m) ≤ℤ xp → m ≤ l)
        → (m : ℕ) → 1 ≤ m
        → m ≤ max_level
        → (m ≤ l) ↔ (xp_for_level (pos m) ≤ℤ xp)
    reaches l at top m one le = (
      λ h. rw (xp_for_level-threshold m le) (omega (arith, threshold_mono m l h, at)),
      λ h. top m le (rw (xp_for_level-threshold m le) at h),
    )

    first : (m : ℕ) → pos (threshold m) ≤ℤ xp → xp ≤ℤ pos 0 → m ≤ 1
    first m hm z = elim (dec_le m 1) [
      | yes le ↦ le
      | no gt ↦
          let two : threshold 2 ≡ 1000 = unfold threshold in refl in
          absurd (omega (arith, two, threshold_mono 2 m (omega arith)))
    ]

xp_to_next_capped :
    (xp : ℤ) → level_for_xp xp ≡ pos max_level → xp_to_next xp ≡ (pos max_level, pos 0)
unfolding xp_to_next
xp_to_next_capped xp e = rw e

xp_to_next_below :
    (xp : ℤ) (l : ℕ)
    → level_for_xp xp ≡ pos l
    → l < max_level
    → xp <ℤ xp_for_level (pos l +ℤ pos 1)
    → xp_to_next xp ≡ (pos l, xp_for_level (pos l +ℤ pos 1) -ℤ xp)
unfolding xp_to_next
xp_to_next_below xp l e below more = rw e (ground arith)

add_one : (l : ℕ) → pos l +ℤ pos 1 ≡ pos (l + 1)
unfolding ◌+ℤ◌
add_one l = ground arith

-- Below the cap, experience and what `XPToNext` says is missing add up to the threshold of the next
-- level, and something is missing; at the cap nothing is. The level is that of `LevelForXP`.
pub xp_to_next_lem :
    (xp : ℤ)
    → pos 0 ≤ℤ xp
    → ((xp_to_next xp).0 ≡ level_for_xp xp)
      × (((level_for_xp xp ≡ pos max_level) × ((xp_to_next xp).1 ≡ pos 0))
          ⊎ ((pos 0 <ℤ (xp_to_next xp).1)
              × (xp +ℤ (xp_to_next xp).1 ≡ xp_for_level (level_for_xp xp +ℤ pos 1))))
xp_to_next_lem xp nn =
    let (l, p, one, le, reach) = level_for_xp_lem xp nn in
    elim (dec_lt l max_level) [
      | no top ↦
          let e : l ≡ max_level = omega arith in
          let q : level_for_xp xp ≡ pos max_level = p ∙ ap pos e in
          rw (xp_to_next_capped xp q) (sym q, inl (q, refl))
      | yes below ↦
          let missing : ¬ (xp_for_level (pos (l + 1)) ≤ℤ xp) =
            λ h. absurd (omega (arith, (reach (l + 1) (omega arith) (omega arith)).1 h)) in
          let more : xp <ℤ xp_for_level (pos l +ℤ pos 1) =
            rw (add_one l) (omega (arith, missing)) in
          let goal = xp_for_level (pos l +ℤ pos 1) in
          rw (xp_to_next_below xp l p below more) (
            sym p,
            rw p (
                inr (
                  omega (int_laws, -ℤ_parts goal xp, more),
                  omega (int_laws, +ℤ_parts xp (goal -ℤ xp)),
                )),
          )
    ]
