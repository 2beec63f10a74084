-- ===== src/World/DayClock/Hours.antt =====
-- The hours of the day and its phases (internal/world/dayclock.go, HourOfDay and Phase).
use native.Mathlib.Nat.{mod-lt, le-div_iff_mul-le}
use wheel_mud.Base.{
  ℕ, ◌*◌, ◌/◌, ◌%◌, ◌≤◌, ◌<◌, ◌≡◌, ◌∙◌, refl, ◌↔◌, false, arith, ltb, if◌then◌else◌,
}
use wheel_mud.Base.Int.{pos, ltb_ℤ, leb_ℤ}
use wheel_mud.Base.Natural.{pos_times, pos_over, pos_mod}
use wheel_mud.World.DayClock.{phase_dawn, phase_day, phase_dusk, phase_night, hour_at, phase_at}
use wheel_mud.World.DayClock.Light.{phase_at-quarters}

hour_at-pos : (t tpd : ℕ) → 0 < tpd → hour_at (pos t) (pos tpd) ≡ pos (t % tpd * 24 / tpd)
unfolding hour_at
hour_at-pos t tpd h =
    let e : leb_ℤ (pos tpd) (pos 0) ≡ false = ground arith in
    let f : ltb_ℤ (pos (t % tpd)) (pos 0) ≡ false = ground arith in
    rw (e, pos_mod t tpd, f, pos_times (t % tpd) 24, pos_over (t % tpd * 24) tpd) refl

-- In a day of four equal quarters and from tick 0 on, the hour is below 24, and dawn, day, dusk and
-- night are the hours from 0, 6, 12 and 18 on.
pub phase_at-hour_at :
    (t q : ℕ)
    → 0 < q
    → (h : ℕ) × (hour_at (pos t) (pos (4 * q)) ≡ pos h)
      × (h < 24)
      × (phase_at (pos t) (pos (4 * q)) ≡ (
          if ltb h 6
          then phase_dawn
          else if ltb h 12
          then phase_day
          else if ltb h 18
          then phase_dusk
          else phase_night))
phase_at-hour_at t q hq =
    let p = t % (4 * q) in
    let h = p * 24 / (4 * q) in
    let some_ticks : 0 < 4 * q = omega arith in
    let since : (k : ℕ) → (k ≤ h) ↔ (k * (4 * q) ≤ p * 24) = λ k. le-div_iff_mul-le some_ticks in
    let small : p < 4 * q = mod-lt t some_ticks in
    let quarter : 4 * q / 4 ≡ q = omega arith in
    (
      h,
      hour_at-pos t (4 * q) some_ticks,
      ground (arith, since 24, small),
      phase_at-quarters t (4 * q) (omega arith)
          ∙ rw quarter (ground (arith, since 6, since 12, since 18)),
    )
