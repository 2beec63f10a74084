-- ===== src/World/DayClock/Light.antt =====
-- The curve of the light over a day (internal/world/dayclock.go, applyCurve).
use native.Mathlib.Nat.{mod-eq_of_lt, div-le_of_le-mul, mul-le-mul_left, mul_comm}
use wheel_mud.Base.{
  ℕ, ◌-◌, ◌*◌, ◌/◌, ◌%◌, ◌≤◌, ◌<◌, ◌≡◌, ◌∙◌, sym, ap, ◌||◌, false, some, arith, ltb, if◌then◌else◌,
}
use wheel_mud.Base.Int.{pos, ◌-ℤ◌, ◌*ℤ◌, ltb_ℤ, leb_ℤ}
use wheel_mud.Base.Natural.{pos_minus, pos_times, pos_over, pos_mod}
use wheel_mud.World.DayClock.{
  phase_dawn, phase_day, phase_dusk, phase_night, phase_at, apply_curve, over,
}

-- The curve in numbers, at tick `p` of a day that has `q` ticks in a quarter.
pub light : (baseline p q : ℕ) → ℕ
light baseline p q =
    if ltb p q
    then baseline * p / q
    else if ltb p (2 * q)
    then baseline
    else if ltb p (3 * q)
    then baseline * (3 * q - p) / q
    else 0

over_pos : (m n : ℕ) → 0 < n → over (pos m) (pos n) ≡ some (pos (m / n))
over_pos m n h = rw (pos_over m n) (ground arith)

dusk :
    (b p q : ℕ)
    → p < 3 * q
    → over (pos b *ℤ (pos (3 * q) -ℤ pos p)) (pos q) ≡ some (pos (b * (3 * q - p) / q))
dusk b p q h =
    rw (pos_minus (3 * q) p (omega arith), pos_times b (3 * q - p))
      (over_pos (b * (3 * q - p)) q (omega arith))

quarters :
    (b p q : ℕ)
    → 0 < q
    → (if ltb_ℤ (pos p) (pos q)
        then over (pos b *ℤ pos p) (pos q)
        else if ltb_ℤ (pos p) (pos (2 * q))
        then some (pos b)
        else if ltb_ℤ (pos p) (pos (3 * q))
        then over (pos b *ℤ (pos (3 * q) -ℤ pos p)) (pos q)
        else some (pos 0))
      ≡ some (pos (light b p q))
unfolding light
quarters b p q h = rw (pos_times b p) (ground (arith, over_pos (b * p) q h, dusk b p q))

apply_curve-light :
    (b t tpd : ℕ)
    → 0 < b
    → 4 ≤ tpd
    → apply_curve (pos b) (pos t) (pos tpd) ≡ some (pos (light b (t % tpd) (tpd / 4)))
unfolding apply_curve
apply_curve-light b t tpd hb h =
    let e : leb_ℤ (pos tpd) (pos 0) || leb_ℤ (pos b) (pos 0) ≡ false = ground arith in
    rw (e, pos_over tpd 4, pos_mod t tpd, pos_times 2 (tpd / 4), pos_times 3 (tpd / 4))
      (quarters b (t % tpd) (tpd / 4) (omega arith))

pub phase_at-quarters :
    (t tpd : ℕ)
    → 4 ≤ tpd
    → let p = t % tpd in
      let q = tpd / 4 in
      phase_at (pos t) (pos tpd) ≡ (
        if ltb p q
        then phase_dawn
        else if ltb p (2 * q)
        then phase_day
        else if ltb p (3 * q)
        then phase_dusk
        else phase_night)
unfolding phase_at
phase_at-quarters t tpd h =
    let e : leb_ℤ (pos tpd) (pos 0) ≡ false = ground arith in
    rw (e, pos_over tpd 4, pos_mod t tpd, pos_times 2 (tpd / 4), pos_times 3 (tpd / 4))
      (ground arith)

light-le : (b p q : ℕ) → 0 < q → light b p q ≤ b
unfolding light
light-le b p q h =
    let dawn : p < q → b * p / q ≤ b = λ lt.
      let less : p ≤ q = omega arith in
      div-le_of_le-mul q (omega (arith, mul-le-mul_left b less, mul_comm b q)) in
    let late : 2 * q ≤ p → b * (3 * q - p) / q ≤ b = λ le.
      let less : 3 * q - p ≤ q = omega arith in
      div-le_of_le-mul q (omega (arith, mul-le-mul_left b less, mul_comm b q)) in
    ground (arith, dawn, late)

-- With a baseline above 0, at least 4 ticks in a day and a tick count from 0 on, the light is never
-- above the baseline; it is the baseline in the day phase and 0 in the night phase.
pub apply_curve_lem :
    (b t tpd : ℕ)
    → 0 < b
    → 4 ≤ tpd
    → (l : ℕ) × (apply_curve (pos b) (pos t) (pos tpd) ≡ some (pos l))
      × (l ≤ b)
      × (phase_at (pos t) (pos tpd) ≡ phase_day → l ≡ b)
      × (phase_at (pos t) (pos tpd) ≡ phase_night → l ≡ 0)
unfolding light
apply_curve_lem b t tpd hb h =
    let p = t % tpd in
    let q = tpd / 4 in
    let e = phase_at-quarters t tpd h in
    (
      light b p q,
      apply_curve-light b t tpd hb h,
      light-le b p q (omega arith),
      λ at. ground (arith, e),
      λ at. ground (arith, e),
    )

-- In a day of four equal quarters dusk runs dawn backwards: as many ticks before the night as after
-- the night, the light is the same.
pub dusk_mirrors_dawn :
    (b k q : ℕ)
    → 0 < b
    → 0 < k
    → k < q
    → apply_curve (pos b) (pos (3 * q - k)) (pos (4 * q))
      ≡ apply_curve (pos b) (pos k) (pos (4 * q))
unfolding light
dusk_mirrors_dawn b k q hb hk h =
    let quarter : 4 * q / 4 ≡ q = omega arith in
    let late : (3 * q - k) % (4 * q) ≡ 3 * q - k = mod-eq_of_lt (omega arith) in
    let early : k % (4 * q) ≡ k = mod-eq_of_lt (omega arith) in
    let back : 3 * q - (3 * q - k) ≡ k = omega arith in
    let at_dusk : light b ((3 * q - k) % (4 * q)) (4 * q / 4) ≡ b * k / q =
      rw (quarter, late) (ground (arith, back)) in
    let at_dawn : light b (k % (4 * q)) (4 * q / 4) ≡ b * k / q =
      rw (quarter, early) (ground arith) in
    apply_curve-light b (3 * q - k) (4 * q) hb (omega arith)
    ∙ ap (λ l. some (pos l)) (at_dusk ∙ sym at_dawn)
    ∙ sym (apply_curve-light b k (4 * q) hb (omega arith))
