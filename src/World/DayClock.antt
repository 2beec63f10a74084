-- ===== src/World/DayClock.antt =====
-- internal/world/dayclock.go: the clock of day and night. The reading of the wall clock is an
-- argument, in nanoseconds like the durations. `none` stands for Go's panic at a division by zero.
pub mod Light
pub mod Hours
mod Tests
use wheel_mud.Base.{ℕ, Bool, true, false, ◌||◌, Option, none, some, if◌then◌else◌}
use wheel_mud.Base.Int.{ℤ, pos, negsuc, ◌+ℤ◌, ◌-ℤ◌, ◌*ℤ◌, ◌/ℤ◌, ◌%ℤ◌, ltb_ℤ, leb_ℤ, ◌==ℤ◌}

infixl 5 ◌>>=◌
abbrev pub ◌>>=◌ {ℓ κ} : {A : Type ℓ} {B : Type κ} → Option A → (A → Option B) → Option B
none >>= f = none
some a >>= f = f a

abbrev pub over : ℤ → ℤ → Option ℤ
over a b = if b ==ℤ pos 0 then none else some (a /ℤ b)

pub data Phase : Type 0 where
  phase_dawn phase_day phase_dusk phase_night : Phase

pub record Clock : Type 0 where
  pub base_ticks : ℤ
  pub start : ℤ
  pub tick_interval : ℤ
  pub day_duration : ℤ

unfoldable pub ticks : Clock → (now : ℤ) → Option ℤ
ticks c now = do elapsed ← over (now -ℤ c.start) c.tick_interval; some (c.base_ticks +ℤ elapsed)

unfoldable pub ticks_per_day : Clock → Option ℤ
ticks_per_day c = over c.day_duration c.tick_interval

unfoldable pub hour_at : (ticks tpd : ℤ) → ℤ
hour_at ticks tpd =
    if leb_ℤ tpd (pos 0)
    then pos 12
    else (let p = ticks %ℤ tpd in
        let p' = (if ltb_ℤ p (pos 0) then p +ℤ tpd else p) in p' *ℤ pos 24 /ℤ tpd)

-- `Ticks` is read after the guard on `tpd`, but it does not change anything.
unfoldable pub hour_of_day : Clock → (now : ℤ) → Option ℤ
hour_of_day c now = do tpd ← ticks_per_day c; t ← ticks c now; some (hour_at t tpd)

unfoldable pub day : Clock → (now : ℤ) → Option ℤ
day c now = do
  tpd ← ticks_per_day c
  t ← ticks c now
  some (if leb_ℤ tpd (pos 0) then pos 0 else t /ℤ tpd)

unfoldable pub phase_at : (ticks tpd : ℤ) → Phase
phase_at ticks tpd =
    if leb_ℤ tpd (pos 0)
    then phase_day
    else (let q = tpd /ℤ pos 4 in
        let p = ticks %ℤ tpd in
        if ltb_ℤ p q
        then phase_dawn
        else if ltb_ℤ p (pos 2 *ℤ q)
        then phase_day
        else if ltb_ℤ p (pos 3 *ℤ q)
        then phase_dusk
        else phase_night)

unfoldable pub phase : Clock → (now : ℤ) → Option Phase
phase c now = do tpd ← ticks_per_day c; t ← ticks c now; some (phase_at t tpd)

unfoldable pub apply_curve : (baseline ticks tpd : ℤ) → Option ℤ
apply_curve baseline ticks tpd =
    if leb_ℤ tpd (pos 0) || leb_ℤ baseline (pos 0)
    then some baseline
    else (let q = tpd /ℤ pos 4 in
        let p = ticks %ℤ tpd in
        if ltb_ℤ p q
        then over (baseline *ℤ p) q
        else if ltb_ℤ p (pos 2 *ℤ q)
        then some baseline
        else if ltb_ℤ p (pos 3 *ℤ q)
        then over (baseline *ℤ (pos 3 *ℤ q -ℤ p)) q
        else some (pos 0))

pub data Sector : Type 0 where
  sector_underground sector_underwater sector_other : Sector

-- The fields of `repo.Room` that are read here.
pub record Room : Type 0 where
  pub dark : Bool
  pub indoors : Bool
  pub sector : Sector
  pub light_level : ℤ

abbrev pub sheltered : Sector → Bool
sheltered sector_underground = true
sheltered sector_underwater = true
sheltered sector_other = false

unfoldable pub effective_light : Clock → (now : ℤ) → Room → Option ℤ
effective_light c now room =
    if room.dark
    then some (pos 0)
    else if room.indoors || sheltered room.sector
    then some room.light_level
    else do t ← ticks c now; tpd ← ticks_per_day c; apply_curve room.light_level t tpd
