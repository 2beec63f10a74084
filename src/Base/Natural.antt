-- ===== src/Base/Natural.antt =====
-- The integer operations on integers that are not negative are those of the numbers.
use Prim.Native.Nat.{ℕ, ◌+◌, ◌-◌, ◌*◌, ◌/◌, ◌%◌, ◌≤◌}
use mathlib.Core.Path.{◌≡◌}
use native.Mathlib.Nat.{div-add-mod'}
use native.Mathlib.Omega.{arith}
use wheel_mud.Base.Int.{pos, ◌+ℤ◌, ◌-ℤ◌, ◌*ℤ◌, ◌/ℤ◌, ◌%ℤ◌}

pub pos_plus : (m n : ℕ) → pos m +ℤ pos n ≡ pos (m + n)
unfolding ◌+ℤ◌
pos_plus m n = ground arith

pub pos_minus : (m n : ℕ) → n ≤ m → pos m -ℤ pos n ≡ pos (m - n)
unfolding ◌-ℤ◌
pos_minus m n h = ground arith

pub pos_times : (m n : ℕ) → pos m *ℤ pos n ≡ pos (m * n)
unfolding ◌*ℤ◌
pos_times m n = ground arith

pub pos_over : (m n : ℕ) → pos m /ℤ pos n ≡ pos (m / n)
unfolding ◌/ℤ◌
pos_over m n = ground arith

pub pos_mod : (m n : ℕ) → pos m %ℤ pos n ≡ pos (m % n)
unfolding ◌%ℤ◌
pos_mod m n =
    rw (pos_over m n, pos_times (m / n) n) (unfold ◌-ℤ◌ in ground (arith, div-add-mod' m n))
