-- ===== src/Currency/Tests.antt =====
-- Runs of internal/currency/currency.go.
use wheel_mud.Base.{◌≡◌, arith}
use wheel_mud.Base.Int.{pos, ◌*ℤ◌}
use wheel_mud.Currency.{max_int64, safe_mul}
use wheel_mud.Currency.Arithmetic.{checked, safe_mul_lem}

safe_mul_lem_example : safe_mul max_int64 (pos 2) ≡ checked (max_int64 *ℤ pos 2)
safe_mul_lem_example =
    safe_mul_lem max_int64 (pos 2) (omega arith, omega arith) (omega arith, omega arith)
