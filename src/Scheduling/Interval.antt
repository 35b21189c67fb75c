-- ===== src/Scheduling/Interval.antt =====
-- The intervals of schedules.
use Prim.Native.Char.{Char}
use schema_pilot.Base.{ℕ, ◌*◌, ◌/◌, ◌≤◌, ◌≡◌, String, Option, arith}
use schema_pilot.Errors.{ok}
use schema_pilot.Scheduling.{validate_schedule_expression}

-- An accepted expression means a whole number of minutes, from one minute to one day.
pub validate-interval :
    (digit : Char → Option ℕ) (expression : String) (n : ℕ)
    → validate_schedule_expression digit expression ≡ ok n
    → (m : ℕ) × (n ≡ m * 60) × (1 ≤ m) × (m ≤ 1440)
unfolding validate_schedule_expression
validate-interval digit expression n h = (n / 60, ground arith, ground arith, ground arith)
