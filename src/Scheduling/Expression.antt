-- ===== src/Scheduling/Expression.antt =====
-- `validate_schedule_expression`: "@hourly", "@daily" or "*/n * * * *".
use Prim.Native.Char.{Char}
use schema_pilot.Base.{
  ℕ, suc, ◌+◌, ◌*◌, String, ◌&&◌, ◌||◌, Option, none, some, ◌==◌, if◌then◌else◌, leb, ltb, eqb,
  strip, lower,
}
use schema_pilot.Errors.{value_error, Result, ok, err}

-- the digits at the front: how many, their value, and what follows them
unfoldable pub read_digits : (Char → Option ℕ) → ℕ → ℕ → String → ℕ × ℕ × String
read_digits digit count value String.[] = (count, value, String.[])
read_digits digit count value (String.◌∷◌ c s) = elim (digit c) [
  | none ↦ (count, value, String.◌∷◌ c s)
  | some d ↦ read_digits digit (suc count) (value * 10 + d) s
]

-- `\*/(\d{1,4}) \* \* \* \*`, matched in full: the minutes
unfoldable pub match_minute_cron : (Char → Option ℕ) → String → Option ℕ
match_minute_cron digit (String.◌∷◌ a (String.◌∷◌ b s)) =
    let (count, value, rest) = read_digits digit 0 0 s in
    if String.◌∷◌ a (String.◌∷◌ b String.[]) == "*/"
      && leb 1 count
      && leb count 4
      && rest == " * * * *"
    then some value
    else none
match_minute_cron digit s = none

abbrev invalid : Result ℕ
invalid = err (value_error "invalid_schedule_expression")

unfoldable pub validate_schedule_expression : (Char → Option ℕ) → String → Result ℕ
validate_schedule_expression digit expression =
    let normalized = lower (strip expression) in
    if normalized == "@hourly"
    then ok 3600
    else if normalized == "@daily"
    then ok 86400
    else elim (match_minute_cron digit normalized) [
      | none ↦ invalid
      | some minutes ↦ if eqb minutes 0 || ltb 1440 minutes then invalid else ok (minutes * 60)
    ]
