-- ===== src/Engines/Dates.antt =====
-- `calculateSLABreachDate` of packages/core/src/utils/datetime.ts. A date is its day of the local
-- calendar, counted from 1 January 1970; the time of day is kept by `setDate`.
pub mod Laws
use roadwatch.Prelude.{
  ℕ, zero, suc, ◌+◌, ◌*◌, ◌%◌, Option, none, some, Bool, true, false, ◌==◌, ◌||◌, if◌then◌else◌,
}

-- `getDay()`: that day was a Thursday.
unfoldable pub day_of_week : ℕ → ℕ
day_of_week day = (day + 4) % 7

unfoldable pub is_weekend : ℕ → Bool
unfolding day_of_week
is_weekend day = day_of_week day == 0 || day_of_week day == 6

-- The loop, with the days left to add; `none` is that the fuel ran out.
unfoldable pub add_working_days : ℕ → ℕ → ℕ → Option ℕ
add_working_days fuel day zero = some day
add_working_days zero day (suc left) = none
add_working_days (suc fuel) day (suc left) =
    add_working_days fuel (day + 1) (if is_weekend (day + 1) then suc left else left)

-- A week of five working days lets three rounds pay for each of them.
unfoldable pub calculate_sla_breach_date : ℕ → ℕ → Option ℕ
calculate_sla_breach_date start allowed_days =
    add_working_days (3 * allowed_days) start allowed_days
