-- ===== src/Time.antt =====
-- src/stdlib/time.rs: calendar dates and spans of time, in milliseconds.
-- The years counted up from 1970 and the months counted up from 1 are never negative and stand in ℕ; all
-- else that is an `i64` there may be, and is in ℤ. Only `fields_to_unix_ms` can overflow, which wraps in
-- a release build: sums and products wrap alike once at the end or at each step.
pub mod Loops
pub mod Gregorian
pub mod Months
pub mod Dates
pub mod Calendar
pub mod Spans
mod Tests
use raytask.Prelude.{
  ℕ, zero, suc, ◌+◌, ◌/◌, ◌%◌, Bool, true, false, not, ◌&&◌, ◌||◌, Option, none, some, List, [],
  ◌∷◌, ◌==◌, if◌then◌else◌,
}
use raytask.Prelude.Options.{◌>>=◌}
use raytask.Prelude.Ints.{ℤ, neg, ◌+ℤ◌, ◌-ℤ◌, times, quot, rem, below, pos_part, magnitude, as_i64}

pub record Fields : Type 0 where
  pub year : ℤ
  pub month : ℤ
  pub day : ℤ
  pub hour : ℤ
  pub minute : ℤ
  pub second : ℤ

-- `y % n == 0`
abbrev divides : ℕ → ℤ → Bool
divides n y = magnitude (rem y n) == 0

unfoldable pub is_leap : ℤ → Bool
is_leap y = divides 4 y && not (divides 100 y) || divides 400 y

unfoldable pub days_in_year : ℕ → ℕ
days_in_year year = if is_leap (ℤ.pos year) then 366 else 365

unfoldable pub months : ℤ → List ℕ
months year =
    31 ∷ (if is_leap year then 29 else 28) ∷ 31 ∷ 30 ∷ 31 ∷ 30 ∷ 31 ∷ 31 ∷ 30 ∷ 31 ∷ 30 ∷ 31 ∷ []

-- The loop over the years from `year` on: each takes its days off, so `fuel` is no less than `days`.
unfoldable pub year_loop : (fuel : ℕ) (days : ℤ) (year : ℕ) → ℤ × ℕ
year_loop zero days year = (days, year)
year_loop (suc fuel) days year =
    let rest = year_loop fuel (days -ℤ ℤ.pos (days_in_year year)) (suc year) in
    if below days (days_in_year year) then (days, year) else rest

unfoldable pub month_loop : List ℕ → (days : ℤ) (month : ℕ) → ℤ × ℕ
month_loop [] days month = (days, month)
month_loop (dm ∷ dms) days month =
    let rest = month_loop dms (days -ℤ ℤ.pos dm) (suc month) in
    if below days dm then (days, month) else rest

-- The date of a day of the year.
unfoldable pub in_year : (hour minute second : ℤ) → ℤ × ℕ → Fields
in_year hour minute second (days, year) =
    let found = month_loop (months (ℤ.pos year)) days 1 in
    record {
      year = ℤ.pos year;
      month = ℤ.pos (found.1);
      day = found.0 +ℤ ℤ.pos 1;
      hour = hour;
      minute = minute;
      second = second;
    }

unfoldable pub unix_secs_to_fields : ℤ → Fields
unix_secs_to_fields total_secs =
    let days = quot total_secs 86400 in
    let left = rem total_secs 86400 in
    in_year (quot left 3600) (quot (rem left 3600) 60) (rem left 60)
      (year_loop (pos_part days) days 1970)

-- `for y in year..(year + count)`
unfoldable pub add_years : (count year days : ℕ) → ℕ
add_years zero year days = days
add_years (suc count) year days = add_years count (suc year) (days + days_in_year year)

-- `for m in 1..month`: an index past the table panics.
unfoldable pub add_months : List ℕ → (count days : ℕ) → Option ℕ
add_months dms zero days = some days
add_months [] (suc count) days = none
add_months (dm ∷ dms) (suc count) days = add_months dms count (days + dm)

unfoldable pub fields_to_unix_ms : Fields → Option ℤ
fields_to_unix_ms f = do
  let years = add_years (pos_part (f.year -ℤ ℤ.pos 1970)) 1970 0
  before ← add_months (months (f.year)) (pos_part (f.month -ℤ ℤ.pos 1)) years
  let days = ℤ.pos before +ℤ (f.day -ℤ ℤ.pos 1)
  some (
      as_i64
        (times (times days 86400 +ℤ times (f.hour) 3600 +ℤ times (f.minute) 60 +ℤ f.second) 1000))

-- The whole numbers among the fields that `make_timespan` stores.
pub record Span : Type 0 where
  pub ms : ℤ
  pub milliseconds : ℕ
  pub seconds : ℕ
  pub minutes : ℕ
  pub hours : ℕ
  pub days : ℕ

unfoldable pub make_timespan : ℤ → Span
make_timespan ms =
    let abs = magnitude ms in
    record {
      ms = ms;
      milliseconds = abs % 1000;
      seconds = abs / 1000 % 60;
      minutes = abs / 60000 % 60;
      hours = abs / 3600000 % 24;
      days = abs / 86400000;
    }

-- The factories and the arithmetic, on the milliseconds that `span_ms` and `dt_ticks` read from the
-- arguments; sums and products wrap.
unfoldable pub timespan_from_ms : ℤ → Span
timespan_from_ms ms = make_timespan ms

unfoldable pub timespan_from_secs : ℤ → Span
timespan_from_secs s = make_timespan (as_i64 (times s 1000))

unfoldable pub timespan_from_mins : ℤ → Span
timespan_from_mins m = make_timespan (as_i64 (times m 60000))

unfoldable pub timespan_from_hours : ℤ → Span
timespan_from_hours h = make_timespan (as_i64 (times h 3600000))

unfoldable pub timespan_add : (a b : ℤ) → Span
timespan_add a b = make_timespan (as_i64 (a +ℤ b))

unfoldable pub timespan_sub : (a b : ℤ) → Span
timespan_sub a b = make_timespan (as_i64 (a -ℤ b))

unfoldable pub dt_diff : (a b : ℤ) → Span
dt_diff a b = make_timespan (as_i64 (a -ℤ b))

unfoldable pub dt_add_span : (ms span : ℤ) → ℤ
dt_add_span ms span = as_i64 (ms +ℤ span)

unfoldable pub dt_sub_span : (ms span : ℤ) → ℤ
dt_sub_span ms span = as_i64 (ms -ℤ span)
