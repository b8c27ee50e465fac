-- ===== src/Time/Tests.antt =====
-- Dates of src/stdlib/time.rs worked out.
use raytask.Prelude.{ℕ, ◌*◌, ◌≡◌, refl, some, arith}
use raytask.Prelude.Ints.{ℤ}
use raytask.Time.{
  is_leap, days_in_year, months, year_loop, month_loop, in_year, unix_secs_to_fields,
  fields_to_unix_ms,
}
use raytask.Time.Gregorian.{has_leap_day, month_length}
use raytask.Time.Dates.{IsCivil, date}
use raytask.Time.Calendar.{
  IsDate, unix_secs_to_fields-IsDate, fields_to_unix_ms-unix_secs_to_fields,
  fields_to_unix_ms-before_1970,
}

-- The last second of a leap day.
abbrev leap_day : ℕ
leap_day = 951868799

leap_day-date : unix_secs_to_fields (ℤ.pos leap_day) ≡ date 2000 2 29 23 59 59
unfolding unix_secs_to_fields year_loop month_loop in_year months days_in_year is_leap
leap_day-date = refl

-- A day and a second before 1970 is shown as the day 0 of January 1970.
before-epoch : (unix_secs_to_fields (ℤ.negsuc 86400)).day ≡ ℤ.pos 0
unfolding unix_secs_to_fields year_loop month_loop in_year months days_in_year is_leap
before-epoch = refl

unix_secs_to_fields-IsDate_example : IsDate (unix_secs_to_fields (ℤ.pos leap_day))
unix_secs_to_fields-IsDate_example = unix_secs_to_fields-IsDate leap_day

fields_to_unix_ms-unix_secs_to_fields_example :
    fields_to_unix_ms (unix_secs_to_fields (ℤ.pos leap_day)) ≡ some (ℤ.pos (leap_day * 1000))
fields_to_unix_ms-unix_secs_to_fields_example =
    fields_to_unix_ms-unix_secs_to_fields leap_day (omega arith)

leap_day-IsCivil : IsCivil 2000 2 29 23 59 59
unfolding month_length has_leap_day
leap_day-IsCivil = record {
  since_1970 = omega arith;
  from_january = omega arith;
  from_first = omega arith;
  to_december = omega arith;
  to_last = omega arith;
  hours = omega arith;
  minutes = omega arith;
  seconds = omega arith;
}

fields_to_unix_ms-before_1970_example :
    fields_to_unix_ms (date 1969 12 31 0 0 0) ≡ fields_to_unix_ms (date 1970 12 31 0 0 0)
unfolding is_leap
fields_to_unix_ms-before_1970_example =
    fields_to_unix_ms-before_1970 1969 (ℤ.pos 12) (ℤ.pos 31) (ℤ.pos 0) (ℤ.pos 0) (ℤ.pos 0)
      (omega arith) refl
