-- ===== src/Time/Calendar.antt =====
-- What the dates of src/stdlib/time.rs are: dates of the calendar, from which the time is found again.
use raytask.Prelude.{
  ℕ, zero, suc, ◌+◌, ◌-◌, ◌*◌, ◌/◌, ◌%◌, ◌^◌, ◌≤◌, ◌<◌, ◌≡◌, refl, sym, ap, ◌∙◌, false, some, arith,
}
use raytask.Prelude.Ints.{ℤ, ◌-ℤ◌, pos_part}
use raytask.Time.{
  Fields, is_leap, days_in_year, months, unix_secs_to_fields, add_years, add_months,
  fields_to_unix_ms,
}
use raytask.Time.Gregorian.{month_length, months-LengthAt}
use raytask.Time.Loops.{InYear, split_years, year_days}
use raytask.Time.Dates.{IsCivil, in_table, date, stamp, to_fields, from_fields}
use raytask.Time.Months.{InMonth, split_months, total-months, add_months-below, add_months-defined}

-- The civil date of a number of seconds since 1970.
pub record CivilAt (n : ℕ) : Type 0 where
  pub year : ℕ
  pub month : ℕ
  pub day : ℕ
  pub hour : ℕ
  pub minute : ℕ
  pub second : ℕ
  pub civil : IsCivil year month day hour minute second
  pub doy : ℕ
  pub sum : add_months (months (ℤ.pos year)) (month - 1) (day - 1) ≡ some doy
  pub is_stamp : stamp year doy hour minute second ≡ n

civil_of :
    (n : ℕ) (y : InYear 1970 (n / 86400)) → InMonth (months (ℤ.pos (y.last))) (y.rest) → CivilAt n
civil_of n y m =
    let month : suc (m.count) - 1 ≡ m.count = omega arith in
    let day : suc (m.rest) - 1 ≡ m.rest = omega arith in
    let years : y.last - 1970 ≡ y.count = omega arith in
    let month_days = months-LengthAt (y.last) (m.count) (m.month_days) (m.found) in
    record {
      year = y.last;
      month = suc (m.count);
      day = suc (m.rest);
      hour = n % 86400 / 3600;
      minute = n % 3600 / 60;
      second = n % 60;
      civil = record {
        since_1970 = omega arith;
        from_january = omega arith;
        from_first = omega arith;
        to_december = omega (arith, month_days);
        to_last = omega (arith, month_days, m.short);
        hours = omega arith;
        minutes = omega arith;
        seconds = omega arith;
      };
      doy = y.rest;
      sum = rw (month, day) (m.sum);
      is_stamp = rw (years, y.sum) (omega arith);
    }

civil_at : (n : ℕ) → CivilAt n
civil_at n =
    let y = split_years (n / 86400) (n / 86400) 1970 (omega arith) in
    civil_of n y (
      split_months (months (ℤ.pos (y.last))) (y.rest)
        (omega (arith, total-months (y.last), y.short)))

pub record IsDate (f : Fields) : Type 0 where
  pub year : ℕ
  pub month : ℕ
  pub day : ℕ
  pub hour : ℕ
  pub minute : ℕ
  pub second : ℕ
  pub civil : IsCivil year month day hour minute second
  pub is_date : f ≡ date year month day hour minute second

stamped :
    (n : ℕ) (at : CivilAt n)
    → unix_secs_to_fields (ℤ.pos n)
      ≡ date (at.year) (at.month) (at.day) (at.hour) (at.minute) (at.second)
stamped n at =
    ap (λ k. unix_secs_to_fields (ℤ.pos k)) (sym (at.is_stamp))
    ∙ to_fields (at.year) (at.month) (at.day) (at.hour) (at.minute) (at.second) (at.doy) (at.civil)
        (at.sum)

-- The fields of a time from 1970 on are a date of the calendar and a time of day: the month is one of
-- the twelve, the day one of that month's in that year, and the clock shows less than 24:60:60.
pub unix_secs_to_fields-IsDate : (n : ℕ) → IsDate (unix_secs_to_fields (ℤ.pos n))
unix_secs_to_fields-IsDate n =
    let at = civil_at n in
    record {
      year = at.year;
      month = at.month;
      day = at.day;
      hour = at.hour;
      minute = at.minute;
      second = at.second;
      civil = at.civil;
      is_date = stamped n at;
    }

-- The milliseconds of the fields of a time from 1970 on are those of the time, where an `i64` holds them.
pub fields_to_unix_ms-unix_secs_to_fields :
    (n : ℕ)
    → n * 1000 < 2 ^ 63
    → fields_to_unix_ms (unix_secs_to_fields (ℤ.pos n)) ≡ some (ℤ.pos (n * 1000))
fields_to_unix_ms-unix_secs_to_fields n small =
    let at = civil_at n in
    ap fields_to_unix_ms (stamped n at)
    ∙ from_fields (at.year) (at.month) (at.day) (at.hour) (at.minute) (at.second) (at.doy)
        (at.civil) (at.sum) (rw (at.is_stamp) small)
    ∙ ap (λ k. some (ℤ.pos (k * 1000))) (at.is_stamp)

-- The time that a date is turned into shows that date again.
pub record ShowsAgain (f : Fields) : Type 0 where
  pub secs : ℕ
  pub is_ms : fields_to_unix_ms f ≡ some (ℤ.pos (secs * 1000))
  pub again : unix_secs_to_fields (ℤ.pos secs) ≡ f

add_years-bound : (count year r : ℕ) → add_years count year r ≤ r + 366 * count
unfolding add_years
add_years-bound zero year r = omega arith
add_years-bound (suc count) year r =
    omega (arith, add_years-bound count (suc year) (r + days_in_year year), year_days year)

-- A date of the calendar from 1970 to 9999 is turned into a time that shows the same date.
pub fields_to_unix_ms-ShowsAgain :
    (y mo d h mi s : ℕ) → y < 10000 → IsCivil y mo d h mi s → ShowsAgain (date y mo d h mi s)
fields_to_unix_ms-ShowsAgain y mo d h mi s small c =
    let (doy, sum) =
      add_months-defined (months (ℤ.pos y)) (mo - 1) (d - 1) (month_length y mo)
        (in_table y mo d h mi s c) in
    record {
      secs = stamp y doy h mi s;
      is_ms = from_fields y mo d h mi s doy c sum (
          omega (
            arith,
            c.hours,
            c.minutes,
            c.seconds,
            add_years-bound (y - 1970) 1970 doy,
            total-months y,
            year_days y,
            add_months-below (months (ℤ.pos y)) (mo - 1) (d - 1) (month_length y mo) doy
                (in_table y mo d h mi s c) (omega (arith, c.from_first, c.to_last)) sum,
          ));
      again = to_fields y mo d h mi s doy c sum;
    }

months-common : (y : ℕ) → is_leap (ℤ.pos y) ≡ false → months (ℤ.pos y) ≡ months (ℤ.pos 1970)
unfolding months is_leap
months-common y h = ground arith

-- A year before 1970 that has no leap day counts as 1970: its dates are turned into times of 1970.
pub fields_to_unix_ms-before_1970 :
    (y : ℕ) (month day hour minute second : ℤ)
    → y ≤ 1970
    → is_leap (ℤ.pos y) ≡ false
    → fields_to_unix_ms record {
      year = ℤ.pos y;
      month = month;
      day = day;
      hour = hour;
      minute = minute;
      second = second;
    }
      ≡ fields_to_unix_ms record {
        year = ℤ.pos 1970;
        month = month;
        day = day;
        hour = hour;
        minute = minute;
        second = second;
      }
unfolding fields_to_unix_ms
fields_to_unix_ms-before_1970 y month day hour minute second early common =
    let none_left : pos_part (ℤ.pos y -ℤ ℤ.pos 1970) ≡ 0 = ground arith in
    rw (none_left, months-common y common) refl
