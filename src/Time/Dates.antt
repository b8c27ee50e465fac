-- ===== src/Time/Dates.antt =====
-- The conversions of src/stdlib/time.rs between a number of seconds since 1970 and a date.
use raytask.Prelude.{
  ℕ, suc, ◌+◌, ◌-◌, ◌*◌, ◌/◌, ◌%◌, ◌^◌, ◌≤◌, ◌<◌, ◌≡◌, refl, ap, ◌∙◌, some, List, get_elem?, arith,
}
use raytask.Prelude.Ints.{ℤ, as_i64-pos}
use raytask.Time.{
  Fields, months, year_loop, in_year, unix_secs_to_fields, add_years, add_months, fields_to_unix_ms,
}
use raytask.Time.Gregorian.{month_length, months-length}
use raytask.Time.Months.{add_months-below, total-months}
use raytask.Time.Loops.{
  add_years-start, add_months-less, add_months-more, month_loop-add_months, year_loop-add_years,
  minus_covered,
}

abbrev pub date : (year month day hour minute second : ℕ) → Fields
date y mo d h mi s = record {
  year = ℤ.pos y;
  month = ℤ.pos mo;
  day = ℤ.pos d;
  hour = ℤ.pos h;
  minute = ℤ.pos mi;
  second = ℤ.pos s;
}

-- A date of the Gregorian calendar from 1970 on, with the time of day.
pub record IsCivil (year month day hour minute second : ℕ) : Type 0 where
  pub since_1970 : 1970 ≤ year
  pub from_january : 1 ≤ month
  pub to_december : month ≤ 12
  pub from_first : 1 ≤ day
  pub to_last : day ≤ month_length year month
  pub hours : hour < 24
  pub minutes : minute < 60
  pub seconds : second < 60

pub in_table :
    (y mo d h mi s : ℕ)
    → IsCivil y mo d h mi s
    → get_elem? (months (ℤ.pos y)) (mo - 1) ≡ some (month_length y mo)
in_table y mo d h mi s c =
    let month : suc (mo - 1) ≡ mo = omega (arith, c.from_january) in
    months-length y (mo - 1) (omega (arith, c.to_december, c.from_january))
    ∙ ap (λ m. some (month_length y m)) month

-- The parts of a number of seconds.
clock :
    (n days left : ℕ)
    → n ≡ days * 86400 + left
    → left < 86400
    → unix_secs_to_fields (ℤ.pos n)
      ≡ in_year
          (ℤ.pos (left / 3600))
          (ℤ.pos (left % 3600 / 60))
          (ℤ.pos (left % 60))
          (year_loop days (ℤ.pos days) 1970)
unfolding unix_secs_to_fields
clock n days left h l =
    let whole : n / 86400 ≡ days = omega arith in
    let part : n % 86400 ≡ left = omega arith in rw (whole, part) refl

in_year-date :
    (year month day days doy k : ℕ) (h mi s : ℤ)
    → get_elem? (months (ℤ.pos year)) (month - 1) ≡ some k
    → 1 ≤ month
    → 1 ≤ day
    → day ≤ k
    → add_months (months (ℤ.pos year)) (month - 1) (day - 1) ≡ some doy
    → in_year h mi s (ℤ.pos doy, year) ≡ record {
      year = ℤ.pos year;
      month = ℤ.pos month;
      day = ℤ.pos day;
      hour = h;
      minute = mi;
      second = s;
    }
unfolding in_year
in_year-date year month day days doy k h mi s found m d short sum =
    let back : day - 1 + 1 ≡ day = omega arith in
    rw
      (month_loop-add_months (months (ℤ.pos year)) (month - 1) 1 month (day - 1) doy k (omega arith)
        found (omega arith) sum)
      (ap
        (λ x. record {
          year = ℤ.pos year;
          month = ℤ.pos month;
          day = ℤ.pos x;
          hour = h;
          minute = mi;
          second = s;
        })
        back)

-- The seconds of a time of day on the day `doy` of a year.
abbrev pub stamp : (year doy h mi s : ℕ) → ℕ
stamp year doy h mi s = add_years (year - 1970) 1970 doy * 86400 + (h * 3600 + mi * 60 + s)

pub to_fields :
    (y mo d h mi s doy : ℕ)
    → (c : IsCivil y mo d h mi s) → add_months (months (ℤ.pos y)) (mo - 1) (d - 1) ≡ some doy
    → unix_secs_to_fields (ℤ.pos (stamp y doy h mi s)) ≡ date y mo d h mi s
to_fields y mo d h mi s doy c sum =
    let days = add_years (y - 1970) 1970 doy in
    let left = h * 3600 + mi * 60 + s in
    let hour : left / 3600 ≡ h = omega arith in
    let minute : left % 3600 / 60 ≡ mi = omega arith in
    let second : left % 60 ≡ s = omega arith in
    let below =
      add_months-below (months (ℤ.pos y)) (mo - 1) (d - 1) (month_length y mo) doy
        (in_table y mo d h mi s c) (omega arith) sum in
    clock (stamp y doy h mi s) days left refl (omega arith)
    ∙ rw
        (
          hour,
          minute,
          second,
          year_loop-add_years (y - 1970) 1970 y doy days (omega arith)
              (omega (arith, below, total-months y)) (omega arith),
        )
        (in_year-date y mo d days doy (month_length y mo) (ℤ.pos h) (ℤ.pos mi) (ℤ.pos s)
          (in_table y mo d h mi s c) (c.from_january) (c.from_first) (c.to_last) sum)

-- The sum over the months starts from the one over the years.
add_months-years :
    (dms : List ℕ) (count years r doy : ℕ)
    → add_months dms count r ≡ some doy
    → (r ≤ doy) × (add_months dms count years ≡ some (doy - r + years))
add_months-years dms count years r doy sum =
    let less = add_months-less dms count 0 r doy (ap (add_months dms count) (omega arith) ∙ sum) in
    (
      less.0,
      ap (add_months dms count) (omega arith)
          ∙ add_months-more dms count 0 years (doy - r) (less.1),
    )

pub from_fields :
    (y mo d h mi s doy : ℕ)
    → (c : IsCivil y mo d h mi s) → add_months (months (ℤ.pos y)) (mo - 1) (d - 1) ≡ some doy
    → stamp y doy h mi s * 1000 < 2 ^ 63
    → fields_to_unix_ms (date y mo d h mi s) ≡ some (ℤ.pos (stamp y doy h mi s * 1000))
unfolding fields_to_unix_ms
from_fields y mo d h mi s doy c sum small =
    let years = add_years (y - 1970) 1970 0 in
    let before = add_months-years (months (ℤ.pos y)) (mo - 1) years (d - 1) doy sum in
    let whole : ((doy - (d - 1) + years + (d - 1)) * 86400 + h * 3600 + mi * 60 + s) * 1000
        ≡ stamp y doy h mi s * 1000 =
      omega (arith, add_years-start (y - 1970) 1970 doy, before.0) in
    rw
      (
        minus_covered y 1970 (c.since_1970),
        minus_covered mo 1 (c.from_january),
        minus_covered d 1 (c.from_first),
        before.1,
      )
      (ap some (rw whole (as_i64-pos (stamp y doy h mi s * 1000) small)))
