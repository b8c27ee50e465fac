-- ===== src/Time/Gregorian.antt =====
-- The Gregorian calendar, told apart from src/stdlib/time.rs, and that the tables there are of it.
use raytask.Prelude.{ℕ, suc, ◌%◌, ◌<◌, ◌≡◌, Bool, ◌||◌, ◌==◌, if◌then◌else◌, some, get_elem?, arith}
use raytask.Prelude.Ints.{ℤ}
use raytask.Time.{is_leap, months}

-- Each fourth year but the centuries, and of these each fourth.
unfoldable pub has_leap_day : ℕ → Bool
has_leap_day year = if year % 100 == 0 then year % 400 == 0 else year % 4 == 0

-- April, June, September and November have 30 days.
unfoldable pub month_length : (year month : ℕ) → ℕ
month_length year month =
    if month == 2
    then (if has_leap_day year then 29 else 28)
    else if month == 4 || month == 6 || (month == 9 || month == 11)
    then 30
    else 31

is_leap-has_leap_day : (year : ℕ) → is_leap (ℤ.pos year) ≡ has_leap_day year
unfolding is_leap has_leap_day
is_leap-has_leap_day year = ground arith

abbrev pub LengthAt : (year i k : ℕ) → Type 0
LengthAt year i k = (i < 12) × (k ≡ month_length year (suc i))

pub months-LengthAt :
    (year i k : ℕ) → get_elem? (months (ℤ.pos year)) i ≡ some k → LengthAt year i k
unfolding months month_length
months-LengthAt year i k h = ground (arith, is_leap-has_leap_day year)

pub months-length :
    (year i : ℕ) → i < 12 → get_elem? (months (ℤ.pos year)) i ≡ some (month_length year (suc i))
unfolding months month_length
months-length year i h = ground (arith, is_leap-has_leap_day year)
