-- ===== src/Time/Loops.antt =====
-- The loops of src/stdlib/time.rs undo each other: taking the years and the months off a number of days
-- finds the counts that adding them up starts from.
use raytask.Prelude.{
  ℕ, zero, suc, ◌+◌, ◌-◌, ◌≤◌, ◌<◌, ◌≡◌, refl, sym, ap, ◌∙◌, ltb, some, List, [], ◌∷◌, get_elem?,
  arith, Bool-cases, inl, inr,
}
use raytask.Prelude.Ints.{ℤ, ◌-ℤ◌}
use raytask.Time.{days_in_year, year_loop, month_loop, add_years, add_months}

-- `pos m -ℤ pos n` where the difference is there.
pub minus_covered : (m n : ℕ) → n ≤ m → ℤ.pos m -ℤ ℤ.pos n ≡ ℤ.pos (m - n)
minus_covered m zero h = ground arith
minus_covered m (suc n) h = ground arith

pub year_days : (year : ℕ) → (365 ≤ days_in_year year) × (days_in_year year ≤ 366)
unfolding days_in_year
year_days year = (ground arith, ground arith)

add_years-from : (count year a b : ℕ) → add_years count year (a + b) ≡ a + add_years count year b
unfolding add_years
add_years-from zero year a b = refl
add_years-from (suc count) year a b =
    rw (sym (add_years-from count (suc year) a (b + days_in_year year)))
      (ap (add_years count (suc year)) (omega arith))

pub add_years-start : (count year a : ℕ) → add_years count year a ≡ a + add_years count year 0
add_years-start count year a =
    ap (add_years count year) (omega arith) ∙ add_years-from count year a 0

-- One more year, counted first.
pub add_years-suc :
    (count year r : ℕ)
    → add_years (suc count) year r ≡ days_in_year year + add_years count (suc year) r
unfolding add_years
add_years-suc count year r =
    ap (add_years count (suc year)) (omega arith)
    ∙ add_years-from count (suc year) (days_in_year year) r

year_loop-step :
    (fuel days year : ℕ)
    → days_in_year year ≤ days
    → year_loop (suc fuel) (ℤ.pos days) year
      ≡ year_loop fuel (ℤ.pos (days - days_in_year year)) (suc year)
unfolding year_loop
year_loop-step fuel days year h = rw (minus_covered days (days_in_year year) h) (ground arith)

year_loop-stop :
    (fuel days year : ℕ)
    → days < days_in_year year
    → year_loop fuel (ℤ.pos days) year ≡ (ℤ.pos days, year)
unfolding year_loop
year_loop-stop zero days year h = refl
year_loop-stop (suc fuel) days year h = ground arith

pub year_loop-add_years :
    (count year last r fuel : ℕ)
    → last ≡ year + count
    → r < days_in_year last
    → add_years count year r ≤ fuel
    → year_loop fuel (ℤ.pos (add_years count year r)) year ≡ (ℤ.pos r, last)
unfolding add_years
year_loop-add_years zero year last r fuel is_last short enough =
    let here : year ≡ last = omega arith in rw here (year_loop-stop fuel r last short)
year_loop-add_years (suc count) year last r zero is_last short enough =
    absurd (omega (arith, add_years-suc count year r, year_days year))
year_loop-add_years (suc count) year last r (suc fuel) is_last short enough =
    let whole = add_years-suc count year r in
    let rest : add_years (suc count) year r - days_in_year year ≡ add_years count (suc year) r =
      omega (arith, whole) in
    year_loop-step fuel (add_years (suc count) year r) year (omega (arith, whole))
    ∙ ap (λ d. year_loop fuel (ℤ.pos d) (suc year)) rest
    ∙ year_loop-add_years count (suc year) last r fuel (omega arith) short
        (omega (arith, whole, year_days year))

-- A number of days as whole years from `year` on and the days in the year after.
pub record InYear (year days : ℕ) : Type 0 where
  pub count : ℕ
  pub last : ℕ
  pub is_last : last ≡ year + count
  pub rest : ℕ
  pub short : rest < days_in_year last
  pub sum : add_years count year rest ≡ days

in_first_year : (days year : ℕ) → days < days_in_year year → InYear year days
unfolding add_years
in_first_year days year h = record {
  count = 0;
  last = year;
  is_last = omega arith;
  rest = days;
  short = h;
  sum = refl;
}

in_later_year :
    (days year : ℕ)
    → days_in_year year ≤ days
    → InYear (suc year) (days - days_in_year year)
    → InYear year days
in_later_year days year h later = record {
  count = suc (later.count);
  last = later.last;
  is_last = omega (arith, later.is_last);
  rest = later.rest;
  short = later.short;
  sum = omega (arith, add_years-suc (later.count) year (later.rest), later.sum);
}

pub split_years : (bound days year : ℕ) → days ≤ bound → InYear year days
split_years zero days year h = in_first_year days year (omega (arith, year_days year))
split_years (suc bound) days year h = elim (Bool-cases (ltb days (days_in_year year))) [
  | inl e ↦ in_first_year days year (ground arith)
  | inr e ↦
      in_later_year days year (ground arith)
        (split_years bound (days - days_in_year year) (suc year) (omega (arith, year_days year)))
]

pub add_months-less :
    (dms : List ℕ) (count r a days : ℕ)
    → add_months dms count (r + a) ≡ some days
    → (a ≤ days) × (add_months dms count r ≡ some (days - a))
unfolding add_months
add_months-less dms zero r a days h = (ground arith, ground arith)
add_months-less [] (suc count) r a days h = ground arith
add_months-less (dm ∷ dms) (suc count) r a days h =
    add_months-less dms count (r + dm) a days (ap (add_months dms count) (omega arith) ∙ h)

pub add_months-more :
    (dms : List ℕ) (count r a days : ℕ)
    → add_months dms count r ≡ some days
    → add_months dms count (r + a) ≡ some (days + a)
unfolding add_months
add_months-more dms zero r a days h = ground arith
add_months-more [] (suc count) r a days h = ground arith
add_months-more (dm ∷ dms) (suc count) r a days h =
    ap (add_months dms count) (omega arith) ∙ add_months-more dms count (r + dm) a days h

pub month_loop-add_months :
    (dms : List ℕ) (count month last r days k : ℕ)
    → last ≡ month + count
    → get_elem? dms count ≡ some k
    → r < k
    → add_months dms count r ≡ some days
    → month_loop dms (ℤ.pos days) month ≡ (ℤ.pos r, last)
unfolding add_months month_loop
month_loop-add_months [] count month last r days k is_last h short sum = ground arith
month_loop-add_months (dm ∷ dms) zero month last r days k is_last h short sum =
    let here : month ≡ last = omega arith in rw here (ground arith)
month_loop-add_months (dm ∷ dms) (suc count) month last r days k is_last h short sum =
    let less = add_months-less dms count r dm days sum in
    rw (minus_covered days dm (less.0)) (
      ground (
        arith,
        less,
        month_loop-add_months dms count (suc month) last r (days - dm) k (omega arith) h short
            (less.1),
      ))
