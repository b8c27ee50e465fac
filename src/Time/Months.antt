-- ===== src/Time/Months.antt =====
-- Days as whole months and days, by the loop over the months in src/stdlib/time.rs.
use raytask.Prelude.{
  ℕ, zero, suc, ◌+◌, ◌-◌, ◌≤◌, ◌<◌, ◌≡◌, refl, ap, ◌∙◌, ltb, some, List, [], ◌∷◌, get_elem?, arith,
  Bool-cases, inl, inr,
}
use raytask.Prelude.Ints.{ℤ}
use raytask.Time.{days_in_year, months, add_months}
use raytask.Time.Loops.{add_months-less, add_months-more}

pub total : List ℕ → ℕ
total [] = 0
total (dm ∷ dms) = dm + total dms

-- A number of days as whole months and the days in the month after.
pub record InMonth (dms : List ℕ) (days : ℕ) : Type 0 where
  pub count : ℕ
  pub rest : ℕ
  pub month_days : ℕ
  pub found : get_elem? dms count ≡ some month_days
  pub short : rest < month_days
  pub sum : add_months dms count rest ≡ some days

in_later_month :
    (dm : ℕ) (dms : List ℕ) (days : ℕ)
    → dm ≤ days
    → InMonth dms (days - dm)
    → InMonth (dm ∷ dms) days
unfolding add_months
in_later_month dm dms days h later = record {
  count = suc (later.count);
  rest = later.rest;
  month_days = later.month_days;
  found = later.found;
  short = later.short;
  sum =
      add_months-more dms (later.count) (later.rest) dm (days - dm) (later.sum)
      ∙ ap some (omega arith);
}

pub split_months : (dms : List ℕ) (days : ℕ) → days < total dms → InMonth dms days
unfolding total add_months
split_months [] days h = absurd (omega arith)
split_months (dm ∷ dms) days h = elim (Bool-cases (ltb days dm)) [
  | inl e ↦ record {
    count = 0;
    rest = days;
    month_days = dm;
    found = refl;
    short = ground arith;
    sum = refl;
  }
  | inr e ↦ in_later_month dm dms days (ground arith) (split_months dms (days - dm) (ground arith))
]

pub add_months-below :
    (dms : List ℕ) (count r k days : ℕ)
    → get_elem? dms count ≡ some k
    → r < k
    → add_months dms count r ≡ some days
    → days < total dms
unfolding total add_months
add_months-below [] count r k days found short sum = ground arith
add_months-below (dm ∷ dms) zero r k days found short sum = ground arith
add_months-below (dm ∷ dms) (suc count) r k days found short sum =
    let less = add_months-less dms count r dm days sum in
    ground (arith, less, add_months-below dms count r k (days - dm) found short (less.1))

pub total-months : (year : ℕ) → total (months (ℤ.pos year)) ≡ days_in_year year
unfolding total months days_in_year
total-months year = ground arith

pub add_months-defined :
    (dms : List ℕ) (count r k : ℕ)
    → get_elem? dms count ≡ some k
    → (doy : ℕ) × (add_months dms count r ≡ some doy)
unfolding add_months
add_months-defined [] count r k h = ground arith
add_months-defined (dm ∷ dms) zero r k h = (r, refl)
add_months-defined (dm ∷ dms) (suc count) r k h = add_months-defined dms count (r + dm) k h
