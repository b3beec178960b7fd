-- ===== src/Calendar/Later.antt =====
-- The date of a day, and that `AddDate` moves a time forward.
use flowx.Prelude.{ℕ, ◌+◌, ◌-◌, ◌*◌, ◌/◌, ◌%◌, ◌≤◌, ◌<◌, ◌≡◌, refl, ◌∙◌, arith}
use flowx.Calendar.{
  Date, day_seconds, days_before, days_from_march, days_of, march_date, date_of_days, add_months,
  add_date,
}

-- The year of the era, from the day of the era.
abbrev year_of_era : ℕ → ℕ
year_of_era doe = (doe - doe / 1460 + doe / 36524 - doe / 146096) / 365

-- The days of the years before a year of the era.
abbrev days_of_years : ℕ → ℕ
days_of_years y = 365 * y + y / 4 - y / 100

year_of_era-le :
    (doe : ℕ)
    → doe < 146097
    → (days_of_years (year_of_era doe) ≤ doe)
      × (doe - days_of_years (year_of_era doe) ≤ 365)
      × (year_of_era doe < 400)
year_of_era-le doe h = omega arith

-- The days before a date are those of the eras, of the years of its era, and of its year.
days_before_split :
    (era y doy : ℕ)
    → y < 400
    → doy ≤ 365
    → days_before
        (y + era * 400)
        ((5 * doy + 2) / 153)
        (doy - (153 * ((5 * doy + 2) / 153) + 2) / 5 + 1)
      ≡ era * 146097 + days_of_years y + doy
days_before_split era y doy h k = omega arith

days_from_march-march_date :
    (y mp d : ℕ) → mp < 12 → days_from_march (march_date y mp d) ≡ days_before y mp d
unfolding days_from_march march_date
days_from_march-march_date y mp d h = ground arith

days_from_march-date_of_days : (n : ℕ) → days_from_march (date_of_days n) ≡ n + 719468
unfolding date_of_days
days_from_march-date_of_days n =
    let z = n + 719468 in
    let doe = z % 146097 in
    let y = year_of_era doe in
    let doy = doe - days_of_years y in
    let bounds = year_of_era-le doe (omega arith) in
    days_from_march-march_date (y + z / 146097 * 400) ((5 * doy + 2) / 153)
      (doy - (153 * ((5 * doy + 2) / 153) + 2) / 5 + 1) (omega (arith, bounds.1))
    ∙ days_before_split (z / 146097) y doy bounds.2 bounds.1
    ∙ omega (arith, bounds.0)

pub month_of-date_of_days :
    (n : ℕ)
    → (1 ≤ (date_of_days n).month) × ((date_of_days n).month ≤ 12) × (1 ≤ (date_of_days n).year)
unfolding date_of_days
month_of-date_of_days n = ground (arith, year_of_era-le ((n + 719468) % 146097))

days_from_march-add_month :
    (c : Date)
    → 1 ≤ c.month
    → c.month ≤ 12
    → 1 ≤ c.year
    → days_from_march c < days_from_march (add_months 1 c)
unfolding days_from_march add_months
days_from_march-add_month c h k l = ground arith

days_from_march-add_months_zero :
    (c : Date) → 1 ≤ c.month → c.month ≤ 12 → days_from_march (add_months 0 c) ≡ days_from_march c
unfolding days_from_march add_months
days_from_march-add_months_zero c h k = ground arith

days_of-eq : (c : Date) → days_of c ≡ days_from_march c - 719468
unfolding days_of
days_of-eq c = refl

add_date-eq :
    (months days t : ℕ)
    → add_date months days t
      ≡ (days_of (add_months months (date_of_days (t / day_seconds))) + days) * day_seconds
        + t % day_seconds
unfolding add_date
add_date-eq months days t = refl

-- `AddDate` by some days moves a time forward.
pub add_days_later : (days t : ℕ) → 1 ≤ days → t < add_date 0 days t
add_days_later days t k =
    let n = t / day_seconds in
    let c = date_of_days n in
    let m = month_of-date_of_days n in
    omega (
      arith,
      add_date-eq 0 days t,
      days_of-eq (add_months 0 c),
      days_from_march-add_months_zero c m.0 m.1,
      days_from_march-date_of_days n,
    )

-- `AddDate` by a month moves a time forward.
pub add_month_later : (t : ℕ) → t < add_date 1 0 t
add_month_later t =
    let n = t / day_seconds in
    let c = date_of_days n in
    let m = month_of-date_of_days n in
    omega (
      arith,
      add_date-eq 1 0 t,
      days_of-eq (add_months 1 c),
      days_from_march-add_month c m.0 m.1 m.2,
      days_from_march-date_of_days n,
    )
