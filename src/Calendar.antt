-- ===== src/Calendar.antt =====
-- What the program uses of Go's `time` package: the date of a UTC time, `time.Date` of a day, and
-- `AddDate`. Times are seconds, and days count from 1970-01-01, in the Gregorian calendar.
pub mod Later
use flowx.Prelude.{ℕ, ◌+◌, ◌-◌, ◌*◌, ◌/◌, ◌%◌, ◌≡◌, refl, ltb, leb, if◌then◌else◌}

pub record Date : Type 0 where
  pub year : ℕ
  pub month : ℕ
  pub day : ℕ

abbrev pub day_seconds : ℕ
day_seconds = 86400

-- The number of days before a date, counted from 0000-03-01, for a year that begins in March.
abbrev pub days_before : ℕ → ℕ → ℕ → ℕ
days_before y mp d = 365 * y + y / 4 - y / 100 + y / 400 + (153 * mp + 2) / 5 + (d - 1)

-- The days from 0000-03-01 to a date. A day past the month's end runs on into the next month, as
-- `time.Date` normalises it.
unfoldable pub days_from_march : Date → ℕ
days_from_march c =
    if leb c.month 2
    then days_before (c.year - 1) (c.month + 9) c.day
    else days_before c.year (c.month - 3) c.day

-- The days from 1970-01-01 to a date.
unfoldable pub days_of : Date → ℕ
unfolding days_from_march
days_of c = days_from_march c - 719468

-- The date of a year that begins in March, the months since then and the day.
unfoldable pub march_date : ℕ → ℕ → ℕ → Date
march_date y mp d =
    if ltb mp 10
    then record { year = y; month = mp + 3; day = d }
    else record { year = y + 1; month = mp - 9; day = d }

-- `t.Date()`
unfoldable pub date_of_days : ℕ → Date
unfolding march_date
date_of_days n =
    let z = n + 719468 in
    let era = z / 146097 in
    let doe = z % 146097 in
    let yoe = (doe - doe / 1460 + doe / 36524 - doe / 146096) / 365 in
    let doy = doe - (365 * yoe + yoe / 4 - yoe / 100) in
    let mp = (5 * doy + 2) / 153 in
    let d = doy - (153 * mp + 2) / 5 + 1 in march_date (yoe + era * 400) mp d

-- The months run from 1; a month past December is one of the next year.
unfoldable pub add_months : ℕ → Date → Date
add_months k c = let m = c.month - 1 + k in record c { year = c.year + m / 12; month = m % 12 + 1 }

-- `t.AddDate(0, months, days)`
unfoldable pub add_date : ℕ → ℕ → ℕ → ℕ
unfolding days_of date_of_days add_months
add_date months days t =
    (days_of (add_months months (date_of_days (t / day_seconds))) + days) * day_seconds
    + t % day_seconds

-- `time.Date(year, month, 1, 0, 0, 0, 0, time.UTC)` of the month of a time
unfoldable pub month_start : ℕ → ℕ
unfolding days_of date_of_days
month_start t = days_of (record (date_of_days (t / day_seconds)) { day = 1 }) * day_seconds

-- `startDate.AddDate(0, 1, 0)`
unfoldable pub month_end : ℕ → ℕ
unfolding add_date month_start
month_end t = add_date 1 0 (month_start t)

-- 2024-01-31 and a month is 2024-03-02.
add_date_january : add_date 1 0 (19753 * day_seconds) ≡ 19784 * day_seconds
unfolding add_date
add_date_january = refl

-- 2025-11-15 00:01:00
month_november : month_start 1763164860 ≡ 1761955200
unfolding month_start
month_november = refl

month_november_end : month_end 1763164860 ≡ 1764547200
unfolding month_end
month_november_end = refl
