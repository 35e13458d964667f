-- ===== src/Date.antt =====
-- muduo/base/Date.h and Date.cc: Julian day numbers and civil dates. The divisions of the source are of
-- numbers that are not negative for any year from 0 on. Plain numbers stand for its `int`s; they are the
-- same up to the year 1,400,000 and up to the day number 536,838,867, where `int` would overflow soon.
pub mod RoundTrip
pub mod Calendar
pub mod Bounds
mod Tests
use my_cisdi_code.Prelude.{Bool, ltb, ℕ, ◌%◌, ◌*◌, ◌+◌, ◌-◌, ◌/◌}

pub record YearMonthDay : Type 0 where
  pub year : ℕ
  pub month : ℕ
  pub day : ℕ

abbrev pub days_per_week : ℕ
days_per_week = 7

unfoldable pub get_julian_day_number : ℕ → ℕ → ℕ → ℕ
get_julian_day_number year month day =
    let a = (14 - month) / 12 in
    let y = year + 4800 - a in
    let m = month + 12 * a - 3 in
    day + (153 * m + 2) / 5 + y * 365 + y / 4 - y / 100 + y / 400 - 32045

unfoldable pub get_year_month_day : ℕ → YearMonthDay
get_year_month_day julian_day_number =
    let a = julian_day_number + 32044 in
    let b = (4 * a + 3) / 146097 in
    let c = a - (b * 146097) / 4 in
    let d = (4 * c + 3) / 1461 in
    let e = c - (1461 * d) / 4 in
    let m = (5 * e + 2) / 153 in
    -- The source subtracts 4800 before it adds `m / 10`.
    record {
      year = b * 100 + d + m / 10 - 4800;
      month = m + 3 - 12 * (m / 10);
      day = e - (153 * m + 2) / 5 + 1;
    }

abbrev pub julian_day_of_1970_01_01 : ℕ
julian_day_of_1970_01_01 = 2440588

-- A date is its day number; `Date()` is 0.
pub record Date : Type 0 where
  pub julian_day_number : ℕ

abbrev pub new_date : ℕ → ℕ → ℕ → Date
unfolding get_julian_day_number
new_date year month day = record { julian_day_number = get_julian_day_number year month day }

-- From a `struct tm`, whose years count from 1900 and months from 0.
abbrev pub date_of_tm : ℕ → ℕ → ℕ → Date
unfolding get_julian_day_number
date_of_tm tm_year tm_mon tm_mday = new_date (tm_year + 1900) (tm_mon + 1) tm_mday

abbrev pub valid : Date → Bool
valid d = ltb 0 d.julian_day_number

abbrev pub year_month_day : Date → YearMonthDay
unfolding get_year_month_day
year_month_day d = get_year_month_day d.julian_day_number

abbrev pub week_day : Date → ℕ
week_day d = (d.julian_day_number + 1) % days_per_week
