-- ===== src/Date/Bounds.antt =====
-- The conversions as `int` computes them.
use my_cisdi_code.Prelude.{arith, ℕ, ◌*◌, ◌+◌, ◌-◌, ◌/◌, ◌<◌, ◌^◌, ◌≡◌, ◌≤◌}
use my_cisdi_code.Date.{get_julian_day_number, get_year_month_day}
use my_cisdi_code.Date.RoundTrip.{
  IsDate, from_march, get_year_month_day-get_julian_day_number, march_year,
}
use my_cisdi_code.Date.Calendar.{day-le}

-- Up to the year 1,400,000 the sum of the day number, the number itself and the product of the way back
-- stay within `int`, and the subtraction stays at or above 0.
conversions_bounds :
    (year month day : ℕ)
    → (date : IsDate year month day) → year ≤ 1400000
    → let y = march_year year month day date in
      let sum = day + (153 * from_march year month day date + 2) / 5 + y * 365 + y / 4 in
      (32045 ≤ sum - y / 100)
      × (sum < 2 ^ 31)
      × (4 * (get_julian_day_number year month day + 32044) + 3 < 2 ^ 31)
unfolding get_julian_day_number
conversions_bounds year month day date small = (
  omega (arith, date.month_from, date.month_to, date.day_from),
  omega (arith, date.month_from, date.month_to, day-le year month day date, small),
  omega (arith, date.month_from, date.month_to, day-le year month day date, small),
)

-- The way back subtracts nothing that is too large.
abbrev pub NoBorrow : ℕ → Type 0
NoBorrow julian_day_number =
    let a = julian_day_number + 32044 in
    let b = (4 * a + 3) / 146097 in
    let c = a - (b * 146097) / 4 in
    let d = (4 * c + 3) / 1461 in
    let e = c - (1461 * d) / 4 in
    let m = (5 * e + 2) / 153 in
    ((b * 146097) / 4 ≤ a) × ((1461 * d) / 4 ≤ c) × ((153 * m + 2) / 5 ≤ e)

no_borrow : (julian_day_number : ℕ) → NoBorrow julian_day_number
no_borrow j =
    (first (j + 32044), second (j + 32044 - ((4 * (j + 32044) + 3) / 146097 * 146097) / 4), third _)
  where
    first : (a : ℕ) → ((4 * a + 3) / 146097 * 146097) / 4 ≤ a
    first a = omega arith

    second : (c : ℕ) → (1461 * ((4 * c + 3) / 1461)) / 4 ≤ c
    second c = omega arith

    third : (e : ℕ) → (153 * ((5 * e + 2) / 153) + 2) / 5 ≤ e
    third e = omega arith

-- For a valid date up to the year 1,400,000: the date of its day number is the date itself. On the way
-- the sum of the day number, which is the largest value of `getJulianDayNumber`, and `4 * a + 3`, the
-- largest of `getYearMonthDay`, stay below 2 ^ 31, and no subtraction but that of 4800 goes below 0.
pub int_round_trip :
    (year month day : ℕ)
    → (date : IsDate year month day) → year ≤ 1400000
    → let y = march_year year month day date in
      let sum = day + (153 * from_march year month day date + 2) / 5 + y * 365 + y / 4 in
      let j = get_julian_day_number year month day in
      (get_year_month_day j ≡ record { year = year; month = month; day = day })
      × (32045 ≤ sum - y / 100)
      × (sum < 2 ^ 31)
      × (4 * (j + 32044) + 3 < 2 ^ 31)
      × NoBorrow j
int_round_trip year month day date small =
    let (low, high, back) = conversions_bounds year month day date small in
    (
      get_year_month_day-get_julian_day_number year month day date,
      low,
      high,
      back,
      no_borrow (get_julian_day_number year month day),
    )
