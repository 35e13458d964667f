-- ===== src/TimeZone/Utc.antt =====
-- UTC fields and back.
use my_cisdi_code.Prelude.{
  ==_iff, Bool-cases, arith, false, inl, inr, negsuc, pos, refl, ℕ, ℤ, ◌%◌, ◌*◌, ◌+◌, ◌-◌, ◌/◌, ◌<◌,
  ◌==◌, ◌^◌, ◌∙◌, ◌≡◌, ◌≤◌,
}
use my_cisdi_code.Date.{
  YearMonthDay, get_julian_day_number, get_year_month_day, julian_day_of_1970_01_01,
}
use my_cisdi_code.TimeZone.{
  day_number, from_utc_fields, from_utc_time, full_year, second_of_day, seconds_per_day, sub_ℕ,
  to_utc_time,
}
use my_cisdi_code.TimeZone.DayNumber.{get_julian_day_number-get_year_month_day, month_from}

-- Seconds are cut into whole minutes and hours.
time_of_day : (s : ℕ) → ((s / 60) / 60) * 3600 + (s / 60 % 60) * 60 + s % 60 ≡ s
time_of_day s = omega arith

full_year-sub : (y : ℕ) → full_year (sub_ℕ y 1900) ≡ y
full_year-sub y = ground arith

-- The time counted from the day number 0.
abbrev from_day_zero : ℤ → ℕ
from_day_zero t = day_number t * seconds_per_day + second_of_day t

-- From 1 March of the year 0 in seconds before 1970, and up to the last day whose `4 * a + 3` in
-- `getYearMonthDay` fits `int`.
abbrev pub IsInRange : ℤ → Type 0
IsInRange (pos n) = n < 534398280 * seconds_per_day
IsInRange (negsuc n) = n < 62162035200

sub-pos : (a b k : ℕ) → a ≡ b + k → sub_ℕ a b ≡ pos k
sub-pos a b k e = ground arith

sub-negsuc : (a b k : ℕ) → a + k + 1 ≡ b → sub_ℕ a b ≡ negsuc k
sub-negsuc a b k e = ground arith

positive : (n : ℕ) → (n == 0) ≡ false → 0 < n
positive n e = ground arith

second_of_day-lt : (t : ℤ) → second_of_day t < seconds_per_day
second_of_day-lt (pos n) = omega arith
second_of_day-lt (negsuc n) = elim (Bool-cases ((n + 1) % seconds_per_day == 0)) [
  | inl whole ↦ rw whole (omega arith)
  | inr part ↦ rw part (let some_left = positive ((n + 1) % seconds_per_day) part in omega arith)
]

seconds-back :
    (t : ℤ)
    → IsInRange t
    → (1721120 ≤ day_number t)
      × (sub_ℕ (from_day_zero t) (julian_day_of_1970_01_01 * seconds_per_day) ≡ t)
seconds-back (pos n) h = (omega arith, sub-pos (from_day_zero (pos n)) 210866803200 n (omega arith))
seconds-back (negsuc n) h = elim (Bool-cases ((n + 1) % seconds_per_day == 0)) [
  | inl whole ↦
      let none_left = (==_iff ((n + 1) % seconds_per_day) 0).0 whole in
      rw whole (omega arith, sub-negsuc _ 210866803200 n (omega arith))
  | inr part ↦
      let some_left = positive ((n + 1) % seconds_per_day) part in
      rw part (omega arith, sub-negsuc _ 210866803200 n (omega arith))
]

fields-back :
    (d : YearMonthDay) (j s : ℕ)
    → 1 ≤ d.month
    → get_julian_day_number d.year d.month d.day ≡ j
    → from_utc_fields
        (full_year (sub_ℕ d.year 1900))
        (d.month - 1 + 1)
        d.day
        (s / 60 / 60)
        (s / 60 % 60)
        (s % 60)
      ≡ sub_ℕ (j * seconds_per_day + s) (julian_day_of_1970_01_01 * seconds_per_day)
unfolding from_utc_fields
fields-back d j s from e =
    let m : d.month - 1 + 1 ≡ d.month = omega arith in
    rw (full_year-sub d.year, m, e, time_of_day s) refl

days_fit : (t : ℤ) → IsInRange t → 4 * (day_number t + 32044) + 3 < 2 ^ 31
days_fit (pos n) h = omega arith
days_fit (negsuc n) h = elim (Bool-cases ((n + 1) % seconds_per_day == 0)) [
  | inl whole ↦ rw whole (omega arith)
  | inr part ↦ rw part (omega arith)
]

-- `fromUtcTime` takes the fields that `toUtcTime` makes of a time back to the time, also before 1970, from
-- 1 March of the year 0 on and up to 534,398,280 days after 1970; up to there the day number and the
-- largest value that `getYearMonthDay` computes, `4 * a + 3`, stay below 2 ^ 31.
pub from_utc_time-to_utc_time :
    (t : ℤ)
    → IsInRange t
    → (from_utc_time (to_utc_time t) ≡ t) × (4 * (day_number t + 32044) + 3 < 2 ^ 31)
unfolding from_utc_time to_utc_time
from_utc_time-to_utc_time t h =
    let (late, back) = seconds-back t h in
    (
      fields-back (get_year_month_day (day_number t)) (day_number t) (second_of_day t)
            (month_from (day_number t))
            (get_julian_day_number-get_year_month_day (day_number t) late)
          ∙ back,
      days_fit t h,
    )

-- The fields that `toUtcTime` makes of a time are in the range of a clock and a calendar.
pub to_utc_time_bounds :
    (t : ℤ)
    → ((to_utc_time t).tm_sec < 60)
      × ((to_utc_time t).tm_min < 60)
      × ((to_utc_time t).tm_hour < 24)
      × ((to_utc_time t).tm_wday < 7)
unfolding to_utc_time
to_utc_time_bounds t =
    let s = second_of_day-lt t in (omega arith, omega arith, omega arith, omega arith)
