-- ===== src/Date/Calendar.antt =====
-- Day numbers count the days of the Gregorian calendar.
use my_cisdi_code.Prelude.{
  ==_iff, Bool-cases, arith, false, if◌then◌else◌, inl, inr, ltb, ltb→lt, true, ℕ, ◌%◌, ◌+◌, ◌<◌,
  ◌==◌, ◌≡◌, ◌≢◌, ◌≤◌, ◌⊎◌,
}
use my_cisdi_code.Date.{YearMonthDay, get_julian_day_number}
use my_cisdi_code.Date.RoundTrip.{IsDate, has_leap_day, is_short_month, month_length}

-- The day after, by the calendar.
abbrev pub next_day : ℕ → ℕ → ℕ → YearMonthDay
next_day y m d =
    if ltb d (month_length y m)
    then record { year = y; month = m; day = d + 1 }
    else if ltb m 12
    then record { year = y; month = m + 1; day = 1 }
    else record { year = y + 1; month = 1; day = 1 }

abbrev pub number_of : YearMonthDay → ℕ
number_of d = get_julian_day_number d.year d.month d.day

same_month :
    (y m d : ℕ) → IsDate y m d → get_julian_day_number y m (d + 1) ≡ get_julian_day_number y m d + 1
unfolding get_julian_day_number
same_month y m d date = omega (arith, date.month_from, date.month_to, date.day_from)

leap_year : (y : ℕ) → has_leap_day y ≡ true → (y % 4 ≡ 0) × ((y % 100 ≢ 0) ⊎ (y % 400 ≡ 0))
leap_year y h = ground arith

common_year : (y : ℕ) → has_leap_day y ≡ false → (y % 4 ≢ 0) ⊎ ((y % 100 ≡ 0) × (y % 400 ≢ 0))
common_year y h = ground arith

length_cases :
    (m d : ℕ)
    → 1 ≤ m
    → m < 12
    → m ≢ 2
    → d ≡ (if is_short_month m then 30 else 31)
    → (((m ≡ 4) ⊎ ((m ≡ 6) ⊎ ((m ≡ 9) ⊎ (m ≡ 11)))) × (d ≡ 30))
      ⊎ (((m ≡ 1) ⊎ ((m ≡ 3) ⊎ ((m ≡ 5) ⊎ ((m ≡ 7) ⊎ ((m ≡ 8) ⊎ (m ≡ 10)))))) × (d ≡ 31))
length_cases m d from to h e = ground arith

march_first :
    (y d : ℕ)
    → (has_leap_day y ≡ true) × (d ≡ 29) ⊎ (has_leap_day y ≡ false) × (d ≡ 28)
    → get_julian_day_number y 3 1 ≡ get_julian_day_number y 2 d + 1
unfolding get_julian_day_number
march_first y d (inl (leap, e)) = omega (arith, leap_year y leap, e)
march_first y d (inr (common, e)) = omega (arith, common_year y common, e)

other_first :
    (y m d : ℕ)
    → 1 ≤ m
    → m < 12
    → m ≢ 2
    → d ≡ (if is_short_month m then 30 else 31)
    → get_julian_day_number y (m + 1) 1 ≡ get_julian_day_number y m d + 1
unfolding get_julian_day_number
other_first y m d from to h e = omega (arith, length_cases m d from to h e)

february_end :
    (y m d : ℕ)
    → IsDate y m d
    → m ≡ 2
    → month_length y m ≤ d
    → (has_leap_day y ≡ true) × (d ≡ 29) ⊎ (has_leap_day y ≡ false) × (d ≡ 28)
february_end y m d date e last = elim (Bool-cases (has_leap_day y)) [
  | inl leap ↦ inl (leap, ground (arith, date.day_to))
  | inr common ↦ inr (common, ground (arith, date.day_to))
]

other_end :
    (y m d : ℕ)
    → IsDate y m d
    → (m == 2) ≡ false
    → month_length y m ≤ d
    → d ≡ (if is_short_month m then 30 else 31)
other_end y m d date other last = ground (arith, date.day_to)

pub day-le : (y m d : ℕ) → IsDate y m d → d ≤ 31
day-le y m d date = ground (arith, date.day_to)

next_month :
    (y m d : ℕ)
    → IsDate y m d
    → m < 12
    → month_length y m ≤ d
    → get_julian_day_number y (m + 1) 1 ≡ get_julian_day_number y m d + 1
next_month y m d date inner last = elim (Bool-cases (m == 2)) [
  | inl february ↦
      let e = (==_iff m 2).0 february in rw e (march_first y d (february_end y m d date e last))
  | inr other ↦
      other_first y m d date.month_from inner (λ e. ground (arith, e))
        (other_end y m d date other last)
]

next_year : (y : ℕ) → get_julian_day_number (y + 1) 1 1 ≡ get_julian_day_number y 12 31 + 1
unfolding get_julian_day_number
next_year y = omega arith

at_end : (d k : ℕ) → ltb d k ≡ false → k ≤ d
at_end d k h = ground arith

december_end : (y m d : ℕ) → IsDate y m d → m ≡ 12 → month_length y m ≤ d → d ≡ 31
december_end y m d date e last = ground (arith, date.day_to)

-- The day after a valid date has the next day number, over months, leap days and years.
pub next_day-number :
    (year month day : ℕ)
    → IsDate year month day
    → number_of (next_day year month day) ≡ get_julian_day_number year month day + 1
next_day-number year month day date = elim (Bool-cases (ltb day (month_length year month))) [
  | inl inner ↦ rw inner (same_month year month day date)
  | inr last ↦ rw last (elim (Bool-cases (ltb month 12)) [
    | inl inner ↦ rw inner (
        next_month year month day date (ltb→lt month 12 inner)
          (at_end day (month_length year month) last))
    | inr december ↦
        let e : month ≡ 12 = ground (arith, date.month_to) in
        let f : day ≡ 31 =
          december_end year month day date e (at_end day (month_length year month) last) in
        rw (december, e, f) (next_year year)
  ])
]
