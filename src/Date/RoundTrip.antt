-- ===== src/Date/RoundTrip.antt =====
-- The two conversions are inverse to each other on the dates of the Gregorian calendar.
use my_cisdi_code.Prelude.{
  Bool, arith, if◌then◌else◌, inl, inr, not, true, ℕ, ◌%◌, ◌&&◌, ◌*◌, ◌+◌, ◌-◌, ◌/◌, ◌<◌, ◌==◌,
  ◌||◌, ◌∙◌, ◌≡◌, ◌≤◌, ◌⊎◌,
}
use my_cisdi_code.Date.{YearMonthDay, get_julian_day_number, get_year_month_day}

-- A day of a year that starts with March, from 0, with the month's offset.
abbrev month_start : ℕ → ℕ
month_start m = (153 * m + 2) / 5

abbrev pub has_leap_day : ℕ → Bool
has_leap_day y = (y % 4 == 0) && (not (y % 100 == 0) || (y % 400 == 0))

abbrev pub is_short_month : ℕ → Bool
is_short_month month = (month == 4) || (month == 6) || (month == 9) || (month == 11)

-- "Thirty days hath September".
abbrev pub month_length : ℕ → ℕ → ℕ
month_length year month =
    if is_short_month month
    then 30
    else if not (month == 2)
    then 31
    else if has_leap_day year
    then 29
    else 28

pub record IsDate (year month day : ℕ) : Type 0 where
  pub month_from : 1 ≤ month
  pub month_to : month ≤ 12
  pub day_from : 1 ≤ day
  pub day_to : day ≤ month_length year month

-- The years since March 4801 BC, in centuries of four: `y = 400 * p + 100 * s + r`.
abbrev days_before : ℕ → ℕ → ℕ → ℕ
days_before p s r = 146097 * p + 36524 * s + 365 * r + r / 4

century :
    (p s r n : ℕ)
    → s ≤ 3
    → r ≤ 99
    → n ≤ 365
    → ((n ≤ 364) ⊎ (((r ≡ 99) × (s ≡ 3)) ⊎ ((r % 4 ≡ 3) × (r < 99))))
    → let a = days_before p s r + n in
      ((4 * a + 3) / 146097 ≡ 4 * p + s) × (a - (4 * p + s) * 146097 / 4 ≡ 365 * r + r / 4 + n)
century p s r n hs hr hn (inl short) = (omega arith, omega arith)
century p s r n hs hr hn (inr (inl (last, long))) = (omega arith, omega arith)
century p s r n hs hr hn (inr (inr (long, inner))) = (omega arith, omega arith)

year_of :
    (r n : ℕ)
    → r ≤ 99
    → n ≤ 365
    → ((n ≤ 364) ⊎ (r % 4 ≡ 3))
    → let c = 365 * r + r / 4 + n in ((4 * c + 3) / 1461 ≡ r) × (c - (1461 * r) / 4 ≡ n)
year_of r n hr hn (inl short) = (omega arith, omega arith)
year_of r n hr hn (inr long) = (omega arith, omega arith)

month_of :
    (m d : ℕ)
    → m ≤ 11
    → d < month_start (m + 1) - month_start m
    → (5 * (month_start m + d) + 2) / 153 ≡ m
month_of m d hm hd = omega arith

-- The parts of a date in years that start with March.
module _ (year month day : ℕ) (date : IsDate year month day) where
  abbrev pub shift : ℕ
  shift = (14 - month) / 12

  abbrev pub from_march : ℕ
  from_march = month + 12 * shift - 3

  abbrev pub march_year : ℕ
  march_year = year + 4800 - shift

  abbrev nth : ℕ
  nth = month_start from_march + (day - 1)

  in_month :
      (from_march ≤ 11)
      × (day - 1 < month_start (from_march + 1) - month_start from_march)
      × ((nth ≤ 364) ⊎ ((month ≡ 2) × (day ≡ 29)))
  in_month = (
    omega (arith, date.month_from, date.month_to),
    ground (arith, date.day_to, date.month_from, date.month_to),
    ground (arith, date.day_to, date.month_from, date.month_to),
  )

  leap_day : month ≡ 2 → day ≡ 29 → has_leap_day year ≡ true
  leap_day e f = ground (arith, date.day_to)

  day_number :
      get_julian_day_number year month day + 32044
      ≡ days_before (march_year / 400) (march_year / 100 % 4) (march_year % 100) + nth
  unfolding get_julian_day_number
  day_number = omega (arith, date.month_from, date.month_to, date.day_from)

  leap_century :
      (nth ≤ 364)
      ⊎ (((march_year % 100 ≡ 99) × (march_year / 100 % 4 ≡ 3))
          ⊎ ((march_year % 100 % 4 ≡ 3) × (march_year % 100 < 99)))
  leap_century = elim in_month.2 [
    | inl short ↦ inl short
    | inr (february, last) ↦ inr (ground (arith, leap_day february last))
  ]

recover :
    (n p s r m d : ℕ)
    → s ≤ 3
    → r ≤ 99
    → m ≤ 11
    → d < month_start (m + 1) - month_start m
    → month_start m + d ≤ 365
    → (month_start m + d ≤ 364) ⊎ (((r ≡ 99) × (s ≡ 3)) ⊎ ((r % 4 ≡ 3) × (r < 99)))
    → n + 32044 ≡ days_before p s r + (month_start m + d)
    → get_year_month_day n ≡ record {
      year = (4 * p + s) * 100 + r + m / 10 - 4800;
      month = m + 3 - 12 * (m / 10);
      day = d + 1;
    }
unfolding get_year_month_day
recover n p s r m d hs hr hm hd hn leap e =
    let (b, c) = century p s r (month_start m + d) hs hr hn leap in
    let (d', e') = year_of r (month_start m + d) hr hn (ground arith) in
    rw (e, b, c, d', e', month_of m d hm hd) (ground arith)

-- In plain numbers, the date of a day number that was made from a valid date is that date.
pub get_year_month_day-get_julian_day_number :
    (year month day : ℕ)
    → IsDate year month day
    → get_year_month_day (get_julian_day_number year month day)
      ≡ record { year = year; month = month; day = day }
get_year_month_day-get_julian_day_number year month day date =
    recover (get_julian_day_number year month day) (march_year year month day date / 400)
      (march_year year month day date / 100 % 4) (march_year year month day date % 100)
      (from_march year month day date) (day - 1) (omega arith) (omega arith)
      (in_month year month day date).0 (in_month year month day date).1
      (ground (arith, (in_month year month day date).2)) (leap_century year month day date)
      (day_number year month day date)
    ∙ same _ _ _ (omega (arith, date.month_from, date.month_to))
        (omega (arith, date.month_from, date.month_to)) (omega (arith, date.day_from))
  where
    same :
        (y m d : ℕ)
        → y ≡ year
        → m ≡ month
        → d ≡ day
        → ◌≡◌ {A = YearMonthDay}
            (record { year = y; month = m; day = d })
            (record { year = year; month = month; day = day })
    same y m d e f g = cc
