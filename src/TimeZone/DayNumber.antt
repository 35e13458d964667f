-- ===== src/TimeZone/DayNumber.antt =====
-- A day number is that of its civil date.
use my_cisdi_code.Prelude.{arith, ℕ, ◌*◌, ◌+◌, ◌-◌, ◌/◌, ◌≡◌, ◌≤◌}
use my_cisdi_code.Date.{get_julian_day_number, get_year_month_day}

-- A day number in centuries, years and days, as `getYearMonthDay` takes it apart.
abbrev century : ℕ → ℕ
century a = (4 * a + 3) / 146097

abbrev day_of_century : ℕ → ℕ
day_of_century a = a - (century a * 146097) / 4

abbrev year_of_century : ℕ → ℕ
year_of_century c = (4 * c + 3) / 1461

abbrev day_of_year : ℕ → ℕ
day_of_year c = c - (1461 * year_of_century c) / 4

century_part :
    (a : ℕ)
    → (day_of_century a ≤ 36524) × (day_of_century a + 36524 * century a + century a / 4 ≡ a)
century_part a = (omega arith, omega arith)

year_part :
    (c : ℕ)
    → c ≤ 36524
    → (year_of_century c ≤ 99)
      × (day_of_year c ≤ 365)
      × (day_of_year c + 365 * year_of_century c + year_of_century c / 4 ≡ c)
year_part c h = (omega arith, omega arith, omega arith)

-- Months count from March.
abbrev month_of_year : ℕ → ℕ
month_of_year e = (5 * e + 2) / 153

module _ (e : ℕ) (h : e ≤ 365) where
  abbrev month : ℕ
  month = month_of_year e + 3 - 12 * (month_of_year e / 10)

  abbrev day : ℕ
  day = e - (153 * month_of_year e + 2) / 5 + 1

  month_part :
      (1 ≤ month)
      × ((14 - month) / 12 ≡ month_of_year e / 10)
      × (month + 12 * (month_of_year e / 10) - 3 ≡ month_of_year e)
      × (day + (153 * month_of_year e + 2) / 5 ≡ e + 1)
  month_part = (omega arith, omega arith, omega arith, omega arith)

years_part :
    (b d : ℕ)
    → d ≤ 99
    → let y = b * 100 + d in
      (y * 365 + y / 4 - y / 100 + y / 400 ≡ 36524 * b + b / 4 + 365 * d + d / 4)
      × (y / 100 ≤ y / 4)
years_part b d h = (omega arith, omega arith)

-- The parts put together, with all divisions of the parts themselves done.
assemble :
    (j b d e m : ℕ)
    → d ≤ 99
    → (14 - (m + 3 - 12 * (m / 10))) / 12 ≡ m / 10
    → m + 3 - 12 * (m / 10) + 12 * (m / 10) - 3 ≡ m
    → e - (153 * m + 2) / 5 + 1 + (153 * m + 2) / 5 ≡ e + 1
    → 4800 ≤ b * 100 + d + m / 10
    → e + 365 * d + d / 4 + 36524 * b + b / 4 ≡ j + 32044
    → get_julian_day_number
        (b * 100 + d + m / 10 - 4800)
        (m + 3 - 12 * (m / 10))
        (e - (153 * m + 2) / 5 + 1)
      ≡ j
unfolding get_julian_day_number
assemble j b d e m d_le shift back days late total =
    let (years, less) = years_part b d d_le in
    let year : b * 100 + d + m / 10 - 4800 + 4800 - m / 10 ≡ b * 100 + d = omega arith in
    rw (shift, back, year) (omega arith)

-- The day number of the fields is what they were computed from, from 1 March of the year 0 on.
module _ (j : ℕ) (h : 1721120 ≤ j) where
  abbrev in_century : ℕ
  in_century = day_of_century (j + 32044)

  abbrev in_year : ℕ
  in_year = day_of_year in_century

  year_field :
      4800 ≤ century (j + 32044) * 100 + year_of_century in_century + month_of_year in_year / 10
  year_field = omega arith

pub get_julian_day_number-get_year_month_day :
    (j : ℕ)
    → 1721120 ≤ j
    → let d = get_year_month_day j in get_julian_day_number d.year d.month d.day ≡ j
unfolding get_julian_day_number get_year_month_day
get_julian_day_number-get_year_month_day j h =
    let (c_le, c_eq) = century_part (j + 32044) in
    let (y_le, e_le, e_eq) = year_part (in_century j h) c_le in
    let (_, shift, back, days) = month_part (in_year j h) e_le in
    let late = year_field j h in
    assemble j (century (j + 32044)) (year_of_century (in_century j h)) (in_year j h)
      (month_of_year (in_year j h)) y_le shift back days late (omega arith)

pub month_from : (j : ℕ) → 1 ≤ (get_year_month_day j).month
unfolding get_year_month_day
month_from j =
    let (c_le, _) = century_part (j + 32044) in
    let (_, e_le, _) = year_part (day_of_century (j + 32044)) c_le in
    (month_part (day_of_year (day_of_century (j + 32044))) e_le).0
