-- ===== src/Date/Tests.antt =====
-- Dates at concrete inputs.
use my_cisdi_code.Prelude.{arith, refl, ◌*◌, ◌+◌, ◌-◌, ◌/◌, ◌<◌, ◌^◌, ◌≡◌, ◌≤◌}
use my_cisdi_code.Date.{get_julian_day_number, get_year_month_day, julian_day_of_1970_01_01}
use my_cisdi_code.Date.RoundTrip.{IsDate, from_march, march_year}
use my_cisdi_code.Date.Bounds.{NoBorrow, int_round_trip}
use my_cisdi_code.Date.Calendar.{next_day, next_day-number, number_of}

epoch : get_julian_day_number 1970 1 1 ≡ julian_day_of_1970_01_01
unfolding get_julian_day_number
epoch = refl

leap_day-IsDate : IsDate 2000 2 29
leap_day-IsDate = record {
  month_from = omega arith;
  month_to = omega arith;
  day_from = omega arith;
  day_to = omega arith;
}

int_round_trip_example :
    let y = march_year 2000 2 29 leap_day-IsDate in
    let sum = 29 + (153 * from_march 2000 2 29 leap_day-IsDate + 2) / 5 + y * 365 + y / 4 in
    let j = get_julian_day_number 2000 2 29 in
    (get_year_month_day j ≡ record { year = 2000; month = 2; day = 29 })
    × (32045 ≤ sum - y / 100)
    × (sum < 2 ^ 31)
    × (4 * (j + 32044) + 3 < 2 ^ 31)
    × NoBorrow j
int_round_trip_example = int_round_trip 2000 2 29 leap_day-IsDate (omega arith)

next_day-number_example : number_of (next_day 2000 2 29) ≡ get_julian_day_number 2000 2 29 + 1
next_day-number_example = next_day-number 2000 2 29 leap_day-IsDate
