-- ===== src/TimeZone/Tests.antt =====
-- Time zones at concrete inputs.
use my_cisdi_code.Prelude.{
  [], arith, codes, false, negsuc, none, ok, pos, refl, true, ℤ, ◌*◌, ◌+◌, ◌<◌, ◌^◌, ◌∷◌, ◌≡◌,
}
use my_cisdi_code.Date.{get_year_month_day}
use my_cisdi_code.TimeZone.{
  Data, Transition, day_number, find_localtime, from_utc_time, offset_at, to_utc_time,
}
use my_cisdi_code.TimeZone.Lookup.{find_localtime_lem, latest, localtime_of}
use my_cisdi_code.TimeZone.Utc.{from_utc_time-to_utc_time}

-- Winter time, and summer time from 1000 to 2000.
abbrev two_seasons : Data
two_seasons = record {
  transitions =
      record { gmttime = pos 1000; localtime = pos 8200; localtime_idx = 1 }
      ∷ record { gmttime = pos 2000; localtime = pos 5600; localtime_idx = 0 }
      ∷ [];
  localtimes =
      record { gmt_offset = pos 3600; is_dst = false; arrb_idx = 0 }
      ∷ record { gmt_offset = pos 7200; is_dst = true; arrb_idx = 4 }
      ∷ [];
  abbreviation = codes "CET CEST";
}

abbrev at : ℤ → Transition
at seconds = record { gmttime = seconds; localtime = pos 0; localtime_idx = 0 }

find_localtime_lem_example :
    find_localtime two_seasons (at (pos 1500)) true
    ≡ localtime_of (latest true (at (pos 1500)) none two_seasons.transitions) two_seasons
find_localtime_lem_example =
    find_localtime_lem two_seasons (at (pos 1500)) true ((refl, tt), (tt, tt))

in_summer :
    offset_at two_seasons (pos 1999)
    ≡ ok (record { gmt_offset = pos 7200; is_dst = true; arrb_idx = 4 })
unfolding offset_at
in_summer = refl

before_all :
    offset_at two_seasons (negsuc 5)
    ≡ ok (record { gmt_offset = pos 3600; is_dst = false; arrb_idx = 0 })
unfolding offset_at
before_all = refl

from_utc_time-to_utc_time_example :
    (from_utc_time (to_utc_time (negsuc 0)) ≡ negsuc 0)
    × (4 * (day_number (negsuc 0) + 32044) + 3 < 2 ^ 31)
from_utc_time-to_utc_time_example = from_utc_time-to_utc_time (negsuc 0) (omega arith)

-- The second before 1970.
new_year_eve : to_utc_time (negsuc 0) ≡ record {
  tm_sec = 59;
  tm_min = 59;
  tm_hour = 23;
  tm_mday = 31;
  tm_mon = 11;
  tm_year = pos 69;
  tm_wday = 3;
}
unfolding to_utc_time get_year_month_day
new_year_eve = refl
