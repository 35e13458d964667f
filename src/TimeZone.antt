-- ===== src/TimeZone.antt =====
-- muduo/base/TimeZone.h and TimeZone.cc: which offset holds at a time, and UTC fields of a time. The
-- reader of zone files is left out, so the tables are arguments; `gmtime_r` is not in the repository.
pub mod Lookup
pub mod DayNumber
pub mod Utc
mod Tests
use my_cisdi_code.Prelude.{
  Bool, Bytes, List, Option, Result, [], assertion_failed, false, fault, get_elem?, if◌then◌else◌,
  leb, ltb, negsuc, none, ok, out_of_bounds, pos, some, true, ℕ, ℤ, ◌%◌, ◌*◌, ◌+◌, ◌-◌, ◌/◌, ◌==◌,
  ◌>>=◌, ◌>>◌, ◌∷◌,
}
use my_cisdi_code.Date.{
  Date, get_julian_day_number, get_year_month_day, julian_day_of_1970_01_01, week_day,
  year_month_day,
}

pub record Transition : Type 0 where
  pub gmttime : ℤ
  pub localtime : ℤ
  pub localtime_idx : ℕ

pub record Localtime : Type 0 where
  pub gmt_offset : ℤ
  pub is_dst : Bool
  pub arrb_idx : ℕ

-- `TimeZone::Data`, whose `names` nothing uses.
pub record Data : Type 0 where
  pub transitions : List Transition
  pub localtimes : List Localtime
  pub abbreviation : Bytes

-- The constructor of a fixed time zone.
abbrev pub fixed_zone : ℤ → Bytes → Data
fixed_zone east_of_utc name = record {
  transitions = [];
  localtimes = record { gmt_offset = east_of_utc; is_dst = false; arrb_idx = 0 } ∷ [];
  abbreviation = name;
}

abbrev pub lt_ℤ : ℤ → ℤ → Bool
lt_ℤ (pos a) (pos b) = ltb a b
lt_ℤ (pos a) (negsuc b) = false
lt_ℤ (negsuc a) (pos b) = true
lt_ℤ (negsuc a) (negsuc b) = ltb b a

abbrev pub eq_ℤ : ℤ → ℤ → Bool
eq_ℤ (pos a) (pos b) = a == b
eq_ℤ (pos a) (negsuc b) = false
eq_ℤ (negsuc a) (pos b) = false
eq_ℤ (negsuc a) (negsuc b) = a == b

-- The time that `Comp` compares.
abbrev pub key : Bool → Transition → ℤ
key compare_gmt t = if compare_gmt then t.gmttime else t.localtime

-- `Comp::operator()` and `Comp::equal`.
abbrev pub comp : Bool → Transition → Transition → Bool
comp compare_gmt lhs rhs = lt_ℤ (key compare_gmt lhs) (key compare_gmt rhs)

abbrev pub comp_equal : Bool → Transition → Transition → Bool
comp_equal compare_gmt lhs rhs = eq_ℤ (key compare_gmt lhs) (key compare_gmt rhs)

-- What `lower_bound` finds: the transition before it, and those from it on.
unfoldable pub lower_bound :
    Bool → Transition → Option Transition → List Transition → Option Transition × List Transition
lower_bound compare_gmt sentry prev [] = (prev, [])
lower_bound compare_gmt sentry prev (t ∷ ts) =
    if comp compare_gmt t sentry then lower_bound compare_gmt sentry (some t) ts else (prev, t ∷ ts)

-- `&data.localtimes[i]`
abbrev pub localtime_at : ℕ → Data → Result Localtime
localtime_at i d = elim (get_elem? d.localtimes i) [ none ↦ fault out_of_bounds | some l ↦ ok l ]

-- `--transI`, which the assertion allows.
abbrev pub previous : Option Transition → Result Transition
previous none = fault assertion_failed
previous (some t) = ok t

abbrev pub last_of : Transition → List Transition → Transition
last_of t [] = t
last_of t (u ∷ us) = last_of u us

-- The branches after `lower_bound`; `last` is `data.transitions.back()`.
abbrev pub choose :
    Bool → Transition → Transition → Option Transition × List Transition → Data → Result Localtime
choose compare_gmt sentry last (prev, []) d = localtime_at last.localtime_idx d
choose compare_gmt sentry last (prev, t ∷ ts) d =
    if comp_equal compare_gmt sentry t
    then localtime_at t.localtime_idx d
    else do u ← previous prev; localtime_at u.localtime_idx d

abbrev pub find_in : Bool → Transition → List Transition → Data → Result Localtime
find_in compare_gmt sentry [] d = localtime_at 0 d
find_in compare_gmt sentry (t ∷ ts) d =
    if comp compare_gmt sentry t
    then localtime_at 0 d
    else choose compare_gmt sentry (last_of t ts) (lower_bound compare_gmt sentry none (t ∷ ts)) d

unfoldable pub find_localtime : Data → Transition → Bool → Result Localtime
unfolding lower_bound
find_localtime d sentry compare_gmt = find_in compare_gmt sentry d.transitions d

-- The offset that `toLocalTime` adds before it calls `gmtime_r`.
unfoldable pub offset_at : Data → ℤ → Result Localtime
unfolding find_localtime
offset_at d seconds =
    find_localtime d (record { gmttime = seconds; localtime = pos 0; localtime_idx = 0 }) true

abbrev pub seconds_per_day : ℕ
seconds_per_day = 24 * 60 * 60

-- The fields of `struct tm` that `toUtcTime` sets, without `tm_yday`.
pub record Tm : Type 0 where
  pub tm_sec : ℕ
  pub tm_min : ℕ
  pub tm_hour : ℕ
  pub tm_mday : ℕ
  pub tm_mon : ℕ
  -- Counted from 1900.
  pub tm_year : ℤ
  pub tm_wday : ℕ

abbrev pub sub_ℕ : ℕ → ℕ → ℤ
sub_ℕ a b = if leb b a then pos (a - b) else negsuc (b - a - 1)

-- `%` and `/` round to zero, so a negative remainder is a day more.
abbrev pub second_of_day : ℤ → ℕ
second_of_day (pos n) = n % seconds_per_day
second_of_day (negsuc n) =
    if (n + 1) % seconds_per_day == 0 then 0 else seconds_per_day - (n + 1) % seconds_per_day

-- `days + Date::kJulianDayOf1970_01_01`, of a time whose days fit `int`, as they do up to the bound in Utc.
abbrev pub day_number : ℤ → ℕ
day_number (pos n) = n / seconds_per_day + julian_day_of_1970_01_01
day_number (negsuc n) =
    if (n + 1) % seconds_per_day == 0
    then julian_day_of_1970_01_01 - (n + 1) / seconds_per_day
    else julian_day_of_1970_01_01 - (n + 1) / seconds_per_day - 1

-- `fillHMS` and the fields of the date.
abbrev pub fill_tm : ℕ → Date → Tm
unfolding get_year_month_day
fill_tm seconds date =
    let ymd = year_month_day date in
    record {
      tm_sec = seconds % 60;
      tm_min = (seconds / 60) % 60;
      tm_hour = (seconds / 60) / 60;
      tm_mday = ymd.day;
      tm_mon = ymd.month - 1;
      tm_year = sub_ℕ ymd.year 1900;
      tm_wday = week_day date;
    }

unfoldable pub to_utc_time : ℤ → Tm
unfolding fill_tm
to_utc_time seconds =
    fill_tm (second_of_day seconds) (record { julian_day_number = day_number seconds })

-- `days * kSecondsPerDay + secondsInDay`, where `days` counts from 1970-01-01 and may be negative.
unfoldable pub from_utc_fields : ℕ → ℕ → ℕ → ℕ → ℕ → ℕ → ℤ
from_utc_fields year month day hour minute seconds =
    let seconds_in_day = hour * 3600 + minute * 60 + seconds in
    sub_ℕ (get_julian_day_number year month day * seconds_per_day + seconds_in_day)
      (julian_day_of_1970_01_01 * seconds_per_day)

-- `tm_year + 1900`, of a year from 0 on.
abbrev pub full_year : ℤ → ℕ
full_year (pos n) = n + 1900
full_year (negsuc n) = 1900 - (n + 1)

unfoldable pub from_utc_time : Tm → ℤ
unfolding from_utc_fields
from_utc_time utc =
    from_utc_fields (full_year utc.tm_year) (utc.tm_mon + 1) utc.tm_mday utc.tm_hour utc.tm_min
      utc.tm_sec
