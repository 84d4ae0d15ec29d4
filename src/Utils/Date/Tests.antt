-- ===== src/Utils/Date/Tests.antt =====
-- Dates, and the theorems at them.
use oos.Prelude.{◌≡◌, ◌≤◌, ◌↔◌, refl, true, false, get_or, ◌-◌, arith}
use oos.Utils.Calendar.{gc2jd, jd2gc}
use oos.Utils.Date.{Date, is_valid_date, month_days, sync_date, sync_julian_date}
use oos.Utils.Date.Valid.{is_valid_date_iff}
use oos.Utils.Date.JulianDate.{sync_julian_date-sync_date}

abbrev unix_epoch : Date
unix_epoch = record {
  day = 1;
  month = 1;
  year = 1970;
  is_daylight_saving = false;
  is_leap_year = false;
  julian_date = 2440588;
}

leap_day : is_valid_date 2020 2 29 ≡ false
unfolding is_valid_date
leap_day = refl

-- The calendar itself knows the day.
leap_day_number : jd2gc (gc2jd 29 2 2020) ≡ (29, 2, 2020)
unfolding gc2jd jd2gc
leap_day_number = refl

is_valid_date_iff_example :
    (is_valid_date 2021 12 31 ≡ true)
    ↔ ((1 ≤ 12) × (12 ≤ 12) × (1 ≤ 31) × (31 ≤ get_or month_days (12 - 1) 0))
is_valid_date_iff_example = is_valid_date_iff 2021 12 31

sync_julian_date-sync_date_example : sync_julian_date true 2440588 ≡ unix_epoch
unfolding sync_date
sync_julian_date-sync_date_example =
    sync_julian_date-sync_date true 1 1 1970 unix_epoch refl (omega arith) (omega arith)
