-- ===== src/Utils/Date.antt =====
-- src/utils/date.cpp and include/matador/utils/date.hpp: dates with their Julian day. Days, months
-- and years are not negative. `daylight` of the C library is an argument, true where it is not 0.
-- `none` is the `logic_error` of a date that is not valid.
mod JulianDate
mod Valid
mod Tests
use oos.Prelude.{
  ℕ, ◌+◌, ◌-◌, ◌*◌, ◌/◌, ◌%◌, Bool, true, false, not, ◌&&◌, ◌||◌, List, [], ◌∷◌, Option, none, some,
  get_or, ◌==◌, ltb, leb, if◌then◌else◌,
}
use oos.Utils.Calendar.{gc2jd, jd2gc}

-- the members of `date`
pub record Date : Type 0 where
  pub day : ℕ
  pub month : ℕ
  pub year : ℕ
  pub is_daylight_saving : Bool
  pub is_leap_year : Bool
  pub julian_date : ℕ

abbrev pub month_days : List ℕ
month_days = 31 ∷ 28 ∷ 31 ∷ 30 ∷ 31 ∷ 30 ∷ 31 ∷ 31 ∷ 30 ∷ 31 ∷ 30 ∷ 31 ∷ []

unfoldable pub is_leapyear : ℕ → Bool
is_leapyear year = year % 4 == 0 && not (year % 100 == 0) || year % 400 == 0

unfoldable pub is_valid_date : ℕ → ℕ → ℕ → Bool
unfolding is_leapyear
is_valid_date year month day =
    let is_leap = is_leapyear year in
    let days = get_or month_days (month - 1) 0 in
    if ltb month 1 || ltb 12 month
    then false
    else if month == 2 && (ltb (days + (if is_leap then 1 else 0)) day || ltb day 1)
    then false
    else not (ltb days day || ltb day 1)

-- The static `is_daylight_saving`. The difference that it compares may be negative: it is compared
-- by sums.
unfoldable pub is_daylight_saving : Bool → ℕ → ℕ → ℕ → Bool
is_daylight_saving daylight year month day =
    let adjustment = (14 - month) / 12 in
    let mm = month + 12 * adjustment - 2 in
    let yy = year - adjustment in
    let day_of_week = (day + (13 * mm - 1) / 5 + yy + yy / 4 - yy / 100 + yy / 400) % 7 in
    if not daylight
    then false
    else if ltb month 3 || ltb 11 month
    then false
    else if ltb 3 month && ltb month 11
    then true
    else if month == 3
    then leb (25 + day_of_week) day
    else leb day day_of_week

module _ (daylight : Bool) where
  unfoldable pub sync_date : ℕ → ℕ → ℕ → Option Date
  unfolding is_valid_date is_leapyear is_daylight_saving gc2jd
  sync_date d m y =
      if is_valid_date y m d
      then some (record {
        day = d;
        month = m;
        year = y;
        is_leap_year = is_leapyear y;
        is_daylight_saving = is_daylight_saving daylight y m d;
        julian_date = gc2jd d m y;
      })
      else none

  unfoldable pub sync_julian_date : ℕ → Date
  unfolding is_leapyear is_daylight_saving jd2gc
  sync_julian_date julian_date =
      let (d, m, y) = jd2gc julian_date in
      record {
        day = d;
        month = m;
        year = y;
        is_leap_year = is_leapyear y;
        is_daylight_saving = is_daylight_saving daylight y m d;
        julian_date = julian_date;
      }

  unfoldable pub sync_day : ℕ → Date → Option Date
  unfolding sync_date
  sync_day d x = sync_date d x.month x.year

  unfoldable pub sync_month : ℕ → Date → Option Date
  unfolding sync_date
  sync_month m x = sync_date x.day m x.year

  unfoldable pub sync_year : ℕ → Date → Option Date
  unfolding sync_date
  sync_year y x = sync_date x.day x.month y

  -- `operator+=`
  unfoldable pub add_days : Date → ℕ → Date
  unfolding sync_julian_date
  add_days x days = sync_julian_date (x.julian_date + days)

  -- `operator-=`, of no more days than the Julian day
  unfoldable pub subtract_days : Date → ℕ → Date
  unfolding sync_julian_date
  subtract_days x days = sync_julian_date (x.julian_date - days)

-- `operator==` and `operator<`
unfoldable pub equals : Date → Date → Bool
equals a b = a.julian_date == b.julian_date

unfoldable pub is_before : Date → Date → Bool
is_before a b = ltb a.julian_date b.julian_date
