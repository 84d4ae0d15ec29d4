-- ===== src/Utils/Calendar/RoundTrip.antt =====
-- Days and times, converted to numbers and back.
use oos.Prelude.{ℕ, ◌+◌, ◌-◌, ◌*◌, ◌/◌, ◌%◌, ◌^◌, ◌≡◌, ◌≤◌, ◌<◌, refl, ltb, if◌then◌else◌, arith}
use oos.Utils.Calendar.{day_in_year, jd2gc, time2seconds, seconds2time}

-- A time of a day, with hours below 24 and minutes and seconds below 60, is read back from its
-- seconds.
pub seconds2time-time2seconds :
    (hour minute second : ℕ)
    → hour < 24
    → minute < 60
    → second < 60
    → seconds2time (time2seconds hour minute second) ≡ (hour, minute, second)
unfolding seconds2time time2seconds
seconds2time-time2seconds h m s hh hm hs =
    let n : (h * 3600 + 60 * m + s) % 2 ^ 32 ≡ h * 3600 + 60 * m + s = omega arith in
    let e : (h * 3600 + 60 * m + s) / 3600 ≡ h = omega arith in
    let d : (h * 3600 + 60 * m + s - 3600 * h) / 60 ≡ m = omega arith in
    let g : h * 3600 + 60 * m + s - 3600 * h - 60 * m ≡ s = omega arith in rw (n, e, d, g) refl

-- The number of a day in the year that begins with March, and the parts of it.
abbrev pub day_number : ℕ → ℕ → ℕ
day_number d m = d + (153 * m + 2) / 5

century_lem :
    (c ya n : ℕ)
    → ya < 100
    → 1 ≤ n
    → n ≤ 365
    → c < 100
    → ((146097 * c / 4 + 1461 * ya / 4 + n) * 4 - 1) / 146097 ≡ c
century_lem c ya n h g k l = omega arith

rest_lem :
    (c ya n : ℕ)
    → ya < 100
    → 1 ≤ n
    → n ≤ 365
    → c < 100
    → ((146097 * c / 4 + 1461 * ya / 4 + n) * 4 - 1 - 146097 * c) / 4 ≡ 1461 * ya / 4 + (n - 1)
rest_lem c ya n h g k l = omega arith

year_lem : (ya n : ℕ) → ya < 100 → 1 ≤ n → n ≤ 365 → ((1461 * ya / 4 + (n - 1)) * 4 + 3) / 1461 ≡ ya
year_lem ya n h g k = omega arith

day_lem :
    (ya n : ℕ)
    → ya < 100
    → 1 ≤ n
    → n ≤ 365
    → ((1461 * ya / 4 + (n - 1)) * 4 + 3 - 1461 * ya + 4) / 4 ≡ n
day_lem ya n h g k = omega arith

-- The days of a month that begins the year with March, but for 29 February.
abbrev pub length_of : ℕ → ℕ
length_of m = (153 * (m + 1) + 2) / 5 - (153 * m + 2) / 5

month_lem :
    (d m : ℕ)
    → m < 12
    → 1 ≤ d
    → d ≤ 31
    → day_number d m ≤ 365
    → d ≤ length_of m
    → (5 * day_number d m - 3) / 153 ≡ m
month_lem d m h g k l i = omega arith

day_of_month_lem : (d m : ℕ) → m < 12 → 1 ≤ d → (5 * day_number d m - 3 - 153 * m + 5) / 5 ≡ d
day_of_month_lem d m h g = omega arith

day_in_year_lem :
    (z d m : ℕ)
    → m < 12
    → 1 ≤ d
    → d ≤ 31
    → day_number d m ≤ 365
    → d ≤ length_of m
    → day_in_year z (day_number d m) ≡ (if ltb m 10 then (d, m + 3, z) else (d, m - 9, z + 1))
unfolding day_in_year
day_in_year_lem z d m h g k l i = rw (month_lem d m h g k l i, day_of_month_lem d m h g) refl

module _ (c ya d m : ℕ) (hc : c < 100) (hy : ya < 100) (h : m < 12) (g : 1 ≤ d) (k : d ≤ 31)
    (l : day_number d m ≤ 365) (i : d ≤ length_of m) where
  abbrev days : ℕ
  days = 146097 * c / 4 + 1461 * ya / 4 + day_number d m

  days_lem :
      (1721119 + d + 146097 * c % 2 ^ 32 / 4 + 1461 * ya / 4 + (153 * m + 2) / 5 + 2 ^ 32 - 1721119)
        % 2 ^ 32
      ≡ days
  days_lem = let e : 146097 * c % 2 ^ 32 ≡ 146097 * c = omega arith in rw e (omega arith)

  pub jd2gc_lem :
      jd2gc (1721119 + d + 146097 * c % 2 ^ 32 / 4 + 1461 * ya / 4 + (153 * m + 2) / 5)
      ≡ (if ltb m 10 then (d, m + 3, 100 * c + ya) else (d, m - 9, 100 * c + ya + 1))
  unfolding jd2gc
  jd2gc_lem =
      let n : ℕ = day_number d m in
      let n1 : 1 ≤ n = omega arith in
      let e : (days * 4 + 2 ^ 32 - 1) % 2 ^ 32 ≡ days * 4 - 1 = omega arith in
      rw
        (
          days_lem,
          e,
          century_lem c ya n hy n1 l hc,
          rest_lem c ya n hy n1 l hc,
          year_lem ya n hy n1 l,
          day_lem ya n hy n1 l,
        )
        (day_in_year_lem (100 * c + ya) d m h g k l i)
