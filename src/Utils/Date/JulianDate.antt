-- ===== src/Utils/Date/JulianDate.antt =====
-- A date, taken from the Julian day of a date.
use oos.Prelude.{
  ℕ, ◌+◌, ◌-◌, ◌*◌, ◌/◌, ◌≡◌, ◌≤◌, ◌<◌, ◌∙◌, refl, ap, Bool, true, false, ◌&&◌, get_or, some, ltb,
  leb, if◌then◌else◌, arith, Bool-cases, all_below_lem, inl, inr,
}
use oos.Utils.Calendar.{gc2jd, jd2gc, shift_month, julian_day}
use oos.Utils.Calendar.RoundTrip.{jd2gc_lem, length_of, day_number}
use oos.Utils.Date.{
  Date, month_days, is_leapyear, is_valid_date, is_daylight_saving, sync_date, sync_julian_date,
}
use oos.Utils.Date.Valid.{is_valid_date_iff}

abbrev shifted : ℕ → ℕ
shifted i = if ltb i 2 then i + 10 else i - 2

-- The table of the class and the lengths that the calendar counts with.
abbrev fits : ℕ → Bool
fits i =
    leb (get_or month_days i 0) (length_of (shifted i))
    && leb (day_number (get_or month_days i 0) (shifted i)) 365
    && leb (get_or month_days i 0) 31

fits_lem :
    (i d : ℕ)
    → i < 12
    → d ≤ get_or month_days i 0
    → (d ≤ length_of (shifted i)) × (day_number d (shifted i) ≤ 365) × (d ≤ 31)
fits_lem i d h g =
    let f : fits i ≡ true = all_below_lem fits 12 i refl h in
    let a : get_or month_days i 0 ≤ length_of (shifted i) = ground (arith, f) in
    let b : day_number (get_or month_days i 0) (shifted i) ≤ 365 = ground (arith, f) in
    let c : get_or month_days i 0 ≤ 31 = ground (arith, f) in
    (omega (arith, a, g), omega (arith, b, g), omega (arith, c, g))

julian_lem :
    (d m z : ℕ)
    → z < 10000
    → m < 12
    → 1 ≤ d
    → d ≤ 31
    → day_number d m ≤ 365
    → d ≤ length_of m
    → jd2gc (julian_day d m z) ≡ (if ltb m 10 then (d, m + 3, z) else (d, m - 9, z + 1))
unfolding julian_day
julian_lem d m z h g k l i j =
    let e : 100 * (z / 100) + (z - 100 * (z / 100)) ≡ z = omega arith in
    jd2gc_lem (z / 100) (z - 100 * (z / 100)) d m (omega arith) (omega arith) g k l i j
    ∙ ap (λ (y : ℕ). if ltb m 10 then (d, m + 3, y) else (d, m - 9, y + 1)) e

-- A day of the calendar but 29 February is the day of its number.
pub jd2gc-gc2jd :
    (d m y : ℕ)
    → 1 ≤ m
    → m ≤ 12
    → 1 ≤ d
    → d ≤ get_or month_days (m - 1) 0
    → 100 ≤ y
    → y < 10000
    → jd2gc (gc2jd d m y) ≡ (d, m, y)
unfolding gc2jd shift_month
jd2gc-gc2jd d m y h g k l i j =
    let y' : leb y 99 ≡ false = ground (arith, i) in
    let (a, b, c) = fits_lem (m - 1) d (omega arith) l in
    elim (Bool-cases (ltb 2 m)) [
      | inl e ↦
          let s : shifted (m - 1) ≡ m - 3 = ground (arith, e) in
          let m10 : ltb (m - 3) 10 ≡ true = ground (arith, e, g) in
          let m3 : m - 3 + 3 ≡ m = ground (arith, e) in
          rw (y', e)
            (julian_lem d (m - 3) y j (omega arith) k c (rw⁻¹ s b) (rw⁻¹ s a) ∙ rw (m10, m3) refl)
      | inr e ↦
          let s : shifted (m - 1) ≡ m + 9 = ground (arith, e, h) in
          let m10 : ltb (m + 9) 10 ≡ false = ground (arith, h) in
          let m9 : m + 9 - 9 ≡ m = omega arith in
          let z : y - 1 + 1 ≡ y = omega arith in
          rw (y', e)
            (julian_lem d (m + 9) (y - 1) (omega arith) (ground (arith, e)) k c (rw⁻¹ s b)
                (rw⁻¹ s a)
              ∙ rw (m10, m9, z) refl)
    ]

-- What `sync_date` makes of a valid date.
abbrev made : Bool → ℕ → ℕ → ℕ → Date
made daylight d m y = record {
  day = d;
  month = m;
  year = y;
  is_leap_year = is_leapyear y;
  is_daylight_saving = is_daylight_saving daylight y m d;
  julian_date = gc2jd d m y;
}

made_lem :
    (daylight : Bool) (d m y : ℕ)
    → is_valid_date y m d ≡ true
    → 100 ≤ y
    → y < 10000
    → sync_julian_date daylight (gc2jd d m y) ≡ made daylight d m y
unfolding sync_julian_date
made_lem daylight d m y e g k =
    let (m1, m2, d1, d2) = (is_valid_date_iff y m d).0 e in
    rw (jd2gc-gc2jd d m y m1 m2 d1 d2 g k) refl

-- A date from 100 to 9999 that is set by its day, month and year is the date of its Julian day.
pub sync_julian_date-sync_date :
    (daylight : Bool) (d m y : ℕ) (x : Date)
    → sync_date daylight d m y ≡ some x
    → 100 ≤ y
    → y < 10000
    → sync_julian_date daylight x.julian_date ≡ x
unfolding sync_date sync_julian_date
sync_julian_date-sync_date daylight d m y x h g k = elim (Bool-cases (is_valid_date y m d)) [
  | inl e ↦
      let v : made daylight d m y ≡ x = ground (arith, e, h) in
      rw (← v) (made_lem daylight d m y e g k)
  | inr e ↦ absurd (ground (arith, e, h))
]
