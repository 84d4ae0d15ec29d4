-- ===== src/Utils/Calendar.antt =====
-- src/utils/calendar.cpp: days as numbers, and times of a day. Days, months and years are not
-- negative; `unsigned int` has 32 bits.
pub mod RoundTrip
mod Tests
use oos.Prelude.{ℕ, ◌+◌, ◌-◌, ◌*◌, ◌/◌, ◌%◌, ◌^◌, Bool, ltb, leb, if◌then◌else◌}

-- The month from March on, and the year that it is counted to.
unfoldable pub shift_month : ℕ → ℕ → ℕ × ℕ
shift_month m y = if ltb 2 m then (m - 3, y) else (m + 9, y - 1)

unfoldable pub julian_day : ℕ → ℕ → ℕ → ℕ
julian_day d m y =
    let c = y / 100 in
    let ya = y - 100 * c in
    1721119 + d + 146097 * c % 2 ^ 32 / 4 + 1461 * ya / 4 + (153 * m + 2) / 5

unfoldable pub gc2jd : ℕ → ℕ → ℕ → ℕ
unfolding shift_month julian_day
gc2jd d m y = let (n, z) = shift_month m (if leb y 99 then y + 1900 else y) in julian_day d n z

-- `jd2gc`, which returns day, month and year
unfoldable pub day_in_year : ℕ → ℕ → ℕ × ℕ × ℕ
day_in_year z x =
    let m = (5 * x - 3) / 153 in
    let d = (5 * x - 3 - 153 * m + 5) / 5 in if ltb m 10 then (d, m + 3, z) else (d, m - 9, z + 1)

unfoldable pub jd2gc : ℕ → ℕ × ℕ × ℕ
unfolding day_in_year
jd2gc jd =
    let j = (jd + 2 ^ 32 - 1721119) % 2 ^ 32 in
    let j4 = (j * 4 + 2 ^ 32 - 1) % 2 ^ 32 in
    let y = j4 / 146097 in
    let x = (j4 - 146097 * y) / 4 in
    let k = (x * 4 + 3) / 1461 in day_in_year (100 * y + k) ((x * 4 + 3 - 1461 * k + 4) / 4)

unfoldable pub time2seconds : ℕ → ℕ → ℕ → ℕ
time2seconds hour minute second = (hour * 3600 + 60 * minute + second) % 2 ^ 32

unfoldable pub seconds2time : ℕ → ℕ × ℕ × ℕ
seconds2time seconds =
    let hour = seconds / 3600 in
    let minute = (seconds - 3600 * hour) / 60 in (hour, minute, seconds - 3600 * hour - 60 * minute)
