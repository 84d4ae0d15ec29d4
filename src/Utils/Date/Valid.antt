-- ===== src/Utils/Date/Valid.antt =====
-- Which dates are valid.
use oos.Prelude.{ℕ, ◌-◌, ◌≡◌, ◌≤◌, ◌↔◌, true, get_or, arith}
use oos.Utils.Date.{month_days, is_valid_date}

-- The leap year makes no difference: a date is valid by the days of its month in the table, so
-- that 29 February is valid in no year.
pub is_valid_date_iff :
    (year month day : ℕ)
    → (is_valid_date year month day ≡ true)
      ↔ ((1 ≤ month) × (month ≤ 12) × (1 ≤ day) × (day ≤ get_or month_days (month - 1) 0))
unfolding is_valid_date
is_valid_date_iff year month day = ground arith
