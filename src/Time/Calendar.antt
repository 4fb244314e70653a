-- ===== src/Time/Calendar.antt =====
-- The Gregorian calendar, by the lengths of its months and years.
use hcore.Base.{ℕ, zero, suc, ◌+◌, ◌-◌, ◌%◌, ◌≤◌, Bool, ◌&&◌, ◌||◌, not, ◌==◌, if◌then◌else◌}

abbrev pub is_leap_year : ℕ → Bool
is_leap_year y = (y % 4 == 0) && (not (y % 100 == 0) || (y % 400 == 0))

unfoldable pub month_length : Bool → ℕ → ℕ
month_length is_leap m =
    if m == 2
    then (if is_leap then 29 else 28)
    else if (m == 4) || (m == 6) || (m == 9) || (m == 11)
    then 30
    else 31

-- The days of the first `m` months of a year.
unfoldable pub months_length : Bool → ℕ → ℕ
unfolding month_length
months_length is_leap zero = 0
months_length is_leap (suc m) = months_length is_leap m + month_length is_leap (suc m)

-- The days of the years 0 to `y - 1`.
unfoldable pub years_length : ℕ → ℕ
years_length zero = 0
years_length (suc y) = years_length y + (if is_leap_year y then 366 else 365)

-- A month and a day of a year that there are.
pub record IsDate (y m d : ℕ) : Type 0 where
  pub month_from : 1 ≤ m
  pub month_to : m ≤ 12
  pub day_from : 1 ≤ d
  pub day_to : d ≤ month_length (is_leap_year y) m

-- The days from January 1 of the year 0 to a date.
unfoldable pub day_number : (y m d : ℕ) → ℕ
unfolding years_length months_length
day_number y m d = years_length y + months_length (is_leap_year y) (m - 1) + (d - 1)
