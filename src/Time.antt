-- ===== src/Time.antt =====
-- src/hcore_time.c: hcore_gmtime, the calendar date of a number of seconds.
-- `hcore_uint_t` has 32 bits. The numbers of gmtime stay far below that once the days are bounded.
pub mod Calendar
pub mod Civil
pub mod Years
pub mod Parse
mod Tests
use hcore.Base.{
  ℕ, ◌+◌, ◌-◌, ◌*◌, ◌/◌, ◌%◌, ◌^◌, Bool, ◌&&◌, ◌||◌, not, ltb, leb, ◌==◌, if◌then◌else◌, ℤ, pos,
  negsuc,
}

-- hcore_tm_t, the fields that gmtime sets
pub record Tm : Type 0 where
  pub sec : ℕ
  pub min : ℕ
  pub hour : ℕ
  pub mday : ℕ
  pub mon : ℕ
  pub year : ℕ
  pub wday : ℕ

-- Days and seconds, `if (s < 0) s = 0`, and cut to December 31, 9999, 23:59:59.
abbrev pub max_days : ℕ
max_days = 2932896

abbrev pub nonneg : ℤ → ℕ
nonneg (pos s) = s
nonneg (negsuc _) = 0

unfoldable pub clock : ℤ → ℕ × ℕ
clock s =
    let days = nonneg s / 86400 % 2 ^ 32 in
    if ltb max_days days then (max_days, 86399) else (days, nonneg s % 86400)

-- "days since March 1, 1 BC"
unfoldable pub march_days : ℕ → ℕ
march_days days = (days + 2 ^ 32 - (31 + 28) + 719527) % 2 ^ 32

-- `365 * year + year / 4 - year / 100 + year / 400`
unfoldable pub before_year : ℕ → ℕ
before_year year = 365 * year + year / 4 - year / 100 + year / 400

unfoldable pub leap : ℕ → ℕ
leap year = if (year % 4 == 0) && (not (year % 100 == 0) || (year % 400 == 0)) then 1 else 0

-- The first guess at the year; then the year with the day in it, both from March on. The branch is
-- that for a negative `yday`.
unfoldable pub guess_year : ℕ → ℕ
guess_year days = (days + 2) * 400 / (365 * 400 + 100 - 4 + 1)

unfoldable pub year_day : ℕ → ℕ × ℕ
year_day days =
    let year = guess_year days in
    if ltb days (before_year year)
    then (year - 1, 365 + leap year + days - before_year year)
    else (year, days - before_year year)

unfoldable pub month_of : ℕ → ℕ
month_of yday = (yday + 31) * 10 / 306

unfoldable pub mday_of : ℕ → ℕ
mday_of yday = yday - (367 * month_of yday / 12 - 30) + 1

-- year, month and day of the month
unfoldable pub civil : ℕ → ℕ × ℕ × ℕ
civil days =
    let (year, yday) = year_day days in
    if leb 306 yday
    then (year + 1, month_of yday - 10, mday_of yday)
    else (year, month_of yday + 2, mday_of yday)

unfoldable pub gmtime : ℤ → Tm
gmtime s =
    let (days, sec) = clock s in
    let (year, mon, mday) = civil (march_days days) in
    record {
      sec = sec % 3600 % 60;
      min = sec % 3600 / 60;
      hour = sec / 3600;
      mday = mday;
      mon = mon;
      year = year;
      wday = (4 + days) % 7;
    }
