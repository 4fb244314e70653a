-- ===== src/Time/Tests.antt =====
-- Runs of the functions of src/hcore_time.c, and their theorems at these inputs.
use hcore.Base.{ℕ, ◌+◌, ◌*◌, ◌/◌, ◌%◌, ◌<◌, ◌≡◌, refl, arith, false, some, [], ◌∷◌, pos}
use hcore.Time.{Tm, max_days, gmtime}
use hcore.Time.Calendar.{IsDate, day_number}
use hcore.Time.Civil.{gmtime-calendar}
use hcore.Time.Parse.{parse_time}
use hcore.Time.Parse.Rounds.{in_hours, in_minutes}
use hcore.Time.Parse.Items.{Item, text, parse_time-text}

-- February 29, 2024, 12:34:56, a Thursday
abbrev leap_second : ℕ
leap_second = 1709210096

leap_tm : Tm
leap_tm = record { sec = 56; min = 34; hour = 12; mday = 29; mon = 2; year = 2024; wday = 4 }

gmtime_run : gmtime (pos leap_second) ≡ leap_tm
unfolding gmtime leap_tm hcore.Time.leap
gmtime_run =
    unfold hcore.Time.clock hcore.Time.march_days hcore.Time.civil hcore.Time.year_day
      hcore.Time.guess_year hcore.Time.before_year hcore.Time.month_of hcore.Time.mday_of in
    refl

gmtime-calendar_example :
    let t = gmtime (pos leap_second) in
    IsDate t.year t.mon t.mday
    × (day_number t.year t.mon t.mday ≡ 719528 + leap_second / 86400)
    × (t.hour * 3600 + t.min * 60 + t.sec ≡ leap_second % 86400)
    × (t.hour < 24)
    × (t.min < 60)
    × (t.sec < 60)
    × (t.wday ≡ (leap_second / 86400 + 4) % 7)
gmtime-calendar_example = gmtime-calendar leap_second (omega arith)

-- "1h 30m", and its two items
abbrev half_past : Item
half_past = record { digit = b'1'; digits = []; unit = in_hours; spaces = 1 }

abbrev thirty : Item
thirty = record { digit = b'3'; digits = b'0' ∷ []; unit = in_minutes; spaces = 0 }

parse_time-text_example : parse_time (text (half_past ∷ thirty ∷ [])) false ≡ some 5400000
parse_time-text_example = parse_time-text false half_past (thirty ∷ []) (ground arith) (omega arith)
