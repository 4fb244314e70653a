-- ===== src/Time/Civil.antt =====
-- The date that hcore_gmtime computes is that of the calendar.
use hcore.Base.{
  ℕ, suc, ◌+◌, ◌-◌, ◌*◌, ◌/◌, ◌%◌, ◌<◌, ◌≤◌, ◌≡◌, refl, Bool, true, false, ◌&&◌, ltb, leb, ◌==◌,
  if◌then◌else◌, arith, Bool-cases, inl, inr, all_below, all_below-at, pos,
}
use hcore.Time.{
  max_days, clock, march_days, before_year, leap, year_day, month_of, mday_of, civil, gmtime,
}
use hcore.Time.Calendar.{is_leap_year, month_length, months_length, IsDate, day_number}
use hcore.Time.Years.{before_year-suc, years_length-before, year_day-eq, find_year}

-- The month and its day, for each day of a year from March on: the day exists if it is not the 366th
-- or the year is leap, and the days up to it are those counted.
abbrev spring_ok : ℕ → Bool → Bool
spring_ok yday l =
    let m = month_of yday + 2 in
    let d = mday_of yday in
    leb 1 m
    && leb m 12
    && leb 1 d
    && leb d (month_length l m)
    && (months_length l (m - 1) + (d - 1) == yday + 59 + (if l then 1 else 0))

abbrev winter_ok : ℕ → Bool → Bool
winter_ok yday l =
    let m = month_of yday - 10 in
    let d = mday_of yday in
    leb 1 m
    && leb m 12
    && leb 1 d
    && leb d (month_length l m)
    && (306 + months_length l (m - 1) + (d - 1) == yday)

spring_table : (l : Bool) → all_below 306 (λ yday. spring_ok yday l) ≡ true
unfolding all_below month_of mday_of months_length
spring_table true = refl
spring_table false = refl

winter_table : (l : Bool) → all_below (if l then 60 else 59) (λ k. winter_ok (306 + k) l) ≡ true
unfolding all_below month_of mday_of months_length
winter_table true = refl
winter_table false = refl

spring_at : (yday : ℕ) → (l : Bool) → yday < 306 → spring_ok yday l ≡ true
spring_at yday l h = all_below-at 306 (λ k. spring_ok k l) yday (spring_table l) h

winter_at : (k : ℕ) → (l : Bool) → k < (if l then 60 else 59) → winter_ok (306 + k) l ≡ true
winter_at k l h = all_below-at _ (λ k. winter_ok (306 + k) l) k (winter_table l) h

-- What `civil` gives for a day of the year `y`, from March on.
abbrev IsCivil : ℕ → ℕ → Type 0
IsCivil d n = let (y, m, day) = civil d in IsDate y m day × (day_number y m day ≡ n)

civil-spring :
    (d y yday : ℕ)
    → year_day d ≡ (y, yday)
    → yday < 306
    → civil d ≡ (y, month_of yday + 2, mday_of yday)
unfolding civil
civil-spring d y yday at h = ground (arith, at)

civil-winter :
    (d y yday : ℕ)
    → year_day d ≡ (y, yday)
    → 306 ≤ yday
    → civil d ≡ (y + 1, month_of yday - 10, mday_of yday)
unfolding civil
civil-winter d y yday at h = ground (arith, at)

length_of_leap : (y : ℕ) → (if is_leap_year y then 1 else 0) ≡ leap y
unfolding leap
length_of_leap y = ground arith

spring :
    (y yday : ℕ)
    → yday < 306
    → IsDate y (month_of yday + 2) (mday_of yday)
      × (day_number y (month_of yday + 2) (mday_of yday) ≡ before_year y + yday + 60)
unfolding day_number
spring y yday h =
    let ok : spring_ok yday (is_leap_year y) ≡ true = spring_at yday (is_leap_year y) h in
    (
      record {
        month_from = ground (arith, ok);
        month_to = ground (arith, ok);
        day_from = ground (arith, ok);
        day_to = ground (arith, ok);
      },
      ground (arith, ok, years_length-before y, length_of_leap y),
    )

winter :
    (y yday : ℕ)
    → 306 ≤ yday
    → yday < 365 + leap (suc y)
    → IsDate (y + 1) (month_of yday - 10) (mday_of yday)
      × (day_number (y + 1) (month_of yday - 10) (mday_of yday) ≡ before_year y + yday + 60)
unfolding day_number
winter y yday h lt =
    let few : yday - 306 < (if is_leap_year (y + 1) then 60 else 59) =
      unfold leap in ground (arith, lt) in
    let at : winter_ok (306 + (yday - 306)) (is_leap_year (y + 1)) ≡ true =
      winter_at (yday - 306) (is_leap_year (y + 1)) few in
    let same : 306 + (yday - 306) ≡ yday = omega arith in
    let ok : winter_ok yday (is_leap_year (y + 1)) ≡ true = rw same at at in
    (
      record {
        month_from = ground (arith, ok);
        month_to = ground (arith, ok);
        day_from = ground (arith, ok);
        day_to = ground (arith, ok);
      },
      ground (arith, ok, years_length-before (y + 1), before_year-suc y),
    )

civil_lem : (d : ℕ) → d < before_year 10100 → IsCivil d (d + 60)
civil_lem d h =
    let (y, lt, lo, hi) = find_year 10100 d h in
    let at = year_day-eq y d lt lo hi in
    let back : before_year y + (d - before_year y) ≡ d = omega (arith, lo) in
    elim (Bool-cases (ltb (d - before_year y) 306)) [
      | inl early ↦
          let small : d - before_year y < 306 = ground arith in
          rw (civil-spring d y _ at small) (
            let (is_date, e) = spring y (d - before_year y) small in
            (is_date, omega (arith, e, back)))
      | inr late ↦
          let large : 306 ≤ d - before_year y = ground arith in
          rw (civil-winter d y _ at large) (
            let fits : d - before_year y < 365 + leap (suc y) =
              omega (arith, hi, lo, before_year-suc y) in
            let (is_date, e) = winter y (d - before_year y) large fits in
            (is_date, omega (arith, e, back)))
    ]

-- For a number of seconds up to December 31, 9999, the date of `gmtime` exists, its day is the one
-- that many days after January 1, 1970, which is the 719528th from January 1 of the year 0, its
-- clock reads the seconds left in the day, and the day of the week counts on from a Thursday.
pub gmtime-calendar :
    (s : ℕ)
    → s / 86400 ≤ max_days
    → let t = gmtime (pos s) in
      IsDate t.year t.mon t.mday
      × (day_number t.year t.mon t.mday ≡ 719528 + s / 86400)
      × (t.hour * 3600 + t.min * 60 + t.sec ≡ s % 86400)
      × (t.hour < 24)
      × (t.min < 60)
      × (t.sec < 60)
      × (t.wday ≡ (s / 86400 + 4) % 7)
unfolding gmtime
gmtime-calendar s h =
    let at : clock (pos s) ≡ (s / 86400, s % 86400) = unfold clock in ground arith in
    let days : march_days (s / 86400) ≡ s / 86400 + 719468 =
      unfold march_days in omega (arith, h) in
    let room : s / 86400 + 719468 < before_year 10100 = unfold before_year in omega (arith, h) in
    let (is_date, e) = civil_lem (s / 86400 + 719468) room in
    rw (at, days)
      (is_date, omega (arith, e), omega arith, omega arith, omega arith, omega arith, omega arith)
