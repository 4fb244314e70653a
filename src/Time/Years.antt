-- ===== src/Time/Years.antt =====
-- src/hcore_time.c: the year that hcore_gmtime finds for a day.
use hcore.Base.{
  ℕ, zero, suc, ◌+◌, ◌-◌, ◌*◌, ◌/◌, ◌%◌, ◌<◌, ◌≤◌, ◌≡◌, refl, Bool, true, ◌&&◌, ltb, leb, ◌==◌,
  if◌then◌else◌, arith, Bool-cases, inl, inr, all_below, all_below-at,
}
use hcore.Time.{before_year, leap, guess_year, year_day}
use hcore.Time.Calendar.{is_leap_year, years_length}

-- 1 for the multiples of `k`.
multiple : ℕ → ℕ → ℕ
multiple k y = if y % k == 0 then 1 else 0

suc-div_4 : (y : ℕ) → suc y / 4 ≡ y / 4 + multiple 4 (suc y)
unfolding multiple
suc-div_4 y = ground arith

suc-div_100 : (y : ℕ) → suc y / 100 ≡ y / 100 + multiple 100 (suc y)
unfolding multiple
suc-div_100 y = ground arith

suc-div_400 : (y : ℕ) → suc y / 400 ≡ y / 400 + multiple 400 (suc y)
unfolding multiple
suc-div_400 y = ground arith

leap-multiple : (y : ℕ) → leap y + multiple 100 y ≡ multiple 4 y + multiple 400 y
unfolding leap multiple
leap-multiple y = ground arith

century-le : (y : ℕ) → y / 100 ≤ 365 * y
century-le y = omega arith

-- A year has 365 days, and one more before the March of a leap year.
pub before_year-suc : (y : ℕ) → before_year (suc y) ≡ before_year y + 365 + leap (suc y)
unfolding before_year
before_year-suc y =
    omega (arith, suc-div_4 y, suc-div_100 y, suc-div_400 y, leap-multiple (suc y), century-le y)

year_length-leap : (y : ℕ) → (if is_leap_year y then 366 else 365) ≡ 365 + leap y
unfolding leap
year_length-leap y = ground arith

-- The two counts of the days before a year differ by those up to March 1.
pub years_length-before : (y : ℕ) → years_length y + leap y ≡ before_year y + 1
unfolding years_length
years_length-before zero = unfold before_year leap in refl
years_length-before (suc y) =
    omega (arith, years_length-before y, before_year-suc y, year_length-leap y)

-- Where the guess lies at the first and at the last day of a year.
abbrev guess_ok : ℕ → Bool
guess_ok y =
    leb y (guess_year (before_year y)) && leb (guess_year (before_year (suc y) - 1)) (suc y)

guess_table : all_below 100 (λ a. all_below 101 (λ b. guess_ok (a * 101 + b))) ≡ true
unfolding all_below guess_year before_year
guess_table = refl

guess_in : (y : ℕ) → y < 10100 → guess_ok y ≡ true
guess_in y h =
    let row = all_below-at 100 _ (y / 101) guess_table (omega arith) in
    let cell = all_below-at 101 (λ b. guess_ok (y / 101 * 101 + b)) (y % 101) row (omega arith) in
    let e : y / 101 * 101 + y % 101 ≡ y = omega arith in rw e at cell

guess_mono : (a b : ℕ) → a ≤ b → guess_year a ≤ guess_year b
unfolding guess_year
guess_mono a b h = omega arith

-- The year and the day in it, from March on.
pub year_day-eq :
    (y d : ℕ)
    → y < 10100
    → before_year y ≤ d
    → d < before_year (suc y)
    → year_day d ≡ (y, d - before_year y)
unfolding year_day
year_day-eq y d small lo hi =
    let lower : y ≤ guess_year (before_year y) = ground (arith, guess_in y small) in
    let upper : guess_year (before_year (suc y) - 1) ≤ suc y = ground (arith, guess_in y small) in
    split (guess_year d) refl (omega (arith, lower, guess_mono (before_year y) d lo))
      (omega (arith, upper, guess_mono d (before_year (suc y) - 1) (omega arith)))
  where
    split : (g : ℕ) → guess_year d ≡ g → y ≤ g → g ≤ suc y → year_day d ≡ (y, d - before_year y)
    split g e a b = elim (Bool-cases (g == y)) [
      | inl at ↦ (let e' : guess_year d ≡ y = ground arith in ground (arith, e'))
      | inr at ↦
          (let e' : guess_year d ≡ suc y = ground arith in ground (arith, e', before_year-suc y))
    ]

pub find_year :
    (n d : ℕ)
    → d < before_year n
    → (y : ℕ) × (y < n) × (before_year y ≤ d) × (d < before_year (suc y))
find_year zero d h = absurd (unfold before_year in omega arith)
find_year (suc n) d h = elim (Bool-cases (ltb d (before_year n))) [
  | inl below ↦ let (y, lt, lo, hi) = find_year n d (ground arith) in (y, omega arith, lo, hi)
  | inr above ↦ (n, omega arith, ground arith, h)
]
