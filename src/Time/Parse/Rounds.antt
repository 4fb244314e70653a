-- ===== src/Time/Parse/Rounds.antt =====
-- The rounds of the loop of hcore_parse_time: it ends, and what digits and a unit do.
use hcore.Base.{
  ℕ, zero, suc, ◌+◌, ◌-◌, ◌*◌, ◌<◌, ◌≤◌, ◌≡◌, ◌≢◌, refl, Bool, true, false, not, Option, none, some,
  List, [], ◌∷◌, ◌++◌, ◌==◌, if◌then◌else◌, length, All, arith, Option-cases, inl, inr,
}
use hcore.Str.Number.{max_int_t}
use hcore.Str.Number.Decimal.{IsDigit, value, le-value}
use hcore.Time.Parse.{
  Progress, Scaled, case_m, case_unit, add_scaled, skip_spaces, Loop, done, failed, spent,
  parse_loop, finish, begin, parse_time,
}

length-skip_spaces : (s : List ℕ) → length (skip_spaces s) ≤ length s
unfolding skip_spaces
length-skip_spaces [] = omega arith
length-skip_spaces (c ∷ s) = ground (arith, length-skip_spaces s)

length-case_unit :
    (is_sec : Bool) (step c : ℕ) (rest : List ℕ) (u : Scaled)
    → case_unit is_sec step c rest ≡ some u
    → length u.rest ≤ length rest
unfolding case_unit case_m
length-case_unit is_sec step c [] u h = ground arith
length-case_unit is_sec step c (d ∷ rest) u h = ground arith

-- With more rounds than bytes the loop ends.
pub parse_loop-ends :
    (fuel : ℕ) (is_sec : Bool) (s : Progress) (line : List ℕ)
    → length line < fuel
    → parse_loop fuel is_sec s line ≢ spent
unfolding parse_loop
parse_loop-ends zero is_sec s line h = λ e. absurd (omega arith)
parse_loop-ends (suc fuel) is_sec s [] h = λ e. cc
parse_loop-ends (suc fuel) is_sec s (c ∷ line) h =
    elim (Option-cases (case_unit is_sec s.step c line)) [
      | inl bad ↦ ground (
        arith,
        bad,
        parse_loop-ends fuel is_sec (record s { value = s.value * 10 + (c - b'0'); valid = true })
            line,
      )
      | inr (u, good) ↦ elim (Option-cases (add_scaled is_sec u s.value s.total)) [
        | inl bad ↦ ground (
          arith,
          good,
          bad,
          parse_loop-ends fuel is_sec (record s { value = s.value * 10 + (c - b'0'); valid = true })
              line,
        )
        | inr (total, fits) ↦ ground (
          arith,
          good,
          fits,
          parse_loop-ends fuel is_sec (record s { value = s.value * 10 + (c - b'0'); valid = true })
              line,
          parse_loop-ends fuel is_sec (record s { value = 0; total = total; step = u.step })
              (skip_spaces u.rest),
          length-skip_spaces u.rest,
          length-case_unit is_sec s.step c line u good,
        )
      ]
    ]

-- No round takes the value above INT_MAX.
parse_loop-value :
    (fuel : ℕ) (is_sec : Bool) (s s' : Progress) (line : List ℕ)
    → s.value ≤ max_int_t
    → parse_loop fuel is_sec s line ≡ done s'
    → s'.value ≤ max_int_t
unfolding parse_loop
parse_loop-value zero is_sec s s' line h e = ground arith
parse_loop-value (suc fuel) is_sec s s' [] h e = ground (arith, e)
parse_loop-value (suc fuel) is_sec s s' (c ∷ line) h e =
    elim (Option-cases (case_unit is_sec s.step c line)) [
      | inl bad ↦ ground (
        arith,
        bad,
        parse_loop-value fuel is_sec (record s { value = s.value * 10 + (c - b'0'); valid = true })
            s' line,
      )
      | inr (u, good) ↦ elim (Option-cases (add_scaled is_sec u s.value s.total)) [
        | inl bad ↦ ground (
          arith,
          good,
          bad,
          parse_loop-value fuel is_sec
              (record s { value = s.value * 10 + (c - b'0'); valid = true }) s' line,
        )
        | inr (total, fits) ↦ ground (
          arith,
          good,
          fits,
          parse_loop-value fuel is_sec
              (record s { value = s.value * 10 + (c - b'0'); valid = true }) s' line,
          parse_loop-value fuel is_sec (record s { value = 0; total = total; step = u.step }) s'
              (skip_spaces u.rest),
        )
      ]
    ]

finish-bound :
    (is_sec : Bool) (s : Progress) (r : ℕ)
    → s.value ≤ max_int_t
    → finish is_sec s ≡ some r
    → r ≤ max_int_t
unfolding finish
finish-bound is_sec s r h e = ground arith

-- On every text the loop of `hcore_parse_time` ends within one round more than there are bytes, and a
-- number that the function returns is at most INT_MAX.
parse_time_total :
    (line : List ℕ) (is_sec : Bool)
    → (parse_loop (length line + 1) is_sec (begin is_sec) line ≢ spent)
      × ((r : ℕ) → parse_time line is_sec ≡ some r → r ≤ max_int_t)
unfolding parse_time
parse_time_total line is_sec = (
  parse_loop-ends (length line + 1) is_sec (begin is_sec) line (omega arith),
  λ r. ended r (parse_loop (length line + 1) is_sec (begin is_sec) line) refl,
)
  where
    ended :
        (r : ℕ) (l : Loop)
        → parse_loop (length line + 1) is_sec (begin is_sec) line ≡ l
        → (elim l as (λ _. Option ℕ) [ done s ↦ finish is_sec s | failed ↦ none | spent ↦ none ])
          ≡ some r
        → r ≤ max_int_t
    ended r (done s) e h =
        finish-bound is_sec s r
          (parse_loop-value (length line + 1) is_sec (begin is_sec) s line (omega arith) e) h
    ended r failed e h = cc
    ended r spent e h = cc

-- The units, the larger first.
pub data TimeUnit : Type 0 where
  in_years in_months in_weeks in_days in_hours in_minutes in_seconds in_milliseconds : TimeUnit

abbrev pub letters : TimeUnit → List ℕ
letters in_years = b'y' ∷ []
letters in_months = b'M' ∷ []
letters in_weeks = b'w' ∷ []
letters in_days = b'd' ∷ []
letters in_hours = b'h' ∷ []
letters in_minutes = b'm' ∷ []
letters in_seconds = b's' ∷ []
letters in_milliseconds = b'm' ∷ b's' ∷ []

-- Its place in the order of the units.
abbrev pub rank : TimeUnit → ℕ
rank in_years = 1
rank in_months = 2
rank in_weeks = 3
rank in_days = 4
rank in_hours = 5
rank in_minutes = 6
rank in_seconds = 7
rank in_milliseconds = 8

abbrev pub seconds : TimeUnit → ℕ
seconds in_years = 31536000
seconds in_months = 2592000
seconds in_weeks = 604800
seconds in_days = 86400
seconds in_hours = 3600
seconds in_minutes = 60
seconds in_seconds = 1
seconds in_milliseconds = 0

-- How many seconds, or milliseconds, one of the unit is.
abbrev pub factor : Bool → TimeUnit → ℕ
factor true u = seconds u
factor false u = if rank u == 8 then 1 else seconds u * 1000

abbrev pub not_s : List ℕ → Bool
not_s [] = true
not_s (d ∷ rest) = not (d == b's')

-- A unit behind a number ends a round that adds the number's worth to the total.
unfoldable pub UnitRound : TimeUnit → Type 0
UnitRound u =
    (is_sec : Bool) (fuel : ℕ) (s : Progress) (rest : List ℕ)
    → s.step < rank u
    → (is_sec ≡ true → rank u < 8)
    → not_s rest ≡ true
    → s.total + s.value * factor is_sec u ≤ max_int_t
    → parse_loop (suc fuel) is_sec s (letters u ++ rest)
      ≡ parse_loop fuel is_sec
          (record s { value = 0; total = s.total + s.value * factor is_sec u; step = rank u })
          (skip_spaces rest)

pub unit_round : (u : TimeUnit) → UnitRound u
unfolding UnitRound parse_loop case_unit case_m add_scaled
unit_round in_years true fuel s rest h sec tail fits = ground arith
unit_round in_years false fuel s rest h sec tail fits = ground arith
unit_round in_months true fuel s rest h sec tail fits = ground arith
unit_round in_months false fuel s rest h sec tail fits = ground arith
unit_round in_weeks true fuel s rest h sec tail fits = ground arith
unit_round in_weeks false fuel s rest h sec tail fits = ground arith
unit_round in_days true fuel s rest h sec tail fits = ground arith
unit_round in_days false fuel s rest h sec tail fits = ground arith
unit_round in_hours true fuel s rest h sec tail fits = ground arith
unit_round in_hours false fuel s rest h sec tail fits = ground arith
unit_round in_minutes true fuel s [] h sec tail fits = ground arith
unit_round in_minutes false fuel s [] h sec tail fits = ground arith
unit_round in_minutes true fuel s (d ∷ rest) h sec tail fits = ground arith
unit_round in_minutes false fuel s (d ∷ rest) h sec tail fits = ground arith
unit_round in_seconds true fuel s rest h sec tail fits = ground arith
unit_round in_seconds false fuel s rest h sec tail fits = ground arith
unit_round in_milliseconds true fuel s rest h sec tail fits = ground arith
unit_round in_milliseconds false fuel s rest h sec tail fits = ground arith

pub digits_round :
    (ds rest : List ℕ) (fuel : ℕ) (is_sec : Bool) (s : Progress)
    → All IsDigit ds
    → s.valid ≡ true
    → value s.value ds ≤ max_int_t
    → length ds ≤ fuel
    → parse_loop fuel is_sec s (ds ++ rest)
      ≡ parse_loop (fuel - length ds) is_sec (record s { value = value s.value ds }) rest
unfolding parse_loop
digits_round [] rest fuel is_sec s d v fits enough = ground arith
digits_round (c ∷ ds) rest zero is_sec s d v fits enough = absurd (omega arith)
digits_round (c ∷ ds) rest (suc fuel) is_sec s d v fits enough = ground (
  arith,
  digits_round ds rest fuel is_sec (record s { value = s.value * 10 + (c - b'0'); valid = true }),
  le-value (s.value * 10 + (c - b'0')) ds,
)
