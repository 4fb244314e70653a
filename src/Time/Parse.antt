-- ===== src/Time/Parse.antt =====
-- hcore_parse_time of src/hcore_time.c. A text with its length is the list of its bytes.
-- All numbers are nonnegative and at most INT_MAX, so that no `int` overflows.
pub mod Rounds
pub mod Items
use hcore.Base.{
  ℕ, zero, suc, ◌+◌, ◌-◌, ◌*◌, ◌/◌, ◌%◌, Bool, true, false, not, ◌&&◌, ◌||◌, Option, none, some,
  List, [], ◌∷◌, ltb, leb, ◌==◌, if◌then◌else◌, length,
}
use hcore.Str.Number.{max_int_t, not_digit}

-- The values of the local enum are 0 for `st_start`, 1 to 8 from `st_year` to `st_msec`, and 9.
abbrev pub st_month : ℕ
st_month = 2

-- the local variables that the loop keeps
pub record Progress : Type 0 where
  pub value : ℕ
  pub total : ℕ
  pub valid : Bool
  pub step : ℕ

-- What a unit sets, and the text behind it.
pub record Scaled : Type 0 where
  pub step : ℕ
  pub max : ℕ
  pub scale : ℕ
  pub rest : List ℕ

-- `if (step >= …) return HCORE_ERROR;` and the assignments of a case
abbrev pub case_of : (step next scale : ℕ) → List ℕ → Option Scaled
case_of step next scale rest =
    if leb next step
    then none
    else some (record { step = next; max = max_int_t / scale; scale = scale; rest = rest })

-- `case 'm'`: minutes, or milliseconds if an 's' follows.
unfoldable pub case_m : Bool → ℕ → List ℕ → Option Scaled
case_m is_sec step [] = case_of step 6 60 []
case_m is_sec step (d ∷ rest) =
    if d == b's'
    then (if is_sec then none else case_of step 8 1 rest)
    else case_of step 6 60 (d ∷ rest)

-- The `switch` on the byte behind a number; `none` is `return HCORE_ERROR`. A space may stand for
-- seconds, up to the minutes.
unfoldable pub case_unit : Bool → (step c : ℕ) → List ℕ → Option Scaled
case_unit is_sec step c rest =
    if c == b'y'
    then case_of step 1 (60 * 60 * 24 * 365) rest
    else if c == b'M'
    then case_of step 2 (60 * 60 * 24 * 30) rest
    else if c == b'w'
    then case_of step 3 (60 * 60 * 24 * 7) rest
    else if c == b'd'
    then case_of step 4 (60 * 60 * 24) rest
    else if c == b'h'
    then case_of step 5 (60 * 60) rest
    else if c == b'm'
    then case_m is_sec step rest
    else if c == b's'
    then case_of step 7 1 rest
    else if c == b' '
    then (if leb 7 step
        then none
        else some (record { step = 9; max = max_int_t; scale = 1; rest = rest }))
    else none

-- The scaling of the value and its addition to the total, with their two checks.
unfoldable pub add_scaled : Bool → Scaled → (value total : ℕ) → Option ℕ
add_scaled is_sec u value total =
    let in_msec = not (u.step == 8) && not is_sec in
    let scale = if in_msec then u.scale * 1000 else u.scale in
    let max = if in_msec then u.max / 1000 else u.max in
    if ltb max value
    then none
    else if ltb (max_int_t - value * scale) total
    then none
    else some (total + value * scale)

-- `while (p < last && *p == ' ') p++;`
unfoldable pub skip_spaces : List ℕ → List ℕ
skip_spaces [] = []
skip_spaces (c ∷ rest) = if c == b' ' then skip_spaces rest else c ∷ rest

-- How the loop ends: `spent` if it is still running when its fuel is gone.
pub data Loop : Type 0 where
  done : Progress → Loop
  failed : Loop
  spent : Loop

unfoldable pub parse_loop : (fuel : ℕ) → Bool → Progress → List ℕ → Loop
parse_loop zero is_sec s line = spent
parse_loop (suc fuel) is_sec s [] = done s
parse_loop (suc fuel) is_sec s (c ∷ line) =
    let read = record s { value = s.value * 10 + (c - b'0'); valid = true } in
    let digit = parse_loop fuel is_sec read line in
    if not (not_digit c)
    then (if leb (max_int_t / 10) s.value
          && (ltb (max_int_t / 10) s.value || ltb (max_int_t % 10) (c - b'0'))
        then failed
        else digit)
    else elim (case_unit is_sec s.step c line) [
      | none ↦ failed
      | some u ↦ elim (add_scaled is_sec u s.value s.total) [
        | none ↦ failed
        | some total ↦
            parse_loop fuel is_sec (record s { value = 0; total = total; step = u.step })
              (skip_spaces u.rest)
      ]
    ]

-- What follows the loop.
unfoldable pub finish : Bool → Progress → Option ℕ
finish is_sec s =
    let value = if is_sec then s.value else s.value * 1000 in
    if not s.valid
    then none
    else if not is_sec && ltb (max_int_t / 1000) s.value
    then none
    else if ltb (max_int_t - value) s.total
    then none
    else some (s.total + value)

abbrev pub begin : Bool → Progress
begin is_sec = record { value = 0; total = 0; valid = false; step = if is_sec then 0 else st_month }

-- Each round takes at least one byte.
unfoldable pub parse_time : List ℕ → Bool → Option ℕ
parse_time line is_sec = elim (parse_loop (length line + 1) is_sec (begin is_sec) line) [
  | done s ↦ finish is_sec s
  | failed ↦ none
  | spent ↦ none
]
