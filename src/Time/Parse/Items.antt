-- ===== src/Time/Parse/Items.antt =====
-- What hcore_parse_time reads: numbers with units, the larger units first.
use hcore.Base.{
  ℕ, zero, suc, ◌+◌, ◌-◌, ◌*◌, ◌<◌, ◌≤◌, ◌≡◌, refl, Bool, true, false, some, List, [], ◌∷◌, ◌++◌,
  if◌then◌else◌, length, All, arith, replicate, length-append, ◌∙◌, ap,
}
use hcore.Str.Number.{max_int_t}
use hcore.Str.Number.Decimal.{IsDigit, value}
use hcore.Time.Parse.{
  Progress, skip_spaces, Loop, done, parse_loop, finish, begin, parse_time, st_month,
}
use hcore.Time.Parse.Rounds.{
  TimeUnit, in_years, in_months, in_weeks, in_days, in_hours, in_minutes, in_seconds,
  in_milliseconds, letters, rank, factor, not_s, UnitRound, unit_round, digits_round,
}

-- A number, its unit and the spaces behind it.
pub record Item : Type 0 where
  pub digit : ℕ
  pub digits : List ℕ
  pub unit : TimeUnit
  pub spaces : ℕ

abbrev pub text : List Item → List ℕ
text [] = []
text (i ∷ items) =
    (i.digit ∷ i.digits) ++ (letters i.unit ++ (replicate i.spaces b' ' ++ text items))

-- The sum of the items, in seconds or in milliseconds.
abbrev pub amount : Bool → List Item → ℕ
amount is_sec [] = 0
amount is_sec (i ∷ items) =
    value 0 (i.digit ∷ i.digits) * factor is_sec i.unit + amount is_sec items

-- The units come in order behind `step`, and milliseconds only where they are what is counted.
abbrev pub IsItems : Bool → ℕ → List Item → Type 0
IsItems is_sec step [] = step ≤ 8
IsItems is_sec step (i ∷ items) =
    All IsDigit (i.digit ∷ i.digits)
    × (step < rank i.unit)
    × (is_sec ≡ true → rank i.unit < 8)
    × IsItems is_sec (rank i.unit) items

skip_spaces-text :
    (k : ℕ) (is_sec : Bool) (step : ℕ) (items : List Item)
    → IsItems is_sec step items
    → skip_spaces (replicate k b' ' ++ text items) ≡ text items
unfolding skip_spaces
skip_spaces-text zero is_sec step [] h = refl
skip_spaces-text zero is_sec step (i ∷ items) h = ground arith
skip_spaces-text (suc k) is_sec step items h = skip_spaces-text k is_sec step items h

not_s-text :
    (k : ℕ) (is_sec : Bool) (step : ℕ) (items : List Item)
    → IsItems is_sec step items
    → not_s (replicate k b' ' ++ text items) ≡ true
not_s-text zero is_sec step [] h = refl
not_s-text zero is_sec step (i ∷ items) h = ground arith
not_s-text (suc k) is_sec step items h = refl

le-factor : (is_sec : Bool) (u : TimeUnit) → (is_sec ≡ true → rank u < 8) → 1 ≤ factor is_sec u
le-factor true in_milliseconds h = absurd (let small : 8 < 8 = h refl in omega arith)
le-factor true in_years h = omega arith
le-factor true in_months h = omega arith
le-factor true in_weeks h = omega arith
le-factor true in_days h = omega arith
le-factor true in_hours h = omega arith
le-factor true in_minutes h = omega arith
le-factor true in_seconds h = omega arith
le-factor false in_milliseconds h = omega arith
le-factor false in_years h = omega arith
le-factor false in_months h = omega arith
le-factor false in_weeks h = omega arith
le-factor false in_days h = omega arith
le-factor false in_hours h = omega arith
le-factor false in_minutes h = omega arith
le-factor false in_seconds h = omega arith

le-times : (v k m : ℕ) → 1 ≤ k → v * k ≤ m → v ≤ m
le-times v k m pos h = grind arith

-- The state between two items.
abbrev between_items : (total : ℕ) → Bool → ℕ → Progress
between_items total valid step = record { value = 0; total = total; valid = valid; step = step }

item_round :
    (i : Item) (rest : List ℕ) (fuel : ℕ) (is_sec : Bool) (total : ℕ) (valid : Bool) (step : ℕ)
    → All IsDigit (i.digit ∷ i.digits)
    → step < rank i.unit
    → (is_sec ≡ true → rank i.unit < 8)
    → total + value 0 (i.digit ∷ i.digits) * factor is_sec i.unit ≤ max_int_t
    → not_s rest ≡ true
    → length i.digits + 1 < fuel
    → parse_loop fuel is_sec
        (between_items total valid step)
        ((i.digit ∷ i.digits) ++ (letters i.unit ++ rest))
      ≡ parse_loop
          (fuel - length i.digits - 2)
          is_sec
          (between_items
            (total + value 0 (i.digit ∷ i.digits) * factor is_sec i.unit)
            true
            (rank i.unit))
          (skip_spaces rest)
unfolding UnitRound
item_round i rest zero is_sec total valid step d h sec fits tail enough = absurd (omega arith)
item_round i rest (suc fuel) is_sec total valid step d h sec fits tail enough =
    let count : suc (fuel - length i.digits - 1) ≡ fuel - length i.digits = omega (arith, enough) in
    let left : suc fuel - length i.digits - 2 ≡ fuel - length i.digits - 1 =
      omega (arith, enough) in
    first
    ∙ digits_round i.digits (letters i.unit ++ rest) fuel is_sec read d.1 refl small (omega arith)
    ∙ (rw (← count, left)
        (unit_round i.unit is_sec (fuel - length i.digits - 1) whole rest h sec tail fits))
  where
    read : Progress
    read = record { value = 0 * 10 + (i.digit - b'0'); total = total; valid = true; step = step }

    whole : Progress
    whole = record read { value = value 0 (i.digit ∷ i.digits) }

    small : value 0 (i.digit ∷ i.digits) ≤ max_int_t
    small =
        le-times (value 0 (i.digit ∷ i.digits)) (factor is_sec i.unit) max_int_t
          (le-factor is_sec i.unit sec) (omega (arith, fits))

    first :
        parse_loop
          (suc fuel)
          is_sec
          (between_items total valid step)
          ((i.digit ∷ i.digits) ++ (letters i.unit ++ rest))
        ≡ parse_loop fuel is_sec read (i.digits ++ (letters i.unit ++ rest))
    first = unfold parse_loop in ground (arith, d.0)

length-text :
    (i : Item) (items : List Item)
    → length i.digits + 2 + length (text items) ≤ length (text (i ∷ items))
length-text i items = omega (
  arith,
  length-append i.digits (letters i.unit ++ (replicate i.spaces b' ' ++ text items)),
  length-append (letters i.unit) (replicate i.spaces b' ' ++ text items),
  length-append (replicate i.spaces b' ') (text items),
  some_letter i.unit,
)
  where
    some_letter : (u : TimeUnit) → 1 ≤ length (letters u)
    some_letter in_milliseconds = omega arith
    some_letter in_years = omega arith
    some_letter in_months = omega arith
    some_letter in_weeks = omega arith
    some_letter in_days = omega arith
    some_letter in_hours = omega arith
    some_letter in_minutes = omega arith
    some_letter in_seconds = omega arith

-- The loop ends between two items with this total.
abbrev Ends : ℕ → Loop → Type 0
Ends total r = (step : ℕ) × (r ≡ done (between_items total true step))

cons_loop :
    (i : Item) (items : List Item) (fuel : ℕ) (is_sec : Bool) (total : ℕ) (valid : Bool) (step : ℕ)
    → IsItems is_sec step (i ∷ items)
    → total + amount is_sec (i ∷ items) ≤ max_int_t
    → length (text (i ∷ items)) < fuel
    → Ends (total + value 0 (i.digit ∷ i.digits) * factor is_sec i.unit + amount is_sec items) (
        parse_loop
          (fuel - length i.digits - 2)
          is_sec
          (between_items
            (total + value 0 (i.digit ∷ i.digits) * factor is_sec i.unit)
            true
            (rank i.unit))
          (text items))
    → Ends
        (total + amount is_sec (i ∷ items))
        (parse_loop fuel is_sec (between_items total valid step) (text (i ∷ items)))
cons_loop i items fuel is_sec total valid step (d, lt, sec, rest) fits enough (last, e) =
    let room : length i.digits + 1 < fuel = omega (arith, enough, length-text i items) in
    let assoc : total + value 0 (i.digit ∷ i.digits) * factor is_sec i.unit + amount is_sec items
        ≡ total + amount is_sec (i ∷ items) =
      omega arith in
    (
      last,
      rw
          (
            item_round i (replicate i.spaces b' ' ++ text items) fuel is_sec total valid step d lt
                sec (omega (arith, fits)) (not_s-text i.spaces is_sec (rank i.unit) items rest)
                room,
            skip_spaces-text i.spaces is_sec (rank i.unit) items rest,
            e,
          )
          (ap (λ n. done (between_items n true last)) assoc),
    )

items_loop :
    (items : List Item) (fuel : ℕ) (is_sec : Bool) (total step : ℕ)
    → IsItems is_sec step items
    → total + amount is_sec items ≤ max_int_t
    → length (text items) < fuel
    → Ends
        (total + amount is_sec items)
        (parse_loop fuel is_sec (between_items total true step) (text items))
items_loop [] zero is_sec total step h fits enough = absurd (omega arith)
items_loop [] (suc fuel) is_sec total step h fits enough = (step, unfold parse_loop in ground arith)
items_loop (i ∷ items) fuel is_sec total step h fits enough =
    cons_loop i items fuel is_sec total true step h fits enough (
      items_loop items (fuel - length i.digits - 2) is_sec
        (total + value 0 (i.digit ∷ i.digits) * factor is_sec i.unit) (rank i.unit) h.3
        (omega (arith, fits)) (omega (arith, enough, length-text i items)))

of_loop :
    (line : List ℕ) (is_sec : Bool) (total : ℕ)
    → Ends (0 + total) (parse_loop (length line + 1) is_sec (begin is_sec) line)
    → total ≤ max_int_t
    → parse_time line is_sec ≡ some total
unfolding parse_time finish
of_loop line is_sec total (last, e) fits = ground (arith, e)

-- The text of one or more items whose units come in order from years to seconds, or from weeks to
-- milliseconds if those are counted, each a decimal number with its unit and any spaces behind it, is
-- read as the sum of the items, if the sum is at most INT_MAX.
pub parse_time-text :
    (is_sec : Bool) (i : Item) (items : List Item)
    → IsItems is_sec (if is_sec then 0 else st_month) (i ∷ items)
    → amount is_sec (i ∷ items) ≤ max_int_t
    → parse_time (text (i ∷ items)) is_sec ≡ some (amount is_sec (i ∷ items))
parse_time-text is_sec i items h fits =
    let fuel = length (text (i ∷ items)) + 1 in
    of_loop (text (i ∷ items)) is_sec (amount is_sec (i ∷ items))
      (cons_loop i items fuel is_sec 0 false (if is_sec then 0 else st_month) h
        (omega (arith, fits)) (omega arith)
        (items_loop items (fuel - length i.digits - 2) is_sec
          (0 + value 0 (i.digit ∷ i.digits) * factor is_sec i.unit) (rank i.unit) h.3
          (omega (arith, fits)) (omega (arith, length-text i items))))
      fits
