-- ===== src/Str/Print/Digits.antt =====
-- The digits in `temp`: they fit, and the readers of Number read them back.
use native.Mathlib.Nat.{pow-suc, pow-zero, div-eq_of_lt, div-lt_iff_lt-mul}
use hcore.Base.{
  ℕ, zero, suc, ◌+◌, ◌/◌, ◌%◌, ◌^◌, ◌≤◌, ◌<◌, ◌≡◌, refl, ◌≢◌, none, some, List, [], ◌∷◌, arith, All,
  Bool, true, false, Bool-cases, all_below, all_below-at, ◌==◌, inl, inr,
}
use hcore.Str.Number.{max_int_t, hex_digit, hextoi_loop}
use hcore.Str.Number.Decimal.{IsDigit, value}
use hcore.Str.Print.{digits_loop, dec_digit, hex_char, upper_hex_char}

-- A number below `base ^ free` has at most `free` digits.
pub digits_loop_total :
    (base : ℕ) (digit : ℕ → ℕ) (free n : ℕ) (out : List ℕ)
    → 0 < base
    → n < base ^ suc free
    → (r : List ℕ) × (digits_loop base digit (suc free) n out ≡ some r)
unfolding digits_loop
digits_loop_total base digit zero n out p h = (
  digit (n % base) ∷ out,
  ground (arith, div-eq_of_lt {n = n} {m = base}, pow-suc base 0, pow-zero base),
)
digits_loop_total base digit (suc free) n out p h = elim (Bool-cases (n / base == 0)) [
  | inl done ↦ (digit (n % base) ∷ out, rw done)
  | inr more ↦ rw more (digits_loop_total base digit free (n / base) _ p shorter)
]
  where
    shorter : n / base < base ^ suc free
    shorter = (div-lt_iff_lt-mul p).1 (rw (pow-suc base (suc free)) at h)

pub digits_loop-value :
    (free n : ℕ) (out r : List ℕ)
    → digits_loop 10 dec_digit free n out ≡ some r
    → value 0 r ≡ value n out
unfolding digits_loop dec_digit
digits_loop-value zero n out r h = ground arith
digits_loop-value (suc free) n out r h =
    ground (arith, digits_loop-value free (n / 10) ((n % 10 + b'0') ∷ out) r)

pub digits_loop-IsDigit :
    (free n : ℕ) (out r : List ℕ)
    → All IsDigit out
    → digits_loop 10 dec_digit free n out ≡ some r
    → All IsDigit r × (r ≢ [])
unfolding digits_loop dec_digit
digits_loop-IsDigit zero n out r d h = ground arith
digits_loop-IsDigit (suc free) n out r d h =
    ground (arith, digits_loop-IsDigit free (n / 10) ((n % 10 + b'0') ∷ out) r)

-- What a hexadecimal digit prints as is read back.
abbrev reads_as : ℕ → ℕ → Bool
reads_as c d = elim (hex_digit c) [ none ↦ false | some e ↦ e == d ]

reads_as-eq : (c d : ℕ) → reads_as c d ≡ true → hex_digit c ≡ some d
reads_as-eq c d h = ground arith

pub hex_char_read : (d : ℕ) → d < 16 → hex_digit (hex_char d) ≡ some d
hex_char_read d h = reads_as-eq _ _ (all_below-at 16 (λ d. reads_as (hex_char d) d) d table h)
  where
    table : all_below 16 (λ d. reads_as (hex_char d) d) ≡ true
    table = unfold all_below hex_digit hex_char in refl

pub upper_hex_char_read : (d : ℕ) → d < 16 → hex_digit (upper_hex_char d) ≡ some d
upper_hex_char_read d h =
    reads_as-eq _ _ (all_below-at 16 (λ d. reads_as (upper_hex_char d) d) d table h)
  where
    table : all_below 16 (λ d. reads_as (upper_hex_char d) d) ≡ true
    table = unfold all_below hex_digit upper_hex_char in refl

module _ (digit : ℕ → ℕ) (reads : (d : ℕ) → d < 16 → hex_digit (digit d) ≡ some d) where
  pub digits_loop-hextoi :
      (free n : ℕ) (out r : List ℕ)
      → n ≤ max_int_t
      → digits_loop 16 digit free n out ≡ some r
      → (hextoi_loop r 0 ≡ hextoi_loop out n) × (r ≢ [])
  unfolding digits_loop hextoi_loop
  digits_loop-hextoi zero n out r small h = ground arith
  digits_loop-hextoi (suc free) n out r small h =
      ground (arith, digits_loop-hextoi free (n / 16) (digit (n % 16) ∷ out) r, reads (n % 16))
