-- ===== src/Str/Print/RoundTrip.antt =====
-- What hcore_sprintf_num prints, the readers of Number read back.
use hcore.Base.{
  ℕ, zero, suc, ◌^◌, ◌≤◌, ◌<◌, ◌≡◌, refl, ◌≢◌, some, List, Bool, true, false, sym, ◌∙◌, [], ◌∷◌,
  ◌++◌, arith, All, length, if◌then◌else◌,
}
use hcore.Str.Number.{max_int_t, max_ssize_t, atoi, atosz, hextoi_loop, hextoi}
use hcore.Str.Number.Decimal.{IsDigit, value, atoi_iff, atosz_iff}
use hcore.Str.Print.{
  digits_loop, dec_digit, hex_char, upper_hex_char, temp_digits, int64_len, sprintf_num, write_num,
  pad_loop,
}
use hcore.Str.Print.Digits.{
  digits_loop-value, digits_loop-IsDigit, digits_loop-hextoi, hex_char_read, upper_hex_char_read,
}
use hcore.Str.Print.Bounds.{length-pad_loop, temp_digits_total}

-- Zeros in front change neither that a text is digits nor the number that it spells.
zeros-Spells :
    (room len width : ℕ) (s : List ℕ)
    → All IsDigit s
    → All IsDigit (pad_loop room len width b'0' ++ s)
      × (value 0 (pad_loop room len width b'0' ++ s) ≡ value 0 s)
unfolding pad_loop
zeros-Spells zero len width s d = (d, refl)
zeros-Spells (suc room) len width s d = ground (arith, zeros-Spells room (suc len) width s)

-- With room for the width and for the digits, every digit is written.
write_num-eq :
    (room : ℕ) (temp : List ℕ) (fill width : ℕ)
    → length temp ≤ room
    → width ≤ room
    → write_num room temp fill width ≡ pad_loop room (length temp) width fill ++ temp
unfolding write_num
write_num-eq room temp fill width h k =
    ground (arith, length-pad_loop room (length temp) width fill)

ne_nil_append : (xs ys : List ℕ) → ys ≢ [] → xs ++ ys ≢ []
ne_nil_append [] ys h = h
ne_nil_append (x ∷ xs) ys h = λ e. cc

temp_digits-dec : (n : ℕ) → temp_digits n 0 ≡ digits_loop 10 dec_digit int64_len n []
unfolding temp_digits
temp_digits-dec n = refl

temp_digits-hex : (n : ℕ) → temp_digits n 1 ≡ digits_loop 16 hex_char int64_len n []
unfolding temp_digits
temp_digits-hex n = refl

temp_digits-upper_hex : (n : ℕ) → temp_digits n 2 ≡ digits_loop 16 upper_hex_char int64_len n []
unfolding temp_digits
temp_digits-upper_hex n = refl

-- What is printed in decimal, zeros in front, spells the number.
abbrev PrintsDec : (room width n : ℕ) → Type 0
PrintsDec room width n =
    (text : List ℕ) × (sprintf_num room n b'0' 0 width ≡ some text)
    × (text ≢ [])
    × All IsDigit text
    × (value 0 text ≡ n)

printed_dec :
    (room width n : ℕ) → width ≤ room → int64_len ≤ room → n < 2 ^ 64 → PrintsDec room width n
unfolding sprintf_num
printed_dec room width n wide big fits =
    let (temp, e, short) = temp_digits_total n 0 fits in
    let loop = sym (temp_digits-dec n) ∙ e in
    let digits = digits_loop-IsDigit int64_len n [] temp tt loop in
    let zeros = zeros-Spells room (length temp) width temp digits.0 in
    (
      pad_loop room (length temp) width b'0' ++ temp,
      rw (e, write_num-eq room temp b'0' width (omega arith) wide),
      ne_nil_append _ temp digits.1,
      zeros.0,
      zeros.1 ∙ digits_loop-value int64_len n [] temp loop,
    )

-- A number up to INT_MAX, printed in decimal with a width and '0' as the padding into a buffer that
-- has room for the width and for 20 bytes, is read back by `hcore_atoi`.
pub atoi-sprintf_num :
    (room width n : ℕ)
    → width ≤ room
    → int64_len ≤ room
    → n ≤ max_int_t
    → (text : List ℕ) × (sprintf_num room n b'0' 0 width ≡ some text) × (atoi text ≡ some n)
atoi-sprintf_num room width n wide big fits =
    let (text, e, ne, d, v) = printed_dec room width n wide big (omega arith) in
    (text, e, (atoi_iff text n).1 (ne, d, sym v, fits))

-- A number up to 2^63 - 1, printed likewise, is read back by `hcore_atosz`.
pub atosz-sprintf_num :
    (room width n : ℕ)
    → width ≤ room
    → int64_len ≤ room
    → n ≤ max_ssize_t
    → (text : List ℕ) × (sprintf_num room n b'0' 0 width ≡ some text) × (atosz text ≡ some n)
atosz-sprintf_num room width n wide big fits =
    let (text, e, ne, d, v) = printed_dec room width n wide big (omega arith) in
    (text, e, (atosz_iff text n).1 (ne, d, sym v, fits))

hextoi-of_loop : (s : List ℕ) {n : ℕ} → (hextoi_loop s 0 ≡ some n) × (s ≢ []) → hextoi s ≡ some n
unfolding hextoi
hextoi-of_loop [] (e, ne) = absurd (ne refl)
hextoi-of_loop (c ∷ s) (e, ne) = e

write_num-plain :
    (room : ℕ) (temp : List ℕ) (fill : ℕ) → length temp ≤ room → write_num room temp fill 0 ≡ temp
unfolding pad_loop
write_num-plain zero temp fill h = write_num-eq zero temp fill 0 h (omega arith)
write_num-plain (suc room) temp fill h = ground (arith, write_num-eq (suc room) temp fill 0 h)

-- A number up to INT_MAX, printed in hexadecimal of either case with no width into a buffer of at
-- least 20 bytes, is read back by `hcore_hextoi`.
pub hextoi-sprintf_num :
    (room fill n : ℕ) (upper : Bool)
    → int64_len ≤ room
    → n ≤ max_int_t
    → (text : List ℕ) × (sprintf_num room n fill (if upper then 2 else 1) 0 ≡ some text)
      × (hextoi text ≡ some n)
unfolding sprintf_num hextoi_loop
hextoi-sprintf_num room fill n true big fits =
    let (temp, e, short) = temp_digits_total n 2 (omega arith) in
    let loop = sym (temp_digits-upper_hex n) ∙ e in
    (
      temp,
      rw (e, write_num-plain room temp fill (omega arith)),
      hextoi-of_loop temp
          (digits_loop-hextoi upper_hex_char upper_hex_char_read int64_len n [] temp fits loop),
    )
hextoi-sprintf_num room fill n false big fits =
    let (temp, e, short) = temp_digits_total n 1 (omega arith) in
    let loop = sym (temp_digits-hex n) ∙ e in
    (
      temp,
      rw (e, write_num-plain room temp fill (omega arith)),
      hextoi-of_loop temp (digits_loop-hextoi hex_char hex_char_read int64_len n [] temp fits loop),
    )
