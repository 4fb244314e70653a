-- ===== src/Str/Print.antt =====
-- hcore_sprintf_num and hcore_hex_dump of src/hcore_string.c.
-- A run that writes at `buf` is the list of the bytes that it writes; `room` is `last - buf`.
pub mod Digits
pub mod Bounds
pub mod RoundTrip
use hcore.Base.{
  ℕ, zero, suc, ◌+◌, ◌-◌, ◌/◌, ◌%◌, Option, none, some, List, [], ◌∷◌, ◌++◌, ◌==◌, ltb, leb,
  if◌then◌else◌, ◌>>=◌, length, get_or, take,
}

-- HCORE_INT64_LEN, the size of `temp`
abbrev pub int64_len : ℕ
int64_len = 20

-- `do { *--p = digit(n % base) } while (n /= base)` into the free bytes of `temp` in front of `out`.
-- `none` is a write in front of `temp`.
unfoldable pub digits_loop : (base : ℕ) → (ℕ → ℕ) → ℕ → ℕ → List ℕ → Option (List ℕ)
digits_loop base digit zero n out = none
digits_loop base digit (suc free) n out =
    let next = digit (n % base) ∷ out in
    let rest = digits_loop base digit free (n / base) next in
    if n / base == 0 then some next else rest

unfoldable pub dec_digit : ℕ → ℕ
dec_digit d = d + b'0'

-- the tables `hex` and `HEX`
abbrev pub hex_table : List ℕ
hex_table =
    b'0' ∷ b'1' ∷ b'2' ∷ b'3' ∷ b'4' ∷ b'5' ∷ b'6' ∷ b'7' ∷ b'8' ∷ b'9' ∷ b'a' ∷ b'b' ∷ b'c' ∷ b'd'
    ∷ b'e' ∷ b'f' ∷ []

abbrev pub upper_hex_table : List ℕ
upper_hex_table =
    b'0' ∷ b'1' ∷ b'2' ∷ b'3' ∷ b'4' ∷ b'5' ∷ b'6' ∷ b'7' ∷ b'8' ∷ b'9' ∷ b'A' ∷ b'B' ∷ b'C' ∷ b'D'
    ∷ b'E' ∷ b'F' ∷ []

unfoldable pub hex_char : ℕ → ℕ
hex_char d = get_or hex_table d 0

unfoldable pub upper_hex_char : ℕ → ℕ
upper_hex_char d = get_or upper_hex_table d 0

-- The digits in `temp`. Its two decimal loops, over 32 and over 64 bits, compute the same.
unfoldable pub temp_digits : (ui64 hexadecimal : ℕ) → Option (List ℕ)
temp_digits ui64 hexadecimal =
    if hexadecimal == 0
    then digits_loop 10 dec_digit int64_len ui64 []
    else if hexadecimal == 1
    then digits_loop 16 hex_char int64_len ui64 []
    else digits_loop 16 upper_hex_char int64_len ui64 []

-- `while (len++ < width && buf < last) *buf++ = zero;`
unfoldable pub pad_loop : (room len width fill : ℕ) → List ℕ
pad_loop zero len width fill = []
pad_loop (suc room) len width fill =
    let rest = pad_loop room (suc len) width fill in if ltb len width then fill ∷ rest else []

-- The padding, then as many digits as there is room for.
unfoldable pub write_num : (room : ℕ) (temp : List ℕ) (fill width : ℕ) → List ℕ
unfolding pad_loop
write_num room temp fill width =
    let padding = pad_loop room (length temp) width fill in
    let left = room - length padding in
    padding ++ (if ltb left (length temp) then take left temp else temp)

unfoldable pub sprintf_num : (room ui64 fill hexadecimal width : ℕ) → Option (List ℕ)
sprintf_num room ui64 fill hexadecimal width =
    temp_digits ui64 hexadecimal >>= λ temp. some (write_num room temp fill width)

unfoldable pub hex_dump : List ℕ → List ℕ
unfolding hex_char
hex_dump [] = []
hex_dump (b ∷ src) = hex_char (b / 16) ∷ hex_char (b % 16) ∷ hex_dump src
