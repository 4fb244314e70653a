-- ===== src/Str/Number.antt =====
-- hcore_atosz, hcore_atoi, hcore_hextoi and hcore_parse_size of src/hcore_string.c.
-- A text with its length is the list of its bytes; `none` is HCORE_ERROR, which is -1.
pub mod Decimal
pub mod Size
use Prim.Native.Nat.{bit_or}
use hcore.Base.{
  ℕ, ◌+◌, ◌-◌, ◌*◌, ◌/◌, ◌%◌, ◌^◌, Bool, ◌&&◌, ◌||◌, Option, none, some, List, [], ◌∷◌, ◌>>=◌, ltb,
  leb, ◌==◌, if◌then◌else◌,
}

-- HCORE_MAX_INT_T_VALUE and HCORE_MAX_SSIZE_T_VALUE
abbrev pub max_int_t : ℕ
max_int_t = 2 ^ 31 - 1

abbrev pub max_ssize_t : ℕ
max_ssize_t = 2 ^ 63 - 1

-- `c` is none of '0' to '9'
abbrev pub not_digit : ℕ → Bool
not_digit c = ltb c b'0' || ltb b'9' c

-- The loop of `hcore_atosz` and of `hcore_atoi`, which differ in the two limits alone.
unfoldable pub ato_loop : (cutoff cutlim : ℕ) → List ℕ → ℕ → Option ℕ
ato_loop cutoff cutlim [] value = some value
ato_loop cutoff cutlim (c ∷ line) value =
    if not_digit c
    then none
    else if leb cutoff value && (ltb cutoff value || ltb cutlim (c - b'0'))
    then none
    else ato_loop cutoff cutlim line (value * 10 + (c - b'0'))

unfoldable pub atosz : List ℕ → Option ℕ
atosz [] = none
atosz (c ∷ line) = ato_loop (max_ssize_t / 10) (max_ssize_t % 10) (c ∷ line) 0

unfoldable pub atoi : List ℕ → Option ℕ
atoi [] = none
atoi (c ∷ line) = ato_loop (max_int_t / 10) (max_int_t % 10) (c ∷ line) 0

-- The value of a hexadecimal digit, of either case: `ch | 0x20` makes a letter lower case.
unfoldable pub hex_digit : ℕ → Option ℕ
hex_digit ch =
    let c = bit_or ch 0x20 in
    if leb b'0' ch && leb ch b'9'
    then some (ch - b'0')
    else if leb b'a' c && leb c b'f'
    then some (c - b'a' + 10)
    else none

unfoldable pub hextoi_loop : List ℕ → ℕ → Option ℕ
hextoi_loop [] value = some value
hextoi_loop (ch ∷ line) value =
    if ltb (max_int_t / 16) value
    then none
    else hex_digit ch >>= λ d. hextoi_loop line (value * 16 + d)

unfoldable pub hextoi : List ℕ → Option ℕ
hextoi [] = none
hextoi (c ∷ line) = hextoi_loop (c ∷ line) 0

-- The factor of the unit letter that a size ends in, if it ends in one.
unfoldable pub unit_scale : ℕ → Option ℕ
unit_scale unit =
    if unit == b'K' || unit == b'k'
    then some 1024
    else if unit == b'M' || unit == b'm'
    then some (1024 * 1024)
    else if unit == b'G' || unit == b'g'
    then some (1024 * 1024 * 1024)
    else none

-- `line->data[len - 1]` and the bytes before it
unfoldable pub split_last : ℕ → List ℕ → List ℕ × ℕ
split_last c [] = ([], c)
split_last c (d ∷ line) = let (front, unit) = split_last d line in (c ∷ front, unit)

-- `size > max`, else `size *= scale`
unfoldable pub scale_size : ℕ → ℕ → Option ℕ
scale_size scale size = if ltb (max_ssize_t / scale) size then none else some (size * scale)

unfoldable pub parse_size : List ℕ → Option ℕ
parse_size [] = none
parse_size (c ∷ line) =
    let (front, unit) = split_last c line in
    elim (unit_scale unit) [
      | some scale ↦ atosz front >>= scale_size scale
      | none ↦ atosz (c ∷ line) >>= scale_size 1
    ]
