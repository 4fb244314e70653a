-- ===== src/Str/Print/Bounds.antt =====
-- How many bytes hcore_sprintf_num writes: never past `last`, never in front of `temp`.
use Prim.Native.Nat.{max}
use hcore.Base.{
  ℕ, zero, suc, ◌+◌, ◌-◌, ◌/◌, ◌%◌, ◌^◌, ◌≤◌, ◌<◌, ◌≡◌, some, List, [], ◌∷◌, arith, Bool-cases,
  ◌==◌, inl, inr, length, min, length-append, length-take, take,
}
use hcore.Str.Print.{
  digits_loop, dec_digit, hex_char, upper_hex_char, temp_digits, int64_len, sprintf_num, write_num,
  pad_loop,
}
use hcore.Str.Print.Digits.{digits_loop_total}

pub length-digits_loop :
    (base : ℕ) (digit : ℕ → ℕ) (free n : ℕ) (out r : List ℕ)
    → digits_loop base digit free n out ≡ some r
    → length r ≤ free + length out
unfolding digits_loop
length-digits_loop base digit zero n out r h = ground arith
length-digits_loop base digit (suc free) n out r h =
    ground (arith, length-digits_loop base digit free (n / base) (digit (n % base) ∷ out) r)

pub length-pad_loop :
    (room len width fill : ℕ) → length (pad_loop room len width fill) ≡ min room (width - len)
unfolding pad_loop
length-pad_loop zero len width fill = omega arith
length-pad_loop (suc room) len width fill =
    ground (arith, length-pad_loop room (suc len) width fill)

-- The bytes written are the wider of the digits and the width, cut to the room.
pub length-write_num :
    (room : ℕ) (temp : List ℕ) (fill width : ℕ)
    → length (write_num room temp fill width) ≡ min room (max width (length temp))
unfolding write_num
length-write_num room temp fill width = ground (
  arith,
  length-pad_loop room (length temp) width fill,
  length-append (pad_loop room (length temp) width fill) temp,
  length-append (pad_loop room (length temp) width fill)
      (take (room - length (pad_loop room (length temp) width fill)) temp),
  length-take (room - length (pad_loop room (length temp) width fill)) temp,
)

temp_fits :
    (base : ℕ) (digit : ℕ → ℕ) (n : ℕ)
    → 0 < base
    → n < base ^ int64_len
    → (temp : List ℕ) × (digits_loop base digit int64_len n [] ≡ some temp)
      × (length temp ≤ int64_len)
temp_fits base digit n p h =
    let (temp, e) = digits_loop_total base digit 19 n [] p h in
    (temp, e, omega (arith, length-digits_loop base digit 20 n [] temp e))

-- The digits of a 64-bit number fit in `temp`, in every base that the function is called with.
pub temp_digits_total :
    (ui64 hexadecimal : ℕ)
    → ui64 < 2 ^ 64
    → (temp : List ℕ) × (temp_digits ui64 hexadecimal ≡ some temp) × (length temp ≤ int64_len)
unfolding temp_digits
temp_digits_total ui64 hexadecimal h = elim (Bool-cases (hexadecimal == 0)) [
  | inl dec ↦ rw dec (temp_fits 10 dec_digit ui64 (omega arith) (omega arith))
  | inr not_dec ↦ elim (Bool-cases (hexadecimal == 1)) [
    | inl lower ↦ rw (not_dec, lower) (temp_fits 16 hex_char ui64 (omega arith) (omega arith))
    | inr upper ↦ rw (not_dec, upper) (temp_fits 16 upper_hex_char ui64 (omega arith) (omega arith))
  ]
]

-- For every 64-bit number, base, fill byte and width, `hcore_sprintf_num` succeeds: the digits fit in
-- the 20 bytes of `temp`, and what it writes at `buf` is `max(width, digits)` bytes long if there is
-- that much room and fills the room exactly otherwise.
pub sprintf_num-length :
    (room ui64 fill hexadecimal width : ℕ)
    → ui64 < 2 ^ 64
    → (temp text : List ℕ) × (temp_digits ui64 hexadecimal ≡ some temp)
      × (length temp ≤ int64_len)
      × (sprintf_num room ui64 fill hexadecimal width ≡ some text)
      × (length text ≡ min room (max width (length temp)))
unfolding sprintf_num
sprintf_num-length room ui64 fill hexadecimal width h =
    let (temp, e, fits) = temp_digits_total ui64 hexadecimal h in
    (temp, write_num room temp fill width, e, fits, rw e, length-write_num room temp fill width)
