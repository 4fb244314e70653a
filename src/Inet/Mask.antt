-- ===== src/Inet/Mask.antt =====
-- hcore_check_mask and hcore_parse_ip_and_mask.
use Prim.Native.Nat.{bit_and}
use hcore.Base.{
  ℕ, zero, suc, ◌+◌, ◌-◌, ◌%◌, ◌^◌, ◌≤◌, ◌≡◌, ◌≢◌, refl, Bool, true, false, ◌&&◌, Option, none,
  some, List, [], ◌∷◌, ◌++◌, ltb, ◌==◌, if◌then◌else◌, arith, All, take, drop, ◌>>=◌, take-append,
  drop-suc-append, length,
}
use hcore.Inet.{strlchr, strlchr-append, inaddr_none}
use hcore.Inet.Addr.{inet_addr, byte_of}

-- `err` and `check_value`
pub record Check : Type 0 where
  pub err : Bool
  pub check_value : ℕ

-- The body of the loop over the bits; `none` is `return HCORE_ERROR`.
unfoldable pub check_bit : ℕ → ℕ → Check → Option Check
check_bit byte bit c =
    if bit_and byte (2 ^ bit) == c.check_value
    then some c
    else if c.err
    then none
    else some (record { err = true; check_value = 0 })

-- `for (bit = …; bit == 0; bit--)`, on an unsigned `bit`, for at most `fuel` rounds.
unfoldable pub bit_loop : (fuel byte bit : ℕ) → Check → Option Check
bit_loop zero byte bit c = some c
bit_loop (suc fuel) byte bit c =
    let rest = check_bit byte bit c >>= bit_loop fuel byte ((bit + 2 ^ 32 - 1) % 2 ^ 32) in
    if bit == 0 then rest else some c

unfoldable pub byte_loop : List ℕ → Check → Option Check
byte_loop [] c = some c
byte_loop (byte ∷ bytes) c = bit_loop 9 byte 7 c >>= byte_loop bytes

-- HCORE_OK or not
unfoldable pub check_mask : List ℕ → Bool
check_mask bytes = elim (byte_loop bytes (record { err = false; check_value = 1 })) [
  | none ↦ false
  | some _ ↦ true
]

byte_loop-some : (bytes : List ℕ) (c : Check) → byte_loop bytes c ≡ some c
unfolding byte_loop bit_loop
byte_loop-some [] c = refl
byte_loop-some (byte ∷ bytes) c = byte_loop-some bytes c

-- `hcore_check_mask` accepts every sequence of bytes: the condition of its inner loop is false at
-- the start, so no bit is looked at.
pub check_mask_accepts_all : (bytes : List ℕ) → check_mask bytes ≡ true
unfolding check_mask
check_mask_accepts_all bytes = rw (byte_loop-some bytes _, check_mask)

-- HCORE_INET_ADDRSTRLEN
abbrev pub inet_addrstrlen : ℕ
inet_addrstrlen = 15

-- "255.255.255.255"
abbrev pub all_ones : List ℕ
all_ones =
    b'2' ∷ b'5' ∷ b'5' ∷ b'.' ∷ b'2' ∷ b'5' ∷ b'5' ∷ b'.' ∷ b'2' ∷ b'5' ∷ b'5' ∷ b'.' ∷ b'2' ∷ b'5'
    ∷ b'5' ∷ []

-- hcore_memcmp over two texts of one length
abbrev pub bytes_eq : List ℕ → List ℕ → Bool
bytes_eq [] [] = true
bytes_eq [] (d ∷ t) = false
bytes_eq (c ∷ s) [] = false
bytes_eq (c ∷ s) (d ∷ t) = (c == d) && bytes_eq s t

-- The four bytes of a number in memory, least significant first.
abbrev pub memory : ℕ → List ℕ
memory v = byte_of v 0 ∷ byte_of v 1 ∷ byte_of v 2 ∷ byte_of v 3 ∷ []

module _ (htonl : ℕ → ℕ) where
  unfoldable pub parse_mask : List ℕ → Option ℕ
  parse_mask p =
      let inet_mask = inet_addr htonl p in
      if (length p == inet_addrstrlen) && bytes_eq p all_ones
      then some 0xffff_ffff
      else if inet_mask == inaddr_none
      then none
      else if check_mask (memory inet_mask)
      then some inet_mask
      else none

  unfoldable pub parse_ip_and_mask : List ℕ → Option (ℕ × ℕ)
  unfolding parse_mask
  parse_ip_and_mask text = strlchr text b'/' >>= λ i.
      let ip = take i text in
      let p = drop (suc i) text in
      if ltb inet_addrstrlen (length ip)
      then none
      else if ltb inet_addrstrlen (length p)
      then none
      else if inet_addr htonl ip == inaddr_none
      then none
      else (parse_mask p >>= λ inet_mask. some (inet_addr htonl ip, inet_mask))

  -- For an address text s without '/' and a mask text t, each of at most 15 bytes and read by
  -- `hcore_inet_addr` as a and m, "s/t" is accepted with a and m: also when the ones of m are
  -- not in one piece at its head.
  pub parse_ip_and_mask-any_mask :
      (s t : List ℕ)
      → All (λ x. x ≢ b'/') s
      → length s ≤ inet_addrstrlen
      → length t ≤ inet_addrstrlen
      → inet_addr htonl s ≢ inaddr_none
      → inet_addr htonl t ≢ inaddr_none
      → bytes_eq t all_ones ≡ false
      → parse_ip_and_mask (s ++ b'/' ∷ t) ≡ some (inet_addr htonl s, inet_addr htonl t)
  unfolding parse_ip_and_mask
  parse_ip_and_mask-any_mask s t no_slash hs ht ip mask ones =
      rw (strlchr-append s t b'/' no_slash, drop-suc-append s b'/' t, take-append s (b'/' ∷ t))
        (ground (arith, check_mask_accepts_all (memory (inet_addr htonl t))))
