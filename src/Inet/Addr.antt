-- ===== src/Inet/Addr.antt =====
-- hcore_inet_addr, hcore_swap32 and hcore_endian32.
use hcore.Base.{
  ℕ, ◌+◌, ◌-◌, ◌*◌, ◌/◌, ◌%◌, ◌^◌, ◌<◌, ◌≤◌, ◌≡◌, refl, Bool, true, false, ◌&&◌, List, [], ◌∷◌,
  ◌++◌, ltb, leb, ◌==◌, if◌then◌else◌, arith, All, ◌⊎◌, ◌∙◌, ap,
}
use mathlib.Core.List.{append-nil}
use mathlib.Core.Path.{subst}
use hcore.Str.Number.Decimal.{IsDigit, value, le-value}
use hcore.Inet.{inaddr_none}

-- `addr << 8` and `+ octet` in 32 bits
abbrev pub push_octet : ℕ → ℕ → ℕ
push_octet addr octet = (addr * 2 ^ 8 + octet) % 2 ^ 32

-- A digit or a dot.
abbrev pub IsAddrByte : ℕ → Type 0
IsAddrByte c = IsDigit c ⊎ (c ≡ b'.')

unfoldable pub dots : List ℕ → ℕ
dots [] = 0
dots (c ∷ s) = (if c == b'.' then 1 else 0) + dots s

module _ (htonl : ℕ → ℕ) where
  -- The loop over the bytes, and what follows it.
  unfoldable pub addr_loop : List ℕ → (addr octet n : ℕ) → ℕ
  addr_loop [] addr octet n = if n == 3 then htonl (push_octet addr octet) else inaddr_none
  addr_loop (c ∷ text) addr octet n =
      let octet' = octet * 10 + (c - b'0') in
      let digit = addr_loop text addr octet' n in
      let dot = addr_loop text (push_octet addr octet) 0 (n + 1) in
      if leb b'0' c && leb c b'9'
      then if ltb 255 octet' then inaddr_none else digit
      else if c == b'.'
      then dot
      else inaddr_none

  unfoldable pub inet_addr : List ℕ → ℕ
  inet_addr text = addr_loop text 0 0 0

  -- Digits that keep the octet at most 255 are read into it.
  addr_loop-digits :
      (s rest : List ℕ) (addr octet n : ℕ)
      → All IsDigit s
      → value octet s ≤ 255
      → addr_loop (s ++ rest) addr octet n ≡ addr_loop rest addr (value octet s) n
  unfolding addr_loop
  addr_loop-digits [] rest addr octet n d h = refl
  addr_loop-digits (c ∷ s) rest addr octet n d h = ground (
    arith,
    addr_loop-digits s rest addr (octet * 10 + (c - b'0')) n,
    le-value (octet * 10 + (c - b'0')) s,
  )

  addr_loop-octet :
      (s rest : List ℕ) (addr n : ℕ)
      → All IsDigit s
      → value 0 s ≤ 255
      → addr_loop (s ++ b'.' ∷ rest) addr 0 n
        ≡ addr_loop rest (push_octet addr (value 0 s)) 0 (n + 1)
  unfolding addr_loop
  addr_loop-octet s rest addr n d h = addr_loop-digits s (b'.' ∷ rest) addr 0 n d h

  -- Digits that take the octet above 255 make an error.
  addr_loop-over :
      (s rest : List ℕ) (addr octet n : ℕ)
      → octet ≤ 255
      → All IsDigit s
      → 255 < value octet s
      → addr_loop (s ++ rest) addr octet n ≡ inaddr_none
  unfolding addr_loop
  addr_loop-over [] rest addr octet n o d h = absurd (omega arith)
  addr_loop-over (c ∷ s) rest addr octet n o d h =
      ground (arith, addr_loop-over s rest addr (octet * 10 + (c - b'0')) n)

  addr_loop-end :
      (s : List ℕ) (addr : ℕ)
      → All IsDigit s
      → value 0 s ≤ 255
      → addr_loop s addr 0 3 ≡ htonl (push_octet addr (value 0 s))
  addr_loop-end s addr d h =
      subst (λ t. addr_loop t addr 0 3 ≡ htonl (push_octet addr (value 0 s))) (append-nil s)
        (addr_loop-digits s [] addr 0 3 d h ∙ (unfold addr_loop in refl))

  -- The loop ends in the error if there is another byte than digits and dots, or not three dots.
  addr_loop-shape :
      (s : List ℕ) (addr octet n : ℕ)
      → (addr_loop s addr octet n ≡ inaddr_none) ⊎ (All IsAddrByte s × (n + dots s ≡ 3))
  unfolding addr_loop dots
  addr_loop-shape [] addr octet n = ground arith
  addr_loop-shape (c ∷ s) addr octet n = ground (
    arith,
    addr_loop-shape s addr (octet * 10 + (c - b'0')) n,
    addr_loop-shape s (push_octet addr octet) 0 (n + 1),
  )

-- Decimal digits that spell a number of at most 255.
abbrev pub IsOctet : List ℕ → Type 0
IsOctet s = All IsDigit s × (value 0 s ≤ 255)

-- "a.b.c.d", for any four texts
abbrev pub dotted : (a b c d : List ℕ) → List ℕ
dotted a b c d = a ++ b'.' ∷ (b ++ b'.' ∷ (c ++ b'.' ∷ d))

-- The address of four octets, most significant first.
abbrev pub address : (a b c d : ℕ) → ℕ
address a b c d = a * 2 ^ 24 + b * 2 ^ 16 + c * 2 ^ 8 + d

-- Four decimal numbers of at most 255 joined by dots are read as `htonl` of the address that has them
-- as its bytes, the first as the most significant; a part of no digits counts as 0.
pub inet_addr-dotted :
    (htonl : ℕ → ℕ) (a b c d : List ℕ)
    → IsOctet a
    → IsOctet b
    → IsOctet c
    → IsOctet d
    → inet_addr htonl (dotted a b c d)
      ≡ htonl (address (value 0 a) (value 0 b) (value 0 c) (value 0 d))
unfolding inet_addr
inet_addr-dotted htonl a b c d ha hb hc hd =
    addr_loop-octet htonl a _ 0 0 ha.0 ha.1
    ∙ addr_loop-octet htonl b _ _ 1 hb.0 hb.1
    ∙ addr_loop-octet htonl c _ _ 2 hc.0 hc.1
    ∙ addr_loop-end htonl d _ hd.0 hd.1
    ∙ ap htonl (omega arith)

-- A text is an error unless it has exactly three dots and otherwise decimal digits alone.
pub inet_addr-shape :
    (htonl : ℕ → ℕ) (text : List ℕ)
    → (inet_addr htonl text ≡ inaddr_none) ⊎ (All IsAddrByte text × (dots text ≡ 3))
unfolding inet_addr
inet_addr-shape htonl text = ground (arith, addr_loop-shape htonl text 0 0 0)

-- A part above 255 makes the text an error, whatever follows it.
pub inet_addr-over :
    (htonl : ℕ → ℕ) (s rest : List ℕ)
    → All IsDigit s
    → 255 < value 0 s
    → inet_addr htonl (s ++ rest) ≡ inaddr_none
unfolding inet_addr
inet_addr-over htonl s rest d h = addr_loop-over htonl s rest 0 0 0 (omega arith) d h

-- byte `i` of a number in memory, the least significant first
abbrev pub byte_of : ℕ → ℕ → ℕ
byte_of v i = v / 2 ^ (8 * i) % 2 ^ 8

unfoldable pub swap32 : ℕ → ℕ
swap32 v = byte_of v 0 * 2 ^ 24 + byte_of v 1 * 2 ^ 16 + byte_of v 2 * 2 ^ 8 + byte_of v 3

-- `little` says whether the first byte of the number 1 in memory is not 0.
unfoldable pub endian32 : (little : Bool) → ℕ → ℕ
unfolding swap32
endian32 little src = if little then swap32 src else src

-- Swapping the bytes of a 32-bit number gives a 32-bit number, and twice gives the number back, on a
-- machine of either byte order.
pub endian32-endian32 :
    (little : Bool) (v : ℕ)
    → v < 2 ^ 32
    → (endian32 little v < 2 ^ 32) × (endian32 little (endian32 little v) ≡ v)
unfolding endian32
endian32-endian32 true v h = (omega arith, omega arith)
endian32-endian32 false v h = (h, refl)
