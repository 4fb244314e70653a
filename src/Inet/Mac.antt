-- ===== src/Inet/Mac.antt =====
-- hcore_parse_mac and hcore_parse_mac_and_mask.
-- `mem i` is the byte at the text's start plus i: a digit pair may reach one byte behind the text.
use mathlib.Core.List.{append_assoc}
use hcore.Base.{
  ℕ, zero, suc, ◌+◌, ◌-◌, ◌%◌, ◌<◌, ◌≤◌, ◌≡◌, Bool, true, false, ◌||◌, not, Option, none, some,
  List, [], ◌∷◌, ◌++◌, ltb, ◌==◌, if◌then◌else◌, arith, ◌⊎◌, inl, inr, Option-cases, get_or, ◌>>=◌,
  length, length-append,
}
use hcore.Str.Number.{hextoi}
use hcore.Inet.{strlchr}
use hcore.Inet.Mask.{check_mask}

module _ (mem : ℕ → ℕ) (len : ℕ) where
  -- `while (p < last)`: the bytes stored so far are `mac`, and `sep` is set behind a pair. Each round
  -- advances, so `len + 1` rounds are enough; `none` is HCORE_ERROR.
  unfoldable pub mac_loop : (fuel p : ℕ) → Bool → List ℕ → Option (List ℕ)
  mac_loop zero p sep mac = none
  mac_loop (suc fuel) p sep mac =
      let behind = mac_loop fuel (p + 1) false mac in
      let pair = hextoi (mem p ∷ mem (p + 1) ∷ []) >>= λ v.
      mac_loop fuel (p + 2) true (mac ++ (v % 256) ∷ []) in
      if ltb p len
      then (if length mac == 6
          then none
          else if sep
          then (if mem p == b':' || mem p == b'-' then behind else none)
          else pair)
      else if length mac == 6
      then some mac
      else none

  unfoldable pub parse_mac : Option (List ℕ)
  parse_mac = mac_loop (len + 1) 0 false []

  -- Whatever the text, an accepted address has six bytes.
  mac_loop-length :
      (fuel p : ℕ) (sep : Bool) (mac r : List ℕ) → mac_loop fuel p sep mac ≡ some r → length r ≡ 6
  unfolding mac_loop
  mac_loop-length zero p sep mac r h = ground arith
  mac_loop-length (suc fuel) p sep mac r h =
      elim (Option-cases (hextoi (mem p ∷ mem (p + 1) ∷ []))) [
        | inl bad ↦ ground (arith, mac_loop-length fuel (p + 1) false mac r)
        | inr (v, good) ↦ ground (
          arith,
          mac_loop-length fuel (p + 1) false mac r,
          mac_loop-length fuel (p + 2) true (mac ++ (v % 256) ∷ []) r,
        )
      ]

  -- More rounds than there are bytes left change nothing.
  pub mac_loop-fuel :
      (fuel more p : ℕ) (sep : Bool) (mac : List ℕ)
      → 0 < fuel
      → len < fuel + p
      → mac_loop (more + fuel) p sep mac ≡ mac_loop fuel p sep mac
  unfolding mac_loop
  mac_loop-fuel zero more p sep mac pos h = elim pos [ ]
  mac_loop-fuel (suc fuel) more p sep mac pos h =
      let e : more + suc fuel ≡ suc (more + fuel) = omega arith in
      rw e (elim (Option-cases (hextoi (mem p ∷ mem (p + 1) ∷ []))) [
        | inl bad ↦ ground (arith, mac_loop-fuel fuel more (p + 1) false mac)
        | inr (v, good) ↦ ground (
          arith,
          mac_loop-fuel fuel more (p + 1) false mac,
          mac_loop-fuel fuel more (p + 2) true (mac ++ (v % 256) ∷ []),
        )
      ])

  -- A pair of characters at `p` that is read as the byte `v`.
  abbrev pub PairAt : ℕ → ℕ → Type 0
  PairAt p v = (hextoi (mem p ∷ mem (p + 1) ∷ []) ≡ some v) × (v < 256)

  -- The text from `p` on is pairs that are read as `v ∷ vs`, with a ':' or a '-' between them.
  abbrev pub PairsFrom : ℕ → ℕ → List ℕ → Type 0
  PairsFrom p v [] = PairAt p v × (len ≡ p + 2)
  PairsFrom p v (w ∷ vs) =
      PairAt p v
      × ((mem (p + 2) ≡ b':') ⊎ (mem (p + 2) ≡ b'-'))
      × (p + 3 ≤ len)
      × PairsFrom (p + 3) w vs

  mac_loop-pairs :
      (vs : List ℕ) (v fuel p : ℕ) (mac : List ℕ)
      → length mac + length (v ∷ vs) ≡ 6
      → len < fuel + p
      → PairsFrom p v vs
      → mac_loop fuel p false mac ≡ some (mac ++ v ∷ vs)
  unfolding mac_loop
  mac_loop-pairs [] v zero p mac six enough (pair, ends) = absurd (omega arith)
  mac_loop-pairs [] v (suc zero) p mac six enough (pair, ends) = absurd (omega arith)
  mac_loop-pairs [] v (suc (suc fuel)) p mac six enough (pair, ends) =
      ground (arith, pair.0, length-append mac (v % 256 ∷ []))
  mac_loop-pairs (w ∷ vs) v zero p mac six enough (pair, sep, more, rest) = absurd (omega arith)
  mac_loop-pairs (w ∷ vs) v (suc zero) p mac six enough (pair, sep, more, rest) =
      absurd (omega arith)
  mac_loop-pairs (w ∷ vs) v (suc (suc fuel)) p mac six enough (pair, sep, more, rest) = ground (
    arith,
    pair.0,
    length-append mac (v % 256 ∷ []),
    append_assoc mac (v % 256 ∷ []) (w ∷ vs),
    mac_loop-pairs vs w fuel (p + 3) (mac ++ (v % 256) ∷ []),
  )

  -- Six pairs of hexadecimal digits with ':' or '-' between them are read as the six bytes that they
  -- spell, and nothing behind the text is looked at.
  parse_mac-pairs :
      (v : ℕ) (vs : List ℕ) → length (v ∷ vs) ≡ 6 → PairsFrom 0 v vs → parse_mac ≡ some (v ∷ vs)
  unfolding parse_mac
  parse_mac-pairs v vs six pairs =
      mac_loop-pairs vs v (len + 1) 0 [] (omega arith) (omega arith) pairs

-- An accepted address has six bytes, and the rounds that `parse_mac` is given are enough: with any
-- more the outcome is the same.
parse_mac_total :
    (mem : ℕ → ℕ) (len more : ℕ)
    → (mac_loop mem len (more + (len + 1)) 0 false [] ≡ parse_mac mem len)
      × ((r : List ℕ) → parse_mac mem len ≡ some r → length r ≡ 6)
unfolding parse_mac
parse_mac_total mem len more = (
  mac_loop-fuel mem len (len + 1) more 0 false [] (omega arith) (omega arith),
  λ r h. mac_loop-length mem len (len + 1) 0 false [] r h,
)

-- HCORE_MAC_ADDRESS_STRLEN
abbrev pub mac_address_strlen : ℕ
mac_address_strlen = 17

-- The bytes of a text from position `start` on, in memory.
abbrev pub bytes_from : List ℕ → ℕ → ℕ → ℕ
bytes_from text start i = get_or text (start + i) 0

unfoldable pub parse_mac_and_mask : List ℕ → Option (List ℕ × List ℕ)
parse_mac_and_mask text = strlchr text b'/' >>= λ mac_len.
    let mask_len = length text - suc mac_len in
    if not (mac_len == mac_address_strlen)
    then none
    else if not (mask_len == mac_address_strlen)
    then none
    else (parse_mac (bytes_from text 0) mac_len >>= λ mac.
        parse_mac (bytes_from text (suc mac_len)) mask_len >>= λ mask.
        if check_mask mask then some (mac, mask) else none)

-- Of an accepted address and mask, each has six bytes.
pub parse_mac_and_mask-length :
    (text mac mask : List ℕ)
    → parse_mac_and_mask text ≡ some (mac, mask)
    → (length mac ≡ 6) × (length mask ≡ 6)
unfolding parse_mac_and_mask
parse_mac_and_mask-length text mac mask h = elim (Option-cases (strlchr text b'/')) [
  | inl bad ↦ ground (arith, bad)
  | inr (i, at) ↦
      let mask_len = length text - suc i in
      ground (
        arith,
        (parse_mac_total (bytes_from text 0) i 0).1 mac,
        (parse_mac_total (bytes_from text (suc i)) mask_len 0).1 mask,
      )
]
