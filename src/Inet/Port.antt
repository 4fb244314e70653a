-- ===== src/Inet/Port.antt =====
-- hcore_parse_port_range, and the range check that the port readers share.
use hcore.Base.{
  ℕ, suc, ◌≤◌, ◌≡◌, ◌≢◌, ◌||◌, Option, none, some, List, [], ◌∷◌, ◌++◌, ltb, leb, if◌then◌else◌,
  arith, All, take, drop, ◌>>=◌, take-append, drop-suc-append,
}
use hcore.Str.Number.{atoi}
use hcore.Str.Number.Decimal.{IsDigit, Spells, atoi_iff}
use hcore.Inet.{strlchr, strlchr-append, strlchr-none}

-- `n < 1 || n > 65535` is an error; so is HCORE_ERROR, which is below 1.
unfoldable pub check_port : Option ℕ → Option ℕ
check_port none = none
check_port (some n) = if ltb n 1 || ltb 65535 n then none else some n

-- What is left once the end is read, if there is one: the begin, from the bytes in front of '-'.
unfoldable pub range_from : List ℕ → Option ℕ → Option (ℕ × ℕ)
range_from text none = check_port (atoi text) >>= λ bp. some (bp, bp)
range_from text (some ep) =
    check_port (atoi text) >>= λ bp. if ltb ep bp then none else some (bp, ep)

unfoldable pub parse_port_range : List ℕ → Option (ℕ × ℕ)
parse_port_range text = elim (strlchr text b'-') [
  | none ↦ range_from text none
  | some i ↦ check_port (atoi (drop (suc i) text)) >>= λ ep. range_from (take i text) (some ep)
]

abbrev pub IsPort : ℕ → Type 0
IsPort n = (1 ≤ n) × (n ≤ 65535)

pub check_port_iff : (o : Option ℕ) (n : ℕ) → (check_port o ≡ some n) → (o ≡ some n) × IsPort n
unfolding check_port
check_port_iff o n h = ground arith

pub check_port-atoi : (s : List ℕ) (n : ℕ) → Spells 65535 s n → 1 ≤ n → check_port (atoi s) ≡ some n
unfolding check_port
check_port-atoi s n (ne, d, v, small) h =
    rw ((atoi_iff s n).1 (ne, d, v, omega arith)) (ground arith)

-- Whatever is accepted is a range of ports: 1 ≤ begin ≤ end ≤ 65535.
parse_port_range-bounds :
    (text : List ℕ) (bp ep : ℕ)
    → parse_port_range text ≡ some (bp, ep)
    → (1 ≤ bp) × (bp ≤ ep) × (ep ≤ 65535)
unfolding parse_port_range range_from check_port
parse_port_range-bounds text bp ep h = ground arith

not_dash : (s : List ℕ) → All IsDigit s → All (λ x. x ≢ b'-') s
not_dash [] d = tt
not_dash (c ∷ s) d = (ground arith, not_dash s d.1)

-- "b-e" for decimal ports b ≤ e is the range from b to e, and with b > e an error.
pub parse_port_range-pair :
    (s t : List ℕ) (b e : ℕ)
    → Spells 65535 s b
    → Spells 65535 t e
    → 1 ≤ b
    → 1 ≤ e
    → parse_port_range (s ++ b'-' ∷ t) ≡ (if leb b e then some (b, e) else none)
unfolding parse_port_range range_from
parse_port_range-pair s t b e hs ht pb pe =
    rw
      (
        strlchr-append s t b'-' (not_dash s hs.1),
        drop-suc-append s b'-' t,
        take-append s (b'-' ∷ t),
        check_port-atoi s b hs pb,
        check_port-atoi t e ht pe,
        parse_port_range,
      )
      (ground arith)

-- A single decimal port is the range of that port alone.
pub parse_port_range-single :
    (s : List ℕ) (b : ℕ) → Spells 65535 s b → 1 ≤ b → parse_port_range s ≡ some (b, b)
unfolding parse_port_range range_from
parse_port_range-single s b hs pb =
    rw (strlchr-none s b'-' (not_dash s hs.1), check_port-atoi s b hs pb, parse_port_range)

-- For decimal ports b and e, "b-e" is the range from b to e if b ≤ e and an error otherwise, and "b" is
-- the range of that port alone.
parse_port_range-decimal :
    (s t : List ℕ) (b e : ℕ)
    → Spells 65535 s b
    → Spells 65535 t e
    → 1 ≤ b
    → 1 ≤ e
    → (parse_port_range (s ++ b'-' ∷ t) ≡ (if leb b e then some (b, e) else none))
      × (parse_port_range s ≡ some (b, b))
parse_port_range-decimal s t b e hs ht pb pe =
    (parse_port_range-pair s t b e hs ht pb pe, parse_port_range-single s b hs pb)
