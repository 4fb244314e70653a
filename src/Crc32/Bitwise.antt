-- ===== src/Crc32/Bitwise.antt =====
-- The CRC bit by bit, and that the tables give it.
use Prim.Native.Nat.{bit_xor}
use hcore.Base.{
  ℕ, ◌/◌, ◌%◌, ◌<◌, ◌≡◌, refl, ◌∙◌, ap, sym, true, ◌==◌, ==_iff, all_below, all_below-at,
  if◌then◌else◌, List, [], ◌∷◌, ◌++◌, arith, get_or, All, All-append,
}
use hcore.Crc32.{
  crc32_table256, long_step, crc32_update, crc32_long, crc32_short, crc32_init, crc32_final,
}
use hcore.Crc32.Tables.{short_entry, long_entry, two_entries, tables_agree, crc32_short-crc32_long}
use hcore.Crc32.Xor.{
  bit_xor_assoc, bit_xor-zero, div-bit_xor, mod-bit_xor, mod-bit_xor_two, mod-bit_xor_four,
  mod-bit_xor_eight, div-bit_xor_two, div-bit_xor_four, div-bit_xor_eight,
}

-- The polynomial of the PNG specification, its bits in reverse, where the lowest bit was one.
abbrev pub feedback : ℕ → ℕ
feedback d = if d == 1 then 0xedb88320 else 0

-- One bit of the division by the polynomial.
abbrev pub bit_step : ℕ → ℕ
bit_step x = bit_xor (feedback (x % 2)) (x / 2)

abbrev pub bits_4 : ℕ → ℕ
bits_4 x = bit_step (bit_step (bit_step (bit_step x)))

-- The CRC of bytes by the definition, eight bits for each byte.
abbrev pub reference_loop : ℕ → List ℕ → ℕ
reference_loop crc [] = crc
reference_loop crc (c ∷ p) = reference_loop (bits_4 (bits_4 (bit_xor crc c))) p

abbrev pub reference : List ℕ → ℕ
reference p = bit_xor (reference_loop 0xffffffff p) 0xffffffff

-- Steps on a number act on its low bits, and the high ones come down: one step more.
one_more :
    (step : ℕ → ℕ) (n m : ℕ)
    → ((a b : ℕ) → bit_xor a b % n ≡ bit_xor (a % n) (b % n))
    → ((a b : ℕ) → bit_xor a b / n ≡ bit_xor (a / n) (b / n))
    → ((x : ℕ)
        → (x % m % 2 ≡ x % 2)
          × (x % m / 2 ≡ x / 2 % n)
          × (x / 2 % n % n ≡ x / 2 % n)
          × (x / 2 % n / n ≡ 0)
          × (x / 2 / n ≡ x / m))
    → ((x : ℕ) → step x ≡ bit_xor (step (x % n)) (x / n))
    → (x : ℕ) → step (bit_step x) ≡ bit_xor (step (bit_step (x % m))) (x / m)
one_more step n m law_mod law_div facts s x =
    let f = feedback (x % 2) in
    let k = facts x in
    let low = step (bit_xor (f % n) (x / 2 % n)) in
    let whole : step (bit_step x) ≡ bit_xor low (bit_xor (f / n) (x / m)) =
      s (bit_step x)
      ∙ ap (λ z. bit_xor (step z) (bit_step x / n)) (law_mod f (x / 2))
      ∙ ap (bit_xor low) (law_div f (x / 2) ∙ ap (bit_xor (f / n)) k.4) in
    let small : bit_step (x % m) ≡ bit_xor f (x / 2 % n) =
      ap (λ z. bit_xor (feedback z) (x % m / 2)) k.0 ∙ ap (bit_xor f) k.1 in
    let part : step (bit_step (x % m)) ≡ bit_xor low (f / n) =
      ap step small
      ∙ s (bit_xor f (x / 2 % n))
      ∙ ap (λ z. bit_xor (step z) (bit_xor f (x / 2 % n) / n))
          (law_mod f (x / 2 % n) ∙ ap (bit_xor (f % n)) k.2)
      ∙ ap (bit_xor low)
          (law_div f (x / 2 % n) ∙ ap (bit_xor (f / n)) k.3 ∙ bit_xor-zero (f / n)) in
    whole ∙ sym (bit_xor_assoc low (f / n) (x / m)) ∙ ap (λ z. bit_xor z (x / m)) (sym part)

low_1 : (x : ℕ) → bit_step x ≡ bit_xor (bit_step (x % 2)) (x / 2)
low_1 x =
    let odd : x % 2 % 2 ≡ x % 2 = omega arith in
    let none : x % 2 / 2 ≡ 0 = omega arith in
    ap (λ z. bit_xor z (x / 2))
      (sym (
        ap (λ z. bit_xor (feedback z) (x % 2 / 2)) odd
        ∙ ap (bit_xor (feedback (x % 2))) none
        ∙ bit_xor-zero (feedback (x % 2))))

low_2 : (x : ℕ) → bit_step (bit_step x) ≡ bit_xor (bit_step (bit_step (x % 4))) (x / 4)
low_2 =
    one_more bit_step 2 4 mod-bit_xor_two div-bit_xor_two
      (λ x. (omega arith, omega arith, omega arith, omega arith, omega arith)) low_1

low_3 :
    (x : ℕ)
    → bit_step (bit_step (bit_step x)) ≡ bit_xor (bit_step (bit_step (bit_step (x % 8)))) (x / 8)
low_3 =
    one_more (λ z. bit_step (bit_step z)) 4 8 mod-bit_xor_four div-bit_xor_four
      (λ x. (omega arith, omega arith, omega arith, omega arith, omega arith)) low_2

low_4 : (x : ℕ) → bits_4 x ≡ bit_xor (bits_4 (x % 16)) (x / 16)
low_4 =
    one_more (λ z. bit_step (bit_step (bit_step z))) 8 16 mod-bit_xor_eight div-bit_xor_eight
      (λ x. (omega arith, omega arith, omega arith, omega arith, omega arith)) low_3

entries_checked : all_below 16 (λ y. bits_4 y == short_entry y) ≡ true
unfolding short_entry all_below
entries_checked = refl

-- An entry of the small table stands for four steps.
nibble_step : (x : ℕ) → bits_4 x ≡ bit_xor (short_entry (x % 16)) (x / 16)
nibble_step x =
    low_4 x
    ∙ ap (λ z. bit_xor z (x / 16))
        ((==_iff (bits_4 (x % 16)) (short_entry (x % 16))).0
          (all_below-at 16 (λ y. bits_4 y == short_entry y) (x % 16) entries_checked (omega arith)))

-- An entry of the large table stands for eight.
byte_step : (x : ℕ) → bits_4 (bits_4 x) ≡ bit_xor (long_entry (x % 256)) (x / 256)
unfolding two_entries
byte_step x =
    let y = x % 256 in
    let t = short_entry (x % 16) in
    let z = bit_xor t (x / 16) in
    let low : y % 16 ≡ x % 16 = omega arith in
    let high : x / 16 % 16 ≡ y / 16 = omega arith in
    let both = λ (a b c : ℕ). bit_xor (short_entry a) (bit_xor b c) in
    ap bits_4 (nibble_step x)
    ∙ nibble_step z
    ∙ ap (λ a. bit_xor (short_entry a) (z / 16))
        (mod-bit_xor t (x / 16) ∙ ap (bit_xor (t % 16)) high)
    ∙ ap (bit_xor (short_entry (bit_xor (t % 16) (y / 16))))
        (div-bit_xor t (x / 16) ∙ ap (bit_xor (t / 16)) (omega arith))
    ∙ sym (bit_xor_assoc (short_entry (bit_xor (t % 16) (y / 16))) (t / 16) (x / 256))
    ∙ ap
        (λ a.
          bit_xor
            (bit_xor (short_entry (bit_xor (short_entry a % 16) (y / 16))) (short_entry a / 16))
            (x / 256))
        (sym low)
    ∙ ap (λ a. bit_xor a (x / 256)) (sym (tables_agree y (omega arith)))

abbrev pub AreBytes : List ℕ → Type 0
AreBytes p = All (λ c. c < 256) p

byte-div : (crc c : ℕ) → c < 256 → bit_xor crc c / 256 ≡ crc / 256
byte-div crc c h =
    let whole : bit_xor crc c / 256 ≡ bit_xor crc c / 16 / 16 = omega arith in
    let none : c / 16 / 16 ≡ 0 = omega arith in
    let rest : crc / 16 / 16 ≡ crc / 256 = omega arith in
    whole
    ∙ ap (λ z. z / 16) (div-bit_xor crc c)
    ∙ div-bit_xor (crc / 16) (c / 16)
    ∙ ap (bit_xor (crc / 16 / 16)) none
    ∙ bit_xor-zero (crc / 16 / 16)
    ∙ rest

long_step-reference : (crc c : ℕ) → c < 256 → long_step crc c ≡ bits_4 (bits_4 (bit_xor crc c))
unfolding long_step long_entry
long_step-reference crc c h =
    ap (bit_xor (get_or crc32_table256 (bit_xor crc c % 256) 0)) (sym (byte-div crc c h))
    ∙ sym (byte_step (bit_xor crc c))

reference_loop-update :
    (crc : ℕ) (p : List ℕ) → AreBytes p → crc32_update crc p ≡ reference_loop crc p
unfolding crc32_update
reference_loop-update crc [] h = refl
reference_loop-update crc (c ∷ p) h =
    reference_loop-update (long_step crc c) p h.1
    ∙ ap (λ z. reference_loop z p) (long_step-reference crc c h.0)

-- Of any bytes hcore_crc32_long and hcore_crc32_short give the CRC by the definition, the remainder of
-- the division bit by bit; and so do hcore_crc32_init, hcore_crc32_update for each of two parts, and
-- hcore_crc32_final.
pub crc32-reference :
    (p q : List ℕ)
    → AreBytes p
    → AreBytes q
    → (crc32_long p ≡ reference p)
      × (crc32_short p ≡ reference p)
      × (crc32_final (crc32_update (crc32_update crc32_init p) q) ≡ reference (p ++ q))
unfolding crc32_long
crc32-reference p q h k =
    let last = λ (z : ℕ). bit_xor z 0xffffffff in
    let long : crc32_long p ≡ reference p = ap last (reference_loop-update 0xffffffff p h) in
    let both : AreBytes (p ++ q) = All-append (λ c. c < 256) p q h k in
    let (short, parts) = crc32_short-crc32_long p q in
    (
      long,
      short ∙ long,
      parts
          ∙ (crc32_short-crc32_long (p ++ q) []).0
          ∙ ap last (reference_loop-update 0xffffffff (p ++ q) both),
    )
