-- ===== src/Crc32/Tables.antt =====
-- The two tables give the same CRC.
use Prim.Native.Nat.{bit_xor}
use hcore.Base.{
  ℕ, ◌/◌, ◌%◌, ◌<◌, ◌≡◌, refl, ◌∙◌, ap, sym, true, ◌==◌, ==_iff, all_below, all_below-at, List, [],
  ◌∷◌, ◌++◌, arith, get_or,
}
use hcore.Crc32.{
  crc32_table16, crc32_table256, short_step, long_step, short_loop, crc32_init, crc32_update,
  crc32_final, crc32_short, crc32_long,
}
use hcore.Crc32.Xor.{bit_xor_assoc, div-bit_xor, mod-bit_xor}

unfoldable pub short_entry : ℕ → ℕ
short_entry x = get_or crc32_table16 x 0

unfoldable pub long_entry : ℕ → ℕ
long_entry x = get_or crc32_table256 x 0

-- Two entries of the small table for each entry of the large one.
unfoldable pub two_entries : ℕ → ℕ
unfolding short_entry
two_entries y =
    let first = short_entry (y % 16) in
    bit_xor (short_entry (bit_xor (first % 16) (y / 16))) (first / 16)

tables_checked : all_below 256 (λ y. long_entry y == two_entries y) ≡ true
unfolding long_entry two_entries all_below
tables_checked = refl

pub tables_agree : (y : ℕ) → y < 256 → long_entry y ≡ two_entries y
tables_agree y h =
    (==_iff (long_entry y) (two_entries y)).0
      (all_below-at 256 (λ y. long_entry y == two_entries y) y tables_checked h)

mod_mod : (c : ℕ) → c % 16 % 16 ≡ c % 16
mod_mod c = omega arith

-- One byte more.
steps_agree : (crc c : ℕ) → short_step crc c ≡ long_step crc c
unfolding short_step long_step short_entry long_entry two_entries
steps_agree crc c =
    let x = bit_xor crc c in
    let y = x % 256 in
    let low : bit_xor crc (c % 16) % 16 ≡ y % 16 =
      mod-bit_xor crc (c % 16)
      ∙ ap (bit_xor (crc % 16)) (mod_mod c)
      ∙ sym (mod-bit_xor crc c)
      ∙ (omega arith) in
    let t = short_entry (y % 16) in
    let crc1 = bit_xor t (crc / 16) in
    let high : bit_xor crc1 (c / 16) % 16 ≡ bit_xor (t % 16) (y / 16) =
      mod-bit_xor crc1 (c / 16)
      ∙ ap (λ z. bit_xor z (c / 16 % 16)) (mod-bit_xor t (crc / 16))
      ∙ bit_xor_assoc (t % 16) (crc / 16 % 16) (c / 16 % 16)
      ∙ ap (bit_xor (t % 16)) (
          sym (mod-bit_xor (crc / 16) (c / 16))
          ∙ ap (λ z. z % 16) (sym (div-bit_xor crc c))
          ∙ (omega arith)) in
    let rest : crc1 / 16 ≡ bit_xor (t / 16) (crc / 256) =
      div-bit_xor t (crc / 16) ∙ ap (bit_xor (t / 16)) (omega arith) in
    let second = λ (z : ℕ). bit_xor (short_entry (bit_xor z (c / 16) % 16)) (z / 16) in
    ap (λ z. second (bit_xor (short_entry z) (crc / 16))) low
    ∙ ap (λ z. bit_xor (short_entry z) (crc1 / 16)) high
    ∙ ap (bit_xor (short_entry (bit_xor (t % 16) (y / 16)))) rest
    ∙ sym (bit_xor_assoc (short_entry (bit_xor (t % 16) (y / 16))) (t / 16) (crc / 256))
    ∙ ap (λ z. bit_xor z (crc / 256)) (sym (tables_agree y (omega arith)))

loops_agree : (crc : ℕ) (p : List ℕ) → short_loop crc p ≡ crc32_update crc p
unfolding short_loop crc32_update
loops_agree crc [] = refl
loops_agree crc (c ∷ p) =
    ap (λ z. short_loop z p) (steps_agree crc c) ∙ loops_agree (long_step crc c) p

crc32_update-append :
    (crc : ℕ) (p q : List ℕ) → crc32_update (crc32_update crc p) q ≡ crc32_update crc (p ++ q)
unfolding crc32_update
crc32_update-append crc [] q = refl
crc32_update-append crc (c ∷ p) q = crc32_update-append (long_step crc c) p q

-- hcore_crc32_short, with the table of 16 entries, gives the CRC of hcore_crc32_long, with that of 256, of
-- any bytes; and so do hcore_crc32_init, hcore_crc32_update for each of two parts, and hcore_crc32_final.
pub crc32_short-crc32_long :
    (p q : List ℕ)
    → (crc32_short p ≡ crc32_long p)
      × (crc32_final (crc32_update (crc32_update crc32_init p) q) ≡ crc32_short (p ++ q))
unfolding crc32_short crc32_long
crc32_short-crc32_long p q = (
  ap (λ z. bit_xor z 0xffffffff) (loops_agree 0xffffffff p),
  ap (λ z. bit_xor z 0xffffffff)
      (crc32_update-append 0xffffffff p q ∙ sym (loops_agree 0xffffffff (p ++ q))),
)
