-- ===== src/Bitmap/Byte.antt =====
-- The bits of one byte after a write, by a table of all bytes.
use Prim.Native.Nat.{bit_and}
use hcore.Base.{
  ℕ, zero, suc, ◌+◌, ◌^◌, ◌<◌, ◌≤◌, ◌≡◌, refl, Bool, true, false, ◌&&◌, not, ltb, leb, ◌==◌,
  if◌then◌else◌, all_below, all_below-at, arith,
}
use hcore.Bitmap.{put_bit, put_bits}

-- Bit `c` of a byte, as a truth value.
abbrev pub test_bit : ℕ → ℕ → Bool
test_bit m c = not (bit_and m (2 ^ c) == 0)

abbrev same : Bool → Bool → Bool
same true b = b
same false b = not b

same-eq : (a b : Bool) → same a b ≡ true → a ≡ b
same-eq a b h = ground arith

abbrev put_cell : Bool → ℕ → ℕ → ℕ → Bool
put_cell v m b c = same (test_bit (put_bit v m b) c) (if b == c then v else test_bit m c)

abbrev put_row : Bool → ℕ → ℕ → Bool
put_row v m b = ltb (put_bit v m b) 256 && all_below 8 (put_cell v m b)

abbrev put_plane : Bool → ℕ → Bool
put_plane v m = all_below 8 (put_row v m)

put_table : (v : Bool) → all_below 256 (put_plane v) ≡ true
unfolding put_bit all_below
put_table true = refl
put_table false = refl

module _ (v : Bool) (m b : ℕ) (byte : m < 256) (bit : b < 8) where
  put_row_at : put_row v m b ≡ true
  put_row_at =
      all_below-at 8 (put_row v m) b (all_below-at 256 (put_plane v) m (put_table v) byte) bit

  pub put_bit-lt : put_bit v m b < 256
  put_bit-lt = ground (arith, put_row_at)

  -- A write to bit `b` of a byte is read back there, and leaves the other bits.
  pub test_bit-put_bit :
      (c : ℕ) → c < 8 → test_bit (put_bit v m b) c ≡ (if b == c then v else test_bit m c)
  test_bit-put_bit c h =
      let row : all_below 8 (put_cell v m b) ≡ true = ground (arith, put_row_at) in
      same-eq _ _ (all_below-at 8 (put_cell v m b) c row h)

-- The loop over `count` bits from bit `b` on.
pub put_bits-lt : (v : Bool) (count b m : ℕ) → m < 256 → b + count ≤ 8 → put_bits v count b m < 256
unfolding put_bits
put_bits-lt v zero b m h k = h
put_bits-lt v (suc count) b m h k =
    put_bits-lt v count (b + 1) _ (put_bit-lt v m b h (omega arith)) (omega arith)

pub test_bit-put_bits :
    (v : Bool) (count b m : ℕ)
    → m < 256
    → b + count ≤ 8
    → (c : ℕ) → c < 8
    → test_bit (put_bits v count b m) c ≡ (if leb b c && ltb c (b + count) then v else test_bit m c)
unfolding put_bits
test_bit-put_bits v zero b m h k c d = ground arith
test_bit-put_bits v (suc count) b m h k c d = ground (
  arith,
  put_bit-lt v m b h (omega arith),
  test_bit-put_bit v m b h (omega arith) c d,
  test_bit-put_bits v count (b + 1) (put_bit v m b) (put_bit-lt v m b h (omega arith)) (omega arith)
      c d,
)
