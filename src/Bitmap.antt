-- ===== src/Bitmap.antt =====
-- src/hcore_map.c: a map of bits, at positions from 1 on, in an array of bytes.
-- The map pointer is not NULL. `none` is HCORE_ERROR, and leaves the map as it was.
pub mod Byte
pub mod Range
pub mod Laws
mod Tests
use Prim.Native.Nat.{bit_and, bit_or}
use hcore.Base.{
  ℕ, zero, suc, ◌+◌, ◌-◌, ◌/◌, ◌%◌, ◌^◌, Bool, true, false, ◌||◌, not, Option, none, some, List,
  ltb, leb, ◌==◌, if◌then◌else◌, ◌>>=◌, get_or, set, replicate,
}

-- hcore_map_t, with the bytes that `m` points to
pub record Map : Type 0 where
  pub m : List ℕ
  pub n : ℕ
  pub size : ℕ

-- hcore_pcalloc: zeroed memory, if the pool has it
abbrev pub pcalloc : Bool → ℕ → Option (List ℕ)
pcalloc has_memory size = if has_memory then some (replicate size 0) else none

unfoldable pub init_map : (has_memory : Bool) → ℕ → Option Map
init_map has_memory size =
    let n = size / 8 + (if size % 8 == 0 then 0 else 1) in
    pcalloc has_memory n >>= λ m. some (record { m = m; n = n; size = size })

-- Whether the pool has memory for the structure and for the bytes; `none` is NULL.
unfoldable pub create_map : (for_map for_bytes : Bool) → ℕ → Option Map
unfolding init_map
create_map for_map for_bytes size = if for_map then init_map for_bytes size else none

-- The byte of a position and the bit in it.
unfoldable pub get_m : Map → ℕ → Option (ℕ × ℕ)
get_m map pos =
    if pos == 0 || ltb map.size pos
    then none
    else let mp = (pos - 1) / 8 in
      let bit = (pos - 1) % 8 in if leb map.n mp || ltb 7 bit then none else some (mp, bit)

-- HCORE_SET_MAP and HCORE_UNSET_MAP on an unsigned char
unfoldable pub put_bit : Bool → ℕ → ℕ → ℕ
put_bit true m bit = bit_or m (2 ^ bit) % 256
put_bit false m bit = bit_and m (255 - 2 ^ bit % 256)

abbrev pub byte : List ℕ → ℕ → ℕ
byte m i = get_or m i 0

unfoldable pub put : Bool → Map → ℕ → Option Map
put is_set map pos = get_m map pos >>= λ (mp, bit).
    some (record map { m = set map.m mp (put_bit is_set (byte map.m mp) bit) })

unfoldable pub map_set : Map → ℕ → Option Map
map_set map pos = put true map pos

unfoldable pub map_unset : Map → ℕ → Option Map
map_unset map pos = put false map pos

-- `for (i = bit; …; i++)` over `count` bits of one byte
unfoldable pub put_bits : Bool → (count bit m : ℕ) → ℕ
put_bits is_set zero bit m = m
put_bits is_set (suc count) bit m = put_bits is_set count (bit + 1) (put_bit is_set m bit)

-- `while (p < em) { *p++ = 0xff; }`, over `count` bytes
unfoldable pub fill : (count p : ℕ) → List ℕ → List ℕ
fill zero p m = m
fill (suc count) p m = fill count (p + 1) (set m p 0xff)

-- The writes to the first and to the last byte of a range.
unfoldable pub write_ends : Bool → (bm b_bit em e_bit : ℕ) → List ℕ → List ℕ
write_ends is_set bm b_bit em e_bit m =
    let m' = set m bm (put_bits is_set (8 - b_bit) b_bit (byte m bm)) in
    if not (bm == em)
    then set m' em (put_bits is_set (e_bit + 1) 0 (byte m' em))
    else set m bm (put_bits is_set (e_bit + 1 - b_bit) b_bit (byte m bm))

-- All writes of the range function, from bit `b_bit` of byte `bm` to bit `e_bit` of byte `em`.
unfoldable pub write_range : Bool → (bm b_bit em e_bit : ℕ) → List ℕ → List ℕ
write_range is_set bm b_bit em e_bit m =
    fill (em - (bm + 1)) (bm + 1) (write_ends is_set bm b_bit em e_bit m)

unfoldable pub put_range : Bool → Map → ℕ → ℕ → Option Map
put_range is_set map bp ep = get_m map bp >>= λ (bm, b_bit). get_m map ep >>= λ (em, e_bit).
    some (record map { m = write_range is_set bm b_bit em e_bit map.m })

unfoldable pub map_set_range : Map → ℕ → ℕ → Option Map
map_set_range map bp ep = put_range true map bp ep

unfoldable pub map_unset_range : Map → ℕ → ℕ → Option Map
map_unset_range map bp ep = put_range false map bp ep

-- The bit in its place, not 1.
unfoldable pub map_is_set : Map → ℕ → Option ℕ
map_is_set map pos = get_m map pos >>= λ (mp, bit). some (bit_and (byte map.m mp) (2 ^ bit))
