-- ===== src/Bitmap/Range.antt =====
-- hcore_map_set_range and hcore_map_unset_range: right within two neighbouring bytes, and for the set
-- of a range always; the unset of a longer range sets the bytes in the middle.
use hcore.Base.{
  ℕ, zero, suc, ◌+◌, ◌-◌, ◌*◌, ◌/◌, ◌%◌, ◌<◌, ◌≤◌, ◌≡◌, refl, Bool, true, false, ◌&&◌, some, List,
  ltb, leb, ◌==◌, if◌then◌else◌, arith, length, set, length-set, inl, inr, Bool-cases, ◌∙◌,
  all_below, all_below-at,
}
use hcore.Bitmap.{
  Map, byte, put_bits, fill, write_ends, write_range, put_range, map_set_range, map_unset_range,
}
use hcore.Bitmap.Byte.{test_bit, put_bits-lt, test_bit-put_bits}
use hcore.Bitmap.Laws.{IsValid, has, InRange, get_m_in, has_in, byte-set}

length-fill : (count p : ℕ) (m : List ℕ) → length (fill count p m) ≡ length m
unfolding fill
length-fill zero p m = refl
length-fill (suc count) p m = length-fill count (p + 1) (set m p 0xff) ∙ length-set m p 0xff

byte-fill :
    (count p : ℕ) (m : List ℕ) (j : ℕ)
    → p + count ≤ length m
    → byte (fill count p m) j ≡ (if leb p j && ltb j (p + count) then 0xff else byte m j)
unfolding fill
byte-fill zero p m j h = ground arith
byte-fill (suc count) p m j h =
    ground
      (arith, byte-fill count (p + 1) (set m p 0xff) j, byte-set m p 0xff j, length-set m p 0xff)

test_bit-ones : (c : ℕ) → c < 8 → test_bit 0xff c ≡ true
test_bit-ones c h = all_below-at 8 (test_bit 0xff) c (unfold all_below in refl) h

-- A byte of the array after the writes from bit `b` of byte `bm` to bit `e` of byte `em`.
module _ (v : Bool) (m : List ℕ) (small : (i : ℕ) → byte m i < 256) (bm b em e : ℕ) (b_lt : b < 8)
    (e_lt : e < 8) (le : bm ≤ em) (inside : em < length m) where
  -- What the byte `j` is after the writes.
  abbrev ranged : ℕ → ℕ
  ranged j =
      if bm == em
      then (if j == bm then put_bits v (e + 1 - b) b (byte m bm) else byte m j)
      else if j == bm
      then put_bits v (8 - b) b (byte m bm)
      else if j == em
      then put_bits v (e + 1) 0 (byte m em)
      else if ltb bm j && ltb j em
      then 0xff
      else byte m j

  length-write_ends : length (write_ends v bm b em e m) ≡ length m
  unfolding write_ends
  length-write_ends =
      let m' = set m bm (put_bits v (8 - b) b (byte m bm)) in
      ground (
        arith,
        length-set m bm (put_bits v (8 - b) b (byte m bm)),
        length-set m' em (put_bits v (e + 1) 0 (byte m' em)),
        length-set m bm (put_bits v (e + 1 - b) b (byte m bm)),
      )

  -- The bytes that are not between the first and the last.
  byte-write_ends :
      (j : ℕ) → (ltb bm j && ltb j em) ≡ false → byte (write_ends v bm b em e m) j ≡ ranged j
  unfolding write_ends
  byte-write_ends j outer =
      let m' = set m bm (put_bits v (8 - b) b (byte m bm)) in
      ground (
        arith,
        length-set m bm (put_bits v (8 - b) b (byte m bm)),
        byte-set m bm (put_bits v (8 - b) b (byte m bm)) j,
        byte-set m bm (put_bits v (8 - b) b (byte m bm)) em,
        byte-set m' em (put_bits v (e + 1) 0 (byte m' em)) j,
        byte-set m bm (put_bits v (e + 1 - b) b (byte m bm)) j,
      )

  byte-write_range : (j : ℕ) → byte (write_range v bm b em e m) j ≡ ranged j
  unfolding write_range
  byte-write_range j = ground (
    arith,
    byte-fill (em - (bm + 1)) (bm + 1) (write_ends v bm b em e m) j,
    length-write_ends,
    byte-write_ends j,
  )

  length-write_range : length (write_range v bm b em e m) ≡ length m
  unfolding write_range
  length-write_range =
      length-fill (em - (bm + 1)) (bm + 1) (write_ends v bm b em e m) ∙ length-write_ends

  ranged-lt : (j : ℕ) → ranged j < 256
  ranged-lt j = ground (
    arith,
    small j,
    put_bits-lt v (e + 1 - b) b (byte m bm) (small bm),
    put_bits-lt v (8 - b) b (byte m bm) (small bm),
    put_bits-lt v (e + 1) 0 (byte m em) (small em),
  )

  -- The bits from the first to the last: `v`, but 1 in every byte between the two ends.
  ranged-bit :
      (j c : ℕ)
      → c < 8
      → bm * 8 + b ≤ em * 8 + e
      → test_bit (ranged j) c ≡ (
          if leb (bm * 8 + b) (j * 8 + c) && leb (j * 8 + c) (em * 8 + e)
          then (if ltb bm j && ltb j em then true else v)
          else test_bit (byte m j) c)
  ranged-bit j c c_lt ordered = elim (Bool-cases (bm == em)) [
    | inl one ↦
        ground
          (arith, test_bit-put_bits v (e + 1 - b) b (byte m bm) (small bm) (ground arith) c c_lt)
    | inr two ↦ ground (
      arith,
      test_bit-ones c c_lt,
      test_bit-put_bits v (8 - b) b (byte m bm) (small bm) (omega arith) c c_lt,
      test_bit-put_bits v (e + 1) 0 (byte m em) (small em) (omega arith) c c_lt,
    )
  ]

-- The positions from `bp` to `ep`; and those in a byte strictly between the bytes of the two.
abbrev pub within : ℕ → ℕ → ℕ → Bool
within bp ep q = leb bp q && leb q ep

abbrev pub between : ℕ → ℕ → ℕ → Bool
between bp ep q = ltb ((bp - 1) / 8) ((q - 1) / 8) && ltb ((q - 1) / 8) ((ep - 1) / 8)

-- The map after a range of writes, with `value q` in the range.
pub record IsPutRange (map : Map) (bp ep : ℕ) (value : ℕ → Bool) (map' : Map) : Type 0 where
  pub valid : IsValid map'
  pub same_size : map'.size ≡ map.size
  pub has_after :
      (q : ℕ) → InRange map q → has map' q ≡ (if within bp ep q then value q else has map q)

module _ (v : Bool) (map : Map) (valid : IsValid map) (bp ep : ℕ) (first : 1 ≤ bp)
    (ordered : bp ≤ ep) (last : ep ≤ map.size) where
  after : Map
  after = record map {
    m = write_range v ((bp - 1) / 8) ((bp - 1) % 8) ((ep - 1) / 8) ((ep - 1) % 8) map.m;
  }

  inside : (ep - 1) / 8 < length map.m
  inside = omega (arith, valid.count, valid.storage)

  after-IsValid : IsValid after
  unfolding after
  after-IsValid = record {
    count = valid.count;
    storage =
        length-write_range v map.m valid.bytes ((bp - 1) / 8) ((bp - 1) % 8) ((ep - 1) / 8)
          ((ep - 1) % 8) (omega arith) (omega arith) (omega arith) inside
        ∙ valid.storage;
    bytes = λ i.
        rw
          (byte-write_range v map.m valid.bytes ((bp - 1) / 8) ((bp - 1) % 8) ((ep - 1) / 8)
            ((ep - 1) % 8) (omega arith) (omega arith) (omega arith) inside i)
          (ranged-lt v map.m valid.bytes ((bp - 1) / 8) ((bp - 1) % 8) ((ep - 1) / 8) ((ep - 1) % 8)
            (omega arith) (omega arith) (omega arith) inside i);
  }

  put_range-IsPutRange :
      (map' : Map) × (put_range v map bp ep ≡ some map')
      × IsPutRange map bp ep (λ q. if between bp ep q then true else v) map'
  unfolding put_range after
  put_range-IsPutRange = (
    after,
    rw (get_m_in valid bp (omega arith), get_m_in valid ep (omega arith)),
    record {
      valid = after-IsValid;
      same_size = refl;
      has_after = λ q r.
          rw
            (
              has_in after-IsValid q r,
              has_in valid q r,
              byte-write_range v map.m valid.bytes ((bp - 1) / 8) ((bp - 1) % 8) ((ep - 1) / 8)
                  ((ep - 1) % 8) (omega arith) (omega arith) (omega arith) inside ((q - 1) / 8),
              ranged-bit v map.m valid.bytes ((bp - 1) / 8) ((bp - 1) % 8) ((ep - 1) / 8)
                  ((ep - 1) % 8) (omega arith) (omega arith) (omega arith) inside ((q - 1) / 8)
                  ((q - 1) % 8) (omega arith) (omega arith),
            )
            (ground arith);
    },
  )

-- For positions 1 ≤ bp ≤ ep ≤ size of a valid map, `hcore_map_set_range` succeeds and the map stays
-- valid; `hcore_map_is_set` then answers yes from bp to ep, and at every other position what it
-- answered before.
pub map_set_range-IsPutRange :
    (map : Map)
    → IsValid map
    → (bp ep : ℕ) → 1 ≤ bp
    → bp ≤ ep
    → ep ≤ map.size
    → (map' : Map) × (map_set_range map bp ep ≡ some map') × IsPutRange map bp ep (λ q. true) map'
unfolding map_set_range
map_set_range-IsPutRange map valid bp ep first ordered last =
    let (map', e, is) = put_range-IsPutRange true map valid bp ep first ordered last in
    (
      map',
      e,
      record {
        valid = is.valid;
        same_size = is.same_size;
        has_after = λ q r. ground (arith, is.has_after q r);
      },
    )

-- For positions 1 ≤ bp ≤ ep ≤ size of a valid map, `hcore_map_unset_range` succeeds and the map stays
-- valid; `hcore_map_is_set` then answers no at the positions from bp to ep that share a byte with bp or
-- with ep, yes at all positions in the bytes between those two, and elsewhere what it answered before.
pub map_unset_range-IsPutRange :
    (map : Map)
    → IsValid map
    → (bp ep : ℕ) → 1 ≤ bp
    → bp ≤ ep
    → ep ≤ map.size
    → (map' : Map) × (map_unset_range map bp ep ≡ some map')
      × IsPutRange map bp ep (between bp ep) map'
unfolding map_unset_range
map_unset_range-IsPutRange map valid bp ep first ordered last =
    let (map', e, is) = put_range-IsPutRange false map valid bp ep first ordered last in
    (
      map',
      e,
      record {
        valid = is.valid;
        same_size = is.same_size;
        has_after = λ q r. ground (arith, is.has_after q r);
      },
    )
