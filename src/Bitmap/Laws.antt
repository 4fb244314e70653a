-- ===== src/Bitmap/Laws.antt =====
-- A valid map behaves as one truth value for each position of 1 to its size.
use Prim.Native.Nat.{bit_and, bit_and-bitwise}
use hcore.Base.{
  ℕ, ◌+◌, ◌-◌, ◌/◌, ◌%◌, ◌^◌, ◌<◌, ◌≤◌, ◌≡◌, refl, Bool, true, false, not, none, some, List, ◌==◌,
  if◌then◌else◌, arith, length, set, length-set, length-replicate, get_or-set_self, get_or-set_ne,
  get_or-replicate, replicate, ◌⊎◌, inl, inr, Bool-cases, ==_iff,
}
use hcore.Bitmap.{
  Map, init_map, create_map, get_m, put_bit, byte, put, map_set, map_unset, map_is_set,
}
use hcore.Bitmap.Byte.{test_bit, put_bit-lt, test_bit-put_bit}

pub record IsValid (map : Map) : Type 0 where
  pub count : map.n ≡ (map.size + 7) / 8
  pub storage : length map.m ≡ map.n
  pub bytes : (i : ℕ) → byte map.m i < 256

-- `hcore_map_is_set` answers that the position is set.
abbrev pub has : Map → ℕ → Bool
has map pos = elim (map_is_set map pos) [ none ↦ false | some v ↦ not (v == 0) ]

abbrev pub InRange : Map → ℕ → Type 0
InRange map pos = (1 ≤ pos) × (pos ≤ map.size)

module _ {map : Map} (valid : IsValid map) where
  pub get_m_in : (pos : ℕ) → InRange map pos → get_m map pos ≡ some ((pos - 1) / 8, (pos - 1) % 8)
  unfolding get_m
  get_m_in pos r = ground (arith, valid.count)

  pub has_in :
      (pos : ℕ)
      → InRange map pos
      → has map pos ≡ test_bit (byte map.m ((pos - 1) / 8)) ((pos - 1) % 8)
  unfolding map_is_set
  has_in pos r = ground (arith, get_m_in pos r)

pub get_m_out : (map : Map) (pos : ℕ) → (pos ≡ 0) ⊎ (map.size < pos) → get_m map pos ≡ none
unfolding get_m
get_m_out map pos out = ground arith

-- A byte array with one byte replaced.
pub byte-set :
    (m : List ℕ) (i v j : ℕ) → i < length m → byte (set m i v) j ≡ (if i == j then v else byte m j)
byte-set m i v j h = elim (Bool-cases (i == j)) [
  | inl e ↦ rw (e, ← (==_iff i j).0 e) (get_or-set_self m i v 0 h)
  | inr ne ↦ rw ne (get_or-set_ne m i j v 0 (λ e. ground arith))
]

-- The map after the write of `v` at `pos`: valid, and changed at that position alone.
pub record IsPut (v : Bool) (map : Map) (pos : ℕ) (map' : Map) : Type 0 where
  pub valid : IsValid map'
  pub same_size : map'.size ≡ map.size
  pub has_after : (q : ℕ) → InRange map q → has map' q ≡ (if q == pos then v else has map q)

module _ (v : Bool) (map : Map) (valid : IsValid map) (pos : ℕ) (r : InRange map pos) where
  written : Map
  written = record map {
    m = set map.m ((pos - 1) / 8) (put_bit v (byte map.m ((pos - 1) / 8)) ((pos - 1) % 8));
  }

  written-IsValid : IsValid written
  unfolding written
  written-IsValid = record {
    count = valid.count;
    storage = ground (
      arith,
      valid.storage,
      length-set map.m ((pos - 1) / 8) (put_bit v (byte map.m ((pos - 1) / 8)) ((pos - 1) % 8)),
    );
    bytes = λ i. ground (
      arith,
      valid.bytes i,
      valid.storage,
      valid.count,
      valid.bytes ((pos - 1) / 8),
      byte-set map.m ((pos - 1) / 8) (put_bit v (byte map.m ((pos - 1) / 8)) ((pos - 1) % 8)) i,
      put_bit-lt v (byte map.m ((pos - 1) / 8)) ((pos - 1) % 8),
    );
  }

  put-IsPut : (map' : Map) × (put v map pos ≡ some map') × IsPut v map pos map'
  unfolding put written
  put-IsPut = (
    written,
    rw (get_m_in valid pos r),
    record {
      valid = written-IsValid;
      same_size = refl;
      has_after = λ q rq.
          rw (has_in written-IsValid q rq, has_in valid q rq)
            (ground (
              arith,
              valid.storage,
              valid.count,
              valid.bytes ((pos - 1) / 8),
              byte-set map.m ((pos - 1) / 8)
                  (put_bit v (byte map.m ((pos - 1) / 8)) ((pos - 1) % 8)) ((q - 1) / 8),
              test_bit-put_bit v (byte map.m ((pos - 1) / 8)) ((pos - 1) % 8)
                  (valid.bytes ((pos - 1) / 8)) (omega arith) ((q - 1) % 8) (omega arith),
            ));
    },
  )

-- On a valid map and a position of 1 to its size, `hcore_map_set` succeeds, the map stays valid, and
-- `hcore_map_is_set` then answers yes at that position and what it answered before at every other.
pub map_set-IsPut :
    (map : Map)
    → IsValid map
    → (pos : ℕ) → InRange map pos
    → (map' : Map) × (map_set map pos ≡ some map') × IsPut true map pos map'
unfolding map_set
map_set-IsPut map valid pos r = put-IsPut true map valid pos r

-- On a valid map and a position of 1 to its size, `hcore_map_unset` succeeds, the map stays valid, and
-- `hcore_map_is_set` then answers no at that position and what it answered before at every other.
pub map_unset-IsPut :
    (map : Map)
    → IsValid map
    → (pos : ℕ) → InRange map pos
    → (map' : Map) × (map_unset map pos ≡ some map') × IsPut false map pos map'
unfolding map_unset
map_unset-IsPut map valid pos r = put-IsPut false map valid pos r

-- On a valid map and a position of 1 to its size, `hcore_map_set` and `hcore_map_unset` succeed and the
-- map stays valid. `hcore_map_is_set` then answers yes at that position after the one and no after the
-- other, and at every other position what it answered before.
pub map_writes-IsPut :
    (map : Map)
    → IsValid map
    → (pos : ℕ) → InRange map pos
    → ((map' : Map) × (map_set map pos ≡ some map') × IsPut true map pos map')
      × ((map' : Map) × (map_unset map pos ≡ some map') × IsPut false map pos map')
map_writes-IsPut map valid pos r = (map_set-IsPut map valid pos r, map_unset-IsPut map valid pos r)

-- At position 0 and at every position above the size, setting, unsetting and asking all return
-- HCORE_ERROR.
pub map_out_of_range :
    (map : Map) (pos : ℕ)
    → (pos ≡ 0) ⊎ (map.size < pos)
    → (map_set map pos ≡ none) × (map_unset map pos ≡ none) × (map_is_set map pos ≡ none)
unfolding map_set map_unset map_is_set put
map_out_of_range map pos out = ground (arith, get_m_out map pos out)

-- If the pool has memory, `hcore_init_map` and `hcore_create_map` give a valid map of the size asked for in which no
-- position is set; if it has none, they return HCORE_ERROR and NULL.
pub init_map-IsValid :
    (size : ℕ)
    → (init_map false size ≡ none)
      × (create_map true false size ≡ none)
      × (create_map false true size ≡ none)
      × ((map : Map) × (init_map true size ≡ some map)
          × (create_map true true size ≡ some map)
          × IsValid map
          × (map.size ≡ size)
          × ((pos : ℕ) → has map pos ≡ false))
unfolding init_map create_map map_is_set get_m
init_map-IsValid size = (
  refl,
  refl,
  refl,
  (
    fresh,
    ground arith,
    ground arith,
    fresh-IsValid,
    refl,
    λ pos. ground (
      arith,
      get_or-replicate ((size + 7) / 8) ((pos - 1) / 8) nought,
      zero_bits ((pos - 1) % 8),
    ),
  ),
)
  where
    nought : ℕ
    nought = 0

    fresh : Map
    fresh = record { m = replicate ((size + 7) / 8) 0; n = (size + 7) / 8; size = size }

    fresh-IsValid : IsValid fresh
    fresh-IsValid = record {
      count = refl;
      storage = length-replicate ((size + 7) / 8) 0;
      bytes = λ i. rw (get_or-replicate ((size + 7) / 8) i nought) (omega arith);
    }

    zero_bits : (b : ℕ) → bit_and 0 (2 ^ b) ≡ 0
    zero_bits b = bit_and-bitwise 0 (2 ^ b)
