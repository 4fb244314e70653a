-- ===== src/Bitmap/Tests.antt =====
-- Runs of the functions of src/hcore_map.c, and their theorems at these inputs.
use hcore.Base.{ℕ, ◌<◌, ◌≡◌, refl, true, false, some, [], ◌∷◌, arith}
use hcore.Bitmap.{Map, byte, map_set, map_unset, map_set_range, map_unset_range}
use hcore.Bitmap.Laws.{IsValid, IsPut, map_writes-IsPut}
use hcore.Bitmap.Range.{IsPutRange, between, map_set_range-IsPutRange, map_unset_range-IsPutRange}

-- 20 positions, of which 3, 9 and 16 are set
abbrev some_map : Map
some_map = record { m = 4 ∷ 129 ∷ 0 ∷ []; n = 3; size = 20 }

some_map-IsValid : IsValid some_map
some_map-IsValid = record { count = refl; storage = refl; bytes = at }
  where
    at : (i : ℕ) → byte some_map.m i < 256
    at i = ground arith

map_writes-IsPut_example :
    ((map' : Map) × (map_set some_map 17 ≡ some map') × IsPut true some_map 17 map')
    × ((map' : Map) × (map_unset some_map 17 ≡ some map') × IsPut false some_map 17 map')
map_writes-IsPut_example = map_writes-IsPut some_map some_map-IsValid 17 (omega arith, omega arith)

map_set_range-IsPutRange_example :
    (map' : Map) × (map_set_range some_map 2 19 ≡ some map')
    × IsPutRange some_map 2 19 (λ q. true) map'
map_set_range-IsPutRange_example =
    map_set_range-IsPutRange some_map some_map-IsValid 2 19 (omega arith) (omega arith)
      (omega arith)

map_unset_range-IsPutRange_example :
    (map' : Map) × (map_unset_range some_map 2 19 ≡ some map')
    × IsPutRange some_map 2 19 (between 2 19) map'
map_unset_range-IsPutRange_example =
    map_unset_range-IsPutRange some_map some_map-IsValid 2 19 (omega arith) (omega arith)
      (omega arith)
