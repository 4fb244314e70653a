-- ===== src/Array/Tests.antt =====
-- A full array of two elements of eight bytes at the end of a pool's block.
use hcore.Base.{none, [], ◌∷◌, arith}
use hcore.Pool.{Pool}
use hcore.Pool.Safety.{IsPool}
use hcore.Array.{Array, array_push, array_push_n}
use hcore.Array.Room.{Pushes, array_push-Pushes}

abbrev some_pool : Pool
some_pool = record {
  blocks = (record { base = 4096; last = 4232; end = 5120; failed = 0 }) ∷ [];
  current = 0;
  max = 904;
  large = [];
  cleanup = [];
}

abbrev full_array : Array
full_array = record { elts = 4216; nelts = 2; size = 8; nalloc = 2 }

some_pool-IsPool : IsPool some_pool
some_pool-IsPool = (
  ((omega arith, omega arith, omega arith, omega arith, omega arith), tt, tt),
  omega arith,
  omega arith,
)

array_push-Pushes_example :
    Pushes none none full_array some_pool 1 (array_push none none full_array some_pool)
    × Pushes none none full_array some_pool 200 (array_push_n none none full_array some_pool 200)
array_push-Pushes_example =
    array_push-Pushes none none full_array some_pool 200
      (omega arith, omega arith, omega arith, omega arith) some_pool-IsPool (omega arith)
