-- ===== src/Pool/Tests.antt =====
-- A pool of 1024 bytes at the address 4096.
use hcore.Base.{ℕ, ◌≡◌, refl, none, some, [], ◌∷◌, arith, inl, ◌+◌}
use hcore.Pool.{
  Pool, small_loop, palloc_small, palloc_block, palloc_large, reuse_large, pnalloc, pfree,
  data_offset, data_size,
}
use hcore.Pool.Regions.{Disjoint}
use hcore.Pool.Safety.{IsPool, IsFresh, Allocates, pnalloc-Allocates, palloc_block-overlaps}
use hcore.Pool.Large.{pfree-palloc_large}

abbrev one_block : Pool
one_block = record {
  blocks = (record { base = 4096; last = 4216; end = 5120; failed = 0 }) ∷ [];
  current = 0;
  max = 904;
  large = [];
  cleanup = [];
}

one_block-IsPool : IsPool one_block
one_block-IsPool = (
  (((omega arith, omega arith, omega arith, omega arith, omega arith), tt, tt)),
  omega arith,
  omega arith,
)

new_block-IsFresh : IsFresh (some 8192) one_block
new_block-IsFresh = (omega arith, omega arith, (inl (omega arith), tt))

pnalloc-Allocates_example : Allocates one_block 900 (pnalloc none (some 8192) one_block 900)
pnalloc-Allocates_example =
    pnalloc-Allocates none (some 8192) one_block 900 one_block-IsPool new_block-IsFresh
      (omega arith)

palloc_block-overlaps_example :
    ((palloc_block (some 8192) one_block 24).0 ≡ some (8192 + data_offset))
    × ¬ Disjoint (8192 + data_offset) data_size (8192 + data_offset) 24
palloc_block-overlaps_example = palloc_block-overlaps one_block 8192 24 (omega arith) (omega arith)

abbrev with_large : Pool
with_large = record {
  blocks = (record { base = 4096; last = 4232; end = 5120; failed = 0 }) ∷ [];
  current = 0;
  max = 904;
  large = some 65536 ∷ [];
  cleanup = [];
}

large_taken : palloc_large (some 65536) none one_block 5000 ≡ (some 65536, with_large)
unfolding palloc_large palloc_small small_loop reuse_large
large_taken = refl

pfree-palloc_large_example :
    (◌≡◌ {A = ℕ} 65536 65536)
    × ((pool'' : Pool) × (pfree with_large 65536 ≡ some pool'') × (pfree pool'' 65536 ≡ none))
pfree-palloc_large_example =
    pfree-palloc_large 65536 65536 none one_block 5000 with_large tt large_taken
