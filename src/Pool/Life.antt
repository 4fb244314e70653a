-- ===== src/Pool/Life.antt =====
-- src/hcore_pool.c: resizing, clean-up handlers, and the end of a pool.
use hcore.Base.{ℕ, ◌+◌, ◌&&◌, Option, none, some, List, [], ◌∷◌, ◌++◌, leb, ◌==◌, if◌then◌else◌}
use hcore.Pool.{Block, Cleanup, Pool, pnalloc, pfree}

-- hcore_pcalloc; that the memory is zeroed is not part of the model
abbrev pub pcalloc : (malloc memalign : Option ℕ) → Pool → ℕ → Option ℕ × Pool
pcalloc malloc memalign pool size = pnalloc malloc memalign pool size

-- `pool->d.last`
abbrev pub first_last : List Block → ℕ
first_last [] = 0
first_last (b ∷ rest) = b.last

-- `pool->d.last = last`
abbrev pub set_first_last : List Block → ℕ → List Block
set_first_last [] last = []
set_first_last (b ∷ rest) last = record b { last = last } ∷ rest

-- The loop of hcore_prealloc.
unfoldable pub resize_loop : (p old_size new_size : ℕ) → List Block → Option (List Block)
resize_loop p old_size new_size [] = none
resize_loop p old_size new_size (node ∷ rest) =
    let later = resize_loop p old_size new_size rest in
    if (p + old_size == node.last) && leb (p + new_size) node.end
    then some (record node { last = p + new_size } ∷ rest)
    else elim later [ none ↦ none | some rest' ↦ some (node ∷ rest') ]

-- The end of hcore_prealloc: a new piece, and the old one freed if it is a large one.
unfoldable pub move : (malloc memalign : Option ℕ) → Pool → (p new_size : ℕ) → Option ℕ × Pool
move malloc memalign pool p new_size =
    let (new_p, pool') = pnalloc malloc memalign pool new_size in
    elim new_p [
      | none ↦ (none, pool')
      | some q ↦ elim (pfree pool' p) [ none ↦ (some q, pool') | some pool'' ↦ (some q, pool'') ]
    ]

-- hcore_prealloc for a `p` that is not NULL; for NULL it is hcore_palloc
unfoldable pub prealloc :
    (malloc memalign : Option ℕ) → Pool → Option ℕ → (old_size new_size : ℕ) → Option ℕ × Pool
prealloc malloc memalign pool none old_size new_size = pnalloc malloc memalign pool new_size
prealloc malloc memalign pool (some p) old_size new_size =
    let resized =
      if leb old_size pool.max then resize_loop p old_size new_size pool.blocks else none in
    let kept =
      if leb new_size old_size then (some p, pool) else move malloc memalign pool p new_size in
    if new_size == 0
    then (if p + old_size == first_last pool.blocks
        then (none, record pool { blocks = set_first_last pool.blocks p })
        else elim (pfree pool p) [ none ↦ (none, pool) | some pool' ↦ (none, pool') ])
    else elim resized [ some blocks ↦ (some p, record pool { blocks = blocks }) | none ↦ kept ]

-- sizeof(hcore_pool_cleanup_t)
abbrev pub cleanup_size : ℕ
cleanup_size = 24

-- hcore_pool_cleanup_add; the C library is asked twice
unfoldable pub cleanup_add :
    (malloc memalign malloc' memalign' : Option ℕ) → Pool → (data_size : ℕ) → Option Cleanup × Pool
cleanup_add malloc memalign malloc' memalign' pool size =
    let (c, pool1) = pnalloc malloc memalign pool cleanup_size in
    let (at, pool2) = pnalloc malloc' memalign' pool1 size in
    elim c [
      | none ↦ (none, pool1)
      | some a ↦
          if size == 0
          then (
            some (record { handler = none; data_at = none }),
            record pool1 { cleanup = (record { handler = none; data_at = none }) ∷ pool1.cleanup },
          )
          else elim at [
            | none ↦ (none, pool2)
            | some d ↦ (
              some (record { handler = none; data_at = some d }),
              record pool2 {
                cleanup = (record { handler = none; data_at = some d }) ∷ pool2.cleanup;
              },
            )
          ]
    ]

-- What hcore_destroy_pool does: run a handler on its data, or free an address.
pub data Act : Type 0 where
  run : (handler : ℕ) → Option ℕ → Act
  free : ℕ → Act

unfoldable pub run_cleanups : List Cleanup → List Act
run_cleanups [] = []
run_cleanups (c ∷ rest) = elim c.handler [
  | none ↦ run_cleanups rest
  | some h ↦ run h c.data_at ∷ run_cleanups rest
]

unfoldable pub free_large : List (Option ℕ) → List Act
free_large [] = []
free_large (none ∷ rest) = free_large rest
free_large (some p ∷ rest) = free p ∷ free_large rest

unfoldable pub free_blocks : List Block → List Act
free_blocks [] = []
free_blocks (b ∷ rest) = free b.base ∷ free_blocks rest

-- hcore_destroy_pool
unfoldable pub destroy_pool : Pool → List Act
destroy_pool pool = run_cleanups pool.cleanup ++ free_large pool.large ++ free_blocks pool.blocks
