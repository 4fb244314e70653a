-- ===== src/Pool.antt =====
-- src/hcore_pool.c and include/hcore_pool.h: memory given out from blocks, and large pieces beside.
-- Pointers are addresses, all below 2^64. A pool is its list of blocks, the first of which starts with
-- the pool itself, and `current` is the position of a block. `memalign` and `malloc` are what
-- posix_memalign and malloc of the C library give in a call, none if they have no memory; log
-- messages are left out.
pub mod Life
pub mod Regions
pub mod Safety
pub mod Large
mod Tests
use hcore.Base.{
  ℕ, zero, suc, ◌+◌, ◌-◌, ◌*◌, ◌/◌, ◌%◌, ◌^◌, Bool, true, false, not, ◌&&◌, ◌||◌, Option, none,
  some, List, [], ◌∷◌, ◌++◌, ltb, leb, ◌==◌, if◌then◌else◌, length, take, drop, get_or, set, min,
}

-- sizeof(hcore_pool_data_t), sizeof(hcore_pool_t), HCORE_ALIGNMENT, and where `d` is in hcore_pool_t
abbrev pub data_size : ℕ
data_size = 32

abbrev pub header_size : ℕ
header_size = 120

abbrev pub alignment : ℕ
alignment = 8

abbrev pub data_offset : ℕ
data_offset = 32

-- hcore_align_ptr
abbrev pub align_ptr : ℕ → ℕ → ℕ
align_ptr p a = (p + (a - 1)) / a * a

-- The difference of two pointers as a size_t.
abbrev pub room : (end m : ℕ) → ℕ
room end m = (end + 2 ^ 64 - m) % 2 ^ 64

-- hcore_pool_data_t of the block at `base`
pub record Block : Type 0 where
  pub base : ℕ
  pub last : ℕ
  pub end : ℕ
  pub failed : ℕ

-- hcore_pool_cleanup_t: the address of the handler and its data, if they are not NULL
pub record Cleanup : Type 0 where
  pub handler : Option ℕ
  pub data_at : Option ℕ

-- hcore_pool_t of a pool that is not customed; `large` is the `alloc` of each hcore_pool_large_t.
pub record Pool : Type 0 where
  pub blocks : List Block
  pub current : ℕ
  pub max : ℕ
  pub large : List (Option ℕ)
  pub cleanup : List Cleanup

-- hcore_create_pool; the header of the pool starts its first block
unfoldable pub create_pool : (memalign : Option ℕ) → (page_size size : ℕ) → Option Pool
create_pool none page_size size = none
create_pool (some p) page_size size =
    let rest = (size + 2 ^ 64 - header_size) % 2 ^ 64 in
    let first : Block = record { base = p; last = p + header_size; end = p + size; failed = 0 } in
    some (record {
      blocks = first ∷ [];
      current = 0;
      max = if ltb rest (page_size - 1) then rest else page_size - 1;
      large = [];
      cleanup = [];
    })

-- The loop of hcore_palloc_small, over the blocks from `current` on.
unfoldable pub small_loop : (size : ℕ) (align : Bool) → List Block → Option (ℕ × List Block)
small_loop size align [] = none
small_loop size align (p ∷ rest) =
    let m = if align then align_ptr p.last alignment else p.last in
    let later = small_loop size align rest in
    if leb size (room p.end m)
    then some (m, record p { last = m + size } ∷ rest)
    else elim later [ none ↦ none | some (n, rest') ↦ some (n, p ∷ rest') ]

-- The loop of hcore_palloc_block, from the block at position `i` on: the blocks, and `current`.
unfoldable pub count_failed : (i current : ℕ) → List Block → List Block × ℕ
count_failed i current [] = ([], current)
count_failed i current (p ∷ []) = (p ∷ [], current)
count_failed i current (p ∷ q ∷ rest) =
    let (rest', current') =
      count_failed (i + 1) (if ltb 4 p.failed then i + 1 else current) (q ∷ rest) in
    (record p { failed = p.failed + 1 } ∷ rest', current')

-- `psize`, the size of the first block
abbrev pub first_size : List Block → ℕ
first_size [] = 0
first_size (p ∷ rest) = p.end - p.base

abbrev pub block_size : Pool → ℕ
block_size pool = first_size pool.blocks

-- hcore_palloc_block
unfoldable pub palloc_block : (memalign : Option ℕ) → Pool → ℕ → Option ℕ × Pool
palloc_block none pool size = (none, pool)
palloc_block (some base) pool size =
    let m = align_ptr (base + data_size) alignment in
    let new_pool : Block = record {
      base = base;
      last = m + size;
      end = base + block_size pool;
      failed = 0;
    } in
    let (rest, current) = count_failed pool.current pool.current (drop pool.current pool.blocks) in
    (
      some m,
      record pool {
        blocks = take pool.current pool.blocks ++ rest ++ new_pool ∷ [];
        current = current;
      },
    )

-- hcore_palloc_small
unfoldable pub palloc_small : (memalign : Option ℕ) → Pool → ℕ → (align : Bool) → Option ℕ × Pool
palloc_small memalign pool size align =
    elim (small_loop size align (drop pool.current pool.blocks)) [
      | some (m, rest) ↦ (some m, record pool { blocks = take pool.current pool.blocks ++ rest })
      | none ↦ palloc_block memalign pool size
    ]

-- The loop of hcore_palloc_large: the first free entry among the first five gets `p`.
unfoldable pub reuse_large : (n : ℕ) (p : ℕ) → List (Option ℕ) → Option (List (Option ℕ))
reuse_large n p [] = none
reuse_large n p (none ∷ large) = some (some p ∷ large)
reuse_large n p (some q ∷ large) =
    let later = reuse_large (n + 1) p large in
    if ltb 3 n then none else elim later [ none ↦ none | some large' ↦ some (some q ∷ large') ]

-- sizeof(hcore_pool_large_t)
abbrev pub large_size : ℕ
large_size = 16

-- hcore_palloc_large
unfoldable pub palloc_large : (malloc memalign : Option ℕ) → Pool → ℕ → Option ℕ × Pool
palloc_large none memalign pool size = (none, pool)
palloc_large (some p) memalign pool size = elim (reuse_large 0 p pool.large) [
  | some large ↦ (some p, record pool { large = large })
  | none ↦
      let (entry, pool') = palloc_small memalign pool large_size true in
      elim entry [
        | none ↦ (none, pool')
        | some m ↦ (some p, record pool' { large = some p ∷ pool'.large })
      ]
]

-- hcore_pnalloc and hcore_palloc, which is another name for it
unfoldable pub pnalloc : (malloc memalign : Option ℕ) → Pool → ℕ → Option ℕ × Pool
pnalloc malloc memalign pool size =
    if leb size pool.max
    then palloc_small memalign pool size false
    else palloc_large malloc memalign pool size

-- The loop of hcore_pfree.
unfoldable pub free_loop : ℕ → List (Option ℕ) → Option (List (Option ℕ))
free_loop p [] = none
free_loop p (none ∷ large) = elim (free_loop p large) [
  | none ↦ none
  | some large' ↦ some (none ∷ large')
]
free_loop p (some q ∷ large) =
    let later = free_loop p large in
    if p == q
    then some (none ∷ large)
    else elim later [ none ↦ none | some large' ↦ some (some q ∷ large') ]

-- hcore_pfree; none is HCORE_ERROR. `p` is not NULL.
unfoldable pub pfree : Pool → ℕ → Option Pool
pfree pool p = elim (free_loop p pool.large) [
  | none ↦ none
  | some large ↦ some (record pool { large = large })
]
