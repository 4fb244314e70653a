-- ===== src/Pool/Safety.antt =====
-- hcore_pnalloc gives memory of the pool's blocks that it has not given before.
use hcore.Base.{
  ℕ, zero, suc, ◌+◌, ◌-◌, ◌%◌, ◌^◌, ◌<◌, ◌≤◌, ◌≡◌, refl, sym, ap, ◌∙◌, inl, inr, Bool, false,
  Option, none, some, List, [], ◌∷◌, ◌++◌, ltb, le→leb, if◌then◌else◌, take, drop, All, arith,
}
use hcore.Pool.{
  Block, Pool, alignment, data_size, data_offset, header_size, create_pool, first_size, align_ptr,
  small_loop, count_failed, block_size, palloc_block, palloc_small, pnalloc,
}
use hcore.Pool.Regions.{
  Apart, IsBlock, AreBlocks, Holds, Disjoint, Gives, Gives-cons, Same, IfGiven, small_loop-IfGiven,
  from_current, Same-All,
}

-- Blocks that differ in `failed` alone.
abbrev Like : List Block → List Block → Type 0
Like [] [] = Unit
Like (b ∷ bs) (c ∷ cs) = (b.base ≡ c.base) × (b.last ≡ c.last) × (b.end ≡ c.end) × Like bs cs
Like [] (c ∷ cs) = ⊥
Like (b ∷ bs) [] = ⊥

Like-refl : (bs : List Block) → Like bs bs
Like-refl [] = tt
Like-refl (b ∷ bs) = (refl, refl, refl, Like-refl bs)

Like-Same : (bs cs : List Block) → Like bs cs → Same bs cs
Like-Same [] [] l = tt
Like-Same [] (c ∷ cs) l = absurd l
Like-Same (b ∷ bs) [] l = absurd l
Like-Same (b ∷ bs) (c ∷ cs) l = (l.0, l.2, Like-Same bs cs l.3)

Like-AreBlocks : (bs cs : List Block) → Like bs cs → AreBlocks bs → AreBlocks cs
Like-AreBlocks [] [] l w = tt
Like-AreBlocks [] (c ∷ cs) l w = absurd l
Like-AreBlocks (b ∷ bs) [] l w = absurd l
Like-AreBlocks (b ∷ bs) (c ∷ cs) l w = (
  rw (sym l.0, sym l.1, sym l.2) w.0,
  rw (sym l.0, sym l.2) (Same-All b bs cs w.1 (Like-Same bs cs l.3)),
  Like-AreBlocks bs cs l.3 w.2,
)

Like-Holds : (bs cs : List Block) (a n : ℕ) → Like bs cs → Holds bs a n → Holds cs a n
Like-Holds [] cs a n l h = absurd h
Like-Holds (b ∷ bs) [] a n l h = absurd l
Like-Holds (b ∷ bs) (c ∷ cs) a n l (inl h) = inl (rw (sym l.0, sym l.1) h)
Like-Holds (b ∷ bs) (c ∷ cs) a n l (inr h) = inr (Like-Holds bs cs a n l.3 h)

count_failed-Like : (i cur : ℕ) (bs : List Block) → Like bs (count_failed i cur bs).0
unfolding count_failed
count_failed-Like i cur [] = tt
count_failed-Like i cur (b ∷ []) = (refl, refl, refl, tt)
count_failed-Like i cur (b ∷ c ∷ bs) =
    (refl, refl, refl, count_failed-Like (i + 1) (if ltb 4 b.failed then i + 1 else cur) (c ∷ bs))

from_Like :
    (cur : ℕ) (bs rest : List Block) → Like (drop cur bs) rest → Like bs (take cur bs ++ rest)
from_Like zero bs rest l = l
from_Like (suc cur) [] rest l = l
from_Like (suc cur) (b ∷ bs) rest l = (refl, refl, refl, from_Like cur bs rest l)

All-snoc :
    (b : Block) (bs : List Block) (c : Block)
    → All (Apart b) bs
    → Apart b c
    → All (Apart b) (bs ++ c ∷ [])
All-snoc b [] c p a = (a, tt)
All-snoc b (d ∷ bs) c p a = (p.0, All-snoc b bs c p.1 a)

-- A new block at the end, with a piece of it given out.
Gives-last :
    (bs : List Block) (c : Block) (size m : ℕ)
    → AreBlocks bs
    → All (λ b. Apart b c) bs
    → IsBlock c
    → c.base ≤ m
    → m + size ≡ c.last
    → Gives bs size m (bs ++ c ∷ [])
Gives-last [] c size m w p i h e = (((i, tt, tt)), inl (h, omega (arith, e)), λ a n x. absurd x)
Gives-last (b ∷ bs) c size m w p i h e =
    Gives-cons b bs size m (bs ++ c ∷ []) w.0 (All-snoc b bs c w.1 p.0)
      (Gives-last bs c size m w.2 p.1 i h e)

-- What posix_memalign gives: memory of the size of a block, aligned, apart from the pool's blocks.
abbrev pub IsFresh : Option ℕ → Pool → Type 0
IsFresh none pool = Unit
IsFresh (some p) pool =
    (p % 16 ≡ 0)
    × (p + block_size pool < 2 ^ 64)
    × All (λ b. Apart b (record { base = p; last = p; end = p + block_size pool; failed = 0 }))
        pool.blocks

-- A pool that hcore_create_pool or a later operation leaves.
abbrev pub IsPool : Pool → Type 0
IsPool pool =
    AreBlocks pool.blocks
    × (pool.max + header_size ≤ block_size pool)
    × (block_size pool % alignment ≡ 0)

-- The outcome of an allocation of `size` bytes.
abbrev pub Allocates : Pool → (size : ℕ) → Option ℕ × Pool → Type 0
Allocates pool size (none, pool') = IsPool pool'
Allocates pool size (some m, pool') = IsPool pool' × Gives pool.blocks size m pool'.blocks

Same-first_size : (bs cs : List Block) → Same bs cs → first_size bs ≡ first_size cs
Same-first_size [] [] s = refl
Same-first_size [] (c ∷ cs) s = absurd s
Same-first_size (b ∷ bs) [] s = absurd s
Same-first_size (b ∷ bs) (c ∷ cs) s = rw (s.0, s.1)

first_size-append :
    (bs : List Block) (c : Block) → 1 ≤ first_size bs → first_size (bs ++ c ∷ []) ≡ first_size bs
first_size-append [] c h = absurd (omega arith)
first_size-append (b ∷ bs) c h = refl

Like-Apart :
    (bs cs : List Block) (c : Block)
    → Like bs cs
    → All (λ b. Apart b c) bs
    → All (λ b. Apart b c) cs
Like-Apart [] [] c l p = tt
Like-Apart [] (d ∷ cs) c l p = absurd l
Like-Apart (b ∷ bs) [] c l p = absurd l
Like-Apart (b ∷ bs) (d ∷ cs) c l p = (rw (sym l.0, sym l.2) p.0, Like-Apart bs cs c l.3 p.1)

new_block : (pool : Pool) (base size : ℕ) → Block
new_block pool base size = record {
  base = base;
  last = align_ptr (base + data_size) alignment + size;
  end = base + block_size pool;
  failed = 0;
}

new_block-IsBlock :
    (pool : Pool) (base size : ℕ)
    → IsPool pool
    → IsFresh (some base) pool
    → size ≤ pool.max
    → IsBlock (new_block pool base size)
unfolding new_block
new_block-IsBlock pool base size w f h =
    (omega arith, omega (arith, w.1, f.0, h), f.1, omega (arith, f.0), omega (arith, f.0, w.2))

-- The blocks before, and a new one.
with_new :
    (pool : Pool) (base size : ℕ) (rest : List Block)
    → Like (drop pool.current pool.blocks) rest
    → IsPool pool
    → IsFresh (some base) pool
    → size ≤ pool.max
    → (pool' : Pool)
    → pool'.blocks ≡ take pool.current pool.blocks ++ rest ++ new_block pool base size ∷ []
    → pool'.max ≡ pool.max
    → IsPool pool' × Gives pool.blocks size (align_ptr (base + data_size) alignment) pool'.blocks
unfolding new_block
with_new pool base size rest l w f h pool' e k =
    let bs = take pool.current pool.blocks ++ rest in
    let c = new_block pool base size in
    let m = align_ptr (base + data_size) alignment in
    let like : Like pool.blocks bs = from_Like pool.current pool.blocks rest l in
    let e' : pool'.blocks ≡ bs ++ c ∷ [] = e in
    let s = Same-first_size pool.blocks bs (Like-Same pool.blocks bs like) in
    let fs : first_size (bs ++ c ∷ []) ≡ first_size pool.blocks =
      first_size-append bs c (omega (arith, sym s, w.1)) ∙ sym s in
    let g : Gives bs size m (bs ++ c ∷ []) =
      Gives-last bs c size m (Like-AreBlocks pool.blocks bs like w.0)
        (Like-Apart pool.blocks bs c like f.2) (new_block-IsBlock pool base size w f h)
        (omega arith) refl in
    rw (e', k)
      (
        (g.0, omega (arith, fs, w.1), omega (arith, fs, w.2)),
        (g.0, g.1, λ a n x. g.2 a n (Like-Holds pool.blocks bs a n like x)),
      )

palloc_block-Allocates :
    (memalign : Option ℕ) (pool : Pool) (size : ℕ)
    → IsPool pool
    → IsFresh memalign pool
    → size ≤ pool.max
    → Allocates pool size (palloc_block memalign pool size)
unfolding palloc_block new_block
palloc_block-Allocates none pool size w f h = w
palloc_block-Allocates (some base) pool size w f h =
    let cf = count_failed pool.current pool.current (drop pool.current pool.blocks) in
    with_new pool base size cf.0
      (count_failed-Like pool.current pool.current (drop pool.current pool.blocks)) w f h
      (palloc_block (some base) pool size).1 refl refl

by_loop :
    (memalign : Option ℕ) (pool : Pool) (size : ℕ) (o : Option (ℕ × List Block))
    → IsPool pool
    → IsFresh memalign pool
    → size ≤ pool.max
    → IfGiven (drop pool.current pool.blocks) size o
    → Allocates pool size (elim o [
      | some (m, rest) ↦ (some m, record pool { blocks = take pool.current pool.blocks ++ rest })
      | none ↦ palloc_block memalign pool size
    ])
unfolding IfGiven
by_loop memalign pool size none w f h g = palloc_block-Allocates memalign pool size w f h
by_loop memalign pool size (some (m, rest)) w f h g =
    let r = from_current pool.current pool.blocks size m rest w.0 g in
    let e : first_size pool.blocks ≡ first_size (take pool.current pool.blocks ++ rest) =
      Same-first_size pool.blocks (take pool.current pool.blocks ++ rest) r.0 in
    ((r.1.0, omega (arith, e, w.1), omega (arith, sym e, w.2)), r.1)

AreBlocks-drop : (n : ℕ) (bs : List Block) → AreBlocks bs → AreBlocks (drop n bs)
AreBlocks-drop zero bs w = w
AreBlocks-drop (suc n) [] w = w
AreBlocks-drop (suc n) (b ∷ bs) w = AreBlocks-drop n bs w.2

pub palloc_small-Allocates :
    (memalign : Option ℕ) (pool : Pool) (size : ℕ) (align : Bool)
    → IsPool pool
    → IsFresh memalign pool
    → size ≤ pool.max
    → Allocates pool size (palloc_small memalign pool size align)
unfolding palloc_small
palloc_small-Allocates memalign pool size align w f h =
    by_loop memalign pool size (small_loop size align (drop pool.current pool.blocks)) w f h (
      small_loop-IfGiven size align (drop pool.current pool.blocks)
        (AreBlocks-drop pool.current pool.blocks w.0))

-- On a pool whose blocks are memory apart, filled from their start to `last`, aligned and as large as
-- the first, for a size up to `max`, and if posix_memalign gives aligned memory of the size of a block
-- apart from the others or none: hcore_pnalloc leaves such a pool, and what it gives is `size` bytes of
-- one of its blocks, now counted as given, apart from all bytes given before, which still are.
pub pnalloc-Allocates :
    (malloc memalign : Option ℕ) (pool : Pool) (size : ℕ)
    → IsPool pool
    → IsFresh memalign pool
    → size ≤ pool.max
    → Allocates pool size (pnalloc malloc memalign pool size)
unfolding pnalloc
pnalloc-Allocates malloc memalign pool size w f h =
    rw (le→leb size pool.max h) (palloc_small-Allocates memalign pool size false w f h)

max_fits :
    (rest page_size p size : ℕ)
    → rest ≡ size - header_size
    → header_size ≤ size
    → (if ltb rest (page_size - 1) then rest else page_size - 1) + header_size ≤ p + size - p
max_fits rest page_size p size r h = ground arith

-- A new pool of a size that is a multiple of 8 and not below its header's, of memory that is aligned,
-- is a pool as hcore_pnalloc wants it, with one block of that size of which its header is given out.
create_pool-IsPool :
    (p page_size size : ℕ)
    → p % 16 ≡ 0
    → p + size < 2 ^ 64
    → header_size ≤ size
    → size % alignment ≡ 0
    → (pool : Pool) × (create_pool (some p) page_size size ≡ some pool)
      × IsPool pool
      × (block_size pool ≡ size)
      × Holds pool.blocks p header_size
unfolding create_pool
create_pool-IsPool p page_size size a b h e =
    let rest = (size + 2 ^ 64 - header_size) % 2 ^ 64 in
    let r : rest ≡ size - header_size = omega arith in
    (
      record {
        blocks = (record { base = p; last = p + header_size; end = p + size; failed = 0 }) ∷ [];
        current = 0;
        max = if ltb rest (page_size - 1) then rest else page_size - 1;
        large = [];
        cleanup = [];
      },
      refl,
      (
        ((omega arith, omega arith, b, omega arith, omega arith), tt, tt),
        max_fits rest page_size p size r h,
        omega arith,
      ),
      omega arith,
      inl (omega arith, omega arith),
    )

-- On the first block of memory behind the pool's own, which posix_memalign aligns by 16, hcore_palloc_block
-- gives out memory that starts where the block's own hcore_pool_data_t stands: as `custom` comes before `d`
-- in hcore_pool_t, `d` is not in the first sizeof(hcore_pool_data_t) bytes.
pub palloc_block-overlaps :
    (pool : Pool) (base size : ℕ)
    → base % 16 ≡ 0
    → 1 ≤ size
    → ((palloc_block (some base) pool size).0 ≡ some (base + data_offset))
      × ¬ Disjoint (base + data_offset) data_size (base + data_offset) size
unfolding palloc_block
palloc_block-overlaps pool base size a h =
    let m : align_ptr (base + data_size) alignment ≡ base + data_offset = omega arith in
    (ap some m, λ d. ground arith)
