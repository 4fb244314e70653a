-- ===== src/Chain.antt =====
-- src/hcore_buf.c and include/hcore_buf.h: chains of buffers, which a pool keeps when they are freed.
-- An address is a number, NULL is 0. The memory of a chain is the function from its address; what the
-- `free` of a chain does, a function of its user, is a parameter.
pub mod Free
mod Tests
use hcore.Base.{ℕ, ◌+◌, Bool, Option, none, some, ◌==◌, if◌then◌else◌}
use hcore.Pool.{Pool, pnalloc}

-- hcore_buf_t
pub record Buf : Type 0 where
  pub pos : ℕ
  pub last : ℕ
  pub start : ℕ
  pub end : ℕ

-- hcore_chain_t
pub record Chain : Type 0 where
  pub buf : ℕ
  pub next : ℕ
  pub free : ℕ
  pub user_data : ℕ

-- The pool with its list of free chains, `pool->chain`, and every chain in memory.
pub record Chains : Type 0 where
  pub pool : Pool
  pub chain : ℕ
  pub at : ℕ → Chain

abbrev pub put_chain : Chains → ℕ → Chain → Chains
put_chain s cl c = record s { at = λ a. if a == cl then c else s.at a }

-- sizeof(hcore_chain_t) and sizeof(hcore_buf_t)
abbrev pub chain_size : ℕ
chain_size = 32

abbrev pub buf_size : ℕ
buf_size = 32

abbrev cleared : Chain
cleared = record { buf = 0; next = 0; free = 0; user_data = 0 }

-- hcore_alloc_chain; `malloc` and `memalign` as in the pool
unfoldable pub alloc_chain : (malloc memalign : Option ℕ) → Chains → Option ℕ × Chains
alloc_chain malloc memalign s =
    let cl = s.chain in
    let (made, pool') = pnalloc malloc memalign s.pool chain_size in
    if cl == 0
    then elim made [
      | none ↦ (none, record s { pool = pool' })
      | some p ↦ (some p, put_chain (record s { pool = pool' }) p cleared)
    ]
    else (
      some cl,
      put_chain (record s { chain = (s.at cl).next }) cl (record (s.at cl) { next = 0; free = 0 }),
    )

-- hcore_alloc_chain_with_buf
unfoldable pub alloc_chain_with_buf :
    (malloc memalign malloc' memalign' : Option ℕ) → Chains → Option ℕ × Chains
alloc_chain_with_buf malloc memalign malloc' memalign' s =
    let (made, s1) = alloc_chain malloc memalign s in
    elim made [
      | none ↦ (none, s1)
      | some cl ↦
          let (b, pool') = pnalloc malloc' memalign' s1.pool buf_size in
          if (s1.at cl).buf == 0
          then elim b [
            | none ↦
                (none, put_chain (record s1 { pool = pool' }) cl (record (s1.at cl) { buf = 0 }))
            | some p ↦
                (some cl, put_chain (record s1 { pool = pool' }) cl (record (s1.at cl) { buf = p }))
          ]
          else (some cl, s1)
    ]

-- What `cl->free(cl)` does.
module _ (call : (handler cl : ℕ) → Chains → Chains) where
  -- hcore_free_chain_hold_buf
  unfoldable pub free_chain_hold_buf : Chains → ℕ → Chains
  free_chain_hold_buf s cl =
      let s1 = if (s.at cl).free == 0 then s else call (s.at cl).free cl s in
      record (put_chain s1 cl (record (s1.at cl) { free = 0; next = s1.chain })) { chain = cl }

  -- hcore_free_chain
  unfoldable pub free_chain : Chains → ℕ → Chains
  free_chain s cl =
      let s1 = free_chain_hold_buf s cl in put_chain s1 cl (record (s1.at cl) { buf = 0 })

-- hcore_alloc_buf: the address of the buffer, and the buffer
unfoldable pub alloc_buf :
    (malloc memalign malloc' memalign' : Option ℕ) → Pool → (size : ℕ) → Option (ℕ × Buf) × Pool
alloc_buf malloc memalign malloc' memalign' pool size =
    let (made, pool1) = pnalloc malloc memalign pool buf_size in
    let (start, pool2) = pnalloc malloc' memalign' pool1 size in
    elim made [
      | none ↦ (none, pool1)
      | some b ↦ elim start [
        | none ↦ (none, pool2)
        | some p ↦ (some (b, record { pos = p; last = p; start = p; end = p + size }), pool2)
      ]
    ]
