-- ===== src/Array.antt =====
-- src/hcore_array.c and include/hcore_array.h: arrays that grow in a pool.
-- An array is its header; the elements' bytes are not part of the model, so neither is the copy that
-- hcore_memcpy makes of them. Counts have 32 bits and wrap around, sizes 64.
pub mod Room
mod Tests
use hcore.Base.{
  ℕ, zero, suc, ◌+◌, ◌-◌, ◌*◌, ◌%◌, ◌^◌, Bool, true, false, ◌&&◌, Option, none, some, List, [], ◌∷◌,
  ltb, leb, ◌==◌, if◌then◌else◌,
}
use hcore.Pool.{Block, Pool, pnalloc}
use hcore.Pool.Life.{first_last, set_first_last}

-- hcore_array_t
pub record Array : Type 0 where
  pub elts : ℕ
  pub nelts : ℕ
  pub size : ℕ
  pub nalloc : ℕ

-- sizeof(hcore_array_t)
abbrev pub array_size : ℕ
array_size = 40

-- `p->d.end`
abbrev pub first_end : List Block → ℕ
first_end [] = 0
first_end (b ∷ rest) = b.end

-- hcore_array_init
unfoldable pub array_init : (malloc memalign : Option ℕ) → Pool → (n size : ℕ) → Option Array × Pool
array_init malloc memalign pool n size =
    let (elts, pool') = pnalloc malloc memalign pool (n * size % 2 ^ 64) in
    elim elts [
      | none ↦ (none, pool')
      | some p ↦ (some (record { elts = p; nelts = 0; size = size; nalloc = n }), pool')
    ]

-- hcore_array_create: the address of the header, and the array
unfoldable pub array_create :
    (malloc memalign malloc' memalign' : Option ℕ) → Pool → (n size : ℕ) → Option (ℕ × Array) × Pool
array_create malloc memalign malloc' memalign' pool n size =
    let (header, pool1) = pnalloc malloc memalign pool array_size in
    let (made, pool2) = array_init malloc' memalign' pool1 n size in
    elim header [
      | none ↦ (none, pool1)
      | some a ↦ elim made [ none ↦ (none, pool2) | some array ↦ (some (a, array), pool2) ]
    ]

-- hcore_array_destroy of the array whose header is at `at`: memory at the end of the first block is
-- given back.
unfoldable pub array_destroy : Array → (at : ℕ) → Pool → Pool
array_destroy a at pool =
    let last = first_last pool.blocks in
    let bytes = a.size * a.nalloc % 2 ^ 64 in
    let last' = if a.elts + bytes == last then last - bytes else last in
    let last'' = if at + array_size == last' then at else last' in
    record pool { blocks = set_first_last pool.blocks last'' }

-- The bytes of `n` elements, in a size_t.
abbrev pub bytes_of : Array → ℕ → ℕ
bytes_of a n = a.size * n % 2 ^ 64

-- The two ways to make room: `more` elements at the end of the first block, or `new_bytes` of new memory
-- for `nalloc'` elements. None is NULL.
unfoldable pub grow :
    (malloc memalign : Option ℕ) → Array → Pool → (more new_bytes nalloc' : ℕ) → Option Array × Pool
grow malloc memalign a pool more new_bytes nalloc' =
    let last = first_last pool.blocks in
    let (new_elt, pool') = pnalloc malloc memalign pool new_bytes in
    if (a.elts + bytes_of a a.nalloc == last)
      && leb (last + bytes_of a more) (first_end pool.blocks)
    then (
      some (record a { nalloc = (a.nalloc + more) % 2 ^ 32 }),
      record pool { blocks = set_first_last pool.blocks (last + bytes_of a more) },
    )
    else elim new_elt [
      | none ↦ (none, pool')
      | some p ↦ (some (record a { elts = p; nalloc = nalloc' }), pool')
    ]

-- The address of `n` new elements.
abbrev pub take_elts : Array → (n : ℕ) → Pool → Option ℕ × Array × Pool
take_elts a n pool =
    (some (a.elts + bytes_of a a.nelts), record a { nelts = (a.nelts + n) % 2 ^ 32 }, pool)

-- What comes of growing.
abbrev pub with_room : Array → (n : ℕ) → Option Array × Pool → Option ℕ × Array × Pool
with_room a n (none, pool) = (none, a, pool)
with_room a n (some a', pool) = take_elts a' n pool

-- hcore_array_push
unfoldable pub array_push : (malloc memalign : Option ℕ) → Array → Pool → Option ℕ × Array × Pool
array_push malloc memalign a pool =
    if a.nelts == a.nalloc
    then with_room a 1
        (grow malloc memalign a pool 1 (2 * bytes_of a a.nalloc % 2 ^ 64) (2 * a.nalloc % 2 ^ 32))
    else take_elts a 1 pool

-- hcore_array_push_n
unfoldable pub array_push_n :
    (malloc memalign : Option ℕ) → Array → Pool → (n : ℕ) → Option ℕ × Array × Pool
array_push_n malloc memalign a pool n =
    let nalloc' = 2 * (if leb a.nalloc n then n else a.nalloc) % 2 ^ 32 in
    if ltb a.nalloc ((a.nelts + n) % 2 ^ 32)
    then with_room a n (grow malloc memalign a pool n (bytes_of a nalloc') nalloc')
    else take_elts a n pool
