-- ===== src/Array/Room.antt =====
-- There is memory for what is pushed.
use native.Mathlib.Nat.{mul-le-mul_left, mul_comm, mul-add}
use hcore.Base.{
  ℕ, ◌+◌, ◌*◌, ◌%◌, ◌^◌, ◌<◌, ◌≤◌, ◌≡◌, refl, ap, false, ◌&&◌, Option, none, some, ltb, leb, leb→le,
  ◌==◌, if◌then◌else◌, arith, Bool-cases, Option-cases, inl, inr, ◌⊎◌, List, [], ◌∷◌,
}
use mathlib.Core.Path.{subst}
use hcore.Pool.{Block, Pool, pnalloc, first_size}
use hcore.Pool.Life.{first_last, set_first_last}
use hcore.Pool.Regions.{Gives, Gives-first, AreBlocks}
use hcore.Pool.Safety.{IsPool}
use hcore.Array.{Array, first_end, bytes_of, grow, take_elts, with_room, array_push, array_push_n}

-- There is an element's room at least, no more elements than there is room for, and the counts can be
-- doubled and the sizes multiplied.
abbrev pub IsArray : Array → Type 0
IsArray a = (a.nelts ≤ a.nalloc) × (1 ≤ a.nalloc) × (a.nalloc < 2 ^ 31) × (a.size < 2 ^ 32)

-- Where the room of `a'` comes from: it is that of `a`; or the pool has given out the bytes of `k` more
-- elements directly behind those of `a`; or the pool has given out new memory for all of it.
abbrev pub Room : (malloc memalign : Option ℕ) → Array → Pool → Array → Pool → Type 0
Room malloc memalign a pool a' pool' =
    ((a'.elts ≡ a.elts) × (a'.nalloc ≡ a.nalloc) × (pool' ≡ pool))
    ⊎ ((a'.elts ≡ a.elts)
        × ((k : ℕ) × (a'.nalloc ≡ a.nalloc + k)
            × Gives pool.blocks (a.size * k) (a.elts + a.size * a.nalloc) pool'.blocks))
    ⊎ ((2 * a.nalloc ≤ a'.nalloc)
        × (pnalloc malloc memalign pool (a.size * a'.nalloc) ≡ (some a'.elts, pool')))

-- How a call that pushes `n` elements ends.
abbrev pub Pushes :
    (malloc memalign : Option ℕ) → Array → Pool → ℕ → Option ℕ × Array × Pool → Type 0
Pushes malloc memalign a pool n (none, a', pool') = a' ≡ a
Pushes malloc memalign a pool n (some elt, a', pool') =
    (elt ≡ a'.elts + a'.size * a.nelts)
    × (a'.nelts ≡ a.nelts + n)
    × (a'.nelts ≤ a'.nalloc)
    × (a'.size ≡ a.size)
    × Room malloc memalign a pool a' pool'

-- Room for `n` more.
Grown : (malloc memalign : Option ℕ) → Array → Pool → ℕ → Option Array × Pool → Type 0
Grown malloc memalign a pool n (none, pool') = Unit
Grown malloc memalign a pool n (some a', pool') =
    (a.nelts + n ≤ a'.nalloc)
    × (a'.nelts ≡ a.nelts)
    × (a'.size ≡ a.size)
    × Room malloc memalign a pool a' pool'

bytes_lem : (s n : ℕ) → s < 2 ^ 32 → n < 2 ^ 32 → s * n % 2 ^ 64 ≡ s * n
bytes_lem s n h k =
    let le : n * s ≤ n * (2 ^ 32) = mul-le-mul_left n (omega arith) in
    omega (arith, le, mul_comm n s)

-- Growing at the end of the first block.
extends :
    (blocks : List Block) (more : ℕ)
    → AreBlocks blocks
    → 1 ≤ first_end blocks
    → first_last blocks + more ≤ first_end blocks
    → Gives blocks more (first_last blocks) (set_first_last blocks (first_last blocks + more))
extends [] more w p h = absurd (omega arith)
extends (b ∷ bs) more w p h = Gives-first b bs more b.last w.0 w.1 w.2 (omega arith) h

first_end-pos : (pool : Pool) → IsPool pool → 1 ≤ first_end pool.blocks
first_end-pos pool w = by_blocks pool.blocks refl
  where
    by_blocks : (bs : List Block) → pool.blocks ≡ bs → 1 ≤ first_end bs
    by_blocks [] e = absurd (omega (arith, w.1, ap first_size e))
    by_blocks (b ∷ bs) e = omega (arith, w.1, ap first_size e)

grow-Grown :
    (malloc memalign : Option ℕ) (a : Array) (pool : Pool) (more new_bytes nalloc' : ℕ)
    → IsArray a
    → IsPool pool
    → more < 2 ^ 31
    → a.nelts + more ≤ nalloc'
    → 2 * a.nalloc ≤ nalloc'
    → new_bytes ≡ a.size * nalloc'
    → Grown malloc memalign a pool more (grow malloc memalign a pool more new_bytes nalloc')
unfolding Grown grow
grow-Grown malloc memalign a pool more new_bytes nalloc' i w b h k e =
    let last = first_last pool.blocks in
    let have : bytes_of a a.nalloc ≡ a.size * a.nalloc =
      bytes_lem a.size a.nalloc i.3 (omega (arith, i.2)) in
    let bytes : bytes_of a more ≡ a.size * more = bytes_lem a.size more i.3 (omega (arith, b)) in
    elim (Bool-cases (
      (a.elts + bytes_of a a.nalloc == last)
      && leb (last + bytes_of a more) (first_end pool.blocks))) [
        | inl t ↦
            let at : a.elts + a.size * a.nalloc ≡ last = ground (arith, have) in
            let fits : last + a.size * more ≤ first_end pool.blocks = ground (arith, bytes) in
            rw (t, grow)
              (
                omega (arith, i.0, i.2, b),
                refl,
                refl,
                inr (
                    inl (
                      refl,
                      (
                        more,
                        omega (arith, i.2, b),
                        rw (at, bytes)
                            (extends pool.blocks (a.size * more) w.0 (first_end-pos pool w) fits),
                      ),
                    )),
              )
        | inr t ↦ elim (Option-cases (pnalloc malloc memalign pool new_bytes).0) [
          | inl d ↦ rw (t, d, grow) tt
          | inr (p, d) ↦
              rw (t, d, grow)
                (
                  h,
                  refl,
                  refl,
                  inr (
                      inr (
                        k,
                        subst
                            (λ z.
                              pnalloc malloc memalign pool z
                              ≡ (some p, (pnalloc malloc memalign pool new_bytes).1))
                            e (ap (λ z. (z, (pnalloc malloc memalign pool new_bytes).1)) d),
                      )),
                )
        ]
      ]

with_room-Pushes :
    (malloc memalign : Option ℕ) (a : Array) (pool : Pool) (n : ℕ) (r : Option Array × Pool)
    → IsArray a
    → n < 2 ^ 31
    → Grown malloc memalign a pool n r
    → Pushes malloc memalign a pool n (with_room a n r)
unfolding Grown
with_room-Pushes malloc memalign a pool n (none, pool') i b g = refl
with_room-Pushes malloc memalign a pool n (some a', pool') i b g =
    let e : (a'.nelts + n) % 2 ^ 32 ≡ a.nelts + n = omega (arith, g.1, i.0, i.2, b) in
    (
      rw (g.1, g.2)
          (ap (λ z. a'.elts + z) (bytes_lem a.size a.nelts i.3 (omega (arith, i.0, i.2)))),
      e,
      omega (arith, e, g.0),
      g.2,
      g.3,
    )

take_elts-Pushes :
    (malloc memalign : Option ℕ) (a : Array) (n : ℕ) (pool : Pool)
    → IsArray a
    → a.nelts + n ≤ a.nalloc
    → Pushes malloc memalign a pool n (take_elts a n pool)
take_elts-Pushes malloc memalign a n pool i h = (
  ap (λ z. a.elts + z) (bytes_lem a.size a.nelts i.3 (omega (arith, i.0, i.2))),
  omega (arith, h, i.2),
  omega (arith, h, i.2),
  refl,
  inl (refl, refl, refl),
)

not_full : (nelts nalloc : ℕ) → nelts ≤ nalloc → (nelts == nalloc) ≡ false → nelts + 1 ≤ nalloc
not_full nelts nalloc h e = ground arith

not_over : (m nalloc : ℕ) → m < 2 ^ 32 → ltb nalloc (m % 2 ^ 32) ≡ false → m ≤ nalloc
not_over m nalloc h e = ground arith

-- The larger of the two, twice, has room for both.
twice_room :
    (nelts n nalloc : ℕ)
    → nelts ≤ nalloc
    → nalloc < 2 ^ 31
    → n < 2 ^ 31
    → (nelts + n ≤ 2 * (if leb nalloc n then n else nalloc) % 2 ^ 32)
      × (2 * nalloc ≤ 2 * (if leb nalloc n then n else nalloc) % 2 ^ 32)
      × (2 * (if leb nalloc n then n else nalloc) % 2 ^ 32 < 2 ^ 32)
twice_room nelts n nalloc h i j = elim (Bool-cases (leb nalloc n)) [
  | inl e ↦ let le = leb→le nalloc n e in rw e (omega arith, omega arith, omega arith)
  | inr e ↦ let lt : n < nalloc = ground arith in rw e (omega arith, omega arith, omega arith)
]

-- The bytes of twice the elements.
twice_bytes :
    (a : Array) → IsArray a → 2 * bytes_of a a.nalloc % 2 ^ 64 ≡ a.size * (2 * a.nalloc % 2 ^ 32)
twice_bytes a i =
    let e : 2 * a.nalloc % 2 ^ 32 ≡ a.nalloc + a.nalloc = omega (arith, i.2) in
    let d : a.size * (a.nalloc + a.nalloc) % 2 ^ 64 ≡ a.size * (a.nalloc + a.nalloc) =
      bytes_lem a.size (a.nalloc + a.nalloc) i.3 (omega (arith, i.2)) in
    let have : bytes_of a a.nalloc ≡ a.size * a.nalloc =
      bytes_lem a.size a.nalloc i.3 (omega (arith, i.2)) in
    let s : a.size * (a.nalloc + a.nalloc) ≡ a.size * a.nalloc + a.size * a.nalloc =
      mul-add a.size a.nalloc a.nalloc in
    rw e (omega (arith, d, have, s))

push-Pushes :
    (malloc memalign : Option ℕ) (a : Array) (pool : Pool)
    → IsArray a
    → IsPool pool
    → Pushes malloc memalign a pool 1 (array_push malloc memalign a pool)
unfolding array_push
push-Pushes malloc memalign a pool i w = elim (Bool-cases (a.nelts == a.nalloc)) [
  | inl e ↦
      rw (e, array_push)
        (with_room-Pushes malloc memalign a pool 1
          (grow malloc memalign a pool 1 (2 * bytes_of a a.nalloc % 2 ^ 64) (2 * a.nalloc % 2 ^ 32))
          i (omega arith)
          (grow-Grown malloc memalign a pool 1 (2 * bytes_of a a.nalloc % 2 ^ 64)
            (2 * a.nalloc % 2 ^ 32) i w (omega arith) (omega (arith, i.0, i.1, i.2))
            (omega (arith, i.2)) (twice_bytes a i)))
  | inr e ↦
      rw (e, array_push)
        (take_elts-Pushes malloc memalign a 1 pool i (not_full a.nelts a.nalloc i.0 e))
]

push_n-Pushes :
    (malloc memalign : Option ℕ) (a : Array) (pool : Pool) (n : ℕ)
    → IsArray a
    → IsPool pool
    → n < 2 ^ 31
    → Pushes malloc memalign a pool n (array_push_n malloc memalign a pool n)
unfolding array_push_n
push_n-Pushes malloc memalign a pool n i w b =
    elim (Bool-cases (ltb a.nalloc ((a.nelts + n) % 2 ^ 32))) [
      | inl e ↦
          let nalloc' = 2 * (if leb a.nalloc n then n else a.nalloc) % 2 ^ 32 in
          let t = twice_room a.nelts n a.nalloc i.0 i.2 b in
          rw (e, array_push_n)
            (with_room-Pushes malloc memalign a pool n
              (grow malloc memalign a pool n (bytes_of a nalloc') nalloc') i b
              (grow-Grown malloc memalign a pool n (bytes_of a nalloc') nalloc' i w b t.0 t.1
                (bytes_lem a.size nalloc' i.3 t.2)))
      | inr e ↦
          rw (e, array_push_n)
            (take_elts-Pushes malloc memalign a n pool i
              (not_over (a.nelts + n) a.nalloc (omega (arith, i.0, i.2, b)) e))
    ]

-- On a pool as hcore_pnalloc wants it and an array with room for one element at least and for less than
-- 2^31, of elements of less than 2^32 bytes, and no more of them than there is room for: hcore_array_push,
-- and hcore_array_push_n for n below 2^31, either return NULL and leave the array as it was, or return the
-- address behind its elements and count one or `n` more, for which the array has the room. It either had
-- it and the pool is as it was, or the pool has given out the bytes of some more elements that stand
-- directly behind the array, apart from all that it gave out before, or it is at least twice as large
-- in memory that hcore_palloc has given for all of it.
pub array_push-Pushes :
    (malloc memalign : Option ℕ) (a : Array) (pool : Pool) (n : ℕ)
    → IsArray a
    → IsPool pool
    → n < 2 ^ 31
    → Pushes malloc memalign a pool 1 (array_push malloc memalign a pool)
      × Pushes malloc memalign a pool n (array_push_n malloc memalign a pool n)
array_push-Pushes malloc memalign a pool n i w b =
    (push-Pushes malloc memalign a pool i w, push_n-Pushes malloc memalign a pool n i w b)
