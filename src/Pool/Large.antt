-- ===== src/Pool/Large.antt =====
-- Large pieces: each can be freed once.
use hcore.Base.{
  ℕ, ◌+◌, ◌≡◌, ◌≢◌, refl, sym, ap, inl, inr, Bool, true, false, Option, none, some, List, [], ◌∷◌,
  ltb, ◌==◌, drop, All, arith, Bool-cases, Option-cases,
}
use mathlib.Core.Path.{subst}
use hcore.Pool.{
  Pool, reuse_large, small_loop, palloc_block, palloc_small, palloc_large, large_size, free_loop,
  pfree,
}

-- `p` is in none of the entries.
abbrev pub HasNot : ℕ → List (Option ℕ) → Type 0
HasNot p large = All (λ o. o ≢ some p) large

test_eq : (p q : ℕ) → (p == q) ≡ true → p ≡ q
test_eq p q e = ground arith

not_same : (p q : ℕ) → some q ≢ some p → (p == q) ≡ false
not_same p q h = elim (Bool-cases (p == q)) [
  | inl e ↦ absurd (h (ap some (sym (test_eq p q e))))
  | inr e ↦ e
]

same_test : (p : ℕ) → (p == p) ≡ true
same_test p = ground arith

HasNot-free_loop : (p : ℕ) (large : List (Option ℕ)) → HasNot p large → free_loop p large ≡ none
unfolding free_loop
HasNot-free_loop p [] h = refl
HasNot-free_loop p (none ∷ large) h = rw (HasNot-free_loop p large h.1)
HasNot-free_loop p (some q ∷ large) h = rw (not_same p q h.0, HasNot-free_loop p large h.1)

-- `p` can be freed once.
Once : ℕ → List (Option ℕ) → Type 0
Once p large =
    (large' : List (Option ℕ)) × (free_loop p large ≡ some large') × (free_loop p large' ≡ none)

OnceIf : ℕ → Option (List (Option ℕ)) → Type 0
OnceIf p none = Unit
OnceIf p (some large) = Once p large

Once-cons :
    (p : ℕ) (o : Option ℕ) (large : List (Option ℕ))
    → o ≢ some p
    → Once p large
    → Once p (o ∷ large)
unfolding Once free_loop
Once-cons p none large h g = (none ∷ g.0, rw g.1, rw g.2)
Once-cons p (some q) large h g = (some q ∷ g.0, rw (not_same p q h, g.1), rw (not_same p q h, g.2))

by_later :
    (p q : ℕ) (o : Option (List (Option ℕ)))
    → some q ≢ some p
    → OnceIf p o
    → OnceIf p (elim o [ none ↦ none | some large ↦ some (some q ∷ large) ])
unfolding OnceIf
by_later p q none h g = tt
by_later p q (some large) h g = Once-cons p (some q) large h g

reuse_large-OnceIf :
    (n p : ℕ) (large : List (Option ℕ)) → HasNot p large → OnceIf p (reuse_large n p large)
unfolding OnceIf reuse_large Once free_loop
reuse_large-OnceIf n p [] h = tt
reuse_large-OnceIf n p (none ∷ large) h =
    (none ∷ large, rw (same_test p), rw (HasNot-free_loop p large h.1))
reuse_large-OnceIf n p (some q ∷ large) h = elim (Bool-cases (ltb 3 n)) [
  | inl e ↦ rw e tt
  | inr e ↦
      rw e (by_later p q (reuse_large (n + 1) p large) h.0 (reuse_large-OnceIf (n + 1) p large h.1))
]

palloc_block-large :
    (memalign : Option ℕ) (pool : Pool) (size : ℕ)
    → (palloc_block memalign pool size).1.large ≡ pool.large
unfolding palloc_block
palloc_block-large none pool size = refl
palloc_block-large (some base) pool size = refl

palloc_small-large :
    (memalign : Option ℕ) (pool : Pool) (size : ℕ) (align : Bool)
    → (palloc_small memalign pool size align).1.large ≡ pool.large
unfolding palloc_small
palloc_small-large memalign pool size align =
    elim (Option-cases (small_loop size align (drop pool.current pool.blocks))) [
      | inl e ↦ rw (e, palloc_small) (palloc_block-large memalign pool size)
      | inr (a, e) ↦ rw (e, palloc_small)
    ]

OnceAfter : ℕ → Option ℕ × Pool → Type 0
OnceAfter p (none, pool) = Unit
OnceAfter p (some m, pool) = (m ≡ p) × Once p pool.large

by_entry :
    (p : ℕ) (large : List (Option ℕ)) (entry : Option ℕ) (pool : Pool)
    → HasNot p large
    → pool.large ≡ large
    → OnceAfter p (elim entry [
      | none ↦ (none, pool)
      | some m ↦ (some p, record pool { large = some p ∷ pool.large })
    ])
unfolding OnceAfter Once free_loop
by_entry p large none pool h e = tt
by_entry p large (some m) pool h e =
    (refl, (none ∷ large, rw (e, same_test p), rw (HasNot-free_loop p large h)))

by_reuse :
    (p : ℕ) (memalign : Option ℕ) (pool : Pool) (o : Option (List (Option ℕ)))
    → HasNot p pool.large
    → OnceIf p o
    → OnceAfter p (elim o [
      | some large ↦ (some p, record pool { large = large })
      | none ↦ elim (palloc_small memalign pool large_size true).0 [
        | none ↦ (none, (palloc_small memalign pool large_size true).1)
        | some m ↦ (
          some p,
          record (palloc_small memalign pool large_size true).1 {
            large = some p ∷ (palloc_small memalign pool large_size true).1.large;
          },
        )
      ]
    ])
unfolding OnceIf OnceAfter
by_reuse p memalign pool none h g =
    by_entry p pool.large (palloc_small memalign pool large_size true).0
      (palloc_small memalign pool large_size true).1 h
      (palloc_small-large memalign pool large_size true)
by_reuse p memalign pool (some large) h g = (refl, g)

palloc_large-OnceAfter :
    (p : ℕ) (memalign : Option ℕ) (pool : Pool) (size : ℕ)
    → HasNot p pool.large
    → OnceAfter p (palloc_large (some p) memalign pool size)
unfolding palloc_large
palloc_large-OnceAfter p memalign pool size h =
    by_reuse p memalign pool (reuse_large 0 p pool.large) h (reuse_large-OnceIf 0 p pool.large h)

-- If hcore_malloc gives an address that no entry of the pool holds and hcore_palloc_large gives memory,
-- it is that address; hcore_pfree then frees it, and to free it again is an error.
pub pfree-palloc_large :
    (p m : ℕ) (memalign : Option ℕ) (pool : Pool) (size : ℕ) (pool' : Pool)
    → HasNot p pool.large
    → palloc_large (some p) memalign pool size ≡ (some m, pool')
    → (m ≡ p) × ((pool'' : Pool) × (pfree pool' p ≡ some pool'') × (pfree pool'' p ≡ none))
unfolding pfree OnceAfter Once
pfree-palloc_large p m memalign pool size pool' h e =
    let o = subst (OnceAfter p) e (palloc_large-OnceAfter p memalign pool size h) in
    (o.0, (record pool' { large = o.1.0 }, rw (o.1.1, pfree), rw (o.1.2, pfree)))
