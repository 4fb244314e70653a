-- ===== src/Chain/Free.antt =====
-- The free chains are a stack.
use mathlib.Core.Path.{subst}
use hcore.Base.{
  ℕ, ◌≡◌, ◌≢◌, refl, sym, ◌∙◌, true, false, Option, some, List, [], ◌∷◌, All, arith, ◌==◌,
}
use hcore.Pool.{Pool}
use hcore.Chain.{Chain, Chains, put_chain, alloc_chain, free_chain, free_chain_hold_buf}

-- From `cl` the links lead over `xs` to NULL; no address stands twice.
abbrev pub Leads : Chains → ℕ → List ℕ → Type 0
Leads s cl [] = cl ≡ 0
Leads s cl (x ∷ xs) = (cl ≡ x) × (x ≢ 0) × All (λ y. y ≢ x) xs × Leads s (s.at x).next xs

-- The free chains, the one that is used next at the head.
abbrev pub IsFree : Chains → List ℕ → Type 0
IsFree s xs = Leads s s.chain xs

other : (a b : ℕ) → a ≢ b → (a == b) ≡ false
other a b h = ground arith

same_at : (a : ℕ) → (a == a) ≡ true
same_at a = ground arith

-- Another chain's memory does not matter.
Leads-put_chain :
    (s : Chains) (cl x : ℕ) (c : Chain) (xs : List ℕ)
    → All (λ y. y ≢ x) xs
    → Leads s cl xs
    → Leads (put_chain s x c) cl xs
Leads-put_chain s cl x c [] f l = l
Leads-put_chain s cl x c (y ∷ xs) f l =
    (l.0, l.1, l.2, rw (other y x f.0) (Leads-put_chain s (s.at y).next x c xs f.1 l.3))

-- Links, and not what else a state holds, lead from chain to chain.
Leads-chain :
    (s : Chains) (cl head : ℕ) (pool : Pool) (xs : List ℕ)
    → Leads s cl xs
    → Leads (record s { chain = head; pool = pool }) cl xs
Leads-chain s cl head pool [] l = l
Leads-chain s cl head pool (x ∷ xs) l =
    (l.0, l.1, l.2, Leads-chain s (s.at x).next head pool xs l.3)

-- What hcore_free_chain_hold_buf leaves where the chain has no `free` of its own.
abbrev held : Chains → ℕ → Chains
held s cl = record (put_chain s cl (record (s.at cl) { free = 0; next = s.chain })) { chain = cl }

free_chain_hold_buf-held :
    (call : ℕ → ℕ → Chains → Chains) (s : Chains) (cl : ℕ)
    → (s.at cl).free ≡ 0
    → free_chain_hold_buf call s cl ≡ held s cl
unfolding free_chain_hold_buf
free_chain_hold_buf-held call s cl h = rw h refl

at_put : (s : Chains) (cl : ℕ) (c : Chain) → (put_chain s cl c).at cl ≡ c
at_put s cl c = rw (same_at cl) refl

held-IsFree :
    (s : Chains) (cl : ℕ) (xs : List ℕ)
    → IsFree s xs
    → cl ≢ 0
    → All (λ y. y ≢ cl) xs
    → IsFree (held s cl) (cl ∷ xs)
held-IsFree s cl xs i n f =
    let c = record (s.at cl) { free = 0; next = s.chain } in
    (
      refl,
      n,
      f,
      rw (same_at cl) (
          Leads-chain (put_chain s cl c) s.chain cl s.pool xs
            (Leads-put_chain s s.chain cl c xs f i)),
    )

-- A write of the first of the free chains that keeps its `next` keeps them.
put_chain-IsFree :
    (s : Chains) (cl b : ℕ) (xs : List ℕ)
    → IsFree s (cl ∷ xs)
    → IsFree (put_chain s cl (record (s.at cl) { buf = b })) (cl ∷ xs)
put_chain-IsFree s cl b xs i = (
  i.0,
  i.1,
  i.2,
  rw (same_at cl) (Leads-put_chain s (s.at cl).next cl (record (s.at cl) { buf = b }) xs i.2 i.3),
)

alloc_first :
    (malloc memalign : Option ℕ) (s : Chains) (cl : ℕ) (xs : List ℕ)
    → IsFree s (cl ∷ xs)
    → (s' : Chains) × (alloc_chain malloc memalign s ≡ (some cl, s'))
      × IsFree s' xs
      × (s'.at cl ≡ record (s.at cl) { next = 0; free = 0 })
unfolding alloc_chain
alloc_first malloc memalign s cl xs i =
    let c = record (s.at cl) { next = 0; free = 0 } in
    let next = (s.at cl).next in
    rw (other s.chain 0 (λ e. i.1 (sym i.0 ∙ e)), i.0)
      (
        _,
        refl,
        Leads-chain (put_chain s cl c) next next s.pool xs (Leads-put_chain s next cl c xs i.2 i.3),
        rw (same_at cl) refl,
      )

-- `cl` is the first of the free chains, before `xs`, and hcore_alloc_chain gives it, as `c`, and leaves `xs`.
abbrev pub GivesNext :
    (malloc memalign : Option ℕ) → Chains → (cl : ℕ) (xs : List ℕ) (c : Chain) → Type 0
GivesNext malloc memalign s cl xs c =
    IsFree s (cl ∷ xs)
    × ((s' : Chains) × (alloc_chain malloc memalign s ≡ (some cl, s'))
        × IsFree s' xs
        × (s'.at cl ≡ c))

-- A chain without a `free` of its own, not among the free ones: after hcore_free_chain_hold_buf it is
-- the first of the free chains, before those that were, and hcore_alloc_chain then gives it back with the
-- buffer and the data it had, without next and free, and leaves the free chains that were. After
-- hcore_free_chain the same holds, but that the chain that is given back has no buffer.
pub alloc_chain-free_chain :
    (call : ℕ → ℕ → Chains → Chains) (malloc memalign : Option ℕ) (s : Chains) (cl : ℕ)
    (xs : List ℕ)
    → IsFree s xs
    → cl ≢ 0
    → All (λ y. y ≢ cl) xs
    → (s.at cl).free ≡ 0
    → GivesNext malloc memalign
        (free_chain_hold_buf call s cl)
        cl
        xs
        (record (s.at cl) { next = 0; free = 0 })
      × GivesNext malloc memalign
          (free_chain call s cl)
          cl
          xs
          (record (s.at cl) { buf = 0; next = 0; free = 0 })
unfolding free_chain
alloc_chain-free_chain call malloc memalign s cl xs i n f h =
    let c = record (s.at cl) { next = 0; free = 0 } in
    let cleared = λ (t : Chains). put_chain t cl (record (t.at cl) { buf = 0 }) in
    let k = held-IsFree s cl xs i n f in
    let k' = put_chain-IsFree (held s cl) cl 0 xs k in
    let (s1, e1, f1, a1) = alloc_first malloc memalign (held s cl) cl xs k in
    let (s2, e2, f2, a2) = alloc_first malloc memalign (cleared (held s cl)) cl xs k' in
    let e = sym (free_chain_hold_buf-held call s cl h) in
    (
      subst (λ t. GivesNext malloc memalign t cl xs c) e
          (k, (s1, e1, f1, a1 ∙ rw (same_at cl) refl)),
      subst (λ t. GivesNext malloc memalign (cleared t) cl xs (record c { buf = 0 })) e
          (k', (s2, e2, f2, a2 ∙ rw (same_at cl) refl)),
    )
