-- ===== src/Queue/Sort/Result.antt =====
-- What the sort leaves.
use mathlib.Core.Path.{subst}
use mathlib.Core.List.{append_assoc, append-nil}
use hcore.Base.{
  ℕ, zero, suc, ◌+◌, ◌<◌, ◌≤◌, ◌≡◌, ◌≢◌, refl, Bool, true, false, some, List, [], ◌∷◌, ◌++◌,
  All-append, All-split, arith, sym, ap, ◌∙◌, ◌==◌, if◌then◌else◌, length, Bool-cases, inl, inr,
}
use hcore.Queue.{Heap, insert_head, remove}
use hcore.Queue.Links.{Links, Fresh, IsQueue, Links-split, insert_head-IsQueue, remove-IsQueue}
use hcore.Queue.Sort.{back_loop, sort_loop}
use hcore.Queue.Sort.Insert.{Fresh-mid, insert_after-IsQueue, last_of, prev-last_of, last_of-snoc}

-- The list that is `rs` from its end on, and then `vs`.
abbrev pub onto : List ℕ → List ℕ → List ℕ
onto [] vs = vs
onto (r ∷ rs) vs = onto rs (r ∷ vs)

pub onto_append : (rs vs : List ℕ) → onto rs vs ≡ onto rs [] ++ vs
onto_append [] vs = refl
onto_append (r ∷ rs) vs =
    onto_append rs (r ∷ vs)
    ∙ sym (append_assoc (onto rs []) (r ∷ []) vs)
    ∙ ap (λ l. l ++ vs) (sym (onto_append rs (r ∷ [])))

onto_split : (rs us zs : List ℕ) → onto rs (us ++ zs) ≡ onto rs us ++ zs
onto_split rs us zs =
    onto_append rs (us ++ zs)
    ∙ sym (append_assoc (onto rs []) us zs)
    ∙ ap (λ l. l ++ zs) (sym (onto_append rs us))

pub onto-onto : (xs ys zs : List ℕ) → onto (onto xs ys) zs ≡ onto ys (xs ++ zs)
onto-onto [] ys zs = refl
onto-onto (x ∷ xs) ys zs = onto-onto xs (x ∷ ys) zs

pub length-onto : (rs vs : List ℕ) → length (onto rs vs) ≡ length rs + length vs
length-onto [] vs = omega arith
length-onto (r ∷ rs) vs = omega (arith, length-onto rs (r ∷ vs))

cons_view : (l : List ℕ) → 1 ≤ length l → (r : ℕ) × (rs : List ℕ) × (l ≡ r ∷ rs)
cons_view [] h = absurd (omega arith)
cons_view (r ∷ rs) h = (r, rs, refl)

-- The first of the elements left, or the sentinel.
abbrev pub first : ℕ → List ℕ → ℕ
first h [] = h
first h (z ∷ zs) = z

next-first : (s : Heap) (h q : ℕ) (zs : List ℕ) → Links s q zs h → s.next q ≡ first h zs
next-first s h q [] l = l.0
next-first s h q (z ∷ zs) l = l.0

top : ℕ → List ℕ → ℕ
top h [] = h
top h (r ∷ rs) = r

last_of-onto : (h : ℕ) (rs : List ℕ) → last_of h (onto rs []) ≡ top h rs
unfolding top
last_of-onto h [] = refl
last_of-onto h (r ∷ rs) = ap (last_of h) (onto_append rs (r ∷ [])) ∙ last_of-snoc h (onto rs []) r

-- The link back from an element whose predecessors are `rs`, from the last on.
prev-top :
    (s : Heap) (h r : ℕ) (rs vs : List ℕ) → IsQueue s h (onto rs (r ∷ vs)) → s.prev r ≡ top h rs
prev-top s h r rs vs q =
    let l = subst (λ l. Links s h l h) (onto_append rs (r ∷ vs)) q.0 in
    prev-last_of s h (onto rs []) r (Links-split s h (onto rs []) r vs h l).0 ∙ last_of-onto h rs

after-onto :
    (s : Heap) (h q r : ℕ) (rs vs : List ℕ)
    → q ≢ h
    → Fresh q (onto rs (r ∷ vs))
    → IsQueue s h (onto rs (r ∷ vs))
    → IsQueue (insert_head s r q) h (onto rs (r ∷ q ∷ vs))
after-onto s h q r rs vs n f i =
    subst (IsQueue (insert_head s r q) h) (sym (onto_append rs (r ∷ q ∷ vs))) (
      insert_after-IsQueue s h r q (onto rs []) vs (subst (IsQueue s h) (onto_append rs (r ∷ vs)) i)
        n (subst (Fresh q) (onto_append rs (r ∷ vs)) f))

onto-ne : (h r : ℕ) (rs vs : List ℕ) → Fresh h (onto rs (r ∷ vs)) → r ≢ h
onto-ne h r rs vs f =
    (All-split (λ y. y ≢ h) (onto rs []) (r ∷ vs) (subst (Fresh h) (onto_append rs (r ∷ vs)) f)).1.0

pub same_test : (a b : ℕ) → a ≡ b → (a == b) ≡ true
same_test a b e = ground arith

pub other_test : (a b : ℕ) → a ≢ b → (a == b) ≡ false
other_test a b e = ground arith

module _ (le : ℕ → ℕ → Bool) where
  -- `q` goes behind the last of the elements before it, `rs` from the last on, that is not above it;
  -- `vs` are those that it has passed.
  unfoldable pub place : ℕ → List ℕ → List ℕ → List ℕ
  place q [] vs = q ∷ vs
  place q (r ∷ rs) vs =
      let later = place q rs (r ∷ vs) in if le r q then onto rs (r ∷ q ∷ vs) else later

  back_loop-place :
      (fuel : ℕ) (s : Heap) (h q r : ℕ) (rs vs : List ℕ)
      → length rs < fuel
      → q ≢ h
      → Fresh q (onto rs (r ∷ vs))
      → IsQueue s h (onto rs (r ∷ vs))
      → (p : ℕ) × (back_loop le fuel s h r q ≡ some p)
        × IsQueue (insert_head s p q) h (place q (r ∷ rs) vs)
  unfolding back_loop place top
  back_loop-place zero s h q r rs vs h1 n f i = absurd (omega arith)
  back_loop-place (suc fuel) s h q r [] vs h1 n f i = elim (Bool-cases (le r q)) [
    | inl e ↦ (r, rw e, rw e (after-onto s h q r [] vs n f i))
    | inr e ↦
        let b : s.prev r ≡ h = prev-top s h r [] vs i in
        (h, rw (e, same_test (s.prev r) h b, b), rw e (insert_head-IsQueue s h q (r ∷ vs) i n f))
  ]
  back_loop-place (suc fuel) s h q r (r' ∷ rs) vs h1 n f i = elim (Bool-cases (le r q)) [
    | inl e ↦ (r, rw e, rw e (after-onto s h q r (r' ∷ rs) vs n f i))
    | inr e ↦
        let b : s.prev r ≡ r' = prev-top s h r (r' ∷ rs) vs i in
        let g = back_loop-place fuel s h q r' rs (r ∷ vs) (omega arith) n f i in
        (g.0, rw (e, b, other_test r' h (onto-ne h r' rs (r ∷ vs) i.1)) g.1, rw e g.2)
  ]

  -- The elements `zs` put one after another into the sorted `ss`.
  unfoldable pub insertion_sort : List ℕ → List ℕ → List ℕ
  insertion_sort ss [] = ss
  insertion_sort ss (q ∷ zs) = insertion_sort (place q (onto ss []) []) zs

  place_append : (q : ℕ) (rs us zs : List ℕ) → place q rs (us ++ zs) ≡ place q rs us ++ zs
  unfolding place
  place_append q [] us zs = refl
  place_append q (r ∷ rs) us zs = elim (Bool-cases (le r q)) [
    | inl e ↦ rw e (onto_split rs (r ∷ q ∷ us) zs)
    | inr e ↦ rw e (place_append q rs (r ∷ us) zs)
  ]

  length-place : (q : ℕ) (rs vs : List ℕ) → length (place q rs vs) ≡ suc (length rs + length vs)
  unfolding place
  length-place q [] vs = omega arith
  length-place q (r ∷ rs) vs = elim (Bool-cases (le r q)) [
    | inl e ↦ rw e (omega (arith, length-onto rs (r ∷ q ∷ vs)))
    | inr e ↦ rw e (omega (arith, length-place q rs (r ∷ vs)))
  ]

  -- One round: `q` is taken out and put behind the last element before it that is not above it.
  round-IsQueue :
      (back : ℕ) (s : Heap) (h q : ℕ) (ss zs : List ℕ)
      → 1 ≤ length ss
      → length ss ≤ back
      → IsQueue s h (ss ++ q ∷ zs)
      → (p : ℕ) × (back_loop le back (remove s q) h (s.prev q) q ≡ some p)
        × IsQueue (insert_head (remove s q) p q) h (place q (onto ss []) [] ++ zs)
  unfolding top
  round-IsQueue back s h q ss zs n b i =
      let c = cons_view (onto ss []) (omega (arith, length-onto ss [], n)) in
      let r = c.0 in
      let rs = c.1 in
      let whole : ss ++ zs ≡ onto (r ∷ rs) zs =
        sym (onto-onto ss [] zs) ∙ ap (λ l. onto l zs) c.2 in
      let i1 : IsQueue (remove s q) h (onto (r ∷ rs) zs) =
        subst (IsQueue (remove s q) h) whole (remove-IsQueue s h q ss zs i) in
      let m = Fresh-mid ss q zs i.2 in
      let f : Fresh q (onto (r ∷ rs) zs) =
        subst (Fresh q) whole (All-append (λ y. y ≢ q) ss zs m.0 m.1) in
      let ne : q ≢ h = (All-split (λ y. y ≢ h) ss (q ∷ zs) i.1).1.0 in
      let g =
        back_loop-place back (remove s q) h q r rs zs
          (omega (arith, length-onto ss [], ap length c.2, b)) ne f i1 in
      let e : s.prev q ≡ r =
        prev-last_of s h ss q (Links-split s h ss q zs h i.0).0
        ∙ ap (last_of h) (sym (onto-onto ss [] [] ∙ append-nil ss))
        ∙ last_of-onto h (onto ss [])
        ∙ ap (top h) c.2 in
      let w : place q (r ∷ rs) zs ≡ place q (onto ss []) [] ++ zs =
        place_append q (r ∷ rs) [] zs ∙ ap (λ l. place q l [] ++ zs) (sym c.2) in
      (g.0, rw e g.1, subst (IsQueue (insert_head (remove s q) g.0 q) h) w g.2)

  pub sort_loop-IsQueue :
      (fuel back : ℕ) (s : Heap) (h : ℕ) (ss zs : List ℕ)
      → 1 ≤ length ss
      → length zs < fuel
      → length ss + length zs ≤ back
      → IsQueue s h (ss ++ zs)
      → (s' : Heap) × (sort_loop le fuel back s h (first h zs) ≡ some s')
        × IsQueue s' h (insertion_sort ss zs)
  unfolding sort_loop insertion_sort
  sort_loop-IsQueue zero back s h ss zs n f b i = absurd (omega arith)
  sort_loop-IsQueue (suc fuel) back s h ss [] n f b i =
      (s, rw (same_test h h refl), subst (IsQueue s h) (append-nil ss) i)
  sort_loop-IsQueue (suc fuel) back s h ss (q ∷ zs) n f b i =
      let g = round-IsQueue back s h q ss zs n (omega arith) i in
      let ne : q ≢ h = (All-split (λ y. y ≢ h) ss (q ∷ zs) i.1).1.0 in
      let k = length-place q (onto ss []) [] in
      let o = length-onto ss [] in
      let t : s.next q ≡ first h zs = next-first s h q zs (Links-split s h ss q zs h i.0).1 in
      let r =
        sort_loop-IsQueue fuel back (insert_head (remove s q) g.0 q) h (place q (onto ss []) []) zs
          (omega (arith, k)) (omega arith) (omega (arith, k, o)) g.2 in
      (r.0, rw (other_test q h ne, g.1, t) r.1, r.2)
