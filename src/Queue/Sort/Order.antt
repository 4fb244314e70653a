-- ===== src/Queue/Sort/Order.antt =====
-- The sort puts the elements of a queue in order.
use mathlib.Core.Path.{subst}
use mathlib.Core.List.{append-nil}
use hcore.Base.{
  ℕ, ◌+◌, ◌≤◌, ◌≡◌, ◌≢◌, refl, Bool, true, false, some, List, [], ◌∷◌, ◌++◌, All, All-split, arith,
  sym, ap, ◌∙◌, ◌==◌, if◌then◌else◌, length, Bool-cases, inl, inr,
}
use hcore.Queue.{Heap}
use hcore.Queue.Links.{Fresh, IsQueue}
use hcore.Queue.Sort.{queue_sort, sort_loop}
use hcore.Queue.Sort.Insert.{last_of, prev-last_of}
use hcore.Queue.Sort.Result.{
  onto, onto_append, onto-onto, place, insertion_sort, sort_loop-IsQueue, same_test, other_test,
}

-- How often an element is in a list.
abbrev pub count : ℕ → List ℕ → ℕ
count a [] = 0
count a (x ∷ xs) = (if a == x then 1 else 0) + count a xs

count-onto : (a : ℕ) (rs vs : List ℕ) → count a (onto rs vs) ≡ count a rs + count a vs
count-onto a [] vs = omega arith
count-onto a (r ∷ rs) vs = omega (arith, count-onto a rs (r ∷ vs))

All-insert :
    (P : ℕ → Type 0) (xs : List ℕ) (r q : ℕ) (vs : List ℕ)
    → P q
    → All P (xs ++ r ∷ vs)
    → All P (xs ++ r ∷ q ∷ vs)
All-insert P [] r q vs p a = (a.0, (p, a.1))
All-insert P (x ∷ xs) r q vs p a = (a.0, All-insert P xs r q vs p a.1)

last_of-ne : (x y : ℕ) (zs : List ℕ) → Fresh x (y ∷ zs) → last_of y zs ≢ x
last_of-ne x y [] f = f.0
last_of-ne x y (z ∷ zs) f = last_of-ne x z zs f.1

module _ (le : ℕ → ℕ → Bool) where
  -- Every element is at most those behind it.
  abbrev pub Ordered : List ℕ → Type 0
  Ordered [] = Unit
  Ordered (x ∷ xs) = All (λ y. le x y ≡ true) xs × Ordered xs

  -- `le` is total and transitive.
  pub record IsOrder : Type 0 where
    pub total : (a b : ℕ) → le a b ≡ false → le b a ≡ true
    pub transitive : (a b c : ℕ) → le a b ≡ true → le b c ≡ true → le a c ≡ true

  -- `q` behind `r`, which is at most `q`.
  Ordered-behind :
      (xs : List ℕ) (r q : ℕ) (vs : List ℕ)
      → IsOrder
      → le r q ≡ true
      → All (λ v. le q v ≡ true) vs
      → Ordered (xs ++ r ∷ vs)
      → Ordered (xs ++ r ∷ q ∷ vs)
  Ordered-behind [] r q vs o e a w = ((e, w.0), (a, w.1))
  Ordered-behind (z ∷ xs) r q vs o e a w =
      let s = All-split (λ y. le z y ≡ true) xs (r ∷ vs) w.0 in
      (
        All-insert (λ y. le z y ≡ true) xs r q vs (o.transitive z r q s.1.0 e) w.0,
        Ordered-behind xs r q vs o e a w.1,
      )

  place-Ordered :
      (q : ℕ) (rs vs : List ℕ)
      → IsOrder
      → All (λ v. le q v ≡ true) vs
      → Ordered (onto rs vs)
      → Ordered (place le q rs vs)
  unfolding place
  place-Ordered q [] vs o a w = (a, w)
  place-Ordered q (r ∷ rs) vs o a w = elim (Bool-cases (le r q)) [
    | inl e ↦ rw e (
        subst Ordered (sym (onto_append rs (r ∷ q ∷ vs)))
          (Ordered-behind (onto rs []) r q vs o e a (subst Ordered (onto_append rs (r ∷ vs)) w)))
    | inr e ↦ rw e (place-Ordered q rs (r ∷ vs) o (o.total r q e, a) w)
  ]

  count-place :
      (a q : ℕ) (rs vs : List ℕ)
      → count a (place le q rs vs) ≡ count a (q ∷ []) + count a rs + count a vs
  unfolding place
  count-place a q [] vs = omega arith
  count-place a q (r ∷ rs) vs = elim (Bool-cases (le r q)) [
    | inl e ↦ rw e (omega (arith, count-onto a rs (r ∷ q ∷ vs)))
    | inr e ↦ rw e (omega (arith, count-place a q rs (r ∷ vs)))
  ]

  insertion_sort-Ordered :
      (ss zs : List ℕ)
      → IsOrder
      → Ordered ss
      → Ordered (insertion_sort le ss zs)
        × ((a : ℕ) → count a (insertion_sort le ss zs) ≡ count a ss + count a zs)
  unfolding insertion_sort
  insertion_sort-Ordered ss [] o w = (w, λ a. omega arith)
  insertion_sort-Ordered ss (q ∷ zs) o w =
      let back : ss ≡ onto (onto ss []) [] = sym (onto-onto ss [] [] ∙ append-nil ss) in
      let g =
        insertion_sort-Ordered (place le q (onto ss []) []) zs o
          (place-Ordered q (onto ss []) [] o tt (subst Ordered back w)) in
      (g.0, λ a. omega (arith, g.1 a, count-place a q (onto ss []) [], count-onto a ss []))

  -- The elements of a queue, one after another put behind the last that is not above it.
  unfoldable pub sorted : List ℕ → List ℕ
  sorted [] = []
  sorted (x ∷ xs) = insertion_sort le (x ∷ []) xs

  -- With two elements or more the outer loop starts at the second.
  two_or_more :
      (fuel back : ℕ) (s s' : Heap) (h x y : ℕ) (zs : List ℕ)
      → IsQueue s h (x ∷ y ∷ zs)
      → sort_loop le fuel back s h y ≡ some s'
      → queue_sort le fuel back s h ≡ some s'
  unfolding queue_sort
  two_or_more fuel back s s' h x y zs i e =
      let p : s.prev h ≡ last_of y zs = prev-last_of s h (x ∷ y ∷ zs) h i.0 in
      let n : s.next h ≢ s.prev h = λ d. last_of-ne x y zs i.2.0 (sym p ∙ sym d ∙ i.0.0) in
      let t : s.next (s.next h) ≡ y = ap s.next i.0.0 ∙ i.0.2.0 in
      rw (other_test (s.next h) (s.prev h) n, t) e

  sort-IsQueue :
      (fuel back : ℕ) (s : Heap) (h : ℕ) (xs : List ℕ)
      → length xs ≤ fuel
      → length xs ≤ back
      → IsQueue s h xs
      → (s' : Heap) × (queue_sort le fuel back s h ≡ some s') × IsQueue s' h (sorted xs)
  unfolding queue_sort sorted insertion_sort
  sort-IsQueue fuel back s h [] f b i =
      (s, rw (same_test (s.next h) (s.prev h) (i.0.0 ∙ sym i.0.1)), i)
  sort-IsQueue fuel back s h (x ∷ []) f b i =
      (s, rw (same_test (s.next h) (s.prev h) (i.0.0 ∙ sym i.0.2.1)), i)
  sort-IsQueue fuel back s h (x ∷ y ∷ zs) f b i =
      let g =
        sort_loop-IsQueue le fuel back s h (x ∷ []) (y ∷ zs) (omega arith) (omega arith)
          (omega arith) i in
      (g.0, two_or_more fuel back s g.0 h x y zs i g.1, g.2)

  -- With a comparison that is total and transitive, and enough rounds for both loops, which the length of
  -- the queue is: hcore_queue_sort leaves in a ring of distinct addresses the elements that were there,
  -- each as often, in order; they are the result of putting one element after another behind the last
  -- before it that is not above it.
  pub queue_sort-IsQueue :
      (fuel back : ℕ) (s : Heap) (h : ℕ) (xs : List ℕ)
      → IsOrder
      → length xs ≤ fuel
      → length xs ≤ back
      → IsQueue s h xs
      → ((s' : Heap) × (queue_sort le fuel back s h ≡ some s') × IsQueue s' h (sorted xs))
        × Ordered (sorted xs)
        × ((a : ℕ) → count a (sorted xs) ≡ count a xs)
  unfolding sorted
  queue_sort-IsQueue fuel back s h [] o f b i = (sort-IsQueue fuel back s h [] f b i, tt, λ a. refl)
  queue_sort-IsQueue fuel back s h (x ∷ xs) o f b i =
      let g = insertion_sort-Ordered (x ∷ []) xs o (tt, tt) in
      (sort-IsQueue fuel back s h (x ∷ xs) f b i, g.0, λ a. omega (arith, g.1 a))
