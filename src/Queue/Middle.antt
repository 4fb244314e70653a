-- ===== src/Queue/Middle.antt =====
-- hcore_queue_middle finds the element in the middle.
use hcore.Base.{
  ℕ, zero, suc, ◌+◌, ◌*◌, ◌/◌, ◌≤◌, ◌<◌, ◌≡◌, ◌≢◌, refl, ◌∙◌, ap, sym, inl, inr, Bool, false, some,
  List, [], ◌∷◌, arith, ◌==◌, if◌then◌else◌, length, get_or, Bool-cases,
}
use hcore.Queue.{Heap, queue_middle, middle_loop}
use hcore.Queue.Links.{Links, Fresh, Distinct, IsQueue}

next-get_or :
    (s : Heap) (a : ℕ) (xs : List ℕ) (b i d : ℕ)
    → Links s a xs b
    → suc i < length xs
    → s.next (get_or xs i d) ≡ get_or xs (suc i) d
next-get_or s a [] b i d l n = absurd (omega arith)
next-get_or s a (x ∷ []) b i d l n = absurd (omega arith)
next-get_or s a (x ∷ y ∷ xs) b zero d l n = l.2.0
next-get_or s a (x ∷ y ∷ xs) b (suc i) d l n = next-get_or s x (y ∷ xs) b i d l.2 (omega arith)

prev-get_or :
    (s : Heap) (a x : ℕ) (xs : List ℕ) (b d : ℕ)
    → Links s a (x ∷ xs) b
    → s.prev b ≡ get_or (x ∷ xs) (length xs) d
prev-get_or s a x [] b d l = l.2.1
prev-get_or s a x (y ∷ xs) b d l = prev-get_or s x y xs b d l.2

Fresh-get_or : (x : ℕ) (xs : List ℕ) (i d : ℕ) → Fresh x xs → i < length xs → get_or xs i d ≢ x
Fresh-get_or x [] i d f n = absurd (omega arith)
Fresh-get_or x (y ∷ xs) zero d f n = f.0
Fresh-get_or x (y ∷ xs) (suc i) d f n = Fresh-get_or x xs i d f.1 (omega arith)

get_or_injective :
    (xs : List ℕ) (i j d : ℕ)
    → Distinct xs
    → i < length xs
    → j < length xs
    → get_or xs i d ≡ get_or xs j d
    → i ≡ j
get_or_injective [] i j d u n m e = absurd (omega arith)
get_or_injective (x ∷ xs) zero zero d u n m e = refl
get_or_injective (x ∷ xs) zero (suc j) d u n m e =
    absurd (Fresh-get_or x xs j d u.0 (omega arith) (sym e))
get_or_injective (x ∷ xs) (suc i) zero d u n m e =
    absurd (Fresh-get_or x xs i d u.0 (omega arith) e)
get_or_injective (x ∷ xs) (suc i) (suc j) d u n m e =
    ap suc (get_or_injective xs i j d u.1 (omega arith) (omega arith) e)

module _ (s : Heap) (h d x : ℕ) (xs : List ℕ) (q : IsQueue s h (x ∷ xs)) where
  last_test : (i : ℕ) → i ≤ length xs → (get_or (x ∷ xs) i d == s.prev h) ≡ (i == length xs)
  last_test i n =
      let e = prev-get_or s h x xs h d q.0 in
      let inj = get_or_injective (x ∷ xs) i (length xs) d q.2 (omega arith) (omega arith) in
      rw e (ground (arith, inj, ap (λ k. get_or (x ∷ xs) k d)))

  middle_loop_lem :
      (fuel i : ℕ)
      → 2 * i < length xs
      → length xs ≤ 2 * fuel + 2 * i
      → middle_loop fuel s h (get_or (x ∷ xs) i d) (get_or (x ∷ xs) (2 * i) d)
        ≡ some (get_or (x ∷ xs) ((length xs + 1) / 2) d)
  unfolding middle_loop
  middle_loop_lem zero i n f = absurd (omega arith)
  middle_loop_lem (suc fuel) i n f =
      let g = λ (k : ℕ). get_or (x ∷ xs) k d in
      let choose = λ (m n2 : ℕ) (b1 b2 : Bool).
        if b1 then some m else if b2 then some m else middle_loop fuel s h m n2 in
      let body = λ (m n1 : ℕ). choose m (s.next n1) (n1 == s.prev h) (s.next n1 == s.prev h) in
      let em : s.next (g i) ≡ g (suc i) = next-get_or s h (x ∷ xs) h i d q.0 (omega arith) in
      let e1 : s.next (g (2 * i)) ≡ g (suc (2 * i)) =
        next-get_or s h (x ∷ xs) h (2 * i) d q.0 (omega arith) in
      let start : middle_loop (suc fuel) s h (g i) (g (2 * i))
          ≡ body (g (suc i)) (g (suc (2 * i))) =
        ap (λ m. body m (s.next (g (2 * i)))) em ∙ ap (body (g (suc i))) e1 in
      let n1 = g (suc (2 * i)) in
      let m = g (suc i) in
      let t1 = last_test (suc (2 * i)) (omega arith) in
      elim (Bool-cases (suc (2 * i) == length xs)) [
        | inl e ↦
            let half : suc i ≡ (length xs + 1) / 2 = ground arith in
            start
            ∙ ap (λ b. choose m (s.next n1) b (s.next n1 == s.prev h)) (t1 ∙ e)
            ∙ ap (λ k. some (g k)) half
        | inr e ↦
            let more : suc (2 * i) < length xs = ground arith in
            let e2 : s.next n1 ≡ g (suc (suc (2 * i))) =
              next-get_or s h (x ∷ xs) h (suc (2 * i)) d q.0 (omega arith) in
            let t2 = last_test (suc (suc (2 * i))) (omega arith) in
            let second =
              start
              ∙ ap (λ b. choose m (s.next n1) b (s.next n1 == s.prev h)) (t1 ∙ e)
              ∙ ap (λ k. choose m k false (k == s.prev h)) e2 in
            elim (Bool-cases (suc (suc (2 * i)) == length xs)) [
              | inl e' ↦
                  let half : suc i ≡ (length xs + 1) / 2 = ground arith in
                  second
                  ∙ ap (choose m (g (suc (suc (2 * i)))) false) (t2 ∙ e')
                  ∙ ap (λ k. some (g k)) half
              | inr e' ↦
                  let rest : suc (suc (2 * i)) < length xs = ground arith in
                  let twice : suc (suc (2 * i)) ≡ 2 * suc i = omega arith in
                  second
                  ∙ ap (choose m (g (suc (suc (2 * i)))) false) (t2 ∙ e')
                  ∙ ap (λ k. middle_loop fuel s h m (g k)) twice
                  ∙ middle_loop_lem fuel (suc i) (omega arith) (omega arith)
            ]
      ]

-- Of a queue with n elements hcore_queue_middle finds, in at most n / 2 rounds, the one at the position
-- n / 2, counted from 0: the middle one where n is odd, and the first of the second half where n is even.
pub queue_middle-get_or :
    (fuel : ℕ) (s : Heap) (h : ℕ) (x : ℕ) (xs : List ℕ)
    → IsQueue s h (x ∷ xs)
    → length (x ∷ xs) / 2 ≤ fuel
    → queue_middle fuel s h ≡ some (get_or (x ∷ xs) (length (x ∷ xs) / 2) h)
unfolding queue_middle
queue_middle-get_or fuel s h x xs q f =
    let first : s.next h ≡ x = q.0.0 in
    let body = λ (m : ℕ) (b : Bool). if b then some m else middle_loop fuel s h m m in
    let test = last_test s h h x xs q 0 (omega arith) in
    let start : queue_middle fuel s h ≡ body x (0 == length xs) =
      ap (λ m. body m (m == s.prev h)) first ∙ ap (body x) test in
    let half : (length xs + 1) / 2 ≡ length (x ∷ xs) / 2 = ap (λ k. k / 2) (omega arith) in
    elim (Bool-cases (0 == length xs)) [
      | inl e ↦
          let none_left : 0 ≡ length (x ∷ xs) / 2 = ground arith in
          start ∙ ap (body x) e ∙ ap (λ k. some (get_or (x ∷ xs) k h)) none_left
      | inr e ↦
          let more : 0 < length xs = ground arith in
          start
          ∙ ap (body x) e
          ∙ middle_loop_lem s h h x xs q fuel 0 more (omega (arith, f))
          ∙ ap (λ k. some (get_or (x ∷ xs) k h)) half
    ]
