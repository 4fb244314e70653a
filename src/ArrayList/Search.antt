-- ===== src/ArrayList/Search.antt =====
-- The binary search of hcore_list_insert: enough rounds, and where it ends.
use hcore.Base.{
  ℕ, zero, suc, ◌+◌, ◌-◌, ◌/◌, ◌^◌, le→leb, ◌<◌, ◌≤◌, ◌≡◌, ◌≢◌, refl, some, ltb, ◌==◌, arith,
  Bool-cases, inl, inr,
}
use hcore.ArrayList.{Sign, less, same, more, find_loop}

-- What a comparison owes the list: it turns round with its arguments, and "not more" is transitive.
pub record IsOrder {A : Type 0} (cmp : A → A → Sign) : Type 0 where
  pub flip : (a b : A) → cmp a b ≡ more → cmp b a ≡ less
  pub trans : (a b c : A) → cmp a b ≢ more → cmp b c ≢ more → cmp a c ≢ more

module _ {A : Type 0} (cmp : A → A → Sign) where
  abbrev pub Le : A → A → Type 0
  Le a b = cmp a b ≢ more

  -- The first `n` slots are in order.
  abbrev pub Sorted : (ℕ → A) → ℕ → Type 0
  Sorted p n = (i j : ℕ) → i < j → j < n → Le (p i) (p j)

  -- `x` belongs at `pos`: behind all slots below it and in front of those from it to `n`.
  pub record IsPos (p : ℕ → A) (n : ℕ) (x : A) (pos : ℕ) : Type 0 where
    pub inside : pos ≤ n
    pub below : (i : ℕ) → i < pos → Le (p i) x
    pub above : (i : ℕ) → pos ≤ i → i < n → Le x (p i)

  module _ (order : IsOrder cmp) (p : ℕ → A) (n : ℕ) (sorted : Sorted p n) (x : A)
      (few : n ≤ 2 ^ 30) where
    Sign-cases :
        (m : ℕ) → (s : Sign) → cmp (p m) x ≡ s → (s ≢ more → Le (p m) x) × (s ≢ less → Le x (p m))
    Sign-cases m s e =
        (λ h. λ f. h (ground arith), λ h. λ f. h (ground (arith, order.flip x (p m) f)))

    below_middle : (m i : ℕ) → m < n → Le (p m) x → i ≤ m → Le (p i) x
    below_middle m i lt le h = elim (Bool-cases (i == m)) [
      | inl e ↦ (let same_slot : i ≡ m = ground arith in rw same_slot le)
      | inr ne ↦ order.trans (p i) (p m) x (sorted i m (ground arith) lt) le
    ]

    above_middle : (m i : ℕ) → i < n → Le x (p m) → m ≤ i → Le x (p i)
    above_middle m i lt le h = elim (Bool-cases (i == m)) [
      | inl e ↦ (let same_slot : i ≡ m = ground arith in rw same_slot le)
      | inr ne ↦ order.trans x (p m) (p i) le (sorted m i (ground arith) lt)
    ]

    -- The search from these bounds ends at a slot where `x` belongs.
    Finds : (fuel low high1 : ℕ) → Type 0
    Finds fuel low high1 =
        (pos : ℕ) × (find_loop cmp p x fuel low high1 ≡ some pos) × IsPos p n x pos

    -- It does so with this fuel, whatever the bounds are that it has reached.
    FindsAll : ℕ → Type 0
    FindsAll fuel =
        (low high1 : ℕ)
        → high1 - low < fuel
        → low ≤ high1
        → high1 ≤ n
        → ((i : ℕ) → i < low → Le (p i) x)
        → ((i : ℕ) → high1 ≤ i → i < n → Le x (p i))
        → Finds fuel low high1

    round : (fuel : ℕ) → FindsAll fuel → FindsAll (suc fuel)
    unfolding FindsAll Finds find_loop
    round fuel next low high1 h le top lo hi = elim (Bool-cases (ltb low high1)) [
      | inr done ↦ (
        low,
        rw done,
        record { inside = omega arith; below = lo; above = λ i a b. hi i (ground arith) b },
      )
      | inl more_left ↦
          (let lt : low < high1 = ground arith in
            rw (more_left, le→leb (low + high1) (2 ^ 31) (omega (arith, few)))
              (compared (cmp (p middle) x) refl lt))
    ]
      where
        middle : ℕ
        middle = (low + high1 - 1) / 2

        compared :
            (s : Sign)
            → cmp (p middle) x ≡ s
            → low < high1
            → (pos : ℕ) × ((elim s [
              | same ↦ some middle
              | more ↦ find_loop cmp p x fuel low middle
              | less ↦ find_loop cmp p x fuel (middle + 1) high1
            ])
                ≡ some pos)
              × IsPos p n x pos
        compared less e lt =
            next (middle + 1) high1 (omega arith) (omega arith) top
              (λ i a.
                below_middle middle i (omega arith) ((Sign-cases middle less e).0 (cc))
                  (omega arith))
              hi
        compared same e lt = (
          middle,
          refl,
          record {
            inside = omega arith;
            below = λ i a.
                below_middle middle i (omega arith) ((Sign-cases middle same e).0 (cc))
                  (omega arith);
            above = λ i a b. above_middle middle i b ((Sign-cases middle same e).1 (cc)) a;
          },
        )
        compared more e lt =
            next low middle (omega arith) (omega arith) (omega arith) lo
              (λ i a b. above_middle middle i b ((Sign-cases middle more e).1 (cc)) a)

    all_rounds : (fuel : ℕ) → FindsAll fuel
    unfolding FindsAll
    all_rounds zero = λ low high1 h. elim h [ ]
    all_rounds (suc fuel) = round fuel (all_rounds fuel)

    -- On a sorted array the whole search ends within `n + 1` rounds at a slot where `x` belongs.
    pub find_loop-IsPos : (pos : ℕ) × (find_loop cmp p x (n + 1) 0 n ≡ some pos) × IsPos p n x pos
    unfolding FindsAll Finds
    find_loop-IsPos =
        all_rounds (n + 1) 0 n (omega arith) (omega arith) (omega arith)
          (λ i a. absurd (omega arith)) (λ i a b. absurd (omega arith))
