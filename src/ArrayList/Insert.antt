-- ===== src/ArrayList/Insert.antt =====
-- hcore_list_insert: the new pointer goes in where it belongs, and nothing else changes.
use hcore.Base.{
  ℕ, zero, suc, ◌+◌, ◌-◌, ◌*◌, ◌%◌, ◌^◌, le→leb, ap, ◌∙◌, ◌<◌, ◌≤◌, ◌≡◌, refl, Bool, true, false,
  ◌&&◌, some, ltb, leb, ◌==◌, if◌then◌else◌, arith, Bool-cases, inl, inr,
}
use hcore.ArrayList.{
  Sign, find_loop, high1_of, Plist, Result, ok, update, shift_up, insert_at, insert_sorted,
  list_insert, list_sort,
}
use hcore.ArrayList.Search.{IsOrder, Sorted, IsPos, find_loop-IsPos}

module _ {A : Type 0} where
  -- The slots from `pos` on move up by one.
  shift_up-slot :
      (pos count : ℕ) (p : ℕ → A) (j : ℕ)
      → shift_up pos count p j ≡ (if ltb pos j && leb j (pos + count) then p (j - 1) else p j)
  unfolding shift_up
  shift_up-slot pos zero p j = ground arith
  shift_up-slot pos (suc count) p j = elim (Bool-cases (j == pos + count + 1)) [
    | inl e ↦
        (let at : j ≡ pos + count + 1 = ground arith in
          rw at (
            ground (
              arith,
              shift_up-slot pos count (update p (pos + count + 1) (p (pos + count)))
                  (pos + count + 1),
            )))
    | inr ne ↦
        ground (arith, shift_up-slot pos count (update p (pos + count + 1) (p (pos + count))) j)
  ]

  -- The slots of `p` with `x` put in at `pos`.
  abbrev pub inserted : (ℕ → A) → ℕ → A → ℕ → A
  inserted p pos x j = if j == pos then x else if ltb j pos then p j else p (j - 1)

-- The list has an array of at least its count of slots, in order if it says so.
pub record IsValid {A : Type 0} (cmp : A → A → Sign) (l : Plist A) (p : ℕ → A) : Type 0 where
  pub array : l.p ≡ some p
  pub some_reserved : 1 ≤ l.num_reserved
  pub fits : l.num_item ≤ l.num_reserved
  pub in_order : l.sorted ≡ true → Sorted cmp p l.num_item

-- `l'` is the sorted list whose slots are those of `base` with `x` put in where it belongs.
pub record IsInserted {A : Type 0} (cmp : A → A → Sign) (n : ℕ) (base : ℕ → A) (x : A) (pos : ℕ)
    (l' : Plist A) (p' : ℕ → A) : Type 0 where
  pub valid : IsValid cmp l' p'
  pub is_sorted : l'.sorted ≡ true
  pub one_more : l'.num_item ≡ n + 1
  pub belongs : IsPos cmp base n x pos
  pub slots : (j : ℕ) → j ≤ n → p' j ≡ inserted base pos x j

module _ {A : Type 0} (cmp : A → A → Sign) (n : ℕ) (p : ℕ → A) (sorted : Sorted cmp p n) (x : A)
    (pos : ℕ) (is : IsPos cmp p n x pos) where
  pub Sorted-inserted : Sorted cmp (inserted p pos x) (n + 1)
  Sorted-inserted i j lt top = elim (Bool-cases (j == pos)) [
    | inl e ↦
        (let at : j ≡ pos = ground arith in
          let low : i < pos = omega arith in ground (arith, is.below i low))
    | inr ne ↦ elim (Bool-cases (i == pos)) [
      | inl e ↦ ground (arith, is.above (j - 1))
      | inr ne' ↦ ground (arith, sorted i j, sorted i (j - 1), sorted (i - 1) (j - 1))
    ]
  ]

  -- The array after the shift and the write.
  written : ℕ → A
  written = update (if leb 2 (n + 1) then shift_up pos (n + 1 - 1 - pos) p else p) pos x

  written-slot : (j : ℕ) → j ≤ n → written j ≡ inserted p pos x j
  unfolding written
  written-slot j h = ground (arith, shift_up-slot pos (n + 1 - 1 - pos) p j, is.inside)

  Sorted-written : Sorted cmp written (n + 1)
  Sorted-written i j lt top =
      rw (written-slot i (omega arith), written-slot j (omega arith)) (Sorted-inserted i j lt top)

module _ {A : Type 0} (junk : ℕ → A) where
  -- The list that `insert_at` leaves, where memory is had.
  abbrev grown : Plist A → (ℕ → A) → ℕ → A → Plist A
  grown l p pos x = record l {
    num_item = l.num_item + 1;
    num_reserved =
        if ltb l.num_reserved (l.num_item + 1) then l.num_reserved * 2 else l.num_reserved;
    p = some (
        update (if leb 2 (l.num_item + 1) then shift_up pos (l.num_item + 1 - 1 - pos) p else p) pos
          x);
  }

  insert_at-ok :
      (l : Plist A) (p : ℕ → A) (pos : ℕ) (x : A)
      → l.p ≡ some p
      → l.num_item ≤ 2 ^ 30
      → l.num_item ≤ l.num_reserved
      → insert_at junk true l pos x ≡ ok (grown l p pos x)
  unfolding insert_at
  insert_at-ok l p pos x e few fits =
      let c : (l.num_item + 1) % 2 ^ 32 ≡ l.num_item + 1 = omega (arith, few) in
      let top = le→leb (l.num_item + 1) (2 ^ 31 + 1) (omega (arith, few)) in
      elim (Bool-cases (ltb l.num_reserved (l.num_item + 1))) [
        | inl full ↦
            let d : l.num_reserved * 2 % 2 ^ 32 ≡ l.num_reserved * 2 = ground (arith, few) in
            rw (c, full, e, d, insert_at) (ground (arith, top))
        | inr room ↦ rw (c, room, e, insert_at) (ground (arith, top))
      ]

module _ {A : Type 0} (junk : ℕ → A) (qsort : (A → A → Sign) → ℕ → (ℕ → A) → ℕ → A)
    (cmp : A → A → Sign) (order : IsOrder cmp) where
  high1_lem : (n : ℕ) → n ≤ 2 ^ 30 → high1_of n ≡ n
  high1_lem n h = ground arith

  abbrev pub Inserts : (ℕ → A) → Plist A → A → Result (Plist A) → Type 0
  Inserts base l x r =
      (l' : Plist A) × (p' : ℕ → A) × (pos : ℕ) × (r ≡ ok l')
      × IsInserted cmp l.num_item base x pos l' p'

  insert_sorted-Inserts :
      (l : Plist A) (p : ℕ → A) (x : A)
      → IsValid cmp l p
      → l.sorted ≡ true
      → l.num_item ≤ 2 ^ 30
      → Inserts p l x (insert_sorted junk qsort true cmp l x)
  unfolding insert_sorted
  insert_sorted-Inserts l p x v s few =
      let (pos, found, is) = find_loop-IsPos cmp order p l.num_item (v.in_order s) x few in
      (
        grown junk l p pos x,
        written cmp l.num_item p (v.in_order s) x pos is,
        pos,
        runs pos (ap (find_loop cmp p x (l.num_item + 1) 0) (high1_lem l.num_item few) ∙ found),
        record {
          valid = record {
            array = unfold written in refl;
            some_reserved = ground (arith, v.some_reserved);
            fits = ground (arith, v.some_reserved, v.fits);
            in_order = λ _. Sorted-written cmp l.num_item p (v.in_order s) x pos is;
          };
          is_sorted = s;
          one_more = refl;
          belongs = is;
          slots = written-slot cmp l.num_item p (v.in_order s) x pos is;
        },
      )
    where
      runs :
          (pos : ℕ)
          → find_loop cmp p x (l.num_item + 1) 0 (high1_of l.num_item) ≡ some pos
          → insert_sorted junk qsort true cmp l x ≡ ok (grown junk l p pos x)
      runs pos found =
          rw (v.array, found, insert_sorted) (insert_at-ok junk l p pos x v.array few v.fits)

  -- With a comparison that is an order, at most 2^30 pointers in the list, a `qsort` that sorts by it, a list whose sorted flag tells the
  -- truth and memory to grow, `hcore_list_insert` succeeds: the list is sorted and one longer, and its
  -- slots are those it had (put in order by `qsort` first, if the flag was not set) with the new
  -- pointer at a position behind all that are smaller and in front of all that are greater.
  pub list_insert-Inserts :
      ((n : ℕ) (p : ℕ → A) → Sorted cmp (qsort cmp n p) n)
      → (l : Plist A) (p : ℕ → A) (x : A) → IsValid cmp l p
      → l.num_item ≤ 2 ^ 30
      → Inserts
          (if l.sorted then p else qsort cmp l.num_item p)
          l
          x
          (list_insert junk qsort true (some cmp) l x)
  unfolding list_insert list_sort
  list_insert-Inserts sorts l p x v few = by_flag l.sorted refl
    where
      by_flag :
          (b : Bool)
          → l.sorted ≡ b
          → Inserts (if b then p else qsort cmp l.num_item p) l x (
              insert_sorted junk qsort true cmp
                (if b then l else list_sort junk qsort (some cmp) l)
                x)
      by_flag true e = insert_sorted-Inserts l p x v e few
      by_flag false e =
          insert_sorted-Inserts (list_sort junk qsort (some cmp) l) (qsort cmp l.num_item p) x
            (record {
              array = rw v.array;
              some_reserved = v.some_reserved;
              fits = v.fits;
              in_order = λ _. sorts l.num_item p;
            })
            refl few
