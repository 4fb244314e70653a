-- ===== src/ArrayList/Delete.antt =====
-- hcore_list_delete, hcore_list_add, hcore_list_delete_all and hcore_init_list.
use hcore.Base.{
  ℕ, zero, suc, ◌+◌, ◌-◌, ◌*◌, ◌%◌, ◌^◌, ◌<◌, ◌≤◌, ◌≡◌, refl, Bool, true, false, ◌&&◌, none, some,
  ltb, leb, ◌==◌, if◌then◌else◌, arith, Bool-cases, inl, inr, ◌⊎◌, Option-cases,
}
use hcore.ArrayList.{
  Sign, Plist, ok, error, update, shift_down, index_of, init_list, list_add, shrink, delete_at,
  list_delete, list_delete_all,
}
use hcore.ArrayList.Search.{Sorted}
use hcore.ArrayList.Insert.{IsValid}

module _ {A : Type 0} where
  -- The slots behind `i` move down by one.
  shift_down-slot :
      (i count : ℕ) (p : ℕ → A) (j : ℕ)
      → shift_down i count p j ≡ (if leb i j && ltb j (i + count) then p (j + 1) else p j)
  unfolding shift_down
  shift_down-slot i zero p j = ground arith
  shift_down-slot i (suc count) p j = elim (Bool-cases (j == i)) [
    | inl e ↦
        (let at : j ≡ i = ground arith in
          rw at (ground (arith, shift_down-slot (i + 1) count (update p i (p (i + 1))) i)))
    | inr ne ↦ ground (arith, shift_down-slot (i + 1) count (update p i (p (i + 1))) j)
  ]

  module _ (eq : A → A → Bool) (p : ℕ → A) (x : A) where
    -- The first slot from `i` on that holds the pointer.
    pub index_of-first :
        (i count n : ℕ)
        → index_of eq p x i count ≡ some n
        → (i ≤ n)
          × (n < i + count)
          × (eq (p n) x ≡ true)
          × ((j : ℕ) → i ≤ j → j < n → eq (p j) x ≡ false)
    unfolding index_of
    index_of-first i zero n h = ground arith
    index_of-first i (suc count) n h = elim (Bool-cases (eq (p i) x)) [
      | inl hit ↦
          (let at : i ≡ n = ground arith in
            (omega arith, omega arith, rw (← at) hit, λ j a b. absurd (omega arith)))
      | inr miss ↦
          let (lo, hi, holds, before) = index_of-first (i + 1) count n (ground arith) in
          (
            omega arith,
            omega arith,
            holds,
            λ j a b. elim (Bool-cases (i == j)) [
              | inl e ↦ (let at : i ≡ j = ground arith in rw (← at) miss)
              | inr ne ↦ before j (ground arith) b
            ],
          )
    ]

    pub index_of-none :
        (i count : ℕ)
        → index_of eq p x i count ≡ none
        → (j : ℕ) → i ≤ j
        → j < i + count
        → eq (p j) x ≡ false
    unfolding index_of
    index_of-none i zero h j a b = absurd (omega arith)
    index_of-none i (suc count) h j a b = elim (Bool-cases (eq (p i) x)) [
      | inl hit ↦ ground arith
      | inr miss ↦ elim (Bool-cases (i == j)) [
        | inl e ↦ (let at : i ≡ j = ground arith in rw (← at) miss)
        | inr ne ↦ index_of-none (i + 1) count (ground arith) j (ground arith) (omega arith)
      ]
    ]

-- The list without the slot `n` of the `l.num_item` slots `p`.
pub record IsDeleted {A : Type 0} (cmp : A → A → Sign) (l : Plist A) (p : ℕ → A) (n : ℕ)
    (l' : Plist A) (p' : ℕ → A) : Type 0 where
  pub valid : IsValid cmp l' p'
  pub one_less : l'.num_item + 1 ≡ l.num_item
  pub same_flag : l'.sorted ≡ l.sorted
  pub slots : (j : ℕ) → j < l'.num_item → p' j ≡ (if ltb j n then p j else p (j + 1))

Sorted-shift_down :
    {A : Type 0} (cmp : A → A → Sign) (num : ℕ) (p : ℕ → A) (n : ℕ)
    → Sorted cmp p num
    → n < num
    → Sorted cmp (shift_down n (num - 1 - n) p) (num - 1)
Sorted-shift_down cmp num p n sorted lt i j a b =
    rw (shift_down-slot n (num - 1 - n) p i, shift_down-slot n (num - 1 - n) p j)
      (ground (arith, sorted i j, sorted i (j + 1), sorted (i + 1) (j + 1)))

module _ {A : Type 0} (junk : ℕ → A) (cmp : A → A → Sign) where
  shrunk-IsDeleted :
      (l : Plist A) (p : ℕ → A) (n : ℕ)
      → IsValid cmp l p
      → n < l.num_item
      → IsDeleted cmp l p n (delete_at junk true l p n) (shift_down n (l.num_item - 1 - n) p)
  unfolding delete_at shrink
  shrunk-IsDeleted l p n v lt = record {
    valid = record {
      array = ground arith;
      some_reserved = ground (arith, v.some_reserved);
      fits = ground (arith, v.fits);
      in_order = λ flag i j a b.
          Sorted-shift_down cmp l.num_item p n (v.in_order (ground arith)) lt i j a (ground arith);
    };
    one_less = ground arith;
    same_flag = ground arith;
    slots = λ j h. ground (arith, shift_down-slot n (l.num_item - 1 - n) p j);
  }

  -- On a valid list, with memory where the array shrinks, `hcore_list_delete` either removes the first
  -- slot that holds the pointer, closes the gap and leaves a valid list with the same sorted flag; or,
  -- if no slot holds it, returns HCORE_ERROR and leaves the list as it was.
  pub list_delete-IsDeleted :
      (eq : A → A → Bool) (l : Plist A) (p : ℕ → A) (x : A)
      → IsValid cmp l p
      → ((n : ℕ) × (l' : Plist A) × (p' : ℕ → A) × (n < l.num_item)
          × (eq (p n) x ≡ true)
          × ((j : ℕ) → j < n → eq (p j) x ≡ false)
          × (list_delete junk eq true l x ≡ ok l')
          × IsDeleted cmp l p n l' p')
        ⊎ (((j : ℕ) → j < l.num_item → eq (p j) x ≡ false)
            × (list_delete junk eq true l x ≡ error l))
  unfolding list_delete
  list_delete-IsDeleted eq l p x v = elim (Option-cases (index_of eq p x 0 l.num_item)) [
    | inl missing ↦ inr (
      λ j h. index_of-none eq p x 0 l.num_item missing j (omega arith) (omega arith),
      ground (arith, v.array, missing),
    )
    | inr (n, found) ↦
        let (lo, hi, holds, before) = index_of-first eq p x 0 l.num_item n found in
        inl (
          n,
          delete_at junk true l p n,
          shift_down n (l.num_item - 1 - n) p,
          omega arith,
          holds,
          λ j h. before j (omega arith) h,
          ground (arith, v.array, found),
          shrunk-IsDeleted l p n v (omega arith),
        )
  ]

  -- On a valid list of less than 2^31 pointers, `hcore_list_add` puts the pointer behind the others and clears the sorted flag;
  -- `hcore_list_delete_all` leaves a valid list of no pointers.
  pub list_add-IsValid :
      (l : Plist A) (p : ℕ → A) (x : A)
      → IsValid cmp l p
      → l.num_item < 2 ^ 31
      → ((l' : Plist A) × (p' : ℕ → A) × (list_add junk true l x ≡ ok l')
          × IsValid cmp l' p'
          × (l'.num_item ≡ l.num_item + 1)
          × (l'.sorted ≡ false)
          × (p' l.num_item ≡ x)
          × ((j : ℕ) → j < l.num_item → p' j ≡ p j))
        × IsValid cmp (list_delete_all junk true l) p
        × ((list_delete_all junk true l).num_item ≡ 0)
  unfolding list_add list_delete_all
  list_add-IsValid l p x v few = (
    (
      added,
      update p l.num_item x,
      runs,
      record {
        array = refl;
        some_reserved = ground (arith, v.some_reserved);
        fits = ground (arith, v.fits, v.some_reserved);
        in_order = λ flag. cc;
      },
      refl,
      refl,
      ground arith,
      λ j h. ground arith,
    ),
    record {
      array = ground (arith, v.array);
      some_reserved = omega arith;
      fits = omega arith;
      in_order = λ flag i j a b. absurd (omega arith);
    },
    refl,
  )
    where
      added : Plist A
      added = record {
        num_item = l.num_item + 1;
        num_reserved =
            if ltb l.num_reserved (l.num_item + 1) then l.num_reserved * 2 else l.num_reserved;
        p = some (update p l.num_item x);
        sorted = false;
      }

      runs : list_add junk true l x ≡ ok added
      runs =
          let c : (l.num_item + 1) % 2 ^ 32 ≡ l.num_item + 1 = omega (arith, few) in
          elim (Bool-cases (ltb l.num_reserved (l.num_item + 1))) [
            | inl full ↦
                let d : l.num_reserved * 2 % 2 ^ 32 ≡ l.num_reserved * 2 = ground (arith, few) in
                rw (c, full, v.array, d, list_add) (ground arith)
            | inr room ↦ rw (c, room, v.array, list_add) (ground arith)
          ]

  -- `hcore_init_list` gives a valid empty list if there is a pool and it has memory. With no pool it
  -- returns HCORE_ERROR, although it then allocates by `malloc` and that may have succeeded; with a
  -- pool that has no memory it returns HCORE_OK and the array is NULL.
  init_list-status :
      (was : Bool)
      → ((l : Plist A) × (init_list junk true true was ≡ ok l)
          × IsValid cmp l junk
          × (l.num_item ≡ 0))
        × ((memory : Bool) → (l : Plist A) × (init_list junk false memory was ≡ error l))
        × ((l : Plist A) × (init_list junk true false was ≡ ok l) × (l.p ≡ none))
  unfolding init_list
  init_list-status was = (
    (
      _,
      refl,
      record {
        array = refl;
        some_reserved = omega arith;
        fits = omega arith;
        in_order = λ flag i j a b. absurd (omega arith);
      },
      refl,
    ),
    λ memory. (_, refl),
    (_, refl, refl),
  )
