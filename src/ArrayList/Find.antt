-- ===== src/ArrayList/Find.antt =====
-- hcore_list_search: what it finds, and the list that it leaves.
use hcore.Base.{
  ℕ, ◌<◌, ◌≡◌, ◌≢◌, refl, Bool, true, false, Option, none, some, if◌then◌else◌, arith, inl, inr,
  ◌⊎◌, Option-cases,
}
use hcore.ArrayList.{Sign, same, Plist, list_sort, list_search}
use hcore.ArrayList.Search.{Sorted}
use hcore.ArrayList.Insert.{IsValid}

-- What `bsearch` owes its caller on a sorted array: a slot that compares equal if there is one.
pub record IsBsearch {A : Type 0} (bsearch : (A → A → Sign) → ℕ → (ℕ → A) → A → Option ℕ)
    (cmp : A → A → Sign) : Type 0 where
  pub hit :
      (n : ℕ) (p : ℕ → A) (x : A) (i : ℕ)
      → Sorted cmp p n
      → bsearch cmp n p x ≡ some i
      → (i < n) × (cmp x (p i) ≡ same)
  pub miss :
      (n : ℕ) (p : ℕ → A) (x : A)
      → Sorted cmp p n
      → bsearch cmp n p x ≡ none
      → (i : ℕ) → i < n
      → cmp x (p i) ≢ same

module _ {A : Type 0} (junk : ℕ → A) (qsort : (A → A → Sign) → ℕ → (ℕ → A) → ℕ → A)
    (bsearch : (A → A → Sign) → ℕ → (ℕ → A) → A → Option ℕ) (cmp : A → A → Sign) where
  -- The outcome over the slots `base`: a pointer that compares equal, or none where no slot does.
  abbrev pub Finds : (ℕ → A) → Plist A → A → Option A → Type 0
  Finds base l x r =
      ((i : ℕ) × (i < l.num_item) × (r ≡ some (base i)) × (cmp x (base i) ≡ same))
      ⊎ ((r ≡ none) × ((i : ℕ) → i < l.num_item → cmp x (base i) ≢ same))

  search_sorted :
      IsBsearch bsearch cmp
      → (l : Plist A) (p : ℕ → A) (x : A) → IsValid cmp l p
      → l.sorted ≡ true
      → Finds p l x (list_search junk qsort bsearch (some cmp) l x).0
  unfolding list_search
  search_sorted law l p x v s = elim (Option-cases (bsearch cmp l.num_item p x)) [
    | inl bad ↦ inr (ground (arith, v.array, bad), law.miss l.num_item p x (v.in_order s) bad)
    | inr (i, good) ↦
        let (lt, eq) = law.hit l.num_item p x i (v.in_order s) good in
        inl (i, lt, ground (arith, v.array, good), eq)
  ]

  kept :
      (l : Plist A) (x : A)
      → l.sorted ≡ true
      → (list_search junk qsort bsearch (some cmp) l x).1 ≡ l
  unfolding list_search
  kept l x s = ground (arith, s)

  sorted_first :
      (l : Plist A) (x : A)
      → l.sorted ≡ false
      → list_search junk qsort bsearch (some cmp) l x
        ≡ list_search junk qsort bsearch (some cmp) (list_sort junk qsort (some cmp) l) x
  unfolding list_search list_sort
  sorted_first l x s = ground (arith, s)

  sorted-IsValid :
      ((n : ℕ) (p : ℕ → A) → Sorted cmp (qsort cmp n p) n)
      → (l : Plist A) (p : ℕ → A) → IsValid cmp l p
      → IsValid cmp (list_sort junk qsort (some cmp) l) (qsort cmp l.num_item p)
  unfolding list_sort
  sorted-IsValid sorts l p v = record {
    array = rw v.array;
    some_reserved = v.some_reserved;
    fits = v.fits;
    in_order = λ _. sorts l.num_item p;
  }

  -- With a `qsort` that sorts by the comparison, a `bsearch` that searches by it and a list whose
  -- sorted flag tells the truth, `hcore_list_search` gives a pointer of the list that compares equal
  -- to the target, or NULL if there is none; it leaves a valid list that is marked sorted and has the
  -- slots it had, put in order by `qsort` if the flag was not set.
  pub list_search-Finds :
      ((n : ℕ) (p : ℕ → A) → Sorted cmp (qsort cmp n p) n)
      → IsBsearch bsearch cmp
      → (l : Plist A) (p : ℕ → A) (x : A) → IsValid cmp l p
      → let base = if l.sorted then p else qsort cmp l.num_item p in
        let (found, l') = list_search junk qsort bsearch (some cmp) l x in
        Finds base l x found × IsValid cmp l' base × (l'.sorted ≡ true) × (l'.num_item ≡ l.num_item)
  unfolding list_sort
  list_search-Finds sorts law l p x v = by_flag l.sorted refl
    where
      by_flag :
          (b : Bool)
          → l.sorted ≡ b
          → let base = if b then p else qsort cmp l.num_item p in
            let (found, l') = list_search junk qsort bsearch (some cmp) l x in
            Finds base l x found
            × IsValid cmp l' base
            × (l'.sorted ≡ true)
            × (l'.num_item ≡ l.num_item)
      by_flag true e =
          (search_sorted law l p x v e, rw (kept l x e) v, rw (kept l x e) e, rw (kept l x e))
      by_flag false e =
          let sorted_l = list_sort junk qsort (some cmp) l in
          let marked : sorted_l.sorted ≡ true = unfold list_sort in refl in
          let count : sorted_l.num_item ≡ l.num_item = unfold list_sort in refl in
          let valid = sorted-IsValid sorts l p v in
          rw (sorted_first l x e, kept sorted_l x marked)
            (
              rw count at (search_sorted law sorted_l (qsort cmp l.num_item p) x valid marked),
              valid,
              marked,
              count,
            )
