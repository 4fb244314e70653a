-- ===== src/ArrayList/Tests.antt =====
-- Runs of the functions of src/hcore_list.c on numbers, and their theorems at these inputs.
use hcore.Base.{
  ℕ, zero, suc, ◌+◌, ◌-◌, ◌<◌, ◌≡◌, refl, ◌≢◌, ◌⊎◌, Bool, true, false, Option, some, ltb, ◌==◌,
  arith, if◌then◌else◌, Bool-cases, inl, inr, leb,
}
use hcore.ArrayList.{
  Sign, less, same, more, Plist, ok, error, list_delete, list_insert, list_search, index_of,
}
use hcore.ArrayList.Search.{IsOrder, Sorted, IsPos}
use hcore.ArrayList.Insert.{IsValid, inserted, Sorted-inserted, Inserts, list_insert-Inserts}
use hcore.ArrayList.Find.{IsBsearch, Finds, list_search-Finds}
use hcore.ArrayList.Delete.{index_of-first, index_of-none, IsDeleted, list_delete-IsDeleted}

abbrev compare_num : ℕ → ℕ → Sign
compare_num a b = if ltb a b then less else if a == b then same else more

compare_num-IsOrder : IsOrder compare_num
compare_num-IsOrder = record { flip = λ a b h. ground arith; trans = λ a b c h k e. ground arith }

-- A place for a number among those in order.
abbrev place :
    (p : ℕ → ℕ) (n x : ℕ) → Sorted compare_num p n → (pos : ℕ) × IsPos compare_num p n x pos
place p zero x s = (
  0,
  record {
    inside = omega arith;
    below = λ i a. absurd (omega arith);
    above = λ i a b. absurd (omega arith);
  },
)
place p (suc n) x s = elim (Bool-cases (leb (p n) x)) [
  | inl e ↦ (
    suc n,
    record {
      inside = omega arith;
      below = λ i a. ground (arith, s i n);
      above = λ i a b. absurd (omega arith);
    },
  )
  | inr e ↦
      let (pos, is) = place p n x (λ i j a b. s i j a (omega arith)) in
      (
        pos,
        record {
          inside = omega (arith, is.inside);
          below = is.below;
          above = λ i a b. ground (arith, is.above i a);
        },
      )
]

-- A sort: each slot in turn is put in where it belongs among those before it.
abbrev sort_pair : (n : ℕ) (p : ℕ → ℕ) → (q : ℕ → ℕ) × Sorted compare_num q n
sort_pair zero p = (p, λ i j a b. absurd (omega arith))
sort_pair (suc n) p =
    let (q, sorted) = sort_pair n p in
    let (pos, is) = place q n (p n) sorted in
    (
      λ j. if ltb n j then p j else inserted q pos (p n) j,
      λ i j a b. ground (arith, Sorted-inserted compare_num n q sorted (p n) pos is i j),
    )

abbrev qsort : (ℕ → ℕ → Sign) → ℕ → (ℕ → ℕ) → ℕ → ℕ
qsort cmp n p = (sort_pair n p).0

qsort-Sorted : (n : ℕ) (p : ℕ → ℕ) → Sorted compare_num (qsort compare_num n p) n
qsort-Sorted n p = (sort_pair n p).1

abbrev junk : ℕ → ℕ
junk i = 99

-- 2, 4 and 6 in an array of three slots
abbrev evens : ℕ → ℕ
evens i = i + i + 2

abbrev full_list : Plist ℕ
full_list = record { num_item = 3; num_reserved = 3; p = some evens; sorted = true }

full_list-IsValid : IsValid compare_num full_list evens
full_list-IsValid = record {
  array = refl;
  some_reserved = omega arith;
  fits = omega arith;
  in_order = λ flag i j a b e. ground arith;
}

list_insert-Inserts_example :
    Inserts junk qsort compare_num compare_num-IsOrder evens full_list 5
      (list_insert junk qsort true (some compare_num) full_list 5)
list_insert-Inserts_example =
    list_insert-Inserts junk qsort compare_num compare_num-IsOrder qsort-Sorted full_list evens 5
      full_list-IsValid (omega arith)

abbrev eq_num : ℕ → ℕ → Bool
eq_num a b = a == b

list_delete-IsDeleted_example :
    ((n : ℕ) × (l' : Plist ℕ) × (p' : ℕ → ℕ) × (n < 3)
      × (eq_num (evens n) 4 ≡ true)
      × ((j : ℕ) → j < n → eq_num (evens j) 4 ≡ false)
      × (list_delete junk eq_num true full_list 4 ≡ ok l')
      × IsDeleted compare_num full_list evens n l' p')
    ⊎ (((j : ℕ) → j < 3 → eq_num (evens j) 4 ≡ false)
        × (list_delete junk eq_num true full_list 4 ≡ error full_list))
list_delete-IsDeleted_example =
    list_delete-IsDeleted junk compare_num eq_num full_list evens 4 full_list-IsValid

abbrev matches : (ℕ → ℕ → Sign) → ℕ → ℕ → Bool
matches cmp slot x = elim (cmp x slot) [ less ↦ false | same ↦ true | more ↦ false ]

-- The first slot that compares equal.
abbrev bsearch : (ℕ → ℕ → Sign) → ℕ → (ℕ → ℕ) → ℕ → Option ℕ
bsearch cmp n p x = index_of (matches cmp) p x 0 n

matches_same :
    (s : Sign)
    → (elim s as (λ _. Bool) [ less ↦ false | same ↦ true | more ↦ false ]) ≡ true
    → s ≡ same
matches_same less h = cc
matches_same same h = refl
matches_same more h = cc

matches_other :
    (s : Sign)
    → (elim s as (λ _. Bool) [ less ↦ false | same ↦ true | more ↦ false ]) ≡ false
    → s ≢ same
matches_other less h = λ e. cc
matches_other same h = λ e. cc
matches_other more h = λ e. cc

bsearch-IsBsearch : IsBsearch bsearch compare_num
bsearch-IsBsearch = record {
  hit = λ n p x i sorted e.
      let (lo, hi, at, before) = index_of-first (matches compare_num) p x 0 n i e in
      (omega arith, matches_same (compare_num x (p i)) at);
  miss = λ n p x sorted e i lt.
      matches_other (compare_num x (p i))
        (index_of-none (matches compare_num) p x 0 n e i (omega arith) (omega arith));
}

-- 6, 4 and 2, not in order yet
abbrev downward : ℕ → ℕ
downward i = 6 - (i + i)

abbrev mixed_list : Plist ℕ
mixed_list = record { num_item = 3; num_reserved = 32; p = some downward; sorted = false }

mixed_list-IsValid : IsValid compare_num mixed_list downward
mixed_list-IsValid = record {
  array = refl;
  some_reserved = omega arith;
  fits = omega arith;
  in_order = λ flag. cc;
}

list_search-Finds_example :
    let (found, l') = list_search junk qsort bsearch (some compare_num) mixed_list 4 in
    Finds junk qsort bsearch compare_num (qsort compare_num 3 downward) mixed_list 4 found
    × IsValid compare_num l' (qsort compare_num 3 downward)
    × (l'.sorted ≡ true)
    × (l'.num_item ≡ 3)
list_search-Finds_example =
    list_search-Finds junk qsort bsearch compare_num qsort-Sorted bsearch-IsBsearch mixed_list
      downward 4 mixed_list-IsValid
