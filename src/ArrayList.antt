-- ===== src/ArrayList.antt =====
-- src/hcore_list.c: an array of pointers that grows and shrinks, kept in order by a comparison.
-- The array is a function from slots to pointers, and NULL is `none`. A call says with `memory`
-- whether an allocation that it makes succeeds. Counts of hcore_list_add and hcore_list_insert have 32 bits,
-- and an `int` that overflows is a fault; elsewhere counts stay below 2^31. The list and the pointers that a call is
-- given are not NULL.
pub mod Search
pub mod Insert
pub mod Delete
pub mod Find
mod Tests
use hcore.Base.{
  ℕ, zero, suc, ◌+◌, ◌-◌, ◌*◌, ◌/◌, ◌%◌, ◌^◌, Bool, true, false, not, ◌&&◌, Option, none, some, ltb,
  leb, ◌==◌, if◌then◌else◌,
}

-- the sign of what `list->cmp` returns
pub data Sign : Type 0 where
  less same more : Sign

-- How a call ends: HCORE_OK, HCORE_ERROR, or an access through NULL.
pub data Result {ℓ} (S : Type ℓ) : Type ℓ where
  ok : S → Result S
  error : S → Result S
  fault : Result S

-- HCORE_LIST_INIT_NUM_RESERVED
abbrev pub init_num_reserved : ℕ
init_num_reserved = 32

-- hcore_list_s; `cmp` is a parameter of the functions that use it
pub record Plist (A : Type 0) : Type 0 where
  pub num_item : ℕ
  pub num_reserved : ℕ
  pub p : Option (ℕ → A)
  pub sorted : Bool

-- `high + 1` for `high = num - 1`, which is negative as an `int` if it is not below 2^31
abbrev pub high1_of : ℕ → ℕ
high1_of num = if leb num (2 ^ 31) then num else 0

module _ {A : Type 0} where
  abbrev pub update : (ℕ → A) → ℕ → A → ℕ → A
  update p i x j = if i == j then x else p j

  -- `for (i = num - 2; i >= pos; i--) p[i + 1] = p[i];`, with `count` rounds left
  unfoldable pub shift_up : (pos count : ℕ) → (ℕ → A) → ℕ → A
  shift_up pos zero p = p
  shift_up pos (suc count) p = shift_up pos count (update p (pos + count + 1) (p (pos + count)))

  -- `for (i = n; i < num - 1; i++) p[i] = p[i + 1];`, with `count` rounds left
  unfoldable pub shift_down : (i count : ℕ) → (ℕ → A) → ℕ → A
  shift_down i zero p = p
  shift_down i (suc count) p = shift_down (i + 1) count (update p i (p (i + 1)))

  -- The search of hcore_list_insert; `high1` is `high + 1`, so that it is never negative. The slot of
  -- an equal pointer, or `low` where the loop ends; none where `low + high` is no `int`.
  unfoldable pub find_loop : (A → A → Sign) → (ℕ → A) → A → (fuel low high1 : ℕ) → Option ℕ
  find_loop cmp p x zero low high1 = none
  find_loop cmp p x (suc fuel) low high1 =
      let middle = (low + high1 - 1) / 2 in
      let left = find_loop cmp p x fuel low middle in
      let right = find_loop cmp p x fuel (middle + 1) high1 in
      if ltb low high1
      then (if leb (low + high1) (2 ^ 31)
          then elim (cmp (p middle) x) [ same ↦ some middle | more ↦ left | less ↦ right ]
          else none)
      else some low

  -- `list->p[i] == p`, for the first slot from `i` on, of `count` slots
  unfoldable pub index_of : (A → A → Bool) → (ℕ → A) → A → (i count : ℕ) → Option ℕ
  index_of eq p x i zero = none
  index_of eq p x i (suc count) =
      let rest = index_of eq p x (i + 1) count in if eq (p i) x then some i else rest

-- `junk` is what fresh memory holds.
module _ {A : Type 0} (junk : ℕ → A) where
  -- The code tests `list->pool`, not `list->p`. On the error `sorted` is left as it was.
  unfoldable pub init_list : (pool memory was_sorted : Bool) → Result (Plist A)
  init_list pool memory was_sorted =
      let p = if memory then some junk else none in
      let n = init_num_reserved in
      if not pool
      then error (record { num_item = 0; num_reserved = n; p = p; sorted = was_sorted })
      else ok (record { num_item = 0; num_reserved = n; p = p; sorted = true })

  -- hcore_list_realloc, which allocates where there was no array
  abbrev pub realloc : Bool → Option (ℕ → A) → Option (ℕ → A)
  realloc memory none = if memory then some junk else none
  realloc memory (some p) = if memory then some p else none

  unfoldable pub list_add : (memory : Bool) → Plist A → A → Result (Plist A)
  list_add memory l x =
      let i = l.num_item in
      let counted = record l { num_item = (i + 1) % 2 ^ 32 } in
      let grown = record counted {
        num_reserved = l.num_reserved * 2 % 2 ^ 32;
        p = realloc memory l.p;
      } in
      let room = if ltb l.num_reserved ((i + 1) % 2 ^ 32) then grown else counted in
      elim room.p [
        | none ↦ if ltb l.num_reserved ((i + 1) % 2 ^ 32) then error room else fault
        | some p ↦ ok (record room { p = some (update p i x); sorted = false })
      ]

  -- The count, the growth, the shift and the write of hcore_list_insert at `pos`.
  unfoldable pub insert_at : (memory : Bool) → Plist A → ℕ → A → Result (Plist A)
  insert_at memory l pos x =
      let num = (l.num_item + 1) % 2 ^ 32 in
      let full = ltb l.num_reserved num in
      elim (if full then realloc memory l.p else l.p) [
        | none ↦ fault
        | some p ↦
            let shifted =
              if leb 2 num && leb num (2 ^ 31 + 1) then shift_up pos (num - 1 - pos) p else p in
            ok (record l {
              num_item = num;
              num_reserved = if full then l.num_reserved * 2 % 2 ^ 32 else l.num_reserved;
              p = some (update shifted pos x);
            })
      ]

  -- The shrinking of the array behind a deletion.
  unfoldable pub shrink : (memory : Bool) → Plist A → Plist A
  shrink memory l =
      if leb (l.num_item * 2) l.num_reserved
      then (if ltb (init_num_reserved * 2) l.num_reserved
          then record l { num_reserved = l.num_reserved / 2; p = realloc memory l.p }
          else l)
      else l

  unfoldable pub delete_at : (memory : Bool) → Plist A → (ℕ → A) → ℕ → Plist A
  unfolding shrink shift_down
  delete_at memory l p n =
      shrink memory
        (record l { num_item = l.num_item - 1; p = some (shift_down n (l.num_item - 1 - n) p) })

  -- `eq` is the equality of pointers.
  unfoldable pub list_delete : (eq : A → A → Bool) (memory : Bool) → Plist A → A → Result (Plist A)
  list_delete eq memory l x = elim l.p [
    | none ↦ if l.num_item == 0 then error l else fault
    | some p ↦ elim (index_of eq p x 0 l.num_item) [
      | none ↦ error l
      | some n ↦ ok (delete_at memory l p n)
    ]
  ]

  unfoldable pub list_delete_all : (memory : Bool) → Plist A → Plist A
  list_delete_all memory l = record l {
    num_item = 0;
    num_reserved = init_num_reserved;
    p = realloc memory l.p;
  }

  -- `qsort` of the C library puts the first slots in the order of `cmp`.
  module _ (qsort : (A → A → Sign) → ℕ → (ℕ → A) → ℕ → A) where
    unfoldable pub list_sort : Option (A → A → Sign) → Plist A → Plist A
    list_sort none l = l
    list_sort (some cmp) l = record l {
      p = elim l.p [ none ↦ none | some p ↦ some (qsort cmp l.num_item p) ];
      sorted = true;
    }

    -- Enough rounds for the search: each halves what is left.
    unfoldable pub insert_sorted :
        (memory : Bool) (cmp : A → A → Sign) → Plist A → A → Result (Plist A)
    insert_sorted memory cmp l x = elim l.p [
      | none ↦ if l.num_item == 0 then insert_at memory l 0 x else fault
      | some p ↦ elim (find_loop cmp p x (l.num_item + 1) 0 (high1_of l.num_item)) [
        | none ↦ fault
        | some pos ↦ insert_at memory l pos x
      ]
    ]

    -- Without a comparison the status of hcore_list_add is dropped.
    unfoldable pub list_insert :
        (memory : Bool) → Option (A → A → Sign) → Plist A → A → Result (Plist A)
    list_insert memory none l x = elim (list_add memory l x) [
      | ok l' ↦ ok l'
      | error l' ↦ ok l'
      | fault ↦ fault
    ]
    list_insert memory (some cmp) l x =
        insert_sorted memory cmp (if l.sorted then l else list_sort (some cmp) l) x

    -- The pointer found, or NULL, and the list, which the search may sort. `bsearch` of the C library
    -- gives the slot that it finds; it looks at no slot where there is none.
    unfoldable pub list_search :
        (bsearch : (A → A → Sign) → ℕ → (ℕ → A) → A → Option ℕ)
        → Option (A → A → Sign)
        → Plist A
        → A
        → Option A × Plist A
    list_search bsearch none l target = (none, l)
    list_search bsearch (some cmp) l target =
        let l' = if l.sorted then l else list_sort (some cmp) l in
        (
          elim l'.p [
            | none ↦ none
            | some p ↦ elim (bsearch cmp l'.num_item p target) [ none ↦ none | some i ↦ some (p i) ]
          ],
          l',
        )
