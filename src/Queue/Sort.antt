-- ===== src/Queue/Sort.antt =====
-- src/hcore_queue.c: the stable insertion sort.
pub mod Insert
pub mod Result
pub mod Order
use hcore.Base.{ℕ, zero, suc, Bool, Option, none, some, ◌==◌, if◌then◌else◌}
use hcore.Queue.{Heap, insert_head, remove}

-- `le p q` is `cmp(p, q) <= 0` of the caller.
module _ (le : ℕ → ℕ → Bool) where
  -- The inner loop: where `q` is put behind. None if its fuel is gone.
  unfoldable pub back_loop : (fuel : ℕ) → Heap → (h prev q : ℕ) → Option ℕ
  back_loop zero s h prev q = none
  back_loop (suc fuel) s h prev q =
      let later = back_loop fuel s h (s.prev prev) q in
      if le prev q then some prev else if s.prev prev == h then some (s.prev prev) else later

  -- The outer loop, from `q` on, with fuel of its own for each run of the inner one.
  unfoldable pub sort_loop : (fuel back : ℕ) → Heap → (h q : ℕ) → Option Heap
  sort_loop zero back s h q = none
  sort_loop (suc fuel) back s h q =
      let next = s.next q in
      let s1 = remove s q in
      if q == h then some s else elim (back_loop back s1 h (s.prev q) q) [
        | none ↦ none
        | some prev ↦ sort_loop fuel back (insert_head s1 prev q) h next
      ]

  -- hcore_queue_sort
  unfoldable pub queue_sort : (fuel back : ℕ) → Heap → ℕ → Option Heap
  queue_sort fuel back s h =
      let sorted = sort_loop fuel back s h (s.next (s.next h)) in
      if s.next h == s.prev h then some s else sorted
