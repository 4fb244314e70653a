-- ===== src/Queue/Tests.antt =====
-- Queues of the addresses 1 to 4 around the sentinel 0.
use hcore.Base.{ℕ, refl, ◌==◌, if◌then◌else◌, Bool, leb, ◌≡◌, some, [], ◌∷◌, arith}
use hcore.Queue.Sort.{queue_sort}
use hcore.Queue.Sort.Order.{IsOrder, Ordered, sorted, count, queue_sort-IsQueue}
use hcore.Queue.{
  Heap, queue_init, insert_head, insert_tail, remove, queue_add, queue_split, queue_middle,
}
use hcore.Queue.Parts.{queue_add-IsQueue, queue_split-IsQueue}
use hcore.Queue.Middle.{queue_middle-get_or}
use hcore.Queue.Links.{IsQueue, queue_init-IsQueue, insert-IsQueue, remove-IsQueue}

-- Every link leads to the address 99.
abbrev wild : Heap
wild = record { prev = λ a. 99; next = λ a. 99 }

new-IsQueue : IsQueue (queue_init wild 0) 0 []
new-IsQueue = queue_init-IsQueue wild 0

insert-IsQueue_example :
    IsQueue (insert_head (queue_init wild 0) 0 1) 0 (1 ∷ [])
    × IsQueue (insert_tail (queue_init wild 0) 0 1) 0 (1 ∷ [])
insert-IsQueue_example = insert-IsQueue (queue_init wild 0) 0 1 [] new-IsQueue (omega arith) tt

two-IsQueue : IsQueue (insert_tail (insert_tail (queue_init wild 0) 0 1) 0 2) 0 (1 ∷ 2 ∷ [])
two-IsQueue =
    (insert-IsQueue (insert_tail (queue_init wild 0) 0 1) 0 2 (1 ∷ []) insert-IsQueue_example.1
      (omega arith) (ground arith)).1

remove-IsQueue_example :
    IsQueue (remove (insert_tail (insert_tail (queue_init wild 0) 0 1) 0 2) 1) 0 (2 ∷ [])
remove-IsQueue_example =
    remove-IsQueue (insert_tail (insert_tail (queue_init wild 0) 0 1) 0 2) 0 1 [] (2 ∷ [])
      two-IsQueue

-- Addresses in order of their numbers.
abbrev at_most : ℕ → ℕ → Bool
at_most a b = leb a b

at_most-IsOrder : IsOrder at_most
at_most-IsOrder = record { total = λ a b e. ground arith; transitive = λ a b c d e. ground arith }

abbrev two_heap : Heap
two_heap = insert_tail (insert_tail (queue_init wild 0) 0 2) 0 1

two_heap-IsQueue : IsQueue two_heap 0 (2 ∷ 1 ∷ [])
two_heap-IsQueue =
    (insert-IsQueue (insert_tail (queue_init wild 0) 0 2) 0 1 (2 ∷ [])
      (insert-IsQueue (queue_init wild 0) 0 2 [] new-IsQueue (omega arith) tt).1 (omega arith)
      (ground arith)).1

queue_sort-IsQueue_example :
    ((s' : Heap) × (queue_sort at_most 2 2 two_heap 0 ≡ some s')
      × IsQueue s' 0 (sorted at_most (2 ∷ 1 ∷ [])))
    × Ordered at_most (sorted at_most (2 ∷ 1 ∷ []))
    × ((a : ℕ) → count a (sorted at_most (2 ∷ 1 ∷ [])) ≡ count a (2 ∷ 1 ∷ []))
queue_sort-IsQueue_example =
    queue_sort-IsQueue at_most 2 2 two_heap 0 (2 ∷ 1 ∷ []) at_most-IsOrder (omega arith)
      (omega arith) two_heap-IsQueue

-- The elements 1 and 2 around 0, and 6 around 5.
abbrev two_queues : Heap
two_queues = record {
  prev = λ a.
      if a == 0 then 2 else if a == 1 then 0 else if a == 2 then 1 else if a == 5 then 6 else 5;
  next = λ a.
      if a == 0 then 1 else if a == 1 then 2 else if a == 2 then 0 else if a == 5 then 6 else 5;
}

first-IsQueue : IsQueue two_queues 0 (1 ∷ 2 ∷ [])
first-IsQueue = ((refl, refl, (refl, refl, (refl, refl))), ground arith, ground arith)

second-IsQueue : IsQueue two_queues 5 (6 ∷ [])
second-IsQueue = ((refl, refl, (refl, refl)), ground arith, ground arith)

queue_add-IsQueue_example : IsQueue (queue_add two_queues 0 5) 0 (1 ∷ 2 ∷ 6 ∷ [])
queue_add-IsQueue_example =
    queue_add-IsQueue two_queues 0 5 (1 ∷ 2 ∷ []) (6 ∷ []) first-IsQueue second-IsQueue
      (ground arith) (ground arith)

queue_split-IsQueue_example :
    IsQueue (queue_split two_queues 0 2 7) 0 (1 ∷ [])
    × IsQueue (queue_split two_queues 0 2 7) 7 (2 ∷ [])
queue_split-IsQueue_example =
    queue_split-IsQueue two_queues 0 7 2 (1 ∷ []) [] first-IsQueue (ground arith)

queue_middle-get_or_example : queue_middle 1 two_queues 0 ≡ some 2
queue_middle-get_or_example =
    queue_middle-get_or 1 two_queues 0 1 (2 ∷ []) first-IsQueue (omega arith)
