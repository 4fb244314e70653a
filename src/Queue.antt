-- ===== src/Queue.antt =====
-- include/hcore_queue.h: the doubly linked queue, on a heap of its links.
-- An address is a number. A queue is the address of its sentinel.
pub mod Links
pub mod Sort
pub mod Joined
pub mod Parts
pub mod Middle
mod Tests
use hcore.Base.{ℕ, zero, suc, Option, none, some, Bool, ◌==◌, if◌then◌else◌}

-- hcore_queue_t at every address
pub record Heap : Type 0 where
  pub prev : ℕ → ℕ
  pub next : ℕ → ℕ

abbrev pub set_prev : Heap → ℕ → ℕ → Heap
set_prev s q v = record s { prev = λ a. if a == q then v else s.prev a }

abbrev pub set_next : Heap → ℕ → ℕ → Heap
set_next s q v = record s { next = λ a. if a == q then v else s.next a }

unfoldable pub queue_init : Heap → ℕ → Heap
queue_init s q = set_next (set_prev s q q) q q

unfoldable pub queue_empty : Heap → ℕ → Bool
queue_empty s h = h == s.prev h

-- hcore_queue_insert_head, which is hcore_queue_insert_after too
unfoldable pub insert_head : Heap → (h x : ℕ) → Heap
insert_head s h x =
    let s1 = set_next s x (s.next h) in
    let s2 = set_prev s1 (s1.next x) x in let s3 = set_prev s2 x h in set_next s3 h x

unfoldable pub insert_tail : Heap → (h x : ℕ) → Heap
insert_tail s h x =
    let s1 = set_prev s x (s.prev h) in
    let s2 = set_next s1 (s1.prev x) x in let s3 = set_next s2 x h in set_prev s3 h x

-- hcore_queue_remove, without the debugging build's two writes of NULL
unfoldable pub remove : Heap → ℕ → Heap
remove s x = let s1 = set_prev s (s.next x) (s.prev x) in set_next s1 (s1.prev x) (s1.next x)

-- hcore_queue_split; the part from `q` on gets the sentinel `n`
unfoldable pub queue_split : Heap → (h q n : ℕ) → Heap
queue_split s h q n =
    let s1 = set_prev s n (s.prev h) in
    let s2 = set_next s1 (s1.prev n) n in
    let s3 = set_next s2 n q in
    let s4 = set_prev s3 h (s3.prev q) in let s5 = set_next s4 (s4.prev h) h in set_prev s5 q n

-- hcore_queue_add, which is hcore_queue_add_tail too
unfoldable pub queue_add : Heap → (h n : ℕ) → Heap
queue_add s h n =
    let s1 = set_next s (s.prev h) (s.next n) in
    let s2 = set_prev s1 (s1.next n) (s1.prev h) in
    let s3 = set_prev s2 h (s2.prev n) in set_next s3 (s3.prev h) h

unfoldable pub queue_add_head : Heap → (h n : ℕ) → Heap
queue_add_head s h n =
    let s1 = set_prev s (s.next h) (s.prev n) in
    let s2 = set_next s1 (s1.prev n) (s1.next h) in
    let s3 = set_next s2 h (s2.next n) in set_prev s3 (s3.next h) h

-- The loop of hcore_queue_middle.
unfoldable pub middle_loop : ℕ → Heap → (h middle next : ℕ) → Option ℕ
middle_loop zero s h middle next = none
middle_loop (suc fuel) s h middle next =
    let m = s.next middle in
    let n1 = s.next next in
    let n2 = s.next n1 in
    let rest = middle_loop fuel s h m n2 in
    if n1 == s.prev h then some m else if n2 == s.prev h then some m else rest

-- hcore_queue_middle
unfoldable pub queue_middle : ℕ → Heap → ℕ → Option ℕ
unfolding middle_loop
queue_middle fuel s h =
    let middle = s.next h in
    if middle == s.prev h then some middle else middle_loop fuel s h middle (s.next h)
