-- ===== src/Mutex.antt =====
-- src/hcore_shmtx.c: a mutex in memory that processes share.
-- The shared word is 0 or the id of the process that locked it. Each process is somewhere in a call
-- or outside all calls; the processes' atomic accesses to the word come in any order, and any process
-- may make any call, whether it has the lock or not.
pub mod Exclusion
mod Tests
use hcore.Base.{
  ℕ, zero, suc, ◌+◌, ◌-◌, ◌*◌, ◌%◌, ◌^◌, ◌<◌, ◌≡◌, Bool, true, false, ltb, ◌==◌, if◌then◌else◌,
}

-- Where a process is. In hcore_shmtx_lock `n` is the spin count, 0 in front of the spin loop.
pub data Control : Type 0 where
  outside : Control
  test : (n : ℕ) → Control
  swap : (n : ℕ) → Control
  pause : (n i : ℕ) → Control
  yield : Control
  try_test : Control
  try_swap : Control
  unlocking : Control
  dead : Control

-- What an access means for the process: nothing, the return of a call that had the lock, or the end of
-- hcore_shmtx_unlock.
pub data Event : Type 0 where
  quiet granted unlocks : Event

-- The spin limit that hcore_shmtx_init leaves: the one set if it is -1, otherwise 2^11.
unfoldable pub init_spin : ℕ → ℕ
init_spin spin = if spin == 2 ^ 32 - 1 then spin else 2 ^ 11

-- hcore_atomic_cmp_set: whether the word was `old`, and the word afterwards
abbrev pub cmp_set : (lock old set : ℕ) → Bool × ℕ
cmp_set lock old set = if lock == old then (true, set) else (false, lock)

-- Where hcore_shmtx_lock goes on when the lock was not had with spin count `n`.
unfoldable pub spin_on : (spin n : ℕ) → Control
spin_on spin n =
    let n' = if n == 0 then 1 else n * 2 % 2 ^ 32 in if ltb n' spin then pause n' 0 else yield

-- One access to the word, or one pause, of the process `pid`.
unfoldable pub act : (spin pid : ℕ) → Control → (lock : ℕ) → Event × Control × ℕ
act spin pid outside lock = (quiet, outside, lock)
act spin pid (test n) lock =
    if lock == 0 then (quiet, swap n, lock) else (quiet, spin_on spin n, lock)
act spin pid (swap n) lock =
    let (had, lock') = cmp_set lock 0 pid in
    if had then (granted, outside, lock') else (quiet, spin_on spin n, lock')
act spin pid (pause n i) lock =
    if ltb i n then (quiet, pause n (i + 1), lock) else (quiet, test n, lock)
act spin pid yield lock = (quiet, test 0, lock)
act spin pid try_test lock = if lock == 0 then (quiet, try_swap, lock) else (quiet, outside, lock)
act spin pid try_swap lock =
    let (had, lock') = cmp_set lock 0 pid in
    if had then (granted, outside, lock') else (quiet, outside, lock')
act spin pid unlocking lock = let (had, lock') = cmp_set lock pid 0 in (unlocks, outside, lock')
act spin pid dead lock = (quiet, dead, lock)

-- hcore_shmtx_force_unlock: whether the word named `pid`, and the word afterwards
unfoldable pub force_unlock : (lock pid : ℕ) → Bool × ℕ
force_unlock lock pid = cmp_set lock pid 0

-- The shared word, where each process is, and who owns the lock by the calls that have ended: a process
-- owns it from the return of a call that had it until its next hcore_shmtx_unlock, or until a
-- hcore_shmtx_force_unlock of its id. Owning is not in the memory of the code.
pub record System : Type 0 where
  pub lock : ℕ
  pub control : ℕ → Control
  pub owns : ℕ → Bool

abbrev pub move : System → ℕ → Control → System
move s p c = record s { control = λ q. if q == p then c else s.control q }

abbrev pub owns_after : Event → Bool → Bool
owns_after quiet owned = owned
owns_after granted owned = true
owns_after unlocks owned = false

abbrev pub act_of : (spin : ℕ) → System → ℕ → System
act_of spin s p =
    let (e, c, lock') = act spin p (s.control p) s.lock in
    record (move s p c) {
      lock = lock';
      owns = λ q. if q == p then owns_after e (s.owns q) else s.owns q;
    }

abbrev pub force : System → ℕ → System
force s p = record s {
  lock = (force_unlock s.lock p).1;
  owns = λ q. if q == p then false else s.owns q;
}

-- The steps of the processes, whose ids are positive. Outside of calls a process may call each function:
-- hcore_shmtx_lock with the lock its own, hcore_shmtx_unlock without it, and hcore_shmtx_force_unlock at
-- any time for any id, of a process that is alive too. A process may die at any point, and its id may
-- be given again.
pub data Step (spin : ℕ) : System → System → Type 0 where
  acts : (s : System) (p : ℕ) → 0 < p → Step spin s (act_of spin s p)
  calls_lock : (s : System) (p : ℕ) → s.control p ≡ outside → Step spin s (move s p (test 0))
  calls_trylock : (s : System) (p : ℕ) → s.control p ≡ outside → Step spin s (move s p try_test)
  calls_unlock : (s : System) (p : ℕ) → s.control p ≡ outside → Step spin s (move s p unlocking)
  dies : (s : System) (p : ℕ) → Step spin s (move s p dead)
  given_again : (s : System) (p : ℕ) → s.control p ≡ dead → Step spin s (move s p outside)
  forced : (s : System) (p : ℕ) → Step spin s (force s p)

abbrev pub unlocked : System
unlocked = record { lock = 0; control = λ p. outside; owns = λ p. false }

-- What steps can lead to from the unlocked word, with all processes outside.
pub data Reach (spin : ℕ) : System → Type 0 where
  starts : Reach spin unlocked
  steps : {s s' : System} → Reach spin s → Step spin s s' → Reach spin s'
