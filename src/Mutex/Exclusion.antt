-- ===== src/Mutex/Exclusion.antt =====
-- No two processes own the mutex, whatever the order of their steps.
use hcore.Base.{ℕ, ◌<◌, ◌≡◌, ◌⊎◌, inl, inr, true, ◌==◌, if◌then◌else◌, arith}
use hcore.Mutex.{
  Control, outside, test, swap, pause, yield, try_test, try_swap, unlocking, dead, quiet, granted,
  unlocks, spin_on, act, act_of, force, force_unlock, System, move, Step, acts, calls_lock,
  calls_trylock, calls_unlock, dies, given_again, forced, Reach, starts, steps,
}

-- The word names whoever owns the lock, and whom it names owns it.
record IsExact (s : System) : Type 0 where
  named : (q : ℕ) → s.owns q ≡ true → (s.lock ≡ q) × (0 < q)
  held : 0 < s.lock → s.owns s.lock ≡ true

-- An access gives the lock only where the word was 0, which it then is no more, and an unlock clears the
-- word only where it named the process.
act-cases :
    (spin p : ℕ) (c : Control) (lock : ℕ)
    → let (e, c', lock') = act spin p c lock in
      ((e ≡ quiet) × (lock' ≡ lock))
      ⊎ ((e ≡ granted) × (lock ≡ 0) × (lock' ≡ p))
      ⊎ ((e ≡ unlocks) × (lock' ≡ (if lock == p then 0 else lock)))
unfolding act spin_on
act-cases spin p outside lock = ground arith
act-cases spin p (test n) lock = ground arith
act-cases spin p (swap n) lock = ground arith
act-cases spin p (pause n i) lock = ground arith
act-cases spin p yield lock = ground arith
act-cases spin p try_test lock = ground arith
act-cases spin p try_swap lock = ground arith
act-cases spin p unlocking lock = ground arith
act-cases spin p dead lock = ground arith

-- Where the processes are does not matter.
move-IsExact : (s : System) (p : ℕ) (c : Control) → IsExact s → IsExact (move s p c)
move-IsExact s p c e = record { named = e.named; held = e.held }

force-IsExact : (s : System) (p : ℕ) → IsExact s → IsExact (force s p)
unfolding force_unlock
force-IsExact s p e = record {
  named = λ q h. ground (arith, e.named q);
  held = λ pos. ground (arith, e.held);
}

act-IsExact : (spin : ℕ) (s : System) (p : ℕ) → 0 < p → IsExact s → IsExact (act_of spin s p)
act-IsExact spin s p pos e = elim (act-cases spin p (s.control p) s.lock) [
  | inl (kind, kept) ↦ record {
    named = λ q h. ground (arith, e.named q);
    held = λ pos. ground (arith, e.held);
  }
  | inr (inl (kind, free, taken)) ↦ record {
    named = λ q h. ground (arith, e.named q);
    held = λ pos. ground arith;
  }
  | inr (inr (kind, freed)) ↦ record {
    named = λ q h. ground (arith, e.named q);
    held = λ pos. ground (arith, e.held);
  }
]

step-IsExact : {spin : ℕ} {s s' : System} → Step spin s s' → IsExact s → IsExact s'
step-IsExact (acts s p pos) e = act-IsExact _ s p pos e
step-IsExact (calls_lock s p at) e = move-IsExact s p (test 0) e
step-IsExact (calls_trylock s p at) e = move-IsExact s p try_test e
step-IsExact (calls_unlock s p at) e = move-IsExact s p unlocking e
step-IsExact (dies s p) e = move-IsExact s p dead e
step-IsExact (given_again s p at) e = move-IsExact s p outside e
step-IsExact (forced s p) e = force-IsExact s p e

Reach-IsExact : {spin : ℕ} {s : System} → Reach spin s → IsExact s
Reach-IsExact starts = record { named = λ q h. ground arith; held = λ pos. absurd (omega arith) }
Reach-IsExact (steps r t) = step-IsExact t (Reach-IsExact r)

-- In every order of the calls and accesses of any processes, at every spin limit, with unlocks by
-- processes that do not own the lock, forced unlocks of live ones, deaths and ids given again: at most
-- one process owns the lock, which is had by hcore_shmtx_lock or hcore_shmtx_trylock and lost by
-- hcore_shmtx_unlock or a hcore_shmtx_force_unlock of the id; the shared word is the id of the one that
-- owns it; and a word that is not 0 names a process that owns it.
pub mutual_exclusion :
    (spin : ℕ) (s : System)
    → Reach spin s
    → ((p q : ℕ) → s.owns p ≡ true → s.owns q ≡ true → p ≡ q)
      × ((p : ℕ) → s.owns p ≡ true → s.lock ≡ p)
      × (0 < s.lock → s.owns s.lock ≡ true)
mutual_exclusion spin s r =
    let e = Reach-IsExact r in
    (λ p q hp hq. ground (arith, e.named p hp, e.named q hq), λ p h. (e.named p h).0, e.held)
