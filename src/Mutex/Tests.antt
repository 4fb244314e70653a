-- ===== src/Mutex/Tests.antt =====
-- A run of two processes on the mutex of src/hcore_shmtx.c.
use hcore.Base.{ℕ, ◌<◌, ◌≡◌, refl, true, false, arith}
use hcore.Mutex.{
  System, Reach, starts, steps, acts, calls_lock, calls_trylock, calls_unlock, forced, unlocked,
  move, act_of, test, try_test, outside, unlocking, act, spin_on, force, force_unlock,
}
use hcore.Mutex.Exclusion.{mutual_exclusion}

-- Process 7 is in front of the first access of hcore_shmtx_lock, process 9 of hcore_shmtx_trylock.
abbrev both_called : System
both_called = move (move unlocked 7 (test 0)) 9 try_test

-- Process 9 has found the word 0, process 7 too, and process 7 was first to set it; process 9 gives up.
abbrev contended : System
contended = act_of 2048 (act_of 2048 (act_of 2048 (act_of 2048 both_called 9) 7) 7) 9

-- The lock of process 7 is forced open, process 9 gets it, and process 7 calls hcore_shmtx_unlock.
abbrev forced_open : System
forced_open = act_of 2048 (act_of 2048 (move (force contended 7) 9 try_test) 9) 9

abbrev late_unlock : System
late_unlock = act_of 2048 (move forced_open 7 unlocking) 7

contended-Reach : Reach 2048 contended
contended-Reach =
    steps
      (steps
        (steps
          (steps
            (steps (steps starts (calls_lock unlocked 7 refl))
              (calls_trylock (move unlocked 7 (test 0)) 9 refl))
            (acts both_called 9 (omega arith)))
          (acts (act_of 2048 both_called 9) 7 (omega arith)))
        (acts (act_of 2048 (act_of 2048 both_called 9) 7) 7 (omega arith)))
      (acts (act_of 2048 (act_of 2048 (act_of 2048 both_called 9) 7) 7) 9 (omega arith))

contended_run : (contended.lock ≡ 7) × (contended.owns 7 ≡ true) × (contended.control 9 ≡ outside)
unfolding act spin_on
contended_run = (refl, refl, refl)

forced_open-Reach : Reach 2048 forced_open
unfolding act spin_on
forced_open-Reach =
    steps
      (steps
        (steps (steps contended-Reach (forced contended 7))
          (calls_trylock (force contended 7) 9 refl))
        (acts (move (force contended 7) 9 try_test) 9 (omega arith)))
      (acts (act_of 2048 (move (force contended 7) 9 try_test) 9) 9 (omega arith))

late_unlock-Reach : Reach 2048 late_unlock
unfolding act spin_on
late_unlock-Reach =
    steps (steps forced_open-Reach (calls_unlock forced_open 7 refl))
      (acts (move forced_open 7 unlocking) 7 (omega arith))

-- Process 9 still owns the lock.
late_unlock_run :
    (late_unlock.lock ≡ 9) × (late_unlock.owns 9 ≡ true) × (late_unlock.owns 7 ≡ false)
unfolding act spin_on force_unlock
late_unlock_run = (refl, refl, refl)

mutual_exclusion_example :
    ((p q : ℕ) → late_unlock.owns p ≡ true → late_unlock.owns q ≡ true → p ≡ q)
    × ((p : ℕ) → late_unlock.owns p ≡ true → late_unlock.lock ≡ p)
    × (0 < late_unlock.lock → late_unlock.owns late_unlock.lock ≡ true)
mutual_exclusion_example = mutual_exclusion 2048 late_unlock late_unlock-Reach
