-- ===== src/Tests/Mutexes.antt =====
-- The mutex 5 with the threads 1 and 2, each with its number as priority.
use hazel_osal.Prelude.{ℕ, ◌≡◌, ◌↔◌, ◌≤◌, refl, false, true, none, some, [], ◌==◌, arith}
use hazel_osal.Prelude.Ids.{has}
use hazel_osal.Prelude.Int.{ℤ, pos}
use hazel_osal.Errno.{ok, wait_forever}
use hazel_osal.Life.{ThreadState, zero_life}
use hazel_osal.Freertos.Objects.{Thread, Sys, capped}
use hazel_osal.Freertos.Mutex.{Attempt, trylock, acquire, enqueue, lock_try, unlock_locked}
use hazel_osal.Freertos.Mutex.Concurrent.{tries, unlocks}
use hazel_osal.Freertos.Mutex.Inherit.{compute_priority}
use hazel_osal.Freertos.Mutex.Inherit.Bounds.{IsHighest}
use hazel_osal.Freertos.Mutex.Deadlock.{
  next_owner, meets, would_deadlock, ends, chain, would_deadlock_iff,
}
use hazel_osal.Freertos.Mutex.Invariant.{Inv}
use hazel_osal.Freertos.Mutex.Raised.{granted, lock_try-inherits}
use hazel_osal.Lock.{try, unlock}
use hazel_osal.Freertos.Mutex as Code
use hazel_osal.Freertos.Mutex.Contract.{view, mutex-Lock}
use hazel_osal.Freertos.Mutex.Recursive.{unlock-lock_try}
use hazel_osal.Freertos.System.{
  here, next, locks, sets_priority, aborts, tells, deletes, reaps, Reach-Inv_system,
}
use hazel_osal.Freertos.Thread.{abort_enter, abort_signal, delete_enter, reap, set_priority}
use hazel_osal.Freertos.Thread.Priority.{set_priority-least}

abbrev threads : ℕ → Thread
threads t = record {
  handle = true;
  priority = t;
  base_priority = pos t;
  wait_q = none;
  waiting_mutex = none;
  owned_mutexes = [];
  life = record zero_life { completion_handle = true };
  wait_result = 0;
  state = ThreadState.ready;
  notification = none;
}

abbrev pub idle : Sys
idle = record {
  threads = threads;
  waiters = λ q. [];
  mutexes = λ m. record { owner = none; lock_count = 0; initialized = m == 5 };
  max_priority = 7;
}

idle-Inv : Inv idle
unfolding ends
idle-Inv = record {
  queues = record { on_list = λ q t. refl; distinct = λ q. tt };
  owned = λ m t. refl;
  owned_distinct = λ t. tt;
  counted = λ m. refl;
  counted_lt = λ m. omega arith;
  unused = λ m e. refl;
  waiting = λ t. refl;
  acyclic = λ t. (1, refl);
}

-- the thread 1 owns the mutex
abbrev owned : Sys
owned = (lock_try idle 5 1 0 0).1

-- the thread 2 waits for it
abbrev waited : Sys
waited = (lock_try owned 5 2 wait_forever 0).1

-- The thread 1 releases the mutex, and the thread 2 gets another priority, is aborted and deleted.
abbrev deleted : Sys
deleted =
    (delete_enter false
      (abort_signal
        (abort_enter false false (set_priority (unlock_locked owned 5 1).1 2 (pos 7)) 2).1 2)
      2).1

Reach-Inv_system_example : Inv (reap deleted 2)
Reach-Inv_system_example = Reach-Inv_system idle-Inv (
    next
      (next
        (next
          (next
            (next
              (next (next here (locks (tries 5 1 0 0 refl refl (omega arith))))
                (locks (unlocks 5 1)))
              (sets_priority 2 (pos 7)))
            (aborts false false 2))
          (tells 2))
        (deletes false 2))
      (reaps 2))

owned-Inv : Inv owned
owned-Inv = Reach-Inv_system idle-Inv (next here (locks (tries 5 1 0 0 refl refl (omega arith))))

would_deadlock_iff_example : (would_deadlock owned 2 5 ≡ false) ↔ (
    (has 2 (chain 16 (next_owner owned) (owned.mutexes 5).owner) ≡ false)
    × (ends 16 (next_owner owned) (owned.mutexes 5).owner ≡ true))
would_deadlock_iff_example = would_deadlock_iff owned 2 5

lock_try-inherits_example :
    (p : ℕ) × (compute_priority (enqueue owned 5 2) 1 ≡ pos p)
    × ((waited.threads 1).priority ≡ capped owned.max_priority p)
    × ((owned.threads 2).priority ≤ (waited.threads 1).priority)
unfolding lock_try acquire would_deadlock meets
lock_try-inherits_example =
    lock_try-inherits owned 5 2 wait_forever 0 1 wait_forever owned-Inv refl refl refl (omega arith)
      (omega arith) refl

set_priority-least_example :
    (e : ℤ) × IsHighest owned (owned.threads 1).owned_mutexes (pos 4) e
    × (((set_priority owned 1 (pos 4)).threads 1).priority
        ≡ granted owned.max_priority (owned.threads 1).priority e)
unfolding lock_try acquire
set_priority-least_example = set_priority-least owned 1 (pos 4) refl (omega arith)

unlock-lock_try_example :
    let s' = (unlock_locked (lock_try owned 5 1 0 0).1 5 1).1 in
    ((lock_try owned 5 1 0 0).0 ≡ Attempt.returns (ok 0))
    × ((unlock_locked (lock_try owned 5 1 0 0).1 5 1).0 ≡ ok 0)
    × (s'.threads ≡ owned.threads)
    × (s'.waiters ≡ owned.waiters)
    × ((n : ℕ) → s'.mutexes n ≡ owned.mutexes n)
unfolding lock_try acquire
unlock-lock_try_example = unlock-lock_try owned 5 1 0 0 refl (omega arith) (omega arith)

mutex-Lock_example :
    let tried = trylock false owned 5 (some 1) in
    let unlocked = Code.unlock false owned 5 (some 1) in
    (tried.0 ≡ Attempt.returns (try (view owned 5) 1).0)
    × (view tried.1 5 ≡ (try (view owned 5) 1).1)
    × (unlocked.0 ≡ (unlock (view owned 5) 1).0)
    × (view unlocked.1 5 ≡ (unlock (view owned 5) 1).1)
unfolding lock_try acquire
mutex-Lock_example = mutex-Lock owned 5 1 owned-Inv refl (omega arith)
