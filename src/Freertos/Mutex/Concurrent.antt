-- ===== src/Freertos/Mutex/Concurrent.antt =====
-- mutex.c used by any number of threads, together with the wait queues of waitq.c: any thread
-- executes the next critical section.
use hazel_osal.Prelude.{ℕ, ◌+◌, ◌^◌, ◌<◌, ◌≡◌, Bool, true, false, none, []}
use hazel_osal.Freertos.Objects.{Sys}
use hazel_osal.Freertos.Waitq.Concurrent.{Step as QueueStep}
use hazel_osal.Freertos.Mutex.{init, deinit, lock_try, lock_leave, unlock_locked}
use hazel_osal.Freertos.Mutex.Invariant.{Inv}
use hazel_osal.Freertos.Mutex.Invariant.Taking.{try-Inv}
use hazel_osal.Freertos.Mutex.Invariant.Leaving.{leave-Inv}
use hazel_osal.Freertos.Mutex.Invariant.Giving.{unlock-Inv, init-Inv_mutex, deinit-Inv}
use hazel_osal.Freertos.Mutex.Invariant.Queues.{IsPlain, plain-Inv}

-- A thread that executes code waits on no queue when it calls `os_mutex_lock`; the counter of a
-- mutex does not reach its end.
pub data Step (s : Sys) : Sys → Type 0 where
  inits : (m : ℕ) → (s.mutexes m).initialized ≡ false → s.waiters m ≡ [] → Step s (init s m)
  deinits : (isr : Bool) (m : ℕ) → Step s (deinit isr s m).1
  tries :
      (m curr timeout elapsed : ℕ)
      → (s.mutexes m).initialized ≡ true
      → (s.threads curr).wait_q ≡ none
      → (s.mutexes m).lock_count + 1 < 2 ^ 32
      → Step s (lock_try s m curr timeout elapsed).1
  leaves : (m curr : ℕ) (notified : Bool) → Step s (lock_leave s m curr notified).1
  unlocks : (m curr : ℕ) → Step s (unlock_locked s m curr).1
  queues : {s' : Sys} (step : QueueStep s s') → IsPlain step → Step s s'

pub Step-Inv_mutex : {s s' : Sys} → Inv s → Step s s' → Inv s'
Step-Inv_mutex {s = s} v (inits m i e) = init-Inv_mutex s m i e v
Step-Inv_mutex {s = s} v (deinits isr m) = deinit-Inv isr s m v
Step-Inv_mutex {s = s} v (tries m curr timeout elapsed i w c) =
    try-Inv s m curr timeout elapsed i w c v
Step-Inv_mutex {s = s} v (leaves m curr notified) = leave-Inv s m curr notified v
Step-Inv_mutex {s = s} v (unlocks m curr) = unlock-Inv s m curr v
Step-Inv_mutex {s = s} v (queues step plain) = plain-Inv v step plain
