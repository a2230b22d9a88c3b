-- ===== src/Freertos/System.antt =====
-- Threads, mutexes and wait queues of the FreeRTOS backend together (thread.c, mutex.c, waitq.c): any
-- thread executes the next critical section.
use hazel_osal.Prelude.{ℕ, ◌≡◌, Bool, none, []}
use hazel_osal.Prelude.Int.{ℤ}
use hazel_osal.Freertos.Objects.{Sys}
use hazel_osal.Freertos.Mutex.Concurrent.{Step as MutexStep, Step-Inv_mutex}
use hazel_osal.Freertos.Mutex.Invariant.{Inv}
use hazel_osal.Freertos.Thread.{
  create, abort_enter, set_priority, entry_complete, entry_signal, join_enter, join_timeout,
  delete_enter, reap, cancel, abort_signal,
}
use hazel_osal.Freertos.Thread.Unlinked.{
  entry_complete-Inv, entry_signal-Inv, join_enter-Inv, join_timeout-Inv, delete_enter-Inv,
  reap-Inv, cancel-Inv, abort_signal-Inv,
}
use hazel_osal.Freertos.Thread.Mutexes.{create-Inv, abort-Inv, set_priority-Inv}

-- A thread object that is created is on no queue and owns nothing.
pub data Step (s : Sys) : Sys → Type 0 where
  locks : {s' : Sys} → MutexStep s s' → Step s s'
  creates :
      (t : ℕ) (prio : ℤ) (kernel_prio : ℕ) (completion task : Bool)
      → (s.threads t).wait_q ≡ none
      → (s.threads t).owned_mutexes ≡ []
      → Step s (create s t prio kernel_prio completion task).1
  aborts : (isr self : Bool) (t : ℕ) → Step s (abort_enter isr self s t).1
  sets_priority : (t : ℕ) (priority : ℤ) → Step s (set_priority s t priority)
  -- `os_task_entry` behind the entry function, and behind the release of the semaphore
  completes : (t : ℕ) → Step s (entry_complete s t)
  signals : (t : ℕ) → Step s (entry_signal s t)
  -- `os_thread_join` and `os_thread_delete`, which end in `os_thread_reap` or without it
  joins : (isr self : Bool) (t : ℕ) → Step s (join_enter isr self s t).1
  gives_up : (timeout t : ℕ) → Step s (join_timeout timeout s t).1
  deletes : (isr : Bool) (t : ℕ) → Step s (delete_enter isr s t).1
  reaps : (t : ℕ) → Step s (reap s t)
  cancels : (isr : Bool) (t : ℕ) → Step s (cancel isr s t).1
  -- `os_thread_abort` behind the release of the semaphore
  tells : (t : ℕ) → Step s (abort_signal s t)

-- steps, the last one first
pub data Reach (s : Sys) : Sys → Type 0 where
  here : Reach s s
  next : {s' s'' : Sys} → Reach s s' → Step s' s'' → Reach s s''

Step-Inv_system : {s s' : Sys} → Inv s → Step s s' → Inv s'
Step-Inv_system v (locks step) = Step-Inv_mutex v step
Step-Inv_system {s = s} v (creates t prio kernel_prio completion task w o) =
    create-Inv s t prio kernel_prio completion task w o v
Step-Inv_system {s = s} v (aborts isr self t) = abort-Inv isr self s t v
Step-Inv_system {s = s} v (sets_priority t priority) = set_priority-Inv s t priority v
Step-Inv_system {s = s} v (completes t) = entry_complete-Inv s t v
Step-Inv_system {s = s} v (signals t) = entry_signal-Inv s t v
Step-Inv_system {s = s} v (joins isr self t) = join_enter-Inv isr self s t v
Step-Inv_system {s = s} v (gives_up timeout t) = join_timeout-Inv timeout s t v
Step-Inv_system {s = s} v (deletes isr t) = delete_enter-Inv isr s t v
Step-Inv_system {s = s} v (reaps t) = reap-Inv s t v
Step-Inv_system {s = s} v (cancels isr t) = cancel-Inv isr s t v
Step-Inv_system {s = s} v (tells t) = abort_signal-Inv s t v

-- Every sequence of critical sections of the FreeRTOS mutexes, wait queues and threads keeps the
-- invariant, if a thread that enters a mutex or a wait queue waits on none, the section is one of
-- a mutex that is initialized or of a queue that belongs to none, a count does not reach 2^32, and
-- a thread object that is created is on no queue and owns nothing: a thread stands on the list of
-- a queue exactly when its wait_q is that queue, and once; a mutex is on the list of its owner,
-- once, and on no other; it has an owner exactly when its count is not zero; waiting_mutex is the
-- mutex on whose queue the thread is; and the chain of owners from any thread ends, so that no
-- threads wait for each other in a circle.
pub Reach-Inv_system : {s s' : Sys} → Inv s → Reach s s' → Inv s'
Reach-Inv_system v here = v
Reach-Inv_system v (next r step) = Step-Inv_system (Reach-Inv_system v r) step
