-- ===== src/Freertos/Mutex.antt =====
-- src/osal_freertos/mutex.c: recursive mutexes with priority inheritance. A call is cut at its
-- critical sections, each of which is one definition.
pub mod Inherit
pub mod Deadlock
pub mod Invariant
pub mod Concurrent
pub mod Raised
pub mod Recursive
pub mod Unsorted
pub mod Contract
use hazel_osal.Prelude.{
  ℕ, zero, suc, ◌+◌, ◌-◌, ◌%◌, ◌^◌, Bool, true, false, ◌||◌, ◌&&◌, not, Option, none, some, List,
  [], ◌∷◌, ◌++◌, leb, ◌==◌, if◌then◌else◌,
}
use hazel_osal.Prelude.Ids.{update, remove}
use hazel_osal.Errno.{
  Result, ok, err, einval, eagain, ebusy, eperm, edeadlk, etimedout, ewouldblock, wait_forever,
}
use hazel_osal.Life.{ThreadState}
use hazel_osal.Freertos.Objects.{Thread, Mutex, Sys, is_on, is_at}
use hazel_osal.Freertos.Waitq.{insert_priority, notify_thread, unlink_from}
use hazel_osal.Freertos.Mutex.Inherit.{update_pi_chain}
use hazel_osal.Freertos.Mutex.Deadlock.{would_deadlock}

abbrev set_mutex : Sys → ℕ → Mutex → Sys
set_mutex s m mutex = record s { mutexes = update s.mutexes m mutex }

abbrev pub is_empty : List ℕ → Bool
is_empty [] = true
is_empty (x ∷ xs) = false

pub init : Sys → ℕ → Sys
init s m = record s {
  waiters = update s.waiters m [];
  mutexes = update s.mutexes m (record { owner = none; lock_count = 0; initialized = true });
}

unfoldable pub deinit : Bool → Sys → ℕ → Result × Sys
deinit isr s m =
    if not (s.mutexes m).initialized
    then (err einval, s)
    else if isr
    then (err ewouldblock, s)
    else if is_on (s.mutexes m).owner || not (is_empty (s.waiters m))
    then (err ebusy, s)
    else (ok 0, set_mutex s m (record { owner = none; lock_count = 0; initialized = false }))

-- How the first critical section of a round of `os_mutex_lock` ends: the call returns, or it waits
-- for a notification.
pub data Attempt : Type 0 where
  returns : Result → Attempt
  waits : (remaining : ℕ) → Attempt

-- A free mutex is taken.
unfoldable pub acquire : Sys → ℕ → ℕ → Sys
acquire s m curr = record s {
  threads =
      update s.threads curr
        (record (s.threads curr) { owned_mutexes = (s.threads curr).owned_mutexes ++ (m ∷ []) });
  mutexes = update s.mutexes m (record (s.mutexes m) { owner = some curr; lock_count = 1 });
}

unfoldable pub lock_again : Sys → ℕ → Sys
lock_again s m =
    set_mutex s m (record (s.mutexes m) { lock_count = ((s.mutexes m).lock_count + 1) % 2 ^ 32 })

-- The thread goes on the queue of the mutex.
unfoldable pub enqueue : Sys → ℕ → ℕ → Sys
enqueue s m curr = record s {
  threads = update s.threads curr (record (s.threads curr) {
    wait_q = some m;
    waiting_mutex = some m;
    wait_result = 0;
    state = ThreadState.pending;
  });
  waiters = update s.waiters m (insert_priority s.threads (s.waiters m) curr);
}

-- The first critical section of a round of `os_mutex_lock`. `elapsed` is the `uint32_t` difference
-- of the tick counter and `start`.
unfoldable pub lock_try : Sys → (mutex curr timeout elapsed : ℕ) → Attempt × Sys
unfolding acquire lock_again enqueue
lock_try s m curr timeout elapsed =
    if not (is_on (s.mutexes m).owner)
    then (Attempt.returns (ok 0), acquire s m curr)
    else if is_at (s.mutexes m).owner curr
    then (Attempt.returns (ok 0), lock_again s m)
    else if timeout == 0
    then (Attempt.returns (err ebusy), s)
    else if would_deadlock s curr m
    then (Attempt.returns (err edeadlk), s)
    else if not (timeout == wait_forever) && leb timeout elapsed
    then (Attempt.returns (err etimedout), s)
    else (
      Attempt.waits (if timeout == wait_forever then wait_forever else timeout - elapsed),
      update_pi_chain (enqueue s m curr) (s.mutexes m).owner,
    )

-- what the second critical section stores in the thread
unfoldable pub dequeued : Thread → Thread
dequeued thread = record thread { wait_q = none; waiting_mutex = none; state = ThreadState.ready }

-- The second critical section of a round, after a wait that got a notification or did not. A thread
-- that was woken goes on to the next round: `none`.
unfoldable pub lock_leave : Sys → (mutex curr : ℕ) → (notified : Bool) → Option Result × Sys
unfolding dequeued
lock_leave s m curr notified =
    let s' = unlink_from s curr (s.threads curr).wait_q in
    let left = record s' { threads = update s.threads curr (dequeued (s.threads curr)) } in
    if is_on (s.threads curr).wait_q
    then (
      some (if notified then err eagain else err etimedout),
      update_pi_chain left (s.mutexes m).owner,
    )
    else (
      none,
      record s {
        threads =
            update s.threads curr
              (record (s.threads curr) { waiting_mutex = none; state = ThreadState.ready });
      },
    )

-- What `os_mutex_lock` tests before its loop; `curr` is the thread that calls, if any.
pub lock_guard : Bool → Sys → ℕ → (curr : Option ℕ) → Result
lock_guard isr s m curr =
    if not (s.mutexes m).initialized
    then err einval
    else if isr
    then err ewouldblock
    else if is_on curr
    then ok 0
    else err einval

-- `os_mutex_trylock`: a lock with timeout 0 ends in its first round.
pub trylock : Bool → Sys → ℕ → (curr : Option ℕ) → Attempt × Sys
unfolding lock_try lock_guard
trylock isr s m none = (Attempt.returns (lock_guard isr s m none), s)
trylock isr s m (some curr) = elim (lock_guard isr s m (some curr)) [
  | ok n ↦ lock_try s m curr 0 0
  | err e ↦ (Attempt.returns (err e), s)
]

-- The thread at the head of the queue is taken off and notified.
unfoldable pub wake_head : Sys → ℕ → List ℕ → Sys
wake_head s m [] = s
wake_head s m (t ∷ rest) = record s {
  threads = update s.threads t (
      notify_thread
        (record (s.threads t) {
          wait_q = none;
          waiting_mutex = none;
          wait_result = 0;
          state = ThreadState.ready;
        })
        0);
  waiters = update s.waiters m rest;
}

-- The owner gives the mutex up.
unfoldable pub disown : Sys → ℕ → ℕ → Sys
disown s m curr = record s {
  threads =
      update s.threads curr
        (record (s.threads curr) { owned_mutexes = remove m (s.threads curr).owned_mutexes });
  mutexes = update s.mutexes m (record (s.mutexes m) { owner = none; lock_count = 0 });
}

unfoldable pub release : Sys → ℕ → ℕ → Sys
unfolding wake_head disown
release s m curr = update_pi_chain (wake_head (disown s m curr) m (s.waiters m)) (some curr)

-- the critical section of `os_mutex_unlock`
unfoldable pub unlock_locked : Sys → (mutex curr : ℕ) → Result × Sys
unfolding release
unlock_locked s m curr =
    let mutex = s.mutexes m in
    if not (is_at mutex.owner curr)
    then (err eperm, s)
    else if mutex.lock_count == 0
    then (err einval, s)
    else if not (mutex.lock_count - 1 == 0)
    then (ok 0, set_mutex s m (record mutex { lock_count = mutex.lock_count - 1 }))
    else (ok 0, release s m curr)

pub unlock : Bool → Sys → ℕ → (curr : Option ℕ) → Result × Sys
unfolding unlock_locked lock_guard
unlock isr s m none = (lock_guard isr s m none, s)
unlock isr s m (some curr) = elim (lock_guard isr s m (some curr)) [
  | ok n ↦ unlock_locked s m curr
  | err e ↦ (err e, s)
]
