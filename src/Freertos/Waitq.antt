-- ===== src/Freertos/Waitq.antt =====
-- src/osal_freertos/waitq.c. Threads and wait queues are known by their addresses. The node of a
-- thread is on the list of the queue that its `wait_q` points to.
pub mod Order
pub mod Concurrent
use hazel_osal.Prelude.{
  ℕ, Bool, true, false, ◌&&◌, not, Option, none, some, List, [], ◌∷◌, ltb, if◌then◌else◌,
}
use hazel_osal.Prelude.Ids.{update, remove}
use hazel_osal.Life.{ThreadState}
use hazel_osal.Freertos.Objects.{Thread, Sys, is_on}
use hazel_osal.Errno.{Result, ok, err, einval, etimedout, ewouldblock}

-- `os_waitq_init`
pub init : Sys → ℕ → Sys
init s q = record s { waiters = update s.waiters q [] }

-- The loop of `os_waitq_insert_priority_locked` stops at the first thread of a lower priority; the
-- node is inserted before it, or appended.
unfoldable pub insert_priority : (ℕ → Thread) → List ℕ → ℕ → List ℕ
insert_priority threads [] t = t ∷ []
insert_priority threads (queued ∷ rest) t =
    if ltb (threads queued).priority (threads t).priority
    then t ∷ queued ∷ rest
    else queued ∷ insert_priority threads rest t

-- `os_waitq_notify_thread_locked`: the notification overwrites one that is pending.
unfoldable pub notify_thread : Thread → (reason : ℕ) → Thread
notify_thread thread reason =
    if not thread.handle then thread else record thread { notification = some reason }

-- the first critical section of `os_waitq_block`
unfoldable pub block_enter : Sys → ℕ → ℕ → Sys
unfolding insert_priority
block_enter s q t = record s {
  threads =
      update s.threads t
        (record (s.threads t) { wait_q = some q; wait_result = 0; state = ThreadState.pending });
  waiters = update s.waiters q (insert_priority s.threads (s.waiters q) t);
}

unfoldable pub unlink_from : Sys → ℕ → Option ℕ → Sys
unlink_from s t none = s
unlink_from s t (some q) = record s { waiters = update s.waiters q (remove t (s.waiters q)) }

-- The second critical section: `notified` is `result == pdTRUE` and `notify` the value that
-- `xTaskNotifyWait` stores.
unfoldable pub block_leave : Sys → ℕ → (notified : Bool) → (notify : ℕ) → Result × Sys
unfolding unlink_from
block_leave s t notified notify =
    let s' = unlink_from s t (s.threads t).wait_q in
    if is_on (s.threads t).wait_q
    then (
      err etimedout,
      record s' {
        threads =
            update s.threads t (record (s.threads t) { wait_q = none; state = ThreadState.ready });
      },
    )
    else (
      if notified then ok notify else err etimedout,
      record s {
        threads =
            update s.threads t
              (record (s.threads t) { wait_result = notify; state = ThreadState.ready });
      },
    )

-- what a wake-up does with the thread that it takes off the list
unfoldable pub woken : Thread → (reason : ℕ) → Thread
unfolding notify_thread
woken thread reason =
    notify_thread (record thread { wait_q = none; wait_result = reason; state = ThreadState.ready })
      reason

unfoldable pub wake_first : Sys → ℕ → (reason : ℕ) → List ℕ → Sys
wake_first s q reason [] = s
wake_first s q reason (t ∷ rest) = record s {
  threads = update s.threads t (woken (s.threads t) reason);
  waiters = update s.waiters q rest;
}

-- the critical section of `os_waitq_wake_one`
unfoldable pub wake_one : Sys → ℕ → (reason : ℕ) → Sys
unfolding wake_first
wake_one s q reason = wake_first s q reason (s.waiters q)

unfoldable pub wake_each : Sys → ℕ → (reason : ℕ) → List ℕ → Sys
unfolding wake_first
wake_each s q reason [] = s
wake_each s q reason (t ∷ rest) = wake_each (wake_first s q reason (t ∷ rest)) q reason rest

-- The critical section of `os_waitq_wake_all`, whose loop goes on while the list is not empty.
unfoldable pub wake_all : Sys → ℕ → (reason : ℕ) → Sys
unfolding wake_each
wake_all s q reason = wake_each s q reason (s.waiters q)

-- The guards of `os_waitq_block`: `thread` is the thread that calls, if any.
pub block_guard : Bool → (thread : Option ℕ) → Result
block_guard isr thread =
    if isr then err ewouldblock else elim thread [ none ↦ err einval | some t ↦ ok 0 ]
