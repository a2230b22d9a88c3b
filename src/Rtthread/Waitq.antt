-- ===== src/Rtthread/Waitq.antt =====
-- src/osal_rtthread/waitq.c. Threads and wait queues are known by their addresses. The node of a
-- thread is on the list of the queue that its `wait_q` points to.
pub mod Concurrent
use hazel_osal.Prelude.{
  ℕ, ◌+◌, ◌-◌, Bool, true, false, Option, none, some, List, [], ◌∷◌, ltb, ◌==◌, if◌then◌else◌,
}
use hazel_osal.Prelude.Ids.{update, remove}
use hazel_osal.Life.{ThreadState, Life}
use hazel_osal.Prelude.Int.{ℤ}
use hazel_osal.Errno.{Result, ok, err, einval, eagain, etimedout, ewouldblock}

-- `struct os_thread`. `handle` says that it is not NULL, `priority` is what
-- `os_thread_get_priority` returns for a thread that has one, and `wait_tokens` the value of its
-- semaphore `wait_storage`, whose limit is 1.
pub record Thread : Type 0 where
  pub handle : Bool
  pub priority : ℕ
  pub base_priority : ℤ
  pub wait_q : Option ℕ
  pub wait_result : ℕ
  pub state : ThreadState
  pub wait_tokens : ℕ
  pub life : Life

pub record Sys : Type 0 where
  pub threads : ℕ → Thread
  pub waiters : ℕ → List ℕ

abbrev pub is_on : Option ℕ → Bool
is_on none = false
is_on (some q) = true

-- `os_waitq_init`
pub init : Sys → ℕ → Sys
init s q = record s { waiters = update s.waiters q [] }

-- The loop of `os_rt_waitq_insert_locked` stops at the first thread of a lower priority; the
-- node is inserted before it, or appended.
unfoldable pub insert_locked : (ℕ → Thread) → List ℕ → ℕ → List ℕ
insert_locked threads [] t = t ∷ []
insert_locked threads (queued ∷ rest) t =
    if ltb (threads queued).priority (threads t).priority
    then t ∷ queued ∷ rest
    else queued ∷ insert_locked threads rest t

-- the first critical section of `os_waitq_block`
unfoldable pub block_enter : Sys → ℕ → ℕ → Sys
unfolding insert_locked
block_enter s q t = record {
  threads =
      update s.threads t
        (record (s.threads t) { wait_q = some q; wait_result = 0; state = ThreadState.pending });
  waiters = update s.waiters q (insert_locked s.threads (s.waiters q) t);
}

unfoldable pub unlink_from : Sys → ℕ → Option ℕ → Sys
unlink_from s t none = s
unlink_from s t (some q) = record s { waiters = update s.waiters q (remove t (s.waiters q)) }

-- `rt_sem_take(&thread->wait_storage, ...)` when it ends: with a token, or with none.
unfoldable pub block_wait : Sys → ℕ → Bool × Sys
block_wait s t = if (s.threads t).wait_tokens == 0 then (false, s) else (
  true,
  record s {
    threads =
        update s.threads t (record (s.threads t) { wait_tokens = (s.threads t).wait_tokens - 1 });
  },
)

-- The second critical section: `timed_out` is `result == -RT_ETIMEOUT`.
pub block_leave : Sys → ℕ → (timed_out : Bool) → Result × Sys
unfolding unlink_from
block_leave s t timed_out =
    let s' = unlink_from s t (s.threads t).wait_q in
    if is_on (s.threads t).wait_q
    then (
      if timed_out then err etimedout else err eagain,
      record s' {
        threads =
            update s.threads t (record (s.threads t) { wait_q = none; state = ThreadState.ready });
      },
    )
    else (
      ok (s.threads t).wait_result,
      record s {
        threads = update s.threads t (record (s.threads t) { state = ThreadState.ready });
      },
    )

-- What a wake-up does with the thread that it takes off the list, `rt_sem_release` included, which
-- fails at the limit of the semaphore.
pub woken : Thread → (reason : ℕ) → Thread
woken thread reason = record thread {
  wait_q = none;
  wait_result = reason;
  state = ThreadState.ready;
  wait_tokens = if thread.wait_tokens == 0 then 1 else thread.wait_tokens;
}

wake_first : Sys → ℕ → (reason : ℕ) → List ℕ → Sys
wake_first s q reason [] = s
wake_first s q reason (t ∷ rest) = record {
  threads = update s.threads t (woken (s.threads t) reason);
  waiters = update s.waiters q rest;
}

-- the critical section of `os_waitq_wake_one`
unfoldable pub wake_one : Sys → ℕ → (reason : ℕ) → Sys
unfolding wake_first
wake_one s q reason = wake_first s q reason (s.waiters q)

wake_each : Sys → ℕ → (reason : ℕ) → List ℕ → Sys
unfolding wake_first
wake_each s q reason [] = s
wake_each s q reason (t ∷ rest) = wake_each (wake_first s q reason (t ∷ rest)) q reason rest

-- The critical section of `os_waitq_wake_all`, whose loop goes on while the list is not empty.
unfoldable pub wake_all : Sys → ℕ → (reason : ℕ) → Sys
unfolding wake_each
wake_all s q reason = wake_each s q reason (s.waiters q)

-- The guards of `os_waitq_block`: `thread` is the thread that calls, if any.
pub block_guard : Bool → (thread : Option ℕ) → Result
block_guard isr thread =
    if isr then err ewouldblock else elim thread [ none ↦ err einval | some t ↦ ok 0 ]
