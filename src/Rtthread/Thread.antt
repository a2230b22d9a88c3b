-- ===== src/Rtthread/Thread.antt =====
-- src/osal_rtthread/thread.c. A call is cut at its critical sections, each of which is one
-- definition; the semaphores and the thread of the kernel that it makes, takes or deletes between
-- them are the kernel's.
pub mod Ending
pub mod Races
use hazel_osal.Prelude.{
  ℕ, Bool, true, false, ◌||◌, ◌&&◌, not, Option, none, some, List, [], ◌∷◌, ◌==◌, if◌then◌else◌,
}
use hazel_osal.Prelude.Ids.{update, remove}
use hazel_osal.Errno.{
  Result, ok, err, einval, ebusy, enomem, etimedout, edeadlk, ealready, ecanceled, ewouldblock,
}
use hazel_osal.Life.{ThreadState, Life, zero_life, Begin, returns, goes_on}
use hazel_osal.Prelude.Int.{ℤ}
use hazel_osal.Rtthread.Priority.{os_to_rt_priority, rt_to_os_priority}
use hazel_osal.Rtthread.Waitq.{Thread, Sys, is_on, insert_locked, unlink_from}

abbrev pub set_thread : Sys → ℕ → Thread → Sys
set_thread s t thread = record s { threads = update s.threads t thread }

abbrev pub set_life : Sys → ℕ → Life → Sys
set_life s t life = set_thread s t (record (s.threads t) { life = life })

-- What `os_thread_create` tests first; the arguments that are pointers are given as not NULL.
pub create_guard : (thread name entry : Bool) → (stack_size : ℕ) → Result
create_guard thread name entry stack_size =
    if not thread || not name || not entry || (stack_size == 0) then err einval else ok 0

-- `os_thread_create` behind its guard: `wait`, `completion`, `task` and `startup` say that the
-- kernel made the two semaphores and the thread, and started it. `max` is
-- `RT_THREAD_PRIORITY_MAX`.
unfoldable pub create :
    (max : ℕ)
    → Sys
    → (thread : ℕ) → (prio : ℤ) → (wait completion task startup : Bool) → Result × Sys
unfolding os_to_rt_priority rt_to_os_priority
create max s t prio wait completion task startup =
    let cleared : Thread = record {
      handle = false;
      priority = rt_to_os_priority max (os_to_rt_priority max prio);
      base_priority = prio;
      wait_q = none;
      wait_result = 0;
      state = ThreadState.ready;
      wait_tokens = 0;
      life = zero_life;
    } in
    let completable = record cleared { life = record zero_life { completion_handle = true } } in
    if not wait
    then (err enomem, set_thread s t cleared)
    else if not completion
    then (err enomem, set_thread s t cleared)
    else if not task
    then (err enomem, set_thread s t completable)
    else if not startup
    then (err einval, set_thread s t cleared)
    else (ok 0, set_thread s t (record completable { handle = true }))

-- the first critical section of `os_rt_thread_entry`, behind the entry function of the thread
unfoldable pub entry_complete : Sys → ℕ → Sys
entry_complete s t = set_thread s t (record (s.threads t) {
  state = ThreadState.terminated;
  life = record (s.threads t).life { completed = true };
})

-- its second one, behind the release of the completion semaphore
unfoldable pub entry_signal : Sys → ℕ → Sys
entry_signal s t = set_life s t (record (s.threads t).life { completion_signaled = true })

-- the critical section of `os_rt_thread_reap`, behind the detaching of the two semaphores
unfoldable pub reap : Sys → ℕ → Sys
reap s t = set_thread s t (record (s.threads t) {
  handle = false;
  life = record (s.threads t).life {
    completion_handle = false;
    completion_reaped = true;
    join_active = false;
  };
})

-- The guards of `os_thread_join` and its first critical section; a call that goes on takes the
-- completion semaphore, and then reaps the thread. `self` says that the thread itself calls.
unfoldable pub join_enter : (isr self : Bool) → Sys → ℕ → Begin × Sys
join_enter isr self s t =
    let life = (s.threads t).life in
    if isr
    then (returns (err ewouldblock), s)
    else if self
    then (returns (err edeadlk), s)
    else if life.completion_reaped
    then (returns (ok 0), s)
    else if not life.completion_handle
    then (returns (err einval), s)
    else if life.join_active
    then (returns (err ebusy), s)
    else (goes_on, set_life s t (record life { join_active = true }))

-- `os_thread_join` whose semaphore was not taken
unfoldable pub join_timeout : (timeout : ℕ) → Sys → ℕ → Result × Sys
join_timeout timeout s t = (
  if timeout == 0 then err ebusy else err etimedout,
  set_life s t (record (s.threads t).life { join_active = false }),
)

-- The guards of `os_thread_delete` and its first critical section; a call that goes on reaps the
-- thread.
unfoldable pub delete_enter : (isr : Bool) → Sys → ℕ → Begin × Sys
delete_enter isr s t =
    let life = (s.threads t).life in
    if isr
    then (returns (err ewouldblock), s)
    else if life.completion_reaped
    then (returns (ok 0), s)
    else if not life.completion_handle
    then (returns (err einval), s)
    else if not life.completed || not life.completion_signaled || life.join_active
    then (returns (err ebusy), s)
    else (goes_on, set_life s t (record life { join_active = true }))

-- `os_thread_cancel`
unfoldable pub cancel : (isr : Bool) → Sys → ℕ → Result × Sys
cancel isr s t =
    let life = (s.threads t).life in
    if not (s.threads t).handle
    then (err einval, s)
    else if isr
    then (err ewouldblock, s)
    else if life.completed
    then (err ealready, s)
    else (ok 0, set_life s t (record life { cancel_requested = true }))

-- `os_thread_cancel_requested`, of the thread that calls, if any
unfoldable pub cancel_requested : Sys → Option ℕ → Bool
cancel_requested s none = false
cancel_requested s (some t) = (s.threads t).life.cancel_requested

-- `os_thread_test_cancel`
pub test_cancel : Sys → Option ℕ → Result
unfolding cancel_requested
test_cancel s current = if cancel_requested s current then err ecanceled else ok 0

-- The guards of `os_thread_abort` and its first critical section; a call that goes on deletes the
-- thread of the kernel.
unfoldable pub abort_enter : (isr self : Bool) → Sys → ℕ → Begin × Sys
unfolding unlink_from
abort_enter isr self s t =
    let thread = s.threads t in
    let s' = unlink_from s t thread.wait_q in
    if not thread.handle || not thread.life.completion_handle
    then (returns (err einval), s)
    else if isr
    then (returns (err ewouldblock), s)
    else if self
    then (returns (err edeadlk), s)
    else if thread.life.completed
    then (returns (err ealready), s)
    else (
      goes_on,
      record s' {
        threads = update s.threads t (record thread {
          wait_q = none;
          state = ThreadState.terminated;
          life = record thread.life { cancel_requested = true; aborted = true; completed = true };
        });
      },
    )

-- The critical section of `os_thread_abort` where the kernel has not deleted its thread.
unfoldable pub abort_undo : Sys → ℕ → Result × Sys
abort_undo s t = (
  err einval,
  set_thread s t (record (s.threads t) {
    state = ThreadState.ready;
    life = record (s.threads t).life { completed = false; aborted = false };
  }),
)

-- The last one, behind the release of the completion semaphore.
unfoldable pub abort_signal : Sys → ℕ → Sys
abort_signal s t = set_life s t (record (s.threads t).life { completion_signaled = true })

-- `os_thread_get_priority`; no handle gives -EINVAL
pub get_priority : Sys → ℕ → Result
get_priority s t = if not (s.threads t).handle then err einval else ok (s.threads t).priority

-- A thread that waits finds its place on the queue again.
unfoldable pub replace : Sys → ℕ → Option ℕ → Sys
unfolding insert_locked
replace s t none = s
replace s t (some q) = record s {
  waiters = update s.waiters q (insert_locked s.threads (remove t (s.waiters q)) t);
}

-- `os_thread_set_priority`, where the kernel gives the thread the priority that is asked for
unfoldable pub set_priority : (max : ℕ) → Sys → ℕ → (priority : ℤ) → Sys
unfolding os_to_rt_priority rt_to_os_priority replace
set_priority max s t priority =
    let based = set_thread s t (record (s.threads t) {
      base_priority = priority;
      priority = rt_to_os_priority max (os_to_rt_priority max priority);
    }) in
    if not (s.threads t).handle then s else replace based t (s.threads t).wait_q
