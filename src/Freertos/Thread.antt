-- ===== src/Freertos/Thread.antt =====
-- src/osal_freertos/thread.c. A call is cut at its critical sections, each of which is one
-- definition; the semaphore and the task that it creates, takes or deletes between them are the
-- kernel's.
pub mod Laws
pub mod Ending
pub mod Mutexes
pub mod Unlinked
pub mod Races
pub mod Priority
use hazel_osal.Prelude.{
  ℕ, Bool, true, false, ◌||◌, ◌&&◌, not, Option, none, some, List, [], ◌∷◌, ◌==◌, if◌then◌else◌,
}
use hazel_osal.Prelude.Ids.{update}
use hazel_osal.Prelude.Int.{ℤ}
use hazel_osal.Errno.{
  Result, ok, err, einval, ebusy, enomem, etimedout, edeadlk, ealready, ecanceled, ewouldblock,
}
use hazel_osal.Life.{ThreadState, Life, zero_life, Begin, returns, goes_on}
use hazel_osal.Freertos.Objects.{Thread, Mutex, Sys, is_on}
use hazel_osal.Freertos.Waitq.{unlink_from}
use hazel_osal.Freertos.Mutex.{is_empty}
use hazel_osal.Freertos.Mutex.Inherit.{requeue, update_pi_chain}
use hazel_osal.Freertos.Mutex.Deadlock.{next_owner}

abbrev pub set_thread : Sys → ℕ → Thread → Sys
set_thread s t thread = record s { threads = update s.threads t thread }

abbrev pub set_life : Sys → ℕ → Life → Sys
set_life s t life = set_thread s t (record (s.threads t) { life = life })

-- What `os_thread_create` tests first; the arguments that are pointers are given as not NULL.
pub create_guard : (thread entry name : Bool) → (stack_size : ℕ) → Result
create_guard thread entry name stack_size =
    if not thread || not entry || not name || (stack_size == 0) then err einval else ok 0

-- `os_thread_create` behind its guard: `completion` and `task` say that the kernel made the
-- semaphore and the task, and `kernel_prio` is the priority that the kernel gives a task that is
-- created with `prio`.
unfoldable pub create :
    Sys → (thread : ℕ) → (prio : ℤ) → (kernel_prio : ℕ) → (completion task : Bool) → Result × Sys
create s t prio kernel_prio completion task =
    let cleared : Thread = record {
      handle = false;
      priority = kernel_prio;
      base_priority = prio;
      wait_q = none;
      waiting_mutex = none;
      wait_result = 0;
      state = ThreadState.ready;
      owned_mutexes = [];
      notification = none;
      life = zero_life;
    } in
    if not completion
    then (err enomem, set_thread s t cleared)
    else if not task
    then (err enomem, set_thread s t cleared)
    else (
      ok 0,
      set_thread s t
          (record cleared { handle = true; life = record zero_life { completion_handle = true } }),
    )

-- the first critical section of `os_task_entry`, behind the entry function of the thread
unfoldable pub entry_complete : Sys → ℕ → Sys
entry_complete s t = set_thread s t (record (s.threads t) {
  state = ThreadState.terminated;
  life = record (s.threads t).life { completed = true };
})

-- its second one, behind the release of the completion semaphore
unfoldable pub entry_signal : Sys → ℕ → Sys
entry_signal s t = set_life s t (record (s.threads t).life { completion_signaled = true })

-- the critical section of `os_thread_reap`
unfoldable pub reap : Sys → ℕ → Sys
reap s t = set_thread s t (record (s.threads t) {
  handle = false;
  life = record (s.threads t).life {
    completion_handle = false;
    completion_reaped = true;
    join_active = false;
  };
})

-- The guards of `os_thread_join` and its first critical section; a call that goes on takes the
-- completion semaphore, and then reaps the thread. `self` says that the thread itself calls.
unfoldable pub join_enter : (isr self : Bool) → Sys → ℕ → Begin × Sys
join_enter isr self s t =
    let life = (s.threads t).life in
    if isr
    then (returns (err ewouldblock), s)
    else if self
    then (returns (err edeadlk), s)
    else if life.completion_reaped
    then (returns (ok 0), s)
    else if not life.completion_handle
    then (returns (err einval), s)
    else if life.join_active
    then (returns (err ebusy), s)
    else (goes_on, set_life s t (record life { join_active = true }))

-- `os_thread_join` whose semaphore was not taken
unfoldable pub join_timeout : (timeout : ℕ) → Sys → ℕ → Result × Sys
join_timeout timeout s t = (
  if timeout == 0 then err ebusy else err etimedout,
  set_life s t (record (s.threads t).life { join_active = false }),
)

-- The guards of `os_thread_delete` and its first critical section; a call that goes on reaps the
-- thread.
unfoldable pub delete_enter : (isr : Bool) → Sys → ℕ → Begin × Sys
delete_enter isr s t =
    let life = (s.threads t).life in
    if isr
    then (returns (err ewouldblock), s)
    else if life.completion_reaped
    then (returns (ok 0), s)
    else if not life.completion_handle
    then (returns (err einval), s)
    else if not life.completed || not life.completion_signaled || life.join_active
    then (returns (err ebusy), s)
    else (goes_on, set_life s t (record life { join_active = true }))

-- `os_thread_cancel`
unfoldable pub cancel : (isr : Bool) → Sys → ℕ → Result × Sys
cancel isr s t =
    let life = (s.threads t).life in
    if not (s.threads t).handle
    then (err einval, s)
    else if isr
    then (err ewouldblock, s)
    else if life.completed
    then (err ealready, s)
    else (ok 0, set_life s t (record life { cancel_requested = true }))

-- `os_thread_cancel_requested`, of the thread that calls, if any
unfoldable pub cancel_requested : Sys → Option ℕ → Bool
cancel_requested s none = false
cancel_requested s (some t) = (s.threads t).life.cancel_requested

-- `os_thread_test_cancel`
pub test_cancel : Sys → Option ℕ → Result
unfolding cancel_requested
test_cancel s current = if cancel_requested s current then err ecanceled else ok 0

-- A thread that waits is taken off its queue, and the owner of the mutex that it waits for, if any,
-- loses what it inherits from it.
unfoldable pub detach : Sys → ℕ → Sys
unfolding unlink_from
detach s t =
    let s' = unlink_from s t (s.threads t).wait_q in
    let owner = next_owner s t in
    if is_on (s.threads t).wait_q
    then update_pi_chain
        (record s' {
          threads =
              update s.threads t (record (s.threads t) { wait_q = none; waiting_mutex = none });
        })
        owner
    else s

-- The guards of `os_thread_abort` and its first critical section; a call that goes on deletes the
-- task and releases the completion semaphore, in this order unless the thread itself calls.
unfoldable pub abort_enter : (isr self : Bool) → Sys → ℕ → Begin × Sys
unfolding detach
abort_enter isr self s t =
    let thread = s.threads t in
    let s' = detach s t in
    if not thread.handle || not thread.life.completion_handle
    then (returns (err einval), s)
    else if isr
    then (returns (err ewouldblock), s)
    else if thread.life.completed
    then (returns (err ealready), s)
    else if not (is_empty thread.owned_mutexes)
    then (returns (err ebusy), s)
    else (
      goes_on,
      set_thread s' t (record (s'.threads t) {
        state = ThreadState.terminated;
        life = record (s'.threads t).life {
          cancel_requested = true;
          aborted = true;
          completed = true;
        };
      }),
    )

-- the last critical section of `os_thread_abort`
unfoldable pub abort_signal : Sys → ℕ → Sys
abort_signal s t = set_life s t (record (s.threads t).life { completion_signaled = true })

-- `os_thread_get_priority`; no handle gives -EINVAL
pub get_priority : Sys → ℕ → Result
get_priority s t = if not (s.threads t).handle then err einval else ok (s.threads t).priority

-- A thread that waits on a queue that belongs to no mutex finds its place there again.
unfoldable pub replace : Sys → ℕ → Sys
replace s t = elim (s.threads t).wait_q [
  | none ↦ s
  | some q ↦ if is_on (s.threads t).waiting_mutex then s else requeue s t q
]

-- `os_thread_set_priority`
unfoldable pub set_priority : Sys → ℕ → (priority : ℤ) → Sys
unfolding replace
set_priority s t priority =
    let based = set_thread s t (record (s.threads t) { base_priority = priority }) in
    if not (s.threads t).handle then s else replace (update_pi_chain based (some t)) t
