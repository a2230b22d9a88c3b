-- ===== src/Work/Waits.antt =====
-- `os_work_cancel_sync`, `os_work_flush` and their versions for delayable items as whole calls: any
-- number of callers, each between two of its critical sections or semaphore calls, while others
-- execute the sections of work_queue.c. A caller waits at an `os_sem_take` without a limit, and goes
-- on when there is a token to take.
pub mod Steps
pub mod Section
pub mod Wake
pub mod Parts
pub mod Kept
pub mod Woken
pub mod Missed
use hazel_osal.Prelude.{
  ℕ, zero, suc, ◌+◌, ◌≡◌, Bool, true, false, ◌&&◌, ◌||◌, not, Option, none, some, ◌⊎◌, ◌==◌,
  if◌then◌else◌,
}
use hazel_osal.Prelude.Ids.{update}
use hazel_osal.Errno.{wait_forever}
use hazel_osal.Sem.{SemOps}
use hazel_osal.Work.{Work, Sys, work_magic, flags_value, set_work, notify, is_pending}
use hazel_osal.Work.Submit.{submit_to_queue}
use hazel_osal.Work.Delay.{undelay, delayed_on, give_old}
use hazel_osal.Work.Cancel.{
  is_ready, was_queued, cancel_unlink, trytake_items, cancel_sync_waits, flush_begin, flush_ends,
}

-- Where a call stands, with what it returns in the end. `cancel_` are the parts of
-- `os_work_cancel_sync` on an item: its call of `os_work_cancel`, the semaphore of the queue, the
-- notification, the test of its loop and the semaphore of the item; `spin_checks` is that loop on an
-- item that is not initialized, or whose semaphore is not, so that it does not wait. `delay_` are the parts of
-- `os_work_cancel_delayable_sync` before that. `flush_enters` on are the parts of `os_work_flush`,
-- with the submission that it waits for, and those before it of `os_work_flush_delayable`.
pub data Phase : Type 0 where
  returned : Bool → Phase
  delay_undelays : ℕ → Bool → Phase
  delay_gives : ℕ → Option ℕ → Bool → Phase
  cancel_section : ℕ → Bool → Phase
  cancel_takes : ℕ → Option ℕ → Bool → Phase
  cancel_notifies cancel_checks cancel_waits spin_checks : ℕ → Bool → Phase
  flush_undelays : ℕ → Phase
  flush_gives flush_submits : ℕ → Option ℕ → Phase
  flush_enters : ℕ → (was_delayed : Bool) → Phase
  flush_checks flush_waits : ℕ → (target : ℕ) → (waited : Bool) → Phase

-- The call is one on the item `w`.
unfoldable pub on : Phase → ℕ → Bool
on (returned b) w = false
on (delay_undelays v b) w = v == w
on (delay_gives v q b) w = v == w
on (cancel_section v b) w = v == w
on (cancel_takes v q b) w = v == w
on (cancel_notifies v b) w = v == w
on (cancel_checks v b) w = v == w
on (cancel_waits v b) w = v == w
on (spin_checks v b) w = v == w
on (flush_undelays v) w = v == w
on (flush_gives v q) w = v == w
on (flush_submits v q) w = v == w
on (flush_enters v b) w = v == w
on (flush_checks v target b) w = v == w
on (flush_waits v target b) w = v == w

abbrev pub is_returned : Phase → Bool
is_returned (returned b) = true
is_returned p = false

-- The item whose semaphore a call waits for, and the call after it has taken the token.
unfoldable pub awaits : Phase → Option ℕ
awaits (cancel_waits w b) = some w
awaits (flush_waits w target b) = some w
awaits p = none

unfoldable pub resume : Phase → Phase
resume (cancel_waits w b) = cancel_checks w b
resume (flush_waits w target b) = flush_checks w target b
resume p = p

module _ {Sem : Type 0} where
  -- `os_work_cancel_sync` up to its call of `os_work_cancel`, with a `sync`
  unfoldable pub cancel_enter : Sys Sem → ℕ → Phase
  cancel_enter s w =
      if not (is_ready (s.works w))
      then returned false
      else cancel_section w (not (flags_value (s.works w).flags == 0))

  -- `os_work_cancel_delayable_sync` up to the section of `os_work_cancel_delayable`, with a `sync`
  unfoldable pub delay_enter : Sys Sem → ℕ → Phase
  delay_enter s w =
      if not ((s.works w).magic == work_magic)
      then spin_checks w (is_pending s w)
      else delay_undelays w (is_pending s w)

  -- `os_work_flush_delayable` up to its section, with a `sync`
  unfoldable pub flush_delayable_enter : Sys Sem → ℕ → Phase
  flush_delayable_enter s w =
      if not ((s.works w).magic == work_magic) then returned false else flush_undelays w

  -- The first section of `os_work_flush`. `os_work_flush_delayable` returns true in any case if the
  -- item was delayed.
  unfoldable pub flush_enter : Sys Sem → ℕ → (was_delayed : Bool) → Phase
  flush_enter s w was_delayed = elim (flush_begin s w true) [
    | none ↦ returned was_delayed
    | some (target, waited) ↦ flush_checks w target (waited || was_delayed)
  ]

module _ {Sem : Type 0} (o : SemOps Sem) where
  -- The parts of `os_work_cancel_delayable_sync` and `os_work_flush_delayable` before those that they
  -- share with the other two. `self` is the queue whose thread makes the call, if any.
  unfoldable pub advance_delayable : Option ℕ → Sys Sem → Phase → Phase × Sys Sem
  advance_delayable self s (delay_undelays w b) =
      (delay_gives w (delayed_on (s.works w)) b, undelay s w)
  advance_delayable self s (delay_gives w queue b) = (cancel_section w b, give_old o false s queue)
  advance_delayable self s (flush_undelays w) = (
    (if (s.works w).flags.delayed
        then flush_gives w (s.works w).delay_queue
        else flush_enters w false),
    undelay s w,
  )
  advance_delayable self s (flush_gives w queue) = (flush_submits w queue, give_old o false s queue)
  advance_delayable self s (flush_submits w queue) =
      (flush_enters w true, (submit_to_queue o false self s queue w).1)
  advance_delayable self s p = (p, s)

  -- The next part of a call that does not wait.
  unfoldable pub advance : Option ℕ → Sys Sem → Phase → Phase × Sys Sem
  unfolding advance_delayable
  advance self s (returned b) = (returned b, s)
  advance self s (cancel_section w b) =
      if not (is_ready (s.works w)) then (spin_checks w b, s) else (
        cancel_takes w (if was_queued s w then (s.works w).queue else none) b,
        cancel_unlink s w,
      )
  advance self s (cancel_takes w queue b) = (cancel_notifies w b, trytake_items o false s queue)
  advance self s (cancel_notifies w b) = (cancel_checks w b, notify o false s w)
  advance self s (cancel_checks w b) =
      ((if cancel_sync_waits s w then cancel_waits w b else returned b), s)
  advance self s (cancel_waits w b) = (cancel_waits w b, s)
  advance self s (spin_checks w b) =
      ((if cancel_sync_waits s w then spin_checks w b else returned b), s)
  advance self s (flush_enters w was_delayed) = (flush_enter s w was_delayed, s)
  advance self s (flush_checks w target b) =
      ((if flush_ends s w target then returned b else flush_waits w target b), s)
  advance self s (flush_waits w target b) = (flush_waits w target b, s)
  advance self s p = advance_delayable self s p

  -- `os_sem_take(&work->sync, OS_WAIT_FOREVER)`
  unfoldable pub take_sync : Sys Sem → ℕ → Sys Sem
  take_sync s w =
      set_work s w (record (s.works w) { sync = (o.take false (s.works w).sync wait_forever).1 })
