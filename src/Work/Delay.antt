-- ===== src/Work/Delay.antt =====
-- The delayable items: `os_work_schedule_common` and its callers, `os_work_cancel_delayable`,
-- `os_work_flush_delayable` and what they report.
use hazel_osal.Prelude.{
  ℕ, ◌+◌, ◌%◌, ◌^◌, Bool, true, false, ◌||◌, ◌&&◌, not, Option, none, some, [], ◌∷◌, ◌++◌, ltb,
  ◌==◌, if◌then◌else◌,
}
use hazel_osal.Prelude.Ids.{update, remove}
use hazel_osal.Errno.{Result, ok, err, einval, enodev, ebusy}
use hazel_osal.Sem.{SemOps}
use hazel_osal.Work.{
  Work, Sys, is_at, work_magic, int32_max, set_work, set_queue, give_items, is_pending, busy_get,
  deadline_remaining,
}
use hazel_osal.Work.Submit.{is_closed, submit_to_queue}
use hazel_osal.Work.Cancel.{cancel}

module _ {Sem : Type 0} where
  unfoldable pub undelay_from : Sys Sem → ℕ → Option ℕ → Sys Sem
  undelay_from s w none = s
  undelay_from s w (some q) =
      set_queue s q (record (s.queues q) { delayed = remove w (s.queues q).delayed })

  -- `sys_dlist_remove(&dwork->delay_node)` and the flag, if the item is delayed
  unfoldable pub undelay : Sys Sem → ℕ → Sys Sem
  unfolding undelay_from
  undelay s w =
      let s' = undelay_from s w (s.works w).delay_queue in
      if (s.works w).flags.delayed
      then set_work s' w
          (record (s.works w) { flags = record ((s.works w).flags) { delayed = false } })
      else s

  -- what the critical section stores when it delays the item
  unfoldable pub placed : Sys Sem → ℕ → ℕ → ℕ → Sys Sem
  placed s q w deadline = record {
    works = update s.works w (record (s.works w) {
      delay_queue = some q;
      deadline = deadline;
      flags = record ((s.works w).flags) { delayed = true };
    });
    queues = update s.queues q (record (s.queues q) { delayed = (s.queues q).delayed ++ (w ∷ []) });
  }

  -- the queue of the item, if it is delayed: `old_queue`
  abbrev pub delayed_on : Work Sem → Option ℕ
  delayed_on work = if work.flags.delayed then work.delay_queue else none

  -- `none` is the NULL pointer.
  pub delayable_busy_get : Sys Sem → Option ℕ → ℕ
  delayable_busy_get s none = 0
  delayable_busy_get s (some w) = busy_get s w

  pub delayable_is_pending : Sys Sem → Option ℕ → Bool
  delayable_is_pending s none = false
  delayable_is_pending s (some w) = is_pending s w

  pub expires_get : Sys Sem → ℕ → (now : ℕ) → ℕ
  expires_get s w now = if (s.works w).flags.delayed then (s.works w).deadline else now

  pub remaining_get : Sys Sem → ℕ → (now : ℕ) → ℕ
  remaining_get s w now =
      if (s.works w).flags.delayed then deadline_remaining (s.works w).deadline now else 0

module _ {Sem : Type 0} (o : SemOps Sem) where
  unfoldable pub give_old : Bool → Sys Sem → Option ℕ → Sys Sem
  give_old isr s none = s
  give_old isr s (some q) = give_items o isr s q

  -- After the critical section: the item is due at once, or it is on the list of `q`.
  schedule_now : Bool → Option ℕ → Sys Sem → ℕ → ℕ → Result × Sys Sem
  unfolding give_old
  schedule_now isr self s q w =
      submit_to_queue o isr self (give_old isr (undelay s w) (delayed_on (s.works w))) (some q) w

  schedule_later : Bool → Sys Sem → ℕ → ℕ → (deadline : ℕ) → Result × Sys Sem
  unfolding give_old
  schedule_later isr s q w deadline =
      let s' = placed (undelay s w) q w deadline in
      let old = delayed_on (s.works w) in
      (ok 1, give_items o isr (if is_at old q then s' else give_old isr s' old) q)

  unfoldable pub schedule_common :
      Bool → Option ℕ → Sys Sem → ℕ → ℕ → (delay now : ℕ) → (reschedule : Bool) → Result × Sys Sem
  unfolding schedule_now schedule_later
  schedule_common isr self s q w delay now reschedule =
      let work = s.works w in
      let queue = s.queues q in
      if not (work.magic == work_magic) || ltb int32_max delay
      then (err einval, s)
      else if not queue.started
      then (err enodev, s)
      else if work.flags.canceling || is_closed self q queue
      then (err ebusy, s)
      else if not reschedule && (work.flags.delayed || work.flags.queued)
      then (ok 0, s)
      else if delay == 0
      then schedule_now isr self s q w
      else schedule_later isr s q w ((now + delay) % 2 ^ 32)

  pub schedule_for_queue : Bool → Option ℕ → Sys Sem → ℕ → ℕ → (delay now : ℕ) → Result × Sys Sem
  unfolding schedule_common
  schedule_for_queue isr self s q w delay now = schedule_common isr self s q w delay now false

  pub reschedule_for_queue : Bool → Option ℕ → Sys Sem → ℕ → ℕ → (delay now : ℕ) → Result × Sys Sem
  unfolding schedule_common
  reschedule_for_queue isr self s q w delay now = schedule_common isr self s q w delay now true

  pub schedule : Bool → Option ℕ → Sys Sem → ℕ → ℕ → (delay now : ℕ) → Result × Sys Sem
  schedule isr self s q w delay now = schedule_for_queue isr self s q w delay now

  pub reschedule : Bool → Option ℕ → Sys Sem → ℕ → ℕ → (delay now : ℕ) → Result × Sys Sem
  reschedule isr self s q w delay now = reschedule_for_queue isr self s q w delay now

  pub cancel_delayable : Bool → Sys Sem → ℕ → Result × Sys Sem
  unfolding give_old
  cancel_delayable isr s w =
      if not ((s.works w).magic == work_magic)
      then (err einval, s)
      else cancel o isr (give_old isr (undelay s w) (delayed_on (s.works w))) w
