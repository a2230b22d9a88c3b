-- ===== src/Work/Cancel.antt =====
-- `os_work_cancel`, `os_work_cancel_sync` and `os_work_flush`.
use hazel_osal.Prelude.{
  ℕ, ◌+◌, ◌-◌, ◌%◌, ◌^◌, Bool, true, false, ◌||◌, ◌&&◌, not, Option, none, some, ◌==◌,
  if◌then◌else◌,
}
use hazel_osal.Prelude.Ids.{update, remove}
use hazel_osal.Errno.{Result, ok, err, einval}
use hazel_osal.Sem.{SemOps}
use hazel_osal.Work.{
  Work, Sys, is_null, work_magic, set_work, set_queue, notify, flags_value, busy_get,
}

module _ {Sem : Type 0} where
  -- The first half of the critical section takes the item off its queue.
  unfoldable pub unlink_from : Sys Sem → ℕ → Option ℕ → Sys Sem
  unlink_from s w none = s
  unlink_from s w (some q) = record {
    works = update s.works w (record (s.works w) {
      flags = record ((s.works w).flags) { queued = false };
      node_queued = false;
    });
    queues = update s.queues q (record (s.queues q) {
      list = remove w (s.queues q).list;
      count = ((s.queues q).count + 2 ^ 32 - 1) % 2 ^ 32;
    });
  }

  -- what the second half stores in the item
  unfoldable pub settled : Work Sem → Work Sem
  settled work =
      if work.flags.running
      then record work { flags = record (work.flags) { canceling = true } }
      else record work {
        completion_id = work.submission_id;
        flags = record (work.flags) { canceling = false };
      }

  unfoldable pub was_queued : Sys Sem → ℕ → Bool
  was_queued s w = (s.works w).flags.queued && not (is_null (s.works w).queue)

  -- the critical section
  unfoldable pub cancel_unlink : Sys Sem → ℕ → Sys Sem
  unfolding unlink_from settled was_queued
  cancel_unlink s w =
      let s' = if (s.works w).flags.queued then unlink_from s w (s.works w).queue else s in
      set_work s' w (settled (s'.works w))

  unfoldable pub is_ready : Work Sem → Bool
  is_ready work = work.magic == work_magic && work.sync_initialized

module _ {Sem : Type 0} (o : SemOps Sem) where
  -- `os_sem_trytake(&queue->fifo.items)`
  unfoldable pub trytake_items : Bool → Sys Sem → Option ℕ → Sys Sem
  trytake_items isr s none = s
  trytake_items isr s (some q) =
      set_queue s q (record (s.queues q) { items = (o.take isr (s.queues q).items 0).1 })

  unfoldable pub cancel : Bool → Sys Sem → ℕ → Result × Sys Sem
  unfolding trytake_items is_ready was_queued
  cancel isr s w =
      let s' = cancel_unlink s w in
      let s'' = if was_queued s w then trytake_items isr s' (s.works w).queue else s' in
      if not (is_ready (s.works w))
      then (err einval, s)
      else (ok (flags_value (s'.works w).flags), notify o isr s'' w)

module _ {Sem : Type 0} where
  -- The loop of `os_work_cancel_sync` goes on while this holds, taking `sync` at each round.
  unfoldable pub cancel_sync_waits : Sys Sem → ℕ → Bool
  unfolding busy_get
  cancel_sync_waits s w = not (busy_get s w == 0)

  -- `os_work_flush` up to its loop: the submission that it waits for, and whether it waits
  unfoldable pub flush_begin : Sys Sem → ℕ → (sync : Bool) → Option (ℕ × Bool)
  unfolding is_ready
  flush_begin s w sync =
      let work = s.works w in
      if not sync || not (is_ready work)
      then none
      else some (work.submission_id, not (work.completion_id == work.submission_id))

  -- The loop of `os_work_flush` ends when this holds, taking `sync` at each round.
  unfoldable pub flush_ends : Sys Sem → ℕ → ℕ → Bool
  flush_ends s w target = (s.works w).completion_id == target
