-- ===== src/Work/Submit.antt =====
-- `os_work_submit_to_queue` and `os_work_submit`.
pub mod Link
use hazel_osal.Prelude.{
  ℕ, zero, suc, ◌+◌, ◌-◌, ◌%◌, ◌^◌, Bool, true, false, ◌||◌, ◌&&◌, not, Option, none, some, List,
  [], ◌∷◌, ◌++◌, ltb, leb, ◌==◌, if◌then◌else◌,
}
use hazel_osal.Prelude.Ids.{update}
use hazel_osal.Errno.{Result, ok, err, einval, enodev, ebusy, enospc}
use hazel_osal.Sem.{SemOps}
use hazel_osal.Work.{
  Work, Queue, Sys, Flags, is_at, is_null, work_magic, set_work, set_queue, give_items,
}

-- the results 1 and 2
abbrev pub is_submitted : Result → Bool
is_submitted (ok n) = not (n == 0)
is_submitted (err e) = false

module _ {Sem : Type 0} where
  -- Who may put work on a queue: `self` is the queue whose thread makes the call, if any.
  unfoldable pub is_closed : Option ℕ → ℕ → Queue Sem → Bool
  is_closed self q queue =
      queue.stopping || ((queue.draining || queue.plugged) && not (is_at self q))

  -- what the critical section stores when it takes the item
  unfoldable pub linked : Sys Sem → ℕ → ℕ → Sys Sem
  linked s q w = record {
    works = update s.works w (record (s.works w) {
      submission_id = ((s.works w).submission_id + 1) % 2 ^ 32;
      queue = some q;
      flags = record ((s.works w).flags) { queued = true };
      node_queued = true;
    });
    queues = update s.queues q (record (s.queues q) {
      list = (s.queues q).list ++ (w ∷ []);
      count = ((s.queues q).count + 1) % 2 ^ 32;
    });
  }

  -- the critical section
  unfoldable pub submit_link : Option ℕ → Sys Sem → ℕ → ℕ → Result × Sys Sem
  unfolding is_closed linked
  submit_link self s q w =
      let work = s.works w in
      let queue = s.queues q in
      if is_closed self q queue || work.flags.canceling
      then (err ebusy, s)
      else if work.flags.queued
      then ((if is_at work.queue q then ok 0 else err ebusy), s)
      else if work.flags.running && not (is_at work.queue q)
      then (err ebusy, s)
      else if leb 0xffff queue.count
      then (err enospc, s)
      else (ok (if work.flags.running then 2 else 1), linked s q w)

module _ {Sem : Type 0} (o : SemOps Sem) where
  unfoldable pub submit_to : Bool → Option ℕ → Sys Sem → ℕ → Option ℕ → Result × Sys Sem
  submit_to isr self s w none = (err einval, s)
  submit_to isr self s w (some q) =
      let (r, s') = submit_link self s q w in
      if not (s.queues q).started
      then (err enodev, s)
      else if is_submitted r
      then (r, give_items o isr s' q)
      else (r, s')

  -- A NULL queue stands for the item's last one.
  unfoldable pub submit_to_queue : Bool → Option ℕ → Sys Sem → Option ℕ → ℕ → Result × Sys Sem
  unfolding submit_to
  submit_to_queue isr self s queue w =
      let work = s.works w in
      if not (work.magic == work_magic) || (not work.handler || not work.sync_initialized)
      then (err einval, s)
      else submit_to isr self s w (if is_null queue then work.queue else queue)

  pub submit : Bool → Option ℕ → Sys Sem → Option ℕ → ℕ → Result × Sys Sem
  unfolding submit_to_queue
  submit isr self s queue w = submit_to_queue isr self s queue w
