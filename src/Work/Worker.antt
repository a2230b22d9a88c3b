-- ===== src/Work/Worker.antt =====
-- The worker thread: `os_work_promote_delayed` and the parts of `os_work_queue_entry`.
pub mod Promote
use hazel_osal.Prelude.{
  ℕ, zero, suc, ◌+◌, ◌-◌, ◌%◌, ◌^◌, Bool, true, false, ◌||◌, ◌&&◌, not, Option, none, some, List,
  [], ◌∷◌, ◌++◌, ltb, leb, ◌==◌, if◌then◌else◌,
}
use hazel_osal.Prelude.Ids.{update, remove}
use hazel_osal.Errno.{Result, ok, err, wait_forever}
use hazel_osal.Sem.{SemOps}
use hazel_osal.Work.{Work, Queue, Sys, Flags, set_work, set_queue, notify, deadline_remaining}
use hazel_osal.Work.Submit.{submit_to_queue}

-- what the worker does after its critical section
pub data Next : Type 0 where
  idle stopped : Next
  runs : ℕ → Next

module _ {Sem : Type 0} where
  -- The loop over the delayed items: the first one that is due, and the least time to a deadline
  -- of those before it.
  unfoldable pub scan : Sys Sem → (now : ℕ) → List ℕ → (timeout : ℕ) → Option ℕ × ℕ
  scan s now [] timeout = (none, timeout)
  scan s now (w ∷ rest) timeout =
      let remaining = deadline_remaining (s.works w).deadline now in
      let timeout' =
        if timeout == wait_forever || ltb remaining timeout then remaining else timeout in
      let after = scan s now rest timeout' in if remaining == 0 then (some w, timeout) else after

  -- the writes of the critical section of `os_work_promote_delayed` for the item that is due
  unfoldable pub promote_unlink : Sys Sem → ℕ → ℕ → Sys Sem
  promote_unlink s q w = record {
    works =
        update s.works w
          (record (s.works w) { flags = record ((s.works w).flags) { delayed = false } });
    queues = update s.queues q (record (s.queues q) { delayed = remove w (s.queues q).delayed });
  }

  unfoldable pub begin_with : Sys Sem → ℕ → List ℕ → Next × Sys Sem
  begin_with s q [] = (Next.idle, s)
  begin_with s q (node ∷ rest) =
      let queue = record (s.queues q) {
        list = rest;
        count = ((s.queues q).count + 2 ^ 32 - 1) % 2 ^ 32;
      } in
      if node == 0 then (Next.stopped, set_queue s q (record queue { stop_queued = false })) else (
        Next.runs node,
        record {
          works = update s.works node (record (s.works node) {
            node_queued = false;
            flags = record ((s.works node).flags) { queued = false; running = true };
            running_id = (s.works node).submission_id;
          });
          queues = update s.queues q (record queue { current = some node });
        },
      )

  -- the critical section of `os_work_queue_entry` before the handler
  unfoldable pub begin : Sys Sem → ℕ → Next × Sys Sem
  unfolding begin_with
  begin s q = begin_with s q (s.queues q).list

  -- the critical section after the handler
  unfoldable pub finish : Sys Sem → ℕ → ℕ → Sys Sem
  finish s q w = record {
    works = update s.works w (record (s.works w) {
      completion_id = (s.works w).running_id;
      flags = record ((s.works w).flags) { running = false; canceling = false };
    });
    queues = update s.queues q (record (s.queues q) { current = none });
  }

module _ {Sem : Type 0} (o : SemOps Sem) where
  -- What follows the critical section: the worker is the thread of `q`.
  unfoldable pub promote_submit : Sys Sem → ℕ → ℕ → (blocked : Bool) → Sys Sem
  promote_submit s q w blocked =
      if blocked then notify o false s w else (submit_to_queue o false (some q) s (some q) w).1

  -- `os_work_promote_delayed` with the tick at each round and fuel for the rounds: the timeout for
  -- the wait that follows. `none` is a loop that has not ended.
  unfoldable pub promote_delayed :
      ℕ → Sys Sem → ℕ → (clock : ℕ → ℕ) → (round : ℕ) → Option (ℕ × Sys Sem)
  unfolding scan promote_unlink promote_submit
  promote_delayed zero s q clock round = none
  promote_delayed (suc fuel) s q clock round =
      let (due, timeout) = scan s (clock round) (s.queues q).delayed wait_forever in
      elim due [
        | none ↦ some (timeout, s)
        | some w ↦
            promote_delayed fuel
              (promote_submit (promote_unlink s q w) q w
                ((s.queues q).plugged || (s.queues q).stopping))
              q clock (round + 1)
      ]

  unfoldable pub take_items : Sys Sem → ℕ → ℕ → Result × Sys Sem
  take_items s q timeout =
      let (r, items) = o.take false (s.queues q).items timeout in
      (r, set_queue s q (record (s.queues q) { items = items }))

  unfoldable pub finish_notify : Sys Sem → ℕ → ℕ → Sys Sem
  unfolding finish
  finish_notify s q w = notify o false (finish s q w) w
