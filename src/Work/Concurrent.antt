-- ===== src/Work/Concurrent.antt =====
-- work_queue.c under concurrent use: any thread, interrupt or worker executes the next critical
-- section, and semaphores change in between. A worker is at its critical section before a handler
-- when its queue has no current item, and at the one after it when it has.
pub mod Resets
pub mod Safety
pub mod Flush
pub mod Steal
use hazel_osal.Prelude.{length-zero}
use hazel_osal.Prelude.{
  ℕ, zero, suc, ◌+◌, ◌%◌, ◌^◌, ◌≡◌, refl, ap, sym, ◌∙◌, Bool, true, false, ◌&&◌, not, Option, none,
  some, List, [], ◌∷◌, ◌++◌, ◌==◌, if◌then◌else◌, length, ◌⊎◌, arith, Bool-cases, inl, inr,
}
use hazel_osal.Prelude.Ids.{has, Distinct, update, remove, remove-head}
use hazel_osal.Errno.{Result, ok, err}
use hazel_osal.Work.{Work, Queue, Sys, Flags, no_flags, is_at, is_null, set_work, set_queue}
use hazel_osal.Work.Submit.{submit_link}
use hazel_osal.Work.Cancel.{cancel_unlink}
use hazel_osal.Work.Delay.{undelay, placed}
use hazel_osal.Work.Worker.{begin, finish, promote_unlink}
use hazel_osal.Work.Control.{is_drained, stop_link, stop_undelay, drain_begin, drain_round, unplug}
use hazel_osal.Work.Invariant.{ListInv, RunInv, DelayInv}
use hazel_osal.Work.Invariant.Lists.{
  submit_link-ListInv, cancel_unlink-ListInv, begin-ListInv, finish-ListInv, promote_unlink-ListInv,
  undelay-ListInv, placed-ListInv,
}
use hazel_osal.Work.Invariant.Runs.{
  submit_link-RunInv, cancel_unlink-RunInv, begin-RunInv, finish-RunInv, promote_unlink-RunInv,
  undelay-RunInv, placed-RunInv,
}
use hazel_osal.Work.Invariant.Delays.{
  submit_link-DelayInv, cancel_unlink-DelayInv, begin-DelayInv, finish-DelayInv,
  promote_unlink-DelayInv, undelay-DelayInv, undelay-free, placed-DelayInv,
}

module _ {Sem : Type 0} where
  pub record Inv (s : Sys Sem) : Type 0 where
    pub lists : ListInv s
    pub runs : RunInv s
    pub delays : DelayInv s

  -- There is no work on the queue.
  abbrev pub IsBlank : Queue Sem → Type 0
  IsBlank queue = (queue.list ≡ []) × (queue.delayed ≡ []) × (queue.current ≡ none)

  pub data Step (s : Sys Sem) : Sys Sem → Type 0 where
    -- `os_work_submit_to_queue`
    submits : (self : Option ℕ) (q w : ℕ) → (w == 0) ≡ false → Step s (submit_link self s q w).1
    -- `os_work_cancel`
    cancels : (w : ℕ) → (w == 0) ≡ false → Step s (cancel_unlink s w)
    -- `os_work_cancel_delayable`, `os_work_flush_delayable`, a schedule without delay
    undelays : (w : ℕ) → Step s (undelay s w)
    -- `os_work_schedule_common`
    delays : (q w deadline : ℕ) → Step s (placed (undelay s w) q w deadline)
    -- `os_work_queue_entry`
    begins : (q : ℕ) → (s.queues q).current ≡ none → Step s (begin s q).1
    finishes : (q w : ℕ) → (s.queues q).current ≡ some w → Step s (finish s q w)
    -- `os_work_promote_delayed`
    promotes : (q w : ℕ) → has w (s.queues q).delayed ≡ true → Step s (promote_unlink s q w)
    -- `os_work_queue_stop`, `os_work_queue_drain`, `os_work_queue_unplug`
    stops : (self : Bool) (q : ℕ) → Step s (set_queue s q (stop_link self (s.queues q)).1)
    stop_undelays :
        (q w : ℕ) (rest : List ℕ)
        → (s.queues q).delayed ≡ w ∷ rest
        → Step s (stop_undelay s q w rest)
    drains :
        (isr plug : Bool) (q : ℕ) → Step s (set_queue s q (drain_begin isr (s.queues q) plug).1)
    drained : (q : ℕ) → Step s (set_queue s q (drain_round (s.queues q)).1)
    unplugs : (q : ℕ) → Step s (set_queue s q (unplug (s.queues q)).1)
    -- `os_work_init`, on an item that is not in use
    inits :
        (w : ℕ) (work : Work Sem)
        → (s.works w).flags ≡ no_flags
        → work.flags ≡ no_flags
        → Step s (set_work s w work)
    -- `os_work_queue_start`, and the `os_fifo_deinit` of `os_work_queue_stop`
    resets :
        (q : ℕ) (queue : Queue Sem)
        → IsBlank (s.queues q)
        → IsBlank queue
        → queue.count ≡ 0
        → Step s (set_queue s q queue)
    -- semaphore calls
    signals_items :
        (q : ℕ) (items : Sem) → Step s (set_queue s q (record (s.queues q) { items = items }))
    signals_sync : (w : ℕ) (sync : Sem) → Step s (set_work s w (record (s.works w) { sync = sync }))

  -- steps, the last one first
  pub data Reach (s : Sys Sem) : Sys Sem → Type 0 where
    here : Reach s s
    next : {s' s'' : Sys Sem} → Reach s s' → Step s' s'' → Reach s s''

  -- The same lists, counts, delayed lists and current item.
  abbrev Same : Queue Sem → Queue Sem → Type 0
  Same a b =
      (a.list ≡ b.list) × (a.count ≡ b.count) × (a.delayed ≡ b.delayed) × (a.current ≡ b.current)

  pub Same-Inv :
      (s : Sys Sem) (q : ℕ) (queue : Queue Sem)
      → Same queue (s.queues q)
      → Inv s
      → Inv (set_queue s q queue)
  Same-Inv s q queue same v = record {
    lists = record {
      on_list = λ q' w' h n. ground (arith, v.lists.on_list q' w', same);
      listed = λ q' w' h at n. ground (arith, v.lists.listed q' w', same);
      distinct = λ q'. ground (arith, v.lists.distinct q', same);
      counted = λ q'. ground (arith, v.lists.counted q', same);
      bounded = λ q'. ground (arith, v.lists.bounded q', same);
    };
    runs = record {
      current_runs = λ q' w' c. ground (arith, v.runs.current_runs q' w', same);
      runs_current = λ q' w' r at. ground (arith, v.runs.runs_current q' w', same);
      canceling_runs = v.runs.canceling_runs;
    };
    delays = record {
      on_delayed = λ q' w'. ground (arith, v.delays.on_delayed q' w', same);
      delayed_distinct = λ q'. ground (arith, v.delays.delayed_distinct q', same);
    };
  }

  pub drain_begin-Same :
      (isr plug : Bool) (queue : Queue Sem) → Same (drain_begin isr queue plug).1 queue
  unfolding drain_begin is_drained
  drain_begin-Same isr plug queue = ground arith

  pub drain_round-Same : (queue : Queue Sem) → Same (drain_round queue).1 queue
  unfolding drain_round is_drained
  drain_round-Same queue = ground arith

  pub unplug-Same : (queue : Queue Sem) → Same (unplug queue).1 queue
  unfolding unplug
  unplug-Same queue = ground arith

  -- The stop node is put on an empty list.
  stopped-Inv :
      (s : Sys Sem) (q : ℕ) (queue : Queue Sem)
      → queue.list ≡ 0 ∷ []
      → queue.count ≡ 1
      → queue.delayed ≡ (s.queues q).delayed
      → queue.current ≡ (s.queues q).current
      → (s.queues q).list ≡ []
      → Inv s
      → Inv (set_queue s q queue)
  stopped-Inv s q queue l c d r e v = record {
    lists = record {
      on_list = λ q' w' h n. ground (arith, v.lists.on_list q' w', l);
      listed = λ q' w' h at n. ground (arith, v.lists.listed q' w', l, e);
      distinct = λ q'. ground (arith, v.lists.distinct q', l);
      counted = λ q'. ground (arith, v.lists.counted q', l, c);
      bounded = λ q'. ground (arith, v.lists.bounded q', c);
    };
    runs = record {
      current_runs = λ q' w' c. ground (arith, v.runs.current_runs q' w', r);
      runs_current = λ q' w' r' at. ground (arith, v.runs.runs_current q' w', r);
      canceling_runs = v.runs.canceling_runs;
    };
    delays = record {
      on_delayed = λ q' w'. ground (arith, v.delays.on_delayed q' w', d);
      delayed_distinct = λ q'. ground (arith, v.delays.delayed_distinct q', d);
    };
  }

  stop_link-cases :
      (self : Bool) (queue : Queue Sem)
      → ((stop_link self queue).1 ≡ queue)
        ⊎ ((is_drained queue ≡ true)
            × ((stop_link self queue).1.list ≡ queue.list ++ (0 ∷ []))
            × ((stop_link self queue).1.count ≡ (queue.count + 1) % 2 ^ 32)
            × ((stop_link self queue).1.delayed ≡ queue.delayed)
            × ((stop_link self queue).1.current ≡ queue.current))
  unfolding stop_link is_drained
  stop_link-cases self queue = ground arith

  pub stop_link-Inv :
      (self : Bool) (s : Sys Sem) (q : ℕ)
      → Inv s
      → Inv (set_queue s q (stop_link self (s.queues q)).1)
  unfolding is_drained
  stop_link-Inv self s q v = elim (stop_link-cases self (s.queues q)) [
    | inl e ↦ Same-Inv s q _ (ground (arith, e)) v
    | inr (d, l, c, de, r) ↦
        let e = length-zero (s.queues q).list (ground (arith, v.lists.counted q)) in
        stopped-Inv s q _ (ground (arith, e, l)) (ground (arith, c)) de r e v
  ]

  -- It is the same as taking the item off by its address.
  pub stop_undelay-promote_unlink :
      (s : Sys Sem) (q w : ℕ) (rest : List ℕ)
      → (s.queues q).delayed ≡ w ∷ rest
      → stop_undelay s q w rest ≡ promote_unlink s q w
  unfolding stop_undelay promote_unlink
  stop_undelay-promote_unlink s q w rest e = rw (e, remove-head w rest) refl
