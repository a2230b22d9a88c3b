-- ===== src/Work/Control.antt =====
-- Starting, draining, unplugging and stopping a queue.
pub mod Undelay
pub mod Stop
use hazel_osal.Prelude.{
  ℕ, ◌+◌, ◌%◌, ◌^◌, Bool, true, false, ◌||◌, ◌&&◌, not, none, List, [], ◌∷◌, ◌++◌, ◌==◌,
  if◌then◌else◌,
}
use hazel_osal.Prelude.Ids.{update}
use hazel_osal.Errno.{
  Result, ok, err, einval, ealready, enomem, ebusy, edeadlk, ewouldblock, is_zero,
}
use hazel_osal.Sem.{SemOps}
use hazel_osal.Work.{Queue, Sys, is_null, set_queue, notify, give_items}

abbrev is_empty : List ℕ → Bool
is_empty [] = true
is_empty (x ∷ xs) = false

module _ {Sem : Type 0} (o : SemOps Sem) where
  abbrev pub zero_queue : Queue Sem
  zero_queue = record {
    list = [];
    items = o.zero;
    count = 0;
    fifo_initialized = false;
    delayed = [];
    stop_queued = false;
    current = none;
    started = false;
    stopping = false;
    draining = false;
    plugged = false;
    no_yield = false;
  }

  -- `os_fifo_deinit(&queue->fifo)`
  fifo_deinit : Bool → Queue Sem → Result × Queue Sem
  fifo_deinit isr queue =
      let (r, items) = o.deinit isr queue.items in
      if not queue.fifo_initialized
      then (err einval, queue)
      else if not (is_empty queue.list)
      then (err ebusy, queue)
      else if is_zero r
      then (r, record queue { items = o.zero; count = 0; fifo_initialized = false })
      else (r, record queue { items = items })

  -- `created` is what `os_thread_create` returns. No thread runs before it does.
  pub start :
      Bool
      → Queue Sem
      → (stack_size : ℕ) → (no_yield : Bool) → (created : Result) → Result × Queue Sem
  unfolding fifo_deinit
  start isr queue stack_size no_yield created =
      let (r, items) = o.init o.zero 0 0xffff in
      let made = record zero_queue {
        items = items;
        fifo_initialized = true;
        no_yield = no_yield;
      } in
      if stack_size == 0
      then (err einval, queue)
      else if queue.started
      then (err ealready, queue)
      else if not (is_zero r)
      then (err enomem, record zero_queue { items = items })
      else if not (is_zero created)
      then (created, (fifo_deinit isr made).1)
      else (ok 0, record made { started = true })

module _ {Sem : Type 0} where
  unfoldable pub is_drained : Queue Sem → Bool
  is_drained queue = queue.count == 0 && is_null queue.current

  -- `os_work_queue_drain` up to its loop: whether it waits, and the state
  unfoldable pub drain_begin : Bool → Queue Sem → (plug : Bool) → Result × Queue Sem
  unfolding is_drained
  drain_begin isr queue plug =
      if not queue.started then (err einval, queue) else if isr then (err ewouldblock, queue) else (
        ok (if is_drained queue then 0 else 1),
        record queue { draining = true; plugged = if plug then true else queue.plugged },
      )

  -- A round of its loop: whether the loop ends. It goes on after a delay of one tick.
  unfoldable pub drain_round : Queue Sem → Bool × Queue Sem
  unfolding is_drained
  drain_round queue =
      if is_drained queue then (true, record queue { draining = false }) else (false, queue)

  unfoldable pub unplug : Queue Sem → Result × Queue Sem
  unplug queue =
      if not queue.started
      then (err einval, queue)
      else if not queue.plugged
      then (err ealready, queue)
      else (ok 0, record queue { plugged = false })

  -- `os_work_queue_stop` up to the end of its first critical section: `self` says that the worker
  -- makes the call.
  unfoldable pub stop_link : (self : Bool) → Queue Sem → Result × Queue Sem
  unfolding is_drained
  stop_link self queue =
      if not queue.started
      then (err ealready, queue)
      else if self
      then (err edeadlk, queue)
      else if not queue.plugged || not (is_drained queue)
      then (err ebusy, queue)
      else (
        ok 0,
        record queue {
          stopping = true;
          stop_queued = true;
          list = queue.list ++ (0 ∷ []);
          count = (queue.count + 1) % 2 ^ 32;
        },
      )

module _ {Sem : Type 0} where
  -- A critical section of the loop of `os_work_queue_stop`: the first delayed item is taken off.
  unfoldable pub stop_undelay : Sys Sem → ℕ → ℕ → List ℕ → Sys Sem
  stop_undelay s q w rest = record {
    works =
        update s.works w
          (record (s.works w) { flags = record ((s.works w).flags) { delayed = false } });
    queues = update s.queues q (record (s.queues q) { delayed = rest });
  }

module _ {Sem : Type 0} (o : SemOps Sem) where
  -- `os_work_queue_stop` up to the join of the worker
  unfoldable pub stop_begin : Bool → (self : Bool) → Sys Sem → ℕ → Result × Sys Sem
  unfolding stop_link
  stop_begin isr self s q =
      let (r, queue) = stop_link self (s.queues q) in
      let s' = set_queue s q queue in if is_zero r then (r, give_items o isr s' q) else (r, s')

  -- The loop of `os_work_queue_stop` over the delayed items.
  stop_delayed : Bool → Sys Sem → ℕ → List ℕ → Sys Sem
  unfolding stop_undelay
  stop_delayed isr s q [] = s
  stop_delayed isr s q (w ∷ rest) =
      stop_delayed isr (notify o isr (stop_undelay s q w rest) w) q rest

  -- `joined` is what `os_thread_join` returns, `s` the state after it.
  pub stop_end : Bool → Sys Sem → ℕ → (joined : Result) → Result × Sys Sem
  unfolding stop_delayed fifo_deinit
  stop_end isr s q joined =
      let s' = stop_delayed isr s q (s.queues q).delayed in
      let (r, queue) = fifo_deinit o isr (s'.queues q) in
      if not (is_zero joined)
      then (joined, s)
      else if not (is_zero r)
      then (r, set_queue s' q queue)
      else (ok 0, set_queue s' q (record queue { started = false }))
