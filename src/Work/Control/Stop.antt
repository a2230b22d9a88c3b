-- ===== src/Work/Control/Stop.antt =====
-- `os_work_queue_stop` as a whole call, with what its worker does in between.
use hazel_osal.Prelude.{
  ℕ, ◌-◌, ◌<◌, ◌≡◌, refl, ap, ◌∙◌, Bool, true, false, none, [], ◌∷◌, ltb, if◌then◌else◌, arith,
}
use hazel_osal.Prelude.Ids.{has}
use hazel_osal.Errno.{Result, ok, err, ebusy}
use hazel_osal.Sem.{SemOps, IsSemaphore}
use hazel_osal.Work.{Queue, Sys, set_queue, give_items}
use hazel_osal.Work.Worker.{stopped, begin, begin_with, take_items}
use hazel_osal.Work.Control.{start, fifo_deinit, is_drained, stop_link, stop_begin, stop_end}
use hazel_osal.Work.Control.Undelay.{stop_end-done, stop_end-busy}

module _ {Sem : Type 0} (o : SemOps Sem) where
  stop_link-again :
      (queue : Queue Sem)
      → queue.started ≡ true
      → queue.plugged ≡ true
      → is_drained queue ≡ true
      → queue.list ≡ []
      → let (r, queue') = stop_link false queue in
        (r ≡ ok 0)
        × (queue'.list ≡ 0 ∷ [])
        × (queue'.fifo_initialized ≡ queue.fifo_initialized)
        × (queue'.count ≡ 1)
        × (queue'.started ≡ true)
  unfolding stop_link is_drained
  stop_link-again queue st pl dr e = ground (arith, e)

  stop_link-loaded :
      (queue : Queue Sem)
      → queue.started ≡ true
      → queue.count ≡ 1
      → (stop_link false queue).0 ≡ err ebusy
  unfolding stop_link is_drained
  stop_link-loaded queue st c = ground (arith, c)

  -- Let a queue be started, plugged and without work, with an empty list and an initialized FIFO,
  -- and let its worker be gone, as when a call of os_work_queue_stop has timed out and the worker
  -- has taken its stop node since. Then another call passes its critical section, returns -EBUSY
  -- after the join has succeeded, and leaves a queue on which every call of os_work_queue_stop
  -- returns -EBUSY before the join.
  pub stop_again-busy :
      (isr : Bool) (s : Sys Sem) (q : ℕ)
      → (s.queues q).started ≡ true
      → (s.queues q).plugged ≡ true
      → is_drained (s.queues q) ≡ true
      → (s.queues q).list ≡ []
      → (s.queues q).fifo_initialized ≡ true
      → let (first, queue) = stop_link false (s.queues q) in
        let (r, s') = stop_end o isr (set_queue s q queue) q (ok 0) in
        (first ≡ ok 0) × (r ≡ err ebusy) × ((stop_link false (s'.queues q)).0 ≡ err ebusy)
  stop_again-busy isr s q started plugged drained empty init =
      let again = stop_link-again (s.queues q) started plugged drained empty in
      let s' = set_queue s q (stop_link false (s.queues q)).1 in
      let busy = stop_end-busy o isr s' q 0 [] (ground (arith, again)) (ground (arith, again)) in
      let s'' = (stop_end o isr s' q (ok 0)).1 in
      let one : (s''.queues q).count ≡ 1 = busy.1 ∙ (ground (arith, again)) in
      let open' : (s''.queues q).started ≡ true = busy.2 ∙ (ground (arith, again)) in
      (again.0, busy.0, stop_link-loaded (s''.queues q) open' one)

  -- os_work_queue_start on a queue with no work leaves one, whatever it returns.
  pub start-blank :
      (isr : Bool) (queue : Queue Sem) (stack_size : ℕ) (no_yield : Bool) (created : Result)
      → queue.list ≡ []
      → queue.delayed ≡ []
      → queue.current ≡ none
      → queue.count ≡ 0
      → let queue' = (start o isr queue stack_size no_yield created).1 in
        (queue'.list ≡ []) × (queue'.delayed ≡ []) × (queue'.current ≡ none) × (queue'.count ≡ 0)
  unfolding start fifo_deinit
  start-blank isr queue stack_size no_yield created l d r c = ground (arith, l, d)

module _ {Sem : Type 0} (o : SemOps Sem) (bound : ℕ) (law : IsSemaphore o bound) where
  -- what stop_begin leaves on a queue with an empty list
  begun :
      (isr : Bool) (s : Sys Sem) (q : ℕ)
      → (s.queues q).list ≡ []
      → (stop_begin o isr false s q).0 ≡ ok 0
      → let s' = (stop_begin o isr false s q).1 in
        ((s'.queues q).list ≡ 0 ∷ [])
        × ((s'.queues q).items ≡ o.give isr (s.queues q).items)
        × ((s'.queues q).fifo_initialized ≡ (s.queues q).fifo_initialized)
        × ((s'.queues q).delayed ≡ (s.queues q).delayed)
        × ((s'.queues q).current ≡ none)
  unfolding stop_begin stop_link is_drained give_items
  begun isr s q empty passed = ground (arith, empty)

  -- the worker takes the stop node
  wakes_stopped :
      (s : Sys Sem) (q : ℕ)
      → (s.queues q).list ≡ 0 ∷ []
      → let (next, s') = begin s q in
        (next ≡ stopped)
        × ((s'.queues q).list ≡ [])
        × ((s'.queues q).items ≡ (s.queues q).items)
        × ((s'.queues q).fifo_initialized ≡ (s.queues q).fifo_initialized)
        × ((s'.queues q).delayed ≡ (s.queues q).delayed)
        × ((s'.queues q).current ≡ (s.queues q).current)
  unfolding begin begin_with
  wakes_stopped s q e = ground (arith, e)

  took :
      (s : Sys Sem) (q timeout : ℕ)
      → let (r, s') = take_items o s q timeout in
        (r ≡ (o.take false (s.queues q).items timeout).0)
        × ((s'.queues q).list ≡ (s.queues q).list)
        × ((s'.queues q).items ≡ (o.take false (s.queues q).items timeout).1)
        × ((s'.queues q).fifo_initialized ≡ (s.queues q).fifo_initialized)
        × ((s'.queues q).delayed ≡ (s.queues q).delayed)
        × ((s'.queues q).current ≡ (s.queues q).current)
  unfolding take_items
  took s q timeout = ground arith

  -- A semaphore that has been given has a token for the next wait.
  given-taken :
      (isr : Bool) (i : Sem) (timeout : ℕ)
      → o.live i ≡ true
      → 0 < o.limit i
      → (o.take false (o.give isr i) timeout).0 ≡ ok 0
  given-taken isr i timeout live room =
      let g = law.give_live isr i live in
      let n = if ltb (o.count i) (o.limit i) then o.count i else o.count i - 1 in
      (law.take_some false (o.give isr i) timeout n g.alive refl (ground (arith, g.tokens))).0

  -- Let os_work_queue_stop pass its critical section on a queue with an empty list and an
  -- initialized FIFO whose semaphore is live, has room for a token and can be deinitialized once
  -- it has been given and taken. Then the wait of the worker on that semaphore succeeds, whatever
  -- its timeout; the worker takes the stop node and ends; and once the join has succeeded, the
  -- call succeeds and leaves the queue not started, with an empty list, no delayed item and no
  -- current one, and the items that were delayed on it are not delayed.
  pub stop-completes :
      (isr : Bool) (s : Sys Sem) (q timeout : ℕ)
      → (s.queues q).list ≡ []
      → (s.queues q).fifo_initialized ≡ true
      → o.live (s.queues q).items ≡ true
      → 0 < o.limit (s.queues q).items
      → (o.deinit isr (o.take false (o.give isr (s.queues q).items) timeout).1).0 ≡ ok 0
      → (stop_begin o isr false s q).0 ≡ ok 0
      → let (taken, s1) = take_items o (stop_begin o isr false s q).1 q timeout in
        let (next, s2) = begin s1 q in
        let (r, s') = stop_end o isr s2 q (ok 0) in
        (taken ≡ ok 0)
        × (next ≡ stopped)
        × (r ≡ ok 0)
        × ((s'.queues q).started ≡ false)
        × ((s'.queues q).list ≡ [])
        × ((s'.queues q).delayed ≡ [])
        × ((s'.queues q).current ≡ none)
        × ((w : ℕ) → has w (s.queues q).delayed ≡ true → (s'.works w).flags.delayed ≡ false)
  stop-completes isr s q timeout empty init live room deinit passed =
      let s0 = (stop_begin o isr false s q).1 in
      let s1 = (take_items o s0 q timeout).1 in
      let s2 = (begin s1 q).1 in
      let b = begun isr s q empty passed in
      let t = took s0 q timeout in
      let w = wakes_stopped s1 q (t.1 ∙ b.0) in
      let items : (s2.queues q).items ≡ (o.take false (o.give isr (s.queues q).items) timeout).1 =
        w.2 ∙ t.2 ∙ ap (λ i. (o.take false i timeout).1) b.1 in
      let done =
        stop_end-done o isr s2 q w.1 (w.3 ∙ t.3 ∙ b.2 ∙ init)
          (ap (λ i. (o.deinit isr i).0) items ∙ deinit) in
      (
        t.0
            ∙ ap (λ i. (o.take false i timeout).0) b.1
            ∙ given-taken isr (s.queues q).items timeout live room,
        w.0,
        done.0,
        done.1,
        done.2,
        done.3,
        done.4 ∙ w.5 ∙ t.5 ∙ b.4,
        λ x h. done.5 x (ap (has x) (w.4 ∙ t.4 ∙ b.3) ∙ h),
      )
