-- ===== src/Work/Control/Undelay.antt =====
-- The loop and the end of `os_work_queue_stop`.
use hazel_osal.Prelude.{ℕ, ◌≡◌, refl, ap, ◌∙◌, Bool, true, false, List, [], ◌∷◌, arith}
use hazel_osal.Prelude.Ids.{has}
use hazel_osal.Errno.{ok, err, ebusy}
use hazel_osal.Sem.{SemOps}
use hazel_osal.Work.{Queue, Sys, notify}
use hazel_osal.Work.Control.{fifo_deinit, stop_undelay, stop_delayed, stop_end}

module _ {Sem : Type 0} (o : SemOps Sem) where
  -- What the loop of `os_work_queue_stop` leaves: the rest of the queue is as it was, and the items
  -- of the list are not delayed.
  record Undelayed (q : ℕ) (l : List ℕ) (s t : Sys Sem) : Type 0 where
    pub listed : (t.queues q).list ≡ (s.queues q).list
    pub items_kept : (t.queues q).items ≡ (s.queues q).items
    pub initialized : (t.queues q).fifo_initialized ≡ (s.queues q).fifo_initialized
    pub opened : (t.queues q).started ≡ (s.queues q).started
    pub counted : (t.queues q).count ≡ (s.queues q).count
    pub idle : (t.queues q).current ≡ (s.queues q).current
    pub nothing : (s.queues q).delayed ≡ l → (t.queues q).delayed ≡ []
    pub cleared : (w : ℕ) → has w l ≡ true → (t.works w).flags.delayed ≡ false
    pub kept : (w : ℕ) → (s.works w).flags.delayed ≡ false → (t.works w).flags.delayed ≡ false

  stop_round-Undelayed :
      (isr : Bool) (s : Sys Sem) (q w : ℕ) (rest : List ℕ) (t : Sys Sem)
      → Undelayed q rest (notify o isr (stop_undelay s q w rest) w) t
      → Undelayed q (w ∷ rest) s t
  unfolding notify stop_undelay
  stop_round-Undelayed isr s q w rest t ih = record {
    listed = ground (arith, ih.listed);
    items_kept = ground (arith, ih.items_kept);
    initialized = ground (arith, ih.initialized);
    opened = ground (arith, ih.opened);
    counted = ground (arith, ih.counted);
    idle = ground (arith, ih.idle);
    nothing = λ e. ground (arith, ih.nothing);
    cleared = λ v h. ground (arith, ih.cleared v, ih.kept v);
    kept = λ v h. ground (arith, ih.kept v);
  }

  stop_delayed-Undelayed :
      (isr : Bool) (s : Sys Sem) (q : ℕ) (l : List ℕ) → Undelayed q l s (stop_delayed o isr s q l)
  unfolding stop_delayed
  stop_delayed-Undelayed isr s q [] = ground arith
  stop_delayed-Undelayed isr s q (w ∷ rest) =
      stop_round-Undelayed isr s q w rest _
        (stop_delayed-Undelayed isr (notify o isr (stop_undelay s q w rest) w) q rest)

  fifo_deinit-done :
      (isr : Bool) (queue : Queue Sem)
      → queue.list ≡ []
      → queue.fifo_initialized ≡ true
      → (o.deinit isr queue.items).0 ≡ ok 0
      → ((fifo_deinit o isr queue).0 ≡ ok 0)
        × ((fifo_deinit o isr queue).1.list ≡ [])
        × ((fifo_deinit o isr queue).1.delayed ≡ queue.delayed)
        × ((fifo_deinit o isr queue).1.current ≡ queue.current)
  unfolding fifo_deinit
  fifo_deinit-done isr queue e init d = ground (arith, e)

  fifo_deinit-busy :
      (isr : Bool) (queue : Queue Sem) (x : ℕ) (rest : List ℕ)
      → queue.list ≡ x ∷ rest
      → queue.fifo_initialized ≡ true
      → fifo_deinit o isr queue ≡ (err ebusy, queue)
  unfolding fifo_deinit
  fifo_deinit-busy isr queue x rest e init = ground (arith, e)

  -- what the call does once its worker has ended and the list is empty
  pub stop_end-done :
      (isr : Bool) (s : Sys Sem) (q : ℕ)
      → (s.queues q).list ≡ []
      → (s.queues q).fifo_initialized ≡ true
      → (o.deinit isr (s.queues q).items).0 ≡ ok 0
      → let (r, s') = stop_end o isr s q (ok 0) in
        (r ≡ ok 0)
        × ((s'.queues q).started ≡ false)
        × ((s'.queues q).list ≡ [])
        × ((s'.queues q).delayed ≡ [])
        × ((s'.queues q).current ≡ (s.queues q).current)
        × ((w : ℕ) → has w (s.queues q).delayed ≡ true → (s'.works w).flags.delayed ≡ false)
  unfolding stop_end
  stop_end-done isr s q e init d =
      let u = stop_delayed-Undelayed isr s q (s.queues q).delayed in
      let t = stop_delayed o isr s q (s.queues q).delayed in
      let done =
        fifo_deinit-done isr (t.queues q) (u.listed ∙ e) (u.initialized ∙ init)
          (ap (λ i. (o.deinit isr i).0) u.items_kept ∙ d) in
      let nothing = u.nothing refl in
      (
        ground arith,
        ground arith,
        ground arith,
        ground arith,
        ground (arith, u.idle),
        λ w h. ground (arith, u.cleared w h),
      )

  pub stop_end-busy :
      (isr : Bool) (s : Sys Sem) (q x : ℕ) (rest : List ℕ)
      → (s.queues q).list ≡ x ∷ rest
      → (s.queues q).fifo_initialized ≡ true
      → let (r, s') = stop_end o isr s q (ok 0) in
        (r ≡ err ebusy)
        × ((s'.queues q).count ≡ (s.queues q).count)
        × ((s'.queues q).started ≡ (s.queues q).started)
  unfolding stop_end
  stop_end-busy isr s q x rest e init =
      let u = stop_delayed-Undelayed isr s q (s.queues q).delayed in
      let t = stop_delayed o isr s q (s.queues q).delayed in
      let busy = fifo_deinit-busy isr (t.queues q) x rest (u.listed ∙ e) (u.initialized ∙ init) in
      ground (arith, busy, u.counted, u.opened)
