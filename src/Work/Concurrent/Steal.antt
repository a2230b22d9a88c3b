-- ===== src/Work/Concurrent/Steal.antt =====
-- The token that `os_work_cancel` takes back after its critical section.
use hazel_osal.Prelude.{
  ℕ, ◌<◌, ◌≡◌, refl, ap, ◌∙◌, Bool, true, false, none, some, [], ◌∷◌, ◌++◌, arith,
}
use hazel_osal.Prelude.Ids.{remove-head}
use hazel_osal.Sem.{SemOps, IsSemaphore}
use hazel_osal.Sem.Outcomes.{give-Holds}
use hazel_osal.Work.{Sys}
use hazel_osal.Work.Submit.{is_submitted, submit_to_queue}
use hazel_osal.Work.Submit.Link.{submit_to_queue-Taken}
use hazel_osal.Work.Cancel.{unlink_from, settled, cancel_unlink, trytake_items}
use hazel_osal.Work.Worker.{idle, begin, begin_with, take_items}

module _ {Sem : Type 0} where
  -- Canceling the only item of a queue leaves its list empty and its semaphore as it was.
  cancel_unlink-last :
      (s : Sys Sem) (q x : ℕ)
      → (s.queues q).list ≡ x ∷ []
      → (s.works x).flags.queued ≡ true
      → (s.works x).queue ≡ some q
      → (((cancel_unlink s x).queues q).list ≡ [])
        × (((cancel_unlink s x).queues q).items ≡ (s.queues q).items)
  unfolding cancel_unlink unlink_from settled
  cancel_unlink-last s q x l queued at = rw (queued, at) (ground (arith, l, remove-head x []))

module _ {Sem : Type 0} {o : SemOps Sem} {bound : ℕ} (law : IsSemaphore o bound) where
  -- a semaphore with no token, of which one has been given and taken back
  give-take :
      (isr isr' : Bool) (sem : Sem)
      → o.live sem ≡ true
      → o.count sem ≡ 0
      → 0 < o.limit sem
      → o.count (o.take isr' (o.give isr sem) 0).1 ≡ 0
  give-take isr isr' sem v e l =
      let given = give-Holds law isr sem v (omega (arith, e, l)) in
      (law.take_some isr' (o.give isr sem) 0 0 given.alive (ground arith)
        (omega (arith, given.tokens, e))).1.tokens

  trytake_items-at :
      (isr : Bool) (s : Sys Sem) (q : ℕ)
      → (((trytake_items o isr s (some q)).queues q).list ≡ (s.queues q).list)
        × (((trytake_items o isr s (some q)).queues q).items ≡ (o.take isr (s.queues q).items 0).1)
  unfolding trytake_items
  trytake_items-at isr s q = ground arith

  -- Take a queue whose only item is x, with one token in its semaphore, and a cancel of x that has
  -- left its critical section. If the worker then takes the token, it finds the list empty; and if
  -- a submit of y follows that is accepted, the os_sem_trytake of the cancel leaves y alone on the
  -- list with no token in the semaphore.
  pub cancel-steals :
      (isr isr' : Bool) (s : Sys Sem) (q x y t : ℕ)
      → (s.queues q).list ≡ x ∷ []
      → (s.works x).flags.queued ≡ true
      → (s.works x).queue ≡ some q
      → o.live (s.queues q).items ≡ true
      → o.count (s.queues q).items ≡ 1
      → 0 < o.limit (s.queues q).items
      → is_submitted
          (submit_to_queue o isr none (take_items o (cancel_unlink s x) q t).1 (some q) y).0
        ≡ true
      → let waked = (take_items o (cancel_unlink s x) q t).1 in
        let (r, s') = submit_to_queue o isr none waked (some q) y in
        (begin waked q ≡ (idle, waked))
        × (((trytake_items o isr' s' (some q)).queues q).list ≡ y ∷ [])
        × (o.count ((trytake_items o isr' s' (some q)).queues q).items ≡ 0)
  unfolding begin begin_with take_items
  cancel-steals isr isr' s q x y t l queued at v one limit accepted =
      let last = cancel_unlink-last s q x l queued at in
      let waked = (take_items o (cancel_unlink s x) q t).1 in
      let taken = law.take_some false (s.queues q).items t 0 v (ground arith) one in
      let empty : (waked.queues q).list ≡ [] = ground (arith, last) in
      let sem : (waked.queues q).items ≡ (o.take false (s.queues q).items t).1 =
        ground (arith, last) in
      let done = (submit_to_queue-Taken o isr none waked q y).1 accepted in
      let s' = (submit_to_queue o isr none waked (some q) y).1 in
      let try = trytake_items-at isr' s' q in
      let held = taken.1 in
      (
        rw empty refl,
        try.0 ∙ done.appended ∙ ap (λ l. l ++ (y ∷ [])) empty,
        ap o.count try.1
            ∙ ap (λ i. o.count (o.take isr' i 0).1) (done.given ∙ ap (o.give isr) sem)
            ∙ give-take isr isr' (o.take false (s.queues q).items t).1 held.alive held.tokens
                (omega (arith, limit, held.same_limit)),
      )
