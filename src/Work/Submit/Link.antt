-- ===== src/Work/Submit/Link.antt =====
-- When `os_work_submit_to_queue` takes an item, and what it does then.
-- When the critical section of `os_work_submit_to_queue` takes an item.
use hazel_osal.Prelude.{
  ℕ, ◌+◌, ◌%◌, ◌^◌, ◌≡◌, refl, inl, inr, Bool, true, false, ◌||◌, ◌&&◌, not, Option, some, [], ◌∷◌,
  ◌++◌, leb, ◌==◌, if◌then◌else◌, arith, Bool-cases,
}
use hazel_osal.Errno.{ok}
use hazel_osal.Sem.{SemOps}
use hazel_osal.Work.{Sys, is_at, give_items, work_magic}
use hazel_osal.Work.Submit.{
  is_closed, is_submitted, linked, submit_link, submit_to, submit_to_queue,
}

module _ {Sem : Type 0} where
  -- why an item cannot be taken
  unfoldable pub refuses : Option ℕ → Sys Sem → ℕ → ℕ → Bool
  unfolding is_closed
  refuses self s q w =
      is_closed self q (s.queues q)
      || ((s.works w).flags.canceling
          || ((s.works w).flags.queued
              || (((s.works w).flags.running && not (is_at (s.works w).queue q))
                  || leb 0xffff (s.queues q).count)))

  pub submit_link-refuses :
      (self : Option ℕ) (s : Sys Sem) (q w : ℕ)
      → refuses self s q w ≡ true
      → (submit_link self s q w).1 ≡ s
  unfolding submit_link refuses
  submit_link-refuses self s q w h = ground arith

  pub submit_link-takes :
      (self : Option ℕ) (s : Sys Sem) (q w : ℕ)
      → refuses self s q w ≡ false
      → submit_link self s q w ≡ (ok (if (s.works w).flags.running then 2 else 1), linked s q w)
  unfolding submit_link refuses
  submit_link-takes self s q w h = ground arith

  submit_link-unsubmitted :
      (self : Option ℕ) (s : Sys Sem) (q w : ℕ)
      → refuses self s q w ≡ true
      → is_submitted (submit_link self s q w).0 ≡ false
  unfolding submit_link refuses
  submit_link-unsubmitted self s q w h = ground arith

module _ {Sem : Type 0} (o : SemOps Sem) where
  -- what a call that took the item has done
  pub record Taken (isr : Bool) (s : Sys Sem) (q w : ℕ) (s' : Sys Sem) : Type 0 where
    pub appended : (s'.queues q).list ≡ (s.queues q).list ++ (w ∷ [])
    pub given : (s'.queues q).items ≡ o.give isr (s.queues q).items
    pub marked : (s'.works w).flags.queued ≡ true
    pub placed : is_at (s'.works w).queue q ≡ true
    pub numbered : (s'.works w).submission_id ≡ ((s.works w).submission_id + 1) % 2 ^ 32

  linked-Taken :
      (isr : Bool) (s : Sys Sem) (q w : ℕ) → Taken isr s q w (give_items o isr (linked s q w) q)
  unfolding give_items linked
  linked-Taken isr s q w = record {
    appended = ground arith;
    given = ground arith;
    marked = ground arith;
    placed = ground arith;
    numbered = ground arith;
  }

  submit_to-Taken :
      (isr : Bool) (self : Option ℕ) (s : Sys Sem) (q w : ℕ)
      → let (r, s') = submit_to o isr self s w (some q) in
        (is_submitted r ≡ false → s' ≡ s) × (is_submitted r ≡ true → Taken isr s q w s')
  unfolding submit_to
  submit_to-Taken isr self s q w = elim (Bool-cases (s.queues q).started) [
    | inr down ↦ rw down ((λ h. refl), (λ h. absurd (ground arith)))
    | inl up ↦ elim (Bool-cases (refuses self s q w)) [
      | inl refused ↦
          rw (up, submit_link-unsubmitted self s q w refused)
            (
              (λ h. submit_link-refuses self s q w refused),
              (λ h. absurd (ground (arith, submit_link-unsubmitted self s q w refused))),
            )
      | inr free ↦ elim (Bool-cases (s.works w).flags.running) [
        | inl running ↦
            rw (up, submit_link-takes self s q w free, running)
              ((λ h. absurd (ground (arith, h))), (λ h. linked-Taken isr s q w))
        | inr idle ↦
            rw (up, submit_link-takes self s q w free, idle)
              ((λ h. absurd (ground (arith, h))), (λ h. linked-Taken isr s q w))
      ]
    ]
  ]

  -- os_work_submit_to_queue with a queue changes nothing unless it returns 1 or 2. When it does,
  -- the item stands last on the list of the queue, is marked as queued, belongs to the queue, and
  -- has the next submission number; and the queue's semaphore has been given.
  pub submit_to_queue-Taken :
      (isr : Bool) (self : Option ℕ) (s : Sys Sem) (q w : ℕ)
      → let (r, s') = submit_to_queue o isr self s (some q) w in
        (is_submitted r ≡ false → s' ≡ s) × (is_submitted r ≡ true → Taken isr s q w s')
  unfolding submit_to_queue
  submit_to_queue-Taken isr self s q w =
      elim (Bool-cases (
        not ((s.works w).magic == work_magic)
        || (not (s.works w).handler || not (s.works w).sync_initialized))) [
          | inl bad ↦ rw bad ((λ h. refl), (λ h. absurd (ground (arith, h))))
          | inr good ↦ rw good (submit_to-Taken isr self s q w)
        ]
