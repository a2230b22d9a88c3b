-- ===== src/Zephyr/Semaphore/Contract.antt =====
-- The Zephyr semaphores keep the OSAL contract.
use hazel_osal.Prelude.{
  ℕ, suc, ◌+◌, ◌≤◌, ◌<◌, ◌≡◌, refl, Bool, true, false, some, inl, inr, ltb, ◌==◌, if◌then◌else◌,
  arith, Option-cases,
}
use hazel_osal.Errno.{ok, err, ebusy, etimedout, wait_forever}
use hazel_osal.Sem.{IsSemaphore, Holds, may_take}
use hazel_osal.Zephyr.Semaphore.{
  Timeout, KSem, Sem, to_timeout, ops, init, deinit, take, give, count_get, live, max_of,
}

-- What Zephyr documents of these calls.
pub record IsKSem {Storage : Type 0} (k : KSem Storage) : Type 0 where
  pub created :
      (limit initial : ℕ) (q : Storage)
      → k.sem_init initial limit ≡ some q
      → (k.sem_count_get q ≡ initial) × (k.limit q ≡ limit)
  pub take_token :
      (q : Storage) (t : Timeout) (n : ℕ)
      → k.sem_count_get q ≡ suc n
      → ((k.sem_take q t).0 ≡ true)
        × (k.sem_count_get (k.sem_take q t).1 ≡ n)
        × (k.limit (k.sem_take q t).1 ≡ k.limit q)
  pub take_timeout :
      (q : Storage) (t : Timeout)
      → ¬ (t ≡ Timeout.forever)
      → k.sem_count_get q ≡ 0
      → ((k.sem_take q t).0 ≡ false)
        × (k.sem_count_get (k.sem_take q t).1 ≡ 0)
        × (k.limit (k.sem_take q t).1 ≡ k.limit q)
  pub given :
      (q : Storage)
      → (k.sem_count_get (k.sem_give q) ≡ (
          if ltb (k.sem_count_get q) (k.limit q) then k.sem_count_get q + 1 else k.sem_count_get q))
        × (k.limit (k.sem_give q) ≡ k.limit q)

to_timeout-ne-forever : (t : ℕ) → t < wait_forever → ¬ (to_timeout t ≡ Timeout.forever)
to_timeout-ne-forever t h e = ground arith

module _ {Storage : Type 0} {k : KSem Storage} (law : IsKSem k) where
  init-ok :
      (s : Sem Storage) (i l : ℕ)
      → (init k s i l).0 ≡ ok 0
      → (live k (init k s i l).1 ≡ true)
        × (count_get k false (init k s i l).1 ≡ i)
        × (max_of k (init k s i l).1 ≡ l)
        × (i ≤ l)
        × (0 < l)
  unfolding init live count_get max_of
  init-ok s i l e = elim (Option-cases (k.sem_init i l)) [
    | inl n ↦ ground arith
    | inr (q, c) ↦ ground (arith, law.created l i q c)
  ]

  take-some :
      (isr : Bool) (s : Sem Storage) (t n : ℕ)
      → live k s ≡ true
      → may_take isr t ≡ true
      → count_get k false s ≡ suc n
      → ((take k isr s t).0 ≡ ok 0) × Holds (ops k) s (take k isr s t).1 n
  unfolding take live count_get max_of
  take-some isr s t n v m c = elim (Option-cases s.handle) [
    | inl e ↦ ground arith
    | inr (q, e) ↦ ground (arith, law.take_token q (to_timeout t) n)
  ]

  take-none :
      (isr : Bool) (s : Sem Storage) (t : ℕ)
      → live k s ≡ true
      → may_take isr t ≡ true
      → t < wait_forever
      → count_get k false s ≡ 0
      → ((take k isr s t).0 ≡ err (if t == 0 then ebusy else etimedout))
        × Holds (ops k) s (take k isr s t).1 0
  unfolding take live count_get max_of
  take-none isr s t v m f c = elim (Option-cases s.handle) [
    | inl e ↦ ground arith
    | inr (q, e) ↦ ground (arith, law.take_timeout q (to_timeout t) (to_timeout-ne-forever t f))
  ]

  give-live :
      (isr : Bool) (s : Sem Storage)
      → live k s ≡ true
      → Holds (ops k) s (give k isr s) (
          if ltb (count_get k false s) (max_of k s)
          then count_get k false s + 1
          else count_get k false s)
  unfolding give live count_get max_of
  give-live isr s v = elim (Option-cases s.handle) [
    | inl e ↦ ground arith
    | inr (q, e) ↦ ground (arith, law.given q)
  ]

  -- Over semaphores that behave as Zephyr documents, the operations of the Zephyr backend keep the
  -- contract of Sem.antt for all timeouts below OS_WAIT_FOREVER.
  pub ops-IsSemaphore_zephyr : IsSemaphore (ops k) wait_forever
  unfolding init deinit take give count_get live max_of
  ops-IsSemaphore_zephyr = record {
    zero_dead = refl;
    init_ok = init-ok;
    take_dead = λ isr s t v. ground arith;
    take_in_isr = λ s t v n. ground arith;
    take_some = take-some;
    take_none = take-none;
    give_dead = λ isr s v. ground arith;
    give_live = give-live;
    count_get_live = λ isr s v. refl;
    deinit_dead = λ isr s v. ground arith;
    deinit_in_isr = λ s v. ground arith;
    deinit_ok = λ s e. ground arith;
  }
