-- ===== src/Freertos/Semaphore/Contract.antt =====
-- The FreeRTOS semaphores keep the OSAL contract.
use hazel_osal.Prelude.{
  ℕ, suc, ◌+◌, ◌≤◌, ◌<◌, ◌≡◌, refl, Bool, true, false, some, inl, inr, ltb, ◌==◌, if◌then◌else◌,
  arith, Option-cases,
}
use hazel_osal.Errno.{ok, err, ebusy, etimedout, wait_forever}
use hazel_osal.Sem.{IsSemaphore, Holds, may_take}
use hazel_osal.Freertos.Semaphore.{
  Semphr, Sem, ops, init, deinit, take, give, count_get, live, count, max_of,
}

-- What FreeRTOS documents of these calls. A take that may wait ends at a token, or when its time
-- is over; one with `portMAX_DELAY` does not end without a token.
pub record IsSemphr {Queue : Type 0} (k : Semphr Queue) : Type 0 where
  pub created :
      (limit initial : ℕ) (q : Queue)
      → k.create_counting limit initial ≡ some q
      → (k.get_count q ≡ initial) × (k.max_count q ≡ limit)
  pub take_token :
      (q : Queue) (t n : ℕ)
      → k.get_count q ≡ suc n
      → ((k.take q t).0 ≡ true)
        × (k.get_count (k.take q t).1 ≡ n)
        × (k.max_count (k.take q t).1 ≡ k.max_count q)
  pub take_timeout :
      (q : Queue) (t : ℕ)
      → t < 0xffff_ffff
      → k.get_count q ≡ 0
      → ((k.take q t).0 ≡ false)
        × (k.get_count (k.take q t).1 ≡ 0)
        × (k.max_count (k.take q t).1 ≡ k.max_count q)
  pub take_token_isr :
      (q : Queue) (n : ℕ)
      → k.get_count q ≡ suc n
      → ((k.take_from_isr q).0 ≡ true)
        × (k.get_count (k.take_from_isr q).1 ≡ n)
        × (k.max_count (k.take_from_isr q).1 ≡ k.max_count q)
  pub take_none_isr :
      (q : Queue)
      → k.get_count q ≡ 0
      → ((k.take_from_isr q).0 ≡ false)
        × (k.get_count (k.take_from_isr q).1 ≡ 0)
        × (k.max_count (k.take_from_isr q).1 ≡ k.max_count q)
  pub given :
      (q : Queue)
      → (k.get_count (k.give q).1
          ≡ (if ltb (k.get_count q) (k.max_count q) then k.get_count q + 1 else k.get_count q))
        × (k.max_count (k.give q).1 ≡ k.max_count q)
  pub given_isr :
      (q : Queue)
      → (k.get_count (k.give_from_isr q).1
          ≡ (if ltb (k.get_count q) (k.max_count q) then k.get_count q + 1 else k.get_count q))
        × (k.max_count (k.give_from_isr q).1 ≡ k.max_count q)
  pub count_isr : (q : Queue) → k.get_count_from_isr q ≡ k.get_count q

module _ {Queue : Type 0} {k : Semphr Queue} (law : IsSemphr k) where
  init-ok :
      (s : Sem Queue) (i l : ℕ)
      → (init k s i l).0 ≡ ok 0
      → (live k (init k s i l).1 ≡ true)
        × (count k (init k s i l).1 ≡ i)
        × (max_of k (init k s i l).1 ≡ l)
        × (i ≤ l)
        × (0 < l)
  unfolding init live count max_of
  init-ok s i l e = elim (Option-cases (k.create_counting l i)) [
    | inl n ↦ ground arith
    | inr (q, c) ↦ ground (arith, law.created l i q c)
  ]

  take-some :
      (isr : Bool) (s : Sem Queue) (t n : ℕ)
      → live k s ≡ true
      → may_take isr t ≡ true
      → count k s ≡ suc n
      → ((take k isr s t).0 ≡ ok 0) × Holds (ops k) s (take k isr s t).1 n
  unfolding take live count max_of
  take-some isr s t n v m c = elim (Option-cases s.handle) [
    | inl e ↦ ground arith
    | inr (q, e) ↦ ground (
      arith,
      law.take_token q (if t == wait_forever then k.max_delay else t) n,
      law.take_token_isr q n,
    )
  ]

  take-none :
      (isr : Bool) (s : Sem Queue) (t : ℕ)
      → live k s ≡ true
      → may_take isr t ≡ true
      → t < 0xffff_ffff
      → count k s ≡ 0
      → ((take k isr s t).0 ≡ err (if t == 0 then ebusy else etimedout))
        × Holds (ops k) s (take k isr s t).1 0
  unfolding take live count max_of
  take-none isr s t v m f c = elim (Option-cases s.handle) [
    | inl e ↦ ground arith
    | inr (q, e) ↦ ground (arith, law.take_timeout q t, law.take_none_isr q)
  ]

  give-live :
      (isr : Bool) (s : Sem Queue)
      → live k s ≡ true
      → Holds
          (ops k)
          s
          (give k isr s)
          (if ltb (count k s) (max_of k s) then count k s + 1 else count k s)
  unfolding give live count max_of
  give-live isr s v = elim (Option-cases s.handle) [
    | inl e ↦ ground arith
    | inr (q, e) ↦ ground (arith, law.given q, law.given_isr q)
  ]

  -- Over counting semaphores that behave as FreeRTOS documents, the operations of the FreeRTOS
  -- backend keep the contract of Sem.antt for all timeouts below OS_WAIT_FOREVER.
  pub ops-IsSemaphore_freertos : IsSemaphore (ops k) wait_forever
  unfolding init deinit take give count_get live count max_of
  ops-IsSemaphore_freertos = record {
    zero_dead = refl;
    init_ok = init-ok;
    take_dead = λ isr s t v. ground arith;
    take_in_isr = λ s t v n. ground arith;
    take_some = take-some;
    take_none = take-none;
    give_dead = λ isr s v. ground arith;
    give_live = give-live;
    count_get_live = λ isr s v. elim (Option-cases s.handle) [
      | inl e ↦ ground arith
      | inr (q, e) ↦ ground (arith, law.count_isr q)
    ];
    deinit_dead = λ isr s v. ground arith;
    deinit_in_isr = λ s v. ground arith;
    deinit_ok = λ s e. ground arith;
  }
