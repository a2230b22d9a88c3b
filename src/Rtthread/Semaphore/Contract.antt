-- ===== src/Rtthread/Semaphore/Contract.antt =====
-- The RT-Thread semaphores keep the OSAL contract, up to timeouts of 2 ^ 31 - 1 ticks.
use hazel_osal.Prelude.{
  ℕ, suc, ◌+◌, ◌≤◌, ◌<◌, ◌≡◌, refl, Bool, true, false, some, inl, inr, ltb, ◌==◌, if◌then◌else◌,
  arith, Option-cases,
}
use hazel_osal.Errno.{ok, err, ebusy, etimedout}
use hazel_osal.Sem.{IsSemaphore, Holds, may_take}
use hazel_osal.Rtthread.Semaphore.{
  RtSem, Sem, ops, init, deinit, take, give, count_get, live, count, max_of,
}

-- What RT-Thread documents of these calls. A take with a positive timeout ends at a token, or
-- when its time is over; one with a negative timeout does not end without a token.
pub record IsRtSem {Storage : Type 0} (k : RtSem Storage) : Type 0 where
  pub created :
      (limit initial : ℕ) (q r : Storage)
      → k.sem_init initial ≡ some q
      → k.set_vlimit q limit ≡ some r
      → (k.value r ≡ initial) × (k.vlimit r ≡ limit)
  pub take_token :
      (q : Storage) (t n : ℕ)
      → k.value q ≡ suc n
      → ((k.sem_take q t).0 ≡ true)
        × (k.value (k.sem_take q t).1 ≡ n)
        × (k.vlimit (k.sem_take q t).1 ≡ k.vlimit q)
  pub take_timeout :
      (q : Storage) (t : ℕ)
      → 0 < t
      → t < 0x8000_0000
      → k.value q ≡ 0
      → ((k.sem_take q t).0 ≡ false)
        × (k.value (k.sem_take q t).1 ≡ 0)
        × (k.vlimit (k.sem_take q t).1 ≡ k.vlimit q)
  pub trytake_token :
      (q : Storage) (n : ℕ)
      → k.value q ≡ suc n
      → ((k.sem_trytake q).0 ≡ true)
        × (k.value (k.sem_trytake q).1 ≡ n)
        × (k.vlimit (k.sem_trytake q).1 ≡ k.vlimit q)
  pub trytake_none :
      (q : Storage)
      → k.value q ≡ 0
      → ((k.sem_trytake q).0 ≡ false)
        × (k.value (k.sem_trytake q).1 ≡ 0)
        × (k.vlimit (k.sem_trytake q).1 ≡ k.vlimit q)
  pub released :
      (q : Storage)
      → (k.value (k.sem_release q).1
          ≡ (if ltb (k.value q) (k.vlimit q) then k.value q + 1 else k.value q))
        × (k.vlimit (k.sem_release q).1 ≡ k.vlimit q)

module _ {Storage : Type 0} {k : RtSem Storage} (law : IsRtSem k) where
  init-ok :
      (s : Sem Storage) (i l : ℕ)
      → (init k s i l).0 ≡ ok 0
      → (live k (init k s i l).1 ≡ true)
        × (count k (init k s i l).1 ≡ i)
        × (max_of k (init k s i l).1 ≡ l)
        × (i ≤ l)
        × (0 < l)
  unfolding init live count max_of
  init-ok s i l e = elim (Option-cases (k.sem_init i)) [
    | inl n ↦ ground arith
    | inr (q, c) ↦ elim (Option-cases (k.set_vlimit q l)) [
      | inl n ↦ ground arith
      | inr (r, d) ↦ ground (arith, law.created l i q r c d)
    ]
  ]

  take-some :
      (isr : Bool) (s : Sem Storage) (t n : ℕ)
      → live k s ≡ true
      → may_take isr t ≡ true
      → count k s ≡ suc n
      → ((take k isr s t).0 ≡ ok 0) × Holds (ops k) s (take k isr s t).1 n
  unfolding take live count max_of
  take-some isr s t n v m c = elim (Option-cases s.handle) [
    | inl e ↦ ground arith
    | inr (q, e) ↦ ground (arith, law.take_token q t n, law.trytake_token q n)
  ]

  take-none :
      (isr : Bool) (s : Sem Storage) (t : ℕ)
      → live k s ≡ true
      → may_take isr t ≡ true
      → t < 0x8000_0000
      → count k s ≡ 0
      → ((take k isr s t).0 ≡ err (if t == 0 then ebusy else etimedout))
        × Holds (ops k) s (take k isr s t).1 0
  unfolding take live count max_of
  take-none isr s t v m f c = elim (Option-cases s.handle) [
    | inl e ↦ ground arith
    | inr (q, e) ↦ ground (arith, law.take_timeout q t, law.trytake_none q)
  ]

  give-live :
      (isr : Bool) (s : Sem Storage)
      → live k s ≡ true
      → Holds
          (ops k)
          s
          (give k isr s)
          (if ltb (count k s) (max_of k s) then count k s + 1 else count k s)
  unfolding give live count max_of
  give-live isr s v = elim (Option-cases s.handle) [
    | inl e ↦ ground arith
    | inr (q, e) ↦ ground (arith, law.released q)
  ]

  -- Over semaphores that behave as RT-Thread documents, the operations of the RT-Thread backend
  -- keep the contract of Sem.antt for all timeouts below 2^31.
  pub ops-IsSemaphore_rtthread : IsSemaphore (ops k) 0x8000_0000
  unfolding init deinit take give count_get live count max_of
  ops-IsSemaphore_rtthread = record {
    zero_dead = refl;
    init_ok = init-ok;
    take_dead = λ isr s t v. ground arith;
    take_in_isr = λ s t v n. ground arith;
    take_some = take-some;
    take_none = take-none;
    give_dead = λ isr s v. ground arith;
    give_live = give-live;
    count_get_live = λ isr s v. ground arith;
    deinit_dead = λ isr s v. ground arith;
    deinit_in_isr = λ s v. ground arith;
    deinit_ok = λ s e. ground arith;
  }
