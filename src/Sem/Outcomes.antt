-- ===== src/Sem/Outcomes.antt =====
-- What a client of the semaphore contract may conclude from one call.
use hazel_osal.Prelude.{
  ℕ, zero, suc, ◌+◌, ◌<◌, ◌≡◌, refl, Bool, true, false, inl, inr, arith, Bool-cases,
}
use hazel_osal.Errno.{Result, ok, is_zero}
use hazel_osal.Sem.{SemOps, IsSemaphore, Holds, may_take}

module _ {Sem : Type 0} {o : SemOps Sem} {bound : ℕ} (law : IsSemaphore o bound) where
  -- Either a token was taken, or the call failed and the tokens are as before.
  pub data Outcome (s : Sem) (r : Result × Sem) : Type 0 where
    took : (n : ℕ) → r.0 ≡ ok 0 → o.count s ≡ suc n → Holds o s r.1 n → Outcome s r
    missed : is_zero r.0 ≡ false → Holds o s r.1 (o.count s) → Outcome s r

  Holds-self : (s : Sem) → o.live s ≡ true → Holds o s s (o.count s)
  Holds-self s v = record { alive = v; same_limit = refl; tokens = refl }

  take_refused :
      (isr : Bool) (s : Sem) (t : ℕ)
      → o.live s ≡ true
      → may_take isr t ≡ false
      → Outcome s (o.take isr s t)
  take_refused true s t v m =
      rw (law.take_in_isr s t v (ground arith)) (missed refl (Holds-self s v))
  take_refused false s t v m = cc

  take_tried :
      (n : ℕ) (isr : Bool) (s : Sem) (t : ℕ)
      → o.live s ≡ true
      → (o.count s ≡ 0 → t < bound)
      → may_take isr t ≡ true
      → o.count s ≡ n
      → Outcome s (o.take isr s t)
  take_tried zero isr s t v ends m e =
      let (failed, kept) = law.take_none isr s t v m (ends e) e in
      missed (rw failed refl) (rw e kept)
  take_tried (suc n) isr s t v ends m e =
      let (done, left) = law.take_some isr s t n v m e in took n done e left

  -- `take` has one of the two outcomes, if it ends.
  pub take-Outcome :
      (isr : Bool) (s : Sem) (t : ℕ)
      → o.live s ≡ true
      → (o.count s ≡ 0 → t < bound)
      → Outcome s (o.take isr s t)
  take-Outcome isr s t v ends = elim (Bool-cases (may_take isr t)) [
    | inl m ↦ take_tried (o.count s) isr s t v ends m refl
    | inr m ↦ take_refused isr s t v m
  ]

  -- Below the limit `give` adds a token.
  pub give-Holds :
      (isr : Bool) (s : Sem)
      → o.live s ≡ true
      → o.count s < o.limit s
      → Holds o s (o.give isr s) (o.count s + 1)
  give-Holds isr s v h = ground (arith, law.give_live isr s v)
