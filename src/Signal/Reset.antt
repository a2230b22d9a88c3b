-- ===== src/Signal/Reset.antt =====
-- `os_signal_reset`.
use hazel_osal.Prelude.{
  ℕ, zero, suc, ◌<◌, ◌≡◌, refl, ◌∙◌, inl, inr, Bool, true, false, some, arith, Option-cases,
}
use hazel_osal.Errno.{Result, ok}
use hazel_osal.Sem.{SemOps, IsSemaphore, Holds}
use hazel_osal.Signal.{Signal, drain, reset, wait_read}
use hazel_osal.Signal.Concurrent.{Inv, idle}

module _ {Sem : Type 0} {o : SemOps Sem} {bound : ℕ} (law : IsSemaphore o bound) where
  -- Fuel above the count is enough for the loop, which leaves no token.
  drain-ends :
      (fuel : ℕ) (isr : Bool) (s : Sem) (n : ℕ)
      → o.live s ≡ true
      → o.count s ≡ n
      → n < fuel
      → 0 < bound
      → (t : Sem) × (drain o fuel isr s ≡ some t) × Holds o s t 0
  unfolding drain
  drain-ends zero isr s n v e h b = elim h [ ]
  drain-ends (suc fuel) isr s zero v e h b =
      let (failed, kept) = law.take_none isr s 0 v (ground arith) b e in
      ((o.take isr s 0).1, rw failed refl, kept)
  drain-ends (suc fuel) isr s (suc n) v e h b =
      let (done, left) = law.take_some isr s 0 n v (ground arith) e in
      let (t, ends, holds) =
        drain-ends fuel isr (o.take isr s 0).1 n left.alive left.tokens (omega arith) b in
      (
        t,
        rw done ends,
        record {
          alive = holds.alive;
          same_limit = holds.same_limit ∙ left.same_limit;
          tokens = holds.tokens;
        },
      )

  -- os_signal_reset on an initialized signal of which no wait holds the token ends within two
  -- rounds of its loop, reports success, and leaves a signal that is not raised, has the result 0
  -- and satisfies the invariant.
  pub reset-idle :
      (isr : Bool) (s : Signal Sem)
      → Inv o (idle s)
      → s.initialized ≡ true
      → 0 < bound
      → (t : Signal Sem) × (reset o 2 isr s ≡ some (ok 0, t))
        × (t.raised ≡ false)
        × (t.result ≡ 0)
        × Inv o (idle t)
  unfolding reset
  reset-idle isr s v up b =
      let few : o.count s.notification < 2 = ground arith in
      let (n, ends, holds) =
        drain-ends 2 isr s.notification (o.count s.notification) v.live refl few b in
      (
        record s { notification = n; raised = false; result = 0 },
        ground (arith, ends),
        refl,
        refl,
        ground arith,
      )

  -- After a reset of an initialized signal, the critical section of a wait that already holds the
  -- token reads the result 0, whatever was raised.
  pub wait_read-reset :
      (fuel : ℕ) (isr : Bool) (s : Signal Sem) {r : Result} {t : Signal Sem}
      → s.initialized ≡ true
      → reset o fuel isr s ≡ some (r, t)
      → (wait_read t).0 ≡ 0
  unfolding reset wait_read
  wait_read-reset fuel isr s up e = elim (Option-cases (drain o fuel isr s.notification)) [
    | inl n ↦ ground arith
    | inr (m, n) ↦ ground arith
  ]
