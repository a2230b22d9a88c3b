-- ===== src/Sem.antt =====
-- The contract of os_sem_* in include/hazel_wireless/kernel.h, which each backend implements
-- and the components of src/common use.
pub mod Outcomes
use hazel_osal.Prelude.{
  ℕ, suc, ◌+◌, ◌≤◌, ◌<◌, ◌≡◌, Bool, true, false, ◌&&◌, not, ltb, ◌==◌, if◌then◌else◌,
}
use hazel_osal.Errno.{Result, ok, err, ewouldblock, ebusy, etimedout, einval}

-- The operations of a backend whose `struct os_sem` is `Sem`. The first argument of most says
-- whether the caller is an interrupt handler. A call that blocks is one step, taken at the time
-- it ends: so a wait without a limit is no step of a semaphore that has no token. The last three fields are the view in which the contract is stated.
pub record SemOps (Sem : Type 0) : Type 0 where
  pub zero : Sem
  pub init : Sem → ℕ → ℕ → Result × Sem
  pub deinit : Bool → Sem → Result × Sem
  pub take : Bool → Sem → ℕ → Result × Sem
  pub give : Bool → Sem → Sem
  pub count_get : Bool → Sem → ℕ
  pub live : Sem → Bool
  pub count : Sem → ℕ
  pub limit : Sem → ℕ

-- `take` may wait in a thread, and only try in an interrupt handler.
abbrev pub may_take : Bool → ℕ → Bool
may_take isr timeout = not (isr && not (timeout == 0))

module _ {Sem : Type 0} (o : SemOps Sem) where
  -- `t` is `s` with `n` tokens.
  pub record Holds (s t : Sem) (n : ℕ) : Type 0 where
    pub alive : o.live t ≡ true
    pub same_limit : o.limit t ≡ o.limit s
    pub tokens : o.count t ≡ n

  -- A saturating counting semaphore, whose timeouts below `bound` end.
  pub record IsSemaphore (bound : ℕ) : Type 0 where
    pub zero_dead : o.live o.zero ≡ false
    pub init_ok :
        (s : Sem) (i l : ℕ)
        → (o.init s i l).0 ≡ ok 0
        → (o.live (o.init s i l).1 ≡ true)
          × (o.count (o.init s i l).1 ≡ i)
          × (o.limit (o.init s i l).1 ≡ l)
          × (i ≤ l)
          × (0 < l)
    pub take_dead :
        (isr : Bool) (s : Sem) (t : ℕ) → o.live s ≡ false → o.take isr s t ≡ (err einval, s)
    pub take_in_isr :
        (s : Sem) (t : ℕ)
        → o.live s ≡ true
        → (t == 0) ≡ false
        → o.take true s t ≡ (err ewouldblock, s)
    pub take_some :
        (isr : Bool) (s : Sem) (t n : ℕ)
        → o.live s ≡ true
        → may_take isr t ≡ true
        → o.count s ≡ suc n
        → ((o.take isr s t).0 ≡ ok 0) × Holds s (o.take isr s t).1 n
    pub take_none :
        (isr : Bool) (s : Sem) (t : ℕ)
        → o.live s ≡ true
        → may_take isr t ≡ true
        → t < bound
        → o.count s ≡ 0
        → ((o.take isr s t).0 ≡ err (if t == 0 then ebusy else etimedout))
          × Holds s (o.take isr s t).1 0
    pub give_dead : (isr : Bool) (s : Sem) → o.live s ≡ false → o.give isr s ≡ s
    pub give_live :
        (isr : Bool) (s : Sem)
        → o.live s ≡ true
        → Holds s (o.give isr s) (if ltb (o.count s) (o.limit s) then o.count s + 1 else o.count s)
    pub count_get_live : (isr : Bool) (s : Sem) → o.live s ≡ true → o.count_get isr s ≡ o.count s
    pub deinit_dead : (isr : Bool) (s : Sem) → o.live s ≡ false → o.deinit isr s ≡ (err einval, s)
    pub deinit_in_isr : (s : Sem) → o.live s ≡ true → o.deinit true s ≡ (err ewouldblock, s)
    pub deinit_ok : (s : Sem) → (o.deinit false s).0 ≡ ok 0 → o.live (o.deinit false s).1 ≡ false
