-- ===== src/Work/Waits/Woken.antt =====
-- A call that is alone on its item is woken.
use hazel_osal.Prelude.{ℕ, ◌<◌, ◌≡◌, Bool, true, false, Option, none, some, arith, ◌⊎◌}
use hazel_osal.Prelude.Ids.{update}
use hazel_osal.Sem.{SemOps, IsSemaphore}
use hazel_osal.Work.{Sys, busy_get}
use hazel_osal.Work.Cancel.{cancel_sync_waits, flush_ends}
use hazel_osal.Work.Waits.{
  Phase, returned, cancel_waits, flush_waits, flush_enters, delay_enter, flush_delayable_enter, on,
  awaits, resume, advance, take_sync, cancel_enter,
}
use hazel_osal.Work.Waits.Steps.{
  Waits, Step, sections, notifies, enters, advances, wakes, Reach, here, next,
}
use hazel_osal.Work.Waits.Wake.{over, is_cancel, vouched, Inv}
use hazel_osal.Work.Waits.Kept.{sections-Inv, notifies-Inv, advances-Inv, wakes-Inv}

-- what a call returns once its loop ends
abbrev pub answer : Phase → Bool
answer (cancel_waits w b) = b
answer (flush_waits w target b) = b
answer p = false

module _ {Sem : Type 0} {o : SemOps Sem} (delayable : ℕ → Bool) {bound : ℕ}
    (law : IsSemaphore o bound) where
  -- A call begins at a part of its own item, at which it does not wait.
  enter-calls :
      (s : Sys Sem) (w x : ℕ) (p : Phase)
      → (p ≡ cancel_enter s w)
        ⊎ (p ≡ delay_enter s w)
        ⊎ (p ≡ flush_enters w false)
        ⊎ (p ≡ flush_delayable_enter s w)
      → (on p x ≡ true → x ≡ w) × (awaits p ≡ none) × (vouched p ≡ false)
  unfolding on awaits vouched cancel_enter delay_enter flush_delayable_enter
  enter-calls s w x p h = ground arith

  enters-Inv :
      {s : Waits Sem} (c w : ℕ) (p : Phase)
      → ((d : ℕ) → on (s.callers d) w ≡ false)
      → ((x : ℕ) → (on p x ≡ true → x ≡ w) × (awaits p ≡ none) × (vouched p ≡ false))
      → Inv o delayable s
      → Inv o delayable (record s { callers = update s.callers c p })
  enters-Inv {s} c w p alone at v = record {
    single = λ d d' x h h'. ground (arith, v.single d d' x, alone d, alone d', at x);
    ready = λ d x h k. ground (arith, v.ready d x, at x);
    live = v.live;
    immediate = v.immediate;
    woken = λ d x a k new. ground (arith, v.woken d x, at x, k);
  }

  Step-Inv : {s s' : Waits Sem} → Inv o delayable s → Step o delayable s s' → Inv o delayable s'
  Step-Inv v (sections sys st f) = sections-Inv delayable law sys st f v
  Step-Inv v (notifies isr w n e) = notifies-Inv delayable law isr w n e v
  Step-Inv {s} v (enters c w p r alone h) =
      enters-Inv c w p alone (λ x. enter-calls s.sys w x p h) v
  Step-Inv v (advances c self) = advances-Inv delayable law c self v
  Step-Inv v (wakes c w n a e) = wakes-Inv delayable law c w n a e v

  Reach-Inv : {s s' : Waits Sem} → Inv o delayable s → Reach o delayable s s' → Inv o delayable s'
  Reach-Inv v here = v
  Reach-Inv v (next r step) = Step-Inv (Reach-Inv v r) step

  resume-returns :
      (self : Option ℕ) (s : Sys Sem) (p : Phase) (w : ℕ)
      → awaits p ≡ some w
      → over s p ≡ true
      → (advance o self (take_sync o s w) (resume p)).0 ≡ returned (answer p)
  unfolding over awaits resume advance take_sync cancel_sync_waits flush_ends busy_get
  resume-returns self s (cancel_waits v b) w a done = ground arith
  resume-returns self s (flush_waits v target b) w a done = ground arith
  resume-returns self s p w a done = cc

  -- Let every call of os_work_cancel_sync, os_work_cancel_delayable_sync, os_work_flush and
  -- os_work_flush_delayable be alone on its item while it lasts. Then in every order of their
  -- steps, of the critical sections of others and of the notifications that these owe: if a call
  -- waits for the semaphore of its item, the item is not a delayable one that the call cancels,
  -- and what the call waits for has come, then a notification of the item is still to be made, or
  -- the semaphore has a token, and the call returns once it has taken it.
  pub Reach-woken :
      {s s' : Waits Sem} (c w : ℕ) (self : Option ℕ)
      → Inv o delayable s
      → Reach o delayable s s'
      → awaits (s'.callers c) ≡ some w
      → (is_cancel (s'.callers c) ≡ true → delayable w ≡ false)
      → over s'.sys (s'.callers c) ≡ true
      → (0 < s'.owed w)
        ⊎ ((0 < o.count (s'.sys.works w).sync)
            × ((advance o self (take_sync o s'.sys w) (resume (s'.callers c))).0
                ≡ returned (answer (s'.callers c))))
  Reach-woken {s' = s'} c w self v r a k done =
      let woken = (Reach-Inv v r).woken c w a k done in
      let back = resume-returns self s'.sys (s'.callers c) w a done in ground arith
