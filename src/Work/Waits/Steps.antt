-- ===== src/Work/Waits/Steps.antt =====
-- The steps of the callers of work_queue.c and of the others.
use hazel_osal.Prelude.{
  ℕ, suc, ◌+◌, ◌≡◌, Bool, true, false, ◌&&◌, ◌||◌, Option, some, ◌⊎◌, ◌==◌, if◌then◌else◌,
}
use hazel_osal.Prelude.Ids.{update}
use hazel_osal.Sem.{SemOps}
use hazel_osal.Work.{Sys, notify}
use hazel_osal.Work.Concurrent as Concurrent
use hazel_osal.Work.Concurrent.{
  submits, cancels, undelays, delays, begins, finishes, promotes, stops, stop_undelays, drains,
  drained, unplugs, inits, resets, signals_items, signals_sync,
}
use hazel_osal.Work.Waits.{
  Phase, on, is_returned, flush_enters, cancel_enter, delay_enter, flush_delayable_enter, advance,
  take_sync, awaits, resume,
}

module _ {Sem : Type 0} where
  -- The notifications that a critical section leaves to its caller.
  unfoldable pub owes : {s s' : Sys Sem} → Concurrent.Step s s' → ℕ → ℕ
  owes (submits self q w n) v = 0
  owes (cancels w n) v = if v == w then 1 else 0
  owes (undelays w) v = 0
  owes (delays q w deadline) v = 0
  owes (begins q idle) v = 0
  owes (finishes q w e) v = if v == w then 1 else 0
  owes {s} (promotes q w there) v =
      if (v == w) && ((s.queues q).plugged || (s.queues q).stopping) then 1 else 0
  owes (stops self q) v = 0
  owes (stop_undelays q w rest e) v = if v == w then 1 else 0
  owes (drains isr plug q) v = 0
  owes (drained q) v = 0
  owes (unplugs q) v = 0
  owes (inits w work old new) v = 0
  owes (resets q queue old new c) v = 0
  owes (signals_items q items) v = 0
  owes (signals_sync w sync) v = 0

-- The items and queues, the notifications of each item that are still to be made, and the callers.
pub record Waits (Sem : Type 0) : Type 0 where
  pub sys : Sys Sem
  pub owed : ℕ → ℕ
  pub callers : ℕ → Phase

module _ {Sem : Type 0} where
  -- A section of another thread leaves `sync` alone, initializes no item and delays delayable items
  -- only: `delayable` tells the items that are part of a `struct os_work_delayable`.
  unfoldable pub Fits : (delayable : ℕ → Bool) {s s' : Sys Sem} → Concurrent.Step s s' → Type 0
  Fits delayable (delays q w deadline) = delayable w ≡ true
  Fits delayable (inits w work old new) = ⊥
  Fits delayable (signals_sync w sync) = ⊥
  Fits delayable st = Unit {0}

  -- No call is one on the item.
  abbrev pub Alone : Waits Sem → ℕ → Type 0
  Alone s w = (c : ℕ) → on (s.callers c) w ≡ false

module _ {Sem : Type 0} (o : SemOps Sem) (delayable : ℕ → Bool) where
  pub data Step (s : Waits Sem) : Waits Sem → Type 0 where
    sections :
        (sys : Sys Sem) (st : Concurrent.Step s.sys sys)
        → Fits delayable st
        → Step s (record s { sys = sys; owed = λ w. s.owed w + owes st w })
    notifies :
        (isr : Bool) (w n : ℕ)
        → s.owed w ≡ suc n
        → Step s (record s { sys = notify o isr s.sys w; owed = update s.owed w n })
    -- `os_work_cancel_sync`, `os_work_cancel_delayable_sync`, `os_work_flush` and
    -- `os_work_flush_delayable`
    enters :
        (c w : ℕ) (p : Phase)
        → is_returned (s.callers c) ≡ true
        → Alone s w
        → (p ≡ cancel_enter s.sys w)
          ⊎ (p ≡ delay_enter s.sys w)
          ⊎ (p ≡ flush_enters w false)
          ⊎ (p ≡ flush_delayable_enter s.sys w)
        → Step s (record s { callers = update s.callers c p })
    advances :
        (c : ℕ) (self : Option ℕ)
        → Step s (record s {
          sys = (advance o self s.sys (s.callers c)).1;
          callers = update s.callers c (advance o self s.sys (s.callers c)).0;
        })
    wakes :
        (c w n : ℕ)
        → awaits (s.callers c) ≡ some w
        → o.count (s.sys.works w).sync ≡ suc n
        → Step s (record s {
          sys = take_sync o s.sys w;
          callers = update s.callers c (resume (s.callers c));
        })

  -- steps, the last one first
  pub data Reach (s : Waits Sem) : Waits Sem → Type 0 where
    here : Reach s s
    next : {s' s'' : Waits Sem} → Reach s s' → Step s' s'' → Reach s s''
