-- ===== src/Freertos/Waitq/Concurrent.antt =====
-- waitq.c used by any number of threads and interrupt handlers: any of them executes the next
-- critical section. A thread enters a queue while it waits on none.
use hazel_osal.Prelude.{
  ℕ, ◌≡◌, refl, ap, inl, inr, Bool, true, false, none, some, List, [], ◌∷◌, arith, Option-cases,
}
use hazel_osal.Prelude.Ids.{has, Distinct, update, remove, has-remove, Distinct-remove}
use hazel_osal.Errno.{err, etimedout}
use hazel_osal.Life.{ThreadState}
use hazel_osal.Freertos.Objects.{Sys, is_on, is_at}
use hazel_osal.Freertos.Waitq.{
  block_enter, unlink_from, block_leave, notify_thread, woken, wake_first, wake_one, wake_each,
  wake_all,
}
use hazel_osal.Freertos.Waitq.Order.{has-insert_priority, insert_priority-Distinct}

-- A thread stands on the list of a queue exactly when its `wait_q` is that queue, and once.
pub record Inv (s : Sys) : Type 0 where
  pub on_list : (q t : ℕ) → has t (s.waiters q) ≡ is_at (s.threads t).wait_q q
  pub distinct : (q : ℕ) → Distinct (s.waiters q)

pub data Step (s : Sys) : Sys → Type 0 where
  enters : (q t : ℕ) → is_on (s.threads t).wait_q ≡ false → Step s (block_enter s q t)
  leaves : (t : ℕ) (notified : Bool) (notify : ℕ) → Step s (block_leave s t notified notify).1
  wakes_one : (q reason : ℕ) → Step s (wake_one s q reason)
  wakes_all : (q reason : ℕ) → Step s (wake_all s q reason)

-- steps, the last one first
pub data Reach (s : Sys) : Sys → Type 0 where
  here : Reach s s
  next : {s' s'' : Sys} → Reach s s' → Step s' s'' → Reach s s''

enter-Inv :
    (s : Sys) (q t : ℕ) → is_on (s.threads t).wait_q ≡ false → Inv s → Inv (block_enter s q t)
unfolding block_enter
enter-Inv s q t free v = record {
  on_list = λ q' t'.
      ground
        (arith, v.on_list q' t', v.on_list q t', has-insert_priority s.threads (s.waiters q) t t');
  distinct = λ q'.
      ground
        (arith, v.distinct q', v.on_list q t, insert_priority-Distinct s.threads (s.waiters q) t);
}

-- what a wait that was not woken leaves
left : Sys → ℕ → ℕ → Sys
left s q t = record s {
  threads = update s.threads t (record (s.threads t) { wait_q = none; state = ThreadState.ready });
  waiters = update s.waiters q (remove t (s.waiters q));
}

left-Inv : (s : Sys) (q t : ℕ) → (s.threads t).wait_q ≡ some q → Inv s → Inv (left s q t)
unfolding left
left-Inv s q t e v = record {
  on_list = λ q' t'.
      ground (arith, v.on_list q' t', v.on_list q' t, has-remove t t' (s.waiters q) (v.distinct q));
  distinct = λ q'. ground (arith, v.distinct q', Distinct-remove t (s.waiters q) (v.distinct q));
}

block_leave-on :
    (s : Sys) (q t : ℕ) (notified : Bool) (notify : ℕ)
    → (s.threads t).wait_q ≡ some q
    → block_leave s t notified notify ≡ (err etimedout, left s q t)
unfolding block_leave unlink_from left
block_leave-on s q t notified notify e = rw e refl

leave-Inv :
    (s : Sys) (t : ℕ) (notified : Bool) (notify : ℕ)
    → Inv s
    → Inv (block_leave s t notified notify).1
unfolding block_leave
leave-Inv s t notified notify v = elim (Option-cases (s.threads t).wait_q) [
  | inl off ↦
      rw (off, block_leave)
        (record { on_list = λ q' t'. ground (arith, v.on_list q' t'); distinct = v.distinct })
  | inr (q, e) ↦ rw (ap (λ r. r.1) (block_leave-on s q t notified notify e)) (left-Inv s q t e v)
]

pub wake_first-Inv :
    (s : Sys) (q reason : ℕ) (l : List ℕ) → s.waiters q ≡ l → Inv s → Inv (wake_first s q reason l)
unfolding wake_first woken notify_thread
wake_first-Inv s q reason [] e v = v
wake_first-Inv s q reason (t ∷ rest) e v =
    let d : Distinct (t ∷ rest) = rw e at (v.distinct q) in
    record {
      on_list = λ q' t'.
          ground (arith, v.on_list q' t', v.on_list q' t, v.on_list q t, v.on_list q t', e, d);
      distinct = λ q'. ground (arith, v.distinct q', e, d);
    }

wake_each-Inv :
    (s : Sys) (q reason : ℕ) (l : List ℕ) → s.waiters q ≡ l → Inv s → Inv (wake_each s q reason l)
unfolding wake_each wake_first
wake_each-Inv s q reason [] e v = v
wake_each-Inv s q reason (t ∷ rest) e v =
    wake_each-Inv (wake_first s q reason (t ∷ rest)) q reason rest (ground arith)
      (wake_first-Inv s q reason (t ∷ rest) e v)

pub Step-Inv : {s s' : Sys} → Inv s → Step s s' → Inv s'
unfolding wake_one wake_all
Step-Inv {s = s} v (enters q t free) = enter-Inv s q t free v
Step-Inv {s = s} v (leaves t notified notify) = leave-Inv s t notified notify v
Step-Inv {s = s} v (wakes_one q reason) = wake_first-Inv s q reason (s.waiters q) refl v
Step-Inv {s = s} v (wakes_all q reason) = wake_each-Inv s q reason (s.waiters q) refl v

-- Every sequence of critical sections of the FreeRTOS wait queues, in which a thread enters a
-- queue only while it waits on none, keeps the invariant: a thread stands on the list of a queue
-- exactly when its wait_q is that queue, and once.
pub Reach-Inv_waitq : {s s' : Sys} → Inv s → Reach s s' → Inv s'
Reach-Inv_waitq v here = v
Reach-Inv_waitq v (next r step) = Step-Inv (Reach-Inv_waitq v r) step

-- If the first thread of a wait queue, which has a handle, is woken after its wait has timed out
-- and before the second critical section of os_waitq_block, the call returns -ETIMEDOUT although
-- the wake-up was spent on it, the notification stays pending, and the next wait of the thread on
-- any queue, which receives that notification, returns -ETIMEDOUT too.
pub woken-late :
    (s : Sys) (q t reason : ℕ) (rest : List ℕ)
    → Inv s
    → s.waiters q ≡ t ∷ rest
    → (s.threads t).handle ≡ true
    → let s' = wake_one s q reason in
      ((block_leave s' t false 0).0 ≡ err etimedout)
      × (((block_leave s' t false 0).1.threads t).notification ≡ some reason)
      × ((q' : ℕ)
          → (block_leave (block_enter (block_leave s' t false 0).1 q' t) t true reason).0
            ≡ err etimedout)
unfolding wake_one wake_first woken notify_thread block_leave block_enter
woken-late s q t reason rest v e up = rw e (ground arith, ground arith, λ q'. ground arith)

pub wake_all-empty : (s : Sys) (q reason : ℕ) → (wake_all s q reason).waiters q ≡ []
unfolding wake_all wake_each wake_first
wake_all-empty s q reason = go s (s.waiters q) refl
  where
    go : (s : Sys) (l : List ℕ) → s.waiters q ≡ l → (wake_each s q reason l).waiters q ≡ []
    go s [] e = e
    go s (t ∷ rest) e = go (wake_first s q reason (t ∷ rest)) rest (ground arith)
