-- ===== src/Rtthread/Waitq/Concurrent.antt =====
-- waitq.c used by any number of threads and interrupt handlers: any of them executes the next
-- critical section. A thread enters a queue while it waits on none.
use hazel_osal.Prelude.{
  ℕ, ◌≡◌, refl, inl, inr, Bool, true, false, ◌||◌, Option, none, some, List, [], ◌∷◌, ◌==◌, arith,
  Bool-cases, Option-cases,
}
use hazel_osal.Prelude.Ids.{has, Distinct, update, remove, has-remove, Distinct-remove}
use hazel_osal.Errno.{ok, err, eagain}
use hazel_osal.Life.{ThreadState}
use hazel_osal.Rtthread.Waitq.{
  Thread, Sys, is_on, insert_locked, block_enter, unlink_from, block_wait, block_leave, woken,
  wake_first, wake_one, wake_each, wake_all,
}

-- `wait_q` is the address
abbrev pub is_at : Option ℕ → ℕ → Bool
is_at none a = false
is_at (some b) a = b == a

-- A thread stands on the list of a queue exactly when its `wait_q` is that queue, and once.
pub record Inv (s : Sys) : Type 0 where
  pub on_list : (q t : ℕ) → has t (s.waiters q) ≡ is_at (s.threads t).wait_q q
  pub distinct : (q : ℕ) → Distinct (s.waiters q)

pub data Step (s : Sys) : Sys → Type 0 where
  enters : (q t : ℕ) → is_on (s.threads t).wait_q ≡ false → Step s (block_enter s q t)
  waits : (t : ℕ) → Step s (block_wait s t).1
  leaves : (t : ℕ) (timed_out : Bool) → Step s (block_leave s t timed_out).1
  wakes_one : (q reason : ℕ) → Step s (wake_one s q reason)
  wakes_all : (q reason : ℕ) → Step s (wake_all s q reason)

-- steps, the last one first
pub data Reach (s : Sys) : Sys → Type 0 where
  here : Reach s s
  next : {s' s'' : Sys} → Reach s s' → Step s' s'' → Reach s s''

has-insert_locked :
    (threads : ℕ → Thread) (l : List ℕ) (t a : ℕ)
    → has a (insert_locked threads l t) ≡ (has a l || (a == t))
unfolding insert_locked
has-insert_locked threads [] t a = ground arith
has-insert_locked threads (x ∷ l) t a = ground (arith, has-insert_locked threads l t a)

insert_locked-Distinct :
    (threads : ℕ → Thread) (l : List ℕ) (t : ℕ)
    → Distinct l
    → has t l ≡ false
    → Distinct (insert_locked threads l t)
unfolding insert_locked
insert_locked-Distinct threads [] t d h = (refl, tt)
insert_locked-Distinct threads (x ∷ l) t d h =
    ground (arith, insert_locked-Distinct threads l t d.1, has-insert_locked threads l t x)

enter-Inv :
    (s : Sys) (q t : ℕ) → is_on (s.threads t).wait_q ≡ false → Inv s → Inv (block_enter s q t)
unfolding block_enter
enter-Inv s q t free v = record {
  on_list = λ q' t'.
      ground
        (arith, v.on_list q' t', v.on_list q t', has-insert_locked s.threads (s.waiters q) t t');
  distinct = λ q'.
      ground
        (arith, v.distinct q', v.on_list q t, insert_locked-Distinct s.threads (s.waiters q) t);
}

-- what a wait that was not woken leaves
left : Sys → ℕ → ℕ → Sys
left s q t = record {
  threads = update s.threads t (record (s.threads t) { wait_q = none; state = ThreadState.ready });
  waiters = update s.waiters q (remove t (s.waiters q));
}

left-Inv : (s : Sys) (q t : ℕ) → (s.threads t).wait_q ≡ some q → Inv s → Inv (left s q t)
unfolding left
left-Inv s q t e v = record {
  on_list = λ q' t'.
      ground (arith, v.on_list q' t', v.on_list q' t, has-remove t t' (s.waiters q) (v.distinct q));
  distinct = λ q'. ground (arith, v.distinct q', Distinct-remove t (s.waiters q) (v.distinct q));
}

wait-Inv : (s : Sys) (t : ℕ) → Inv s → Inv (block_wait s t).1
unfolding block_wait
wait-Inv s t v = elim (Bool-cases ((s.threads t).wait_tokens == 0)) [
  | inl none_in ↦ rw (none_in, block_wait) v
  | inr some_in ↦
      rw (some_in, block_wait)
        (record { on_list = λ q' t'. ground (arith, v.on_list q' t'); distinct = v.distinct })
]

block_leave-on :
    (s : Sys) (q t : ℕ) (timed_out : Bool)
    → (s.threads t).wait_q ≡ some q
    → (block_leave s t timed_out).1 ≡ left s q t
unfolding block_leave unlink_from left
block_leave-on s q t timed_out e = rw e refl

leave-Inv : (s : Sys) (t : ℕ) (timed_out : Bool) → Inv s → Inv (block_leave s t timed_out).1
unfolding block_leave
leave-Inv s t timed_out v = elim (Option-cases (s.threads t).wait_q) [
  | inl off ↦
      rw (off, block_leave)
        (record { on_list = λ q' t'. ground (arith, v.on_list q' t'); distinct = v.distinct })
  | inr (q, e) ↦ rw (block_leave-on s q t timed_out e) (left-Inv s q t e v)
]

wake_first-Inv :
    (s : Sys) (q reason : ℕ) (l : List ℕ) → s.waiters q ≡ l → Inv s → Inv (wake_first s q reason l)
unfolding wake_first woken
wake_first-Inv s q reason [] e v = v
wake_first-Inv s q reason (t ∷ rest) e v =
    let d : Distinct (t ∷ rest) = rw e at (v.distinct q) in
    record {
      on_list = λ q' t'.
          ground (arith, v.on_list q' t', v.on_list q' t, v.on_list q t, v.on_list q t', e, d);
      distinct = λ q'. ground (arith, v.distinct q', e, d);
    }

wake_each-Inv :
    (s : Sys) (q reason : ℕ) (l : List ℕ) → s.waiters q ≡ l → Inv s → Inv (wake_each s q reason l)
unfolding wake_each wake_first
wake_each-Inv s q reason [] e v = v
wake_each-Inv s q reason (t ∷ rest) e v =
    wake_each-Inv (wake_first s q reason (t ∷ rest)) q reason rest (ground arith)
      (wake_first-Inv s q reason (t ∷ rest) e v)

pub Step-Inv : {s s' : Sys} → Inv s → Step s s' → Inv s'
unfolding wake_one wake_all
Step-Inv {s = s} v (enters q t free) = enter-Inv s q t free v
Step-Inv {s} v (waits t) = wait-Inv s t v
Step-Inv {s} v (leaves t timed_out) = leave-Inv s t timed_out v
Step-Inv {s = s} v (wakes_one q reason) = wake_first-Inv s q reason (s.waiters q) refl v
Step-Inv {s = s} v (wakes_all q reason) = wake_each-Inv s q reason (s.waiters q) refl v

-- Every sequence of critical sections and semaphore calls of the RT-Thread wait queues, in which a
-- thread enters a queue only while it waits on none, keeps the invariant: a thread stands on the
-- list of a queue exactly when its wait_q is that queue, and once.
pub Reach-Inv_waitq_rtthread : {s s' : Sys} → Inv s → Reach s s' → Inv s'
Reach-Inv_waitq_rtthread v here = v
Reach-Inv_waitq_rtthread v (next r step) = Step-Inv (Reach-Inv_waitq_rtthread v r) step

-- A token that is left ends the next wait at once.
stale :
    (s : Sys) (q t : ℕ)
    → (s.threads t).wait_tokens ≡ 1
    → ((block_wait (block_enter s q t) t).0 ≡ true)
      × ((block_leave (block_wait (block_enter s q t) t).1 t false).0 ≡ err eagain)
unfolding block_wait block_enter block_leave
stale s q t one = (ground (arith, one), ground (arith, one))

-- If the first thread of a wait queue, whose semaphore has no token, is woken after its wait has
-- timed out and before the second critical section of os_waitq_block, the call returns the reason
-- of the wake-up, but the token stays; the next wait of the thread on any queue takes that token
-- at once and returns -EAGAIN.
pub woken-late_rtthread :
    (s : Sys) (q t reason : ℕ) (rest : List ℕ)
    → Inv s
    → s.waiters q ≡ t ∷ rest
    → (s.threads t).wait_tokens ≡ 0
    → let s' = (block_leave (wake_one s q reason) t true).1 in
      ((block_leave (wake_one s q reason) t true).0 ≡ ok reason)
      × ((s'.threads t).wait_tokens ≡ 1)
      × ((q' : ℕ)
          → ((block_wait (block_enter s' q' t) t).0 ≡ true)
            × ((block_leave (block_wait (block_enter s' q' t) t).1 t false).0 ≡ err eagain))
unfolding wake_one wake_first woken block_leave block_enter block_wait
woken-late_rtthread s q t reason rest v e none_in =
    let s' = (block_leave (wake_one s q reason) t true).1 in
    let one : (s'.threads t).wait_tokens ≡ 1 = rw (e, none_in) (ground arith) in
    (rw (e, none_in) (ground arith), one, λ q'. stale s' q' t one)
