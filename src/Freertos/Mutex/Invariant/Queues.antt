-- ===== src/Freertos/Mutex/Invariant/Queues.antt =====
-- The invariant of mutex.c under the wait queues of waitq.c that belong to no mutex.
use hazel_osal.Prelude.{
  ℕ, ◌≡◌, refl, inl, inr, Bool, false, Option, none, some, List, [], ◌∷◌, arith, Option-cases,
}
use hazel_osal.Freertos.Objects.{Sys, is_on}
use hazel_osal.Freertos.Waitq.{
  block_enter, unlink_from, block_leave, notify_thread, woken, wake_first, wake_one, wake_each,
  wake_all,
}
use hazel_osal.Freertos.Waitq.Concurrent.{
  Inv as QueueInv, Step as QueueStep, enters, leaves, wakes_one, wakes_all, Step-Inv,
  wake_first-Inv,
}
use hazel_osal.Freertos.Mutex.Invariant.{awaited, Inv, Same, Same-trans, Same-Inv}

Same-refl : (s : Sys) → Same s s
Same-refl s = record {
  same_mutexes = λ m. refl;
  same_owned = λ t. refl;
  same_waiting = λ t. refl;
  same_awaited = λ t. refl;
}

pub enter-Same :
    (s : Sys) (q t : ℕ)
    → (s.mutexes q).initialized ≡ false
    → (s.threads t).wait_q ≡ none
    → Same s (block_enter s q t)
unfolding block_enter
enter-Same s q t i w = record {
  same_mutexes = λ m. refl;
  same_owned = λ u. ground arith;
  same_waiting = λ u. ground arith;
  same_awaited = λ u. ground arith;
}

pub leave-Same :
    (s : Sys) (t : ℕ) (notified : Bool) (notify : ℕ)
    → awaited s t ≡ none
    → Same s (block_leave s t notified notify).1
unfolding block_leave unlink_from
leave-Same s t notified notify a = elim (Option-cases (s.threads t).wait_q) [
  | inl off ↦
      rw (off, block_leave)
        (record {
          same_mutexes = λ m. refl;
          same_owned = λ u. ground arith;
          same_waiting = λ u. ground arith;
          same_awaited = λ u. ground arith;
        })
  | inr (q, e) ↦
      rw (e, block_leave, unlink_from)
        (record {
          same_mutexes = λ m. refl;
          same_owned = λ u. ground arith;
          same_waiting = λ u. ground arith;
          same_awaited = λ u. ground (arith, e, a);
        })
]

wake_first-Same :
    (s : Sys) (q reason : ℕ) (l : List ℕ)
    → s.waiters q ≡ l
    → (s.mutexes q).initialized ≡ false
    → QueueInv s
    → Same s (wake_first s q reason l)
unfolding wake_first woken notify_thread
wake_first-Same s q reason [] e i v = Same-refl s
wake_first-Same s q reason (t ∷ rest) e i v = record {
  same_mutexes = λ m. refl;
  same_owned = λ u. ground arith;
  same_waiting = λ u. ground arith;
  same_awaited = λ u. ground (arith, v.on_list q t, e, i);
}

wake_each-Same :
    (s : Sys) (q reason : ℕ) (l : List ℕ)
    → s.waiters q ≡ l
    → (s.mutexes q).initialized ≡ false
    → QueueInv s
    → Same s (wake_each s q reason l)
unfolding wake_each wake_first
wake_each-Same s q reason [] e i v = Same-refl s
wake_each-Same s q reason (t ∷ rest) e i v =
    let s' = wake_first s q reason (t ∷ rest) in
    Same-trans s s' (wake_each s' q reason rest) (wake_first-Same s q reason (t ∷ rest) e i v)
      (wake_each-Same s' q reason rest (ground arith) i (wake_first-Inv s q reason (t ∷ rest) e v))

-- A critical section of waitq.c is on a queue that belongs to no mutex.
abbrev pub IsPlain : {s s' : Sys} → QueueStep s s' → Type 0
IsPlain {s} (enters q t free) = (s.mutexes q).initialized ≡ false
IsPlain {s} (leaves t notified notify) = awaited s t ≡ none
IsPlain {s} (wakes_one q reason) = (s.mutexes q).initialized ≡ false
IsPlain {s} (wakes_all q reason) = (s.mutexes q).initialized ≡ false

off_none : (o : Option ℕ) → is_on o ≡ false → o ≡ none
off_none none e = refl
off_none (some q) e = cc

plain-Same : {s s' : Sys} → QueueInv s → (step : QueueStep s s') → IsPlain step → Same s s'
unfolding wake_one wake_all
plain-Same {s = s} v (enters q t free) i = enter-Same s q t i (off_none (s.threads t).wait_q free)
plain-Same {s = s} v (leaves t notified notify) a = leave-Same s t notified notify a
plain-Same {s = s} v (wakes_one q reason) i = wake_first-Same s q reason (s.waiters q) refl i v
plain-Same {s = s} v (wakes_all q reason) i = wake_each-Same s q reason (s.waiters q) refl i v

pub plain-Inv : {s s' : Sys} → Inv s → (step : QueueStep s s') → IsPlain step → Inv s'
plain-Inv {s} {s'} v step plain =
    Same-Inv s s' (plain-Same v.queues step plain) (Step-Inv v.queues step) v
