-- ===== src/Freertos/Thread/Unlinked.antt =====
-- The calls of thread.c that end a thread leave the mutexes and wait queues alone.
use hazel_osal.Prelude.{ℕ, ◌≡◌, refl, inl, inr, Bool, arith, Option-cases}
use hazel_osal.Freertos.Objects.{Sys}
use hazel_osal.Freertos.Mutex.Invariant.{awaited, Inv, Same-Inv}
use hazel_osal.Freertos.Thread.{
  entry_complete, entry_signal, reap, join_enter, join_timeout, delete_enter, cancel, abort_signal,
}
use hazel_osal.Freertos.Thread.Mutexes.{IsLike}

awaited-kept :
    (s s' : Sys) (u : ℕ)
    → ((m : ℕ) → s'.mutexes m ≡ s.mutexes m)
    → (s'.threads u).wait_q ≡ (s.threads u).wait_q
    → awaited s' u ≡ awaited s u
awaited-kept s s' u m w = elim (Option-cases (s.threads u).wait_q) [
  | inl off ↦ rw (w, off, awaited) refl
  | inr (q, e) ↦ rw (w, e, m q, awaited) refl
]

-- Links are all that the invariant sees of the threads.
links-Inv :
    (s s' : Sys)
    → ((m : ℕ) → s'.mutexes m ≡ s.mutexes m)
    → ((q : ℕ) → s'.waiters q ≡ s.waiters q)
    → ((u : ℕ) → IsLike (s'.threads u) (s.threads u))
    → Inv s
    → Inv s'
links-Inv s s' m w l v =
    Same-Inv s s'
      (record {
        same_mutexes = m;
        same_owned = λ u. (l u).2;
        same_waiting = λ u. (l u).1;
        same_awaited = λ u. awaited-kept s s' u m (l u).0;
      })
      (record {
        on_list = λ q u. ground (arith, v.queues.on_list q u, w q, l u);
        distinct = λ q. rw (w q) (v.queues.distinct q);
      })
      v

pub entry_complete-Inv : (s : Sys) (t : ℕ) → Inv s → Inv (entry_complete s t)
unfolding entry_complete
entry_complete-Inv s t v =
    links-Inv s (entry_complete s t) (λ m. refl) (λ q. refl) (λ u. ground arith) v

pub entry_signal-Inv : (s : Sys) (t : ℕ) → Inv s → Inv (entry_signal s t)
unfolding entry_signal
entry_signal-Inv s t v =
    links-Inv s (entry_signal s t) (λ m. refl) (λ q. refl) (λ u. ground arith) v

pub reap-Inv : (s : Sys) (t : ℕ) → Inv s → Inv (reap s t)
unfolding reap
reap-Inv s t v = links-Inv s (reap s t) (λ m. refl) (λ q. refl) (λ u. ground arith) v

pub join_enter-Inv : (isr self : Bool) (s : Sys) (t : ℕ) → Inv s → Inv (join_enter isr self s t).1
unfolding join_enter
join_enter-Inv isr self s t v =
    links-Inv s (join_enter isr self s t).1 (λ m. ground arith) (λ q. ground arith)
      (λ u. ground arith) v

pub join_timeout-Inv : (timeout : ℕ) (s : Sys) (t : ℕ) → Inv s → Inv (join_timeout timeout s t).1
unfolding join_timeout
join_timeout-Inv timeout s t v =
    links-Inv s (join_timeout timeout s t).1 (λ m. refl) (λ q. refl) (λ u. ground arith) v

pub delete_enter-Inv : (isr : Bool) (s : Sys) (t : ℕ) → Inv s → Inv (delete_enter isr s t).1
unfolding delete_enter
delete_enter-Inv isr s t v =
    links-Inv s (delete_enter isr s t).1 (λ m. ground arith) (λ q. ground arith) (λ u. ground arith)
      v

pub cancel-Inv : (isr : Bool) (s : Sys) (t : ℕ) → Inv s → Inv (cancel isr s t).1
unfolding cancel
cancel-Inv isr s t v =
    links-Inv s (cancel isr s t).1 (λ m. ground arith) (λ q. ground arith) (λ u. ground arith) v

pub abort_signal-Inv : (s : Sys) (t : ℕ) → Inv s → Inv (abort_signal s t)
unfolding abort_signal
abort_signal-Inv s t v =
    links-Inv s (abort_signal s t) (λ m. refl) (λ q. refl) (λ u. ground arith) v
