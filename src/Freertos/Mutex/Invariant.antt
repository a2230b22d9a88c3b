-- ===== src/Freertos/Mutex/Invariant.antt =====
-- The invariant of the threads, mutexes and wait queues under mutex.c.
pub mod Taking
pub mod Leaving
pub mod Giving
pub mod Queues
use hazel_osal.Prelude.{
  ℕ, ◌^◌, ◌<◌, ◌≡◌, ◌⊎◌, refl, sym, ap, ◌∙◌, inl, inr, Bool, true, false, not, Option, none, some,
  ◌==◌, if◌then◌else◌, arith, Bool-cases, Option-cases,
}
use hazel_osal.Prelude.Ids.{has, Distinct, update}
use hazel_osal.Freertos.Objects.{Thread, Mutex, Sys, is_on, is_at}
use hazel_osal.Freertos.Waitq.Concurrent.{Inv as QueueInv}
use hazel_osal.Freertos.Mutex.Deadlock.{next_owner, ends, Ends, ends-Ends}
use hazel_osal.Freertos.Mutex.Inherit.Kept.{Waits, Kept}

-- the mutex on whose queue a thread is
abbrev pub awaited : Sys → ℕ → Option ℕ
awaited s t = elim (s.threads t).wait_q [
  | none ↦ none
  | some q ↦ if (s.mutexes q).initialized then some q else none
]

-- The queues are sound (`QueueInv`). A mutex is on the list of its owner, once, and on no other
-- list; it has an owner exactly when its count is not 0. `waiting_mutex` is the mutex on whose queue
-- the thread is, and the chain of owners from any thread ends.
pub record Inv (s : Sys) : Type 0 where
  pub queues : QueueInv s
  pub owned : (m t : ℕ) → has m (s.threads t).owned_mutexes ≡ is_at (s.mutexes m).owner t
  pub owned_distinct : (t : ℕ) → Distinct (s.threads t).owned_mutexes
  pub counted : (m : ℕ) → is_on (s.mutexes m).owner ≡ not ((s.mutexes m).lock_count == 0)
  pub counted_lt : (m : ℕ) → (s.mutexes m).lock_count < 2 ^ 32
  pub unused : (m : ℕ) → (s.mutexes m).initialized ≡ false → (s.mutexes m).owner ≡ none
  pub waiting : (t : ℕ) → (s.threads t).waiting_mutex ≡ awaited s t
  pub acyclic : (t : ℕ) → Ends (next_owner s) (some t)

-- what the wait queues of waitq.c and the priorities leave alone
pub record Same (s s' : Sys) : Type 0 where
  pub same_mutexes : (m : ℕ) → s'.mutexes m ≡ s.mutexes m
  pub same_owned : (t : ℕ) → (s'.threads t).owned_mutexes ≡ (s.threads t).owned_mutexes
  pub same_waiting : (t : ℕ) → (s'.threads t).waiting_mutex ≡ (s.threads t).waiting_mutex
  pub same_awaited : (t : ℕ) → awaited s' t ≡ awaited s t

pub Same-trans : (s s' s'' : Sys) → Same s s' → Same s' s'' → Same s s''
Same-trans s s' s'' a b = record {
  same_mutexes = λ m. b.same_mutexes m ∙ a.same_mutexes m;
  same_owned = λ t. b.same_owned t ∙ a.same_owned t;
  same_waiting = λ t. b.same_waiting t ∙ a.same_waiting t;
  same_awaited = λ t. b.same_awaited t ∙ a.same_awaited t;
}

-- Chains of owners still end if each thread keeps its next one or gets one from which they end.
pub next-acyclic :
    (s s' : Sys)
    → ((u : ℕ) → (next_owner s' u ≡ next_owner s u) ⊎ Ends (next_owner s') (next_owner s' u))
    → ((t : ℕ) → Ends (next_owner s) (some t))
    → (t : ℕ) → Ends (next_owner s') (some t)
next-acyclic s s' h a t = ends-Ends (next_owner s) (next_owner s') h (a t).0 (some t) (a t).1

-- A thread whose next one is dropped, if any is.
pub cut-next :
    (f g : ℕ → Option ℕ) (b : Bool) (u : ℕ)
    → g u ≡ (if b then none else f u)
    → (g u ≡ f u) ⊎ Ends g (g u)
unfolding ends
cut-next f g b u e = elim (Bool-cases b) [
  | inl cut ↦ inr (0, rw (e, cut) refl)
  | inr kept ↦ inl (ground (arith, e, kept))
]

Same-next_owner : (s s' : Sys) (u : ℕ) → Same s s' → next_owner s' u ≡ next_owner s u
Same-next_owner s s' u e = elim (Option-cases (s.threads u).waiting_mutex) [
  | inl free ↦ rw (e.same_waiting u, free, next_owner) refl
  | inr (m, w) ↦ rw (e.same_waiting u, w, next_owner) (ap (λ x. x.owner) (e.same_mutexes m))
]

pub Same-Inv : (s s' : Sys) → Same s s' → QueueInv s' → Inv s → Inv s'
Same-Inv s s' e q v = record {
  queues = q;
  owned = λ m t. rw (e.same_owned t, e.same_mutexes m) (v.owned m t);
  owned_distinct = λ t. rw (e.same_owned t) (v.owned_distinct t);
  counted = λ m. rw (e.same_mutexes m) (v.counted m);
  counted_lt = λ m. rw (e.same_mutexes m) (v.counted_lt m);
  unused = λ m. rw (e.same_mutexes m) (v.unused m);
  waiting = λ t. e.same_waiting t ∙ v.waiting t ∙ sym (e.same_awaited t);
  acyclic = next-acyclic s s' (λ u. inl (Same-next_owner s s' u e)) v.acyclic;
}

-- A thread that waits for a mutex is on its queue.
pub Inv-Waits : (s : Sys) → Inv s → Waits s
Inv-Waits s v = record {
  waiting_has = λ t m e. ground (arith, v.waiting t, v.queues.on_list m t, e);
  distinct = v.queues.distinct;
}

Kept-wait_q : (s s' : Sys) (t : ℕ) → Kept s s' → (s'.threads t).wait_q ≡ (s.threads t).wait_q
Kept-wait_q s s' t k = ap (λ u. u.wait_q) (k.same_thread t)

pub Kept-Inv : (s s' : Sys) → Kept s s' → Inv s → Inv s'
Kept-Inv s s' k v = Same-Inv s s' same queues v
  where
    same : Same s s'
    same = record {
      same_mutexes = k.same_mutexes;
      same_owned = λ t. ap (λ u. u.owned_mutexes) (k.same_thread t);
      same_waiting = λ t. ap (λ u. u.waiting_mutex) (k.same_thread t);
      same_awaited = λ t. elim (Option-cases (s.threads t).wait_q) [
        | inl off ↦ rw (Kept-wait_q s s' t k, off, awaited) refl
        | inr (q, e) ↦ rw (Kept-wait_q s s' t k, e, k.same_mutexes q, awaited) refl
      ];
    }

    queues : QueueInv s'
    queues = record {
      on_list = λ q t.
          k.same_waiters q t
          ∙ v.queues.on_list q t
          ∙ ap (λ w. is_at w q) (sym (Kept-wait_q s s' t k));
      distinct = k.still_distinct;
    }
