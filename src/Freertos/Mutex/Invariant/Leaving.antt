-- ===== src/Freertos/Mutex/Invariant/Leaving.antt =====
-- The invariant of mutex.c under the second critical section of `os_mutex_lock`.
use hazel_osal.Prelude.{
  ℕ, ◌≡◌, refl, subst, inl, inr, Bool, none, some, ◌==◌, if◌then◌else◌, arith, Option-cases,
}
use hazel_osal.Prelude.Ids.{update, has-remove, Distinct-remove}
use hazel_osal.Life.{ThreadState}
use hazel_osal.Freertos.Objects.{Sys}
use hazel_osal.Freertos.Waitq.{unlink_from}
use hazel_osal.Freertos.Waitq.Concurrent.{Inv as QueueInv}
use hazel_osal.Freertos.Mutex.{dequeued, lock_leave}
use hazel_osal.Freertos.Mutex.Inherit.{update_pi_chain}
use hazel_osal.Freertos.Mutex.Deadlock.{next_owner}
use hazel_osal.Freertos.Mutex.Invariant.{Inv, next-acyclic, cut-next}
use hazel_osal.Freertos.Mutex.Invariant.Taking.{pi-Inv}

-- what the second critical section writes before priorities are updated
abbrev pub left : Sys → ℕ → Sys
left s curr =
    let s' = unlink_from s curr (s.threads curr).wait_q in
    record s' { threads = update s.threads curr (dequeued (s.threads curr)) }

next-left :
    (s : Sys) (curr u : ℕ)
    → next_owner (left s curr) u ≡ (if u == curr then none else next_owner s u)
unfolding dequeued unlink_from
next-left s curr u = elim (Option-cases (s.threads curr).wait_q) [
  | inl off ↦ rw off (ground arith)
  | inr (q, e) ↦ rw e (ground arith)
]

left-queues : (s : Sys) (curr : ℕ) → QueueInv s → QueueInv (left s curr)
unfolding dequeued unlink_from
left-queues s curr v = elim (Option-cases (s.threads curr).wait_q) [
  | inl off ↦ record {
    on_list = λ q t. ground (arith, v.on_list q t, off);
    distinct = λ q. ground (arith, v.distinct q, off);
  }
  | inr (q', e) ↦ record {
    on_list = λ q t. ground (
      arith,
      v.on_list q t,
      v.on_list q curr,
      e,
      has-remove curr t (s.waiters q') (v.distinct q'),
    );
    distinct =
        λ q. ground (arith, v.distinct q, e, Distinct-remove curr (s.waiters q') (v.distinct q'));
  }
]

left-mutexes : (s : Sys) (curr : ℕ) → (left s curr).mutexes ≡ s.mutexes
unfolding unlink_from
left-mutexes s curr = elim (Option-cases (s.threads curr).wait_q) [
  | inl off ↦ rw (off, unlink_from) refl
  | inr (q, e) ↦ rw (e, unlink_from) refl
]

pub left-Inv : (s : Sys) (curr : ℕ) → Inv s → Inv (left s curr)
unfolding dequeued
left-Inv s curr v = record {
  queues = left-queues s curr v.queues;
  owned = λ m t. rw (left-mutexes s curr) (ground (arith, v.owned m t));
  owned_distinct = λ t. ground (arith, v.owned_distinct t);
  counted = λ m. rw (left-mutexes s curr) (v.counted m);
  counted_lt = λ m. rw (left-mutexes s curr) (v.counted_lt m);
  unused = λ m. rw (left-mutexes s curr) (v.unused m);
  waiting = λ t. rw (left-mutexes s curr) (ground (arith, v.waiting t));
  acyclic =
      next-acyclic s (left s curr)
        (λ u. cut-next (next_owner s) (next_owner (left s curr)) (u == curr) u (next-left s curr u))
        v.acyclic;
}

-- what a thread writes that was woken
back : Sys → ℕ → Sys
back s curr = record s {
  threads =
      update s.threads curr
        (record (s.threads curr) { waiting_mutex = none; state = ThreadState.ready });
}

next-back :
    (s : Sys) (curr u : ℕ)
    → next_owner (back s curr) u ≡ (if u == curr then none else next_owner s u)
unfolding back
next-back s curr u = ground arith

back-Inv : (s : Sys) (curr : ℕ) → (s.threads curr).wait_q ≡ none → Inv s → Inv (back s curr)
unfolding back
back-Inv s curr w v = record {
  queues = record {
    on_list = λ q t. ground (arith, v.queues.on_list q t);
    distinct = v.queues.distinct;
  };
  owned = λ m t. ground (arith, v.owned m t);
  owned_distinct = λ t. ground (arith, v.owned_distinct t);
  counted = v.counted;
  counted_lt = v.counted_lt;
  unused = v.unused;
  waiting = λ t. ground (arith, w, v.waiting t);
  acyclic =
      next-acyclic s (back s curr)
        (λ u. cut-next (next_owner s) (next_owner (back s curr)) (u == curr) u (next-back s curr u))
        v.acyclic;
}

pub leave-Inv :
    (s : Sys) (m curr : ℕ) (notified : Bool) → Inv s → Inv (lock_leave s m curr notified).1
unfolding lock_leave back
leave-Inv s m curr notified v = elim (Option-cases (s.threads curr).wait_q) [
  | inl off ↦ subst Inv (off_leave off) (back-Inv s curr off v)
  | inr (q, e) ↦
      subst Inv (on_leave q e) (pi-Inv (left s curr) (s.mutexes m).owner (left-Inv s curr v))
]
  where
    off_leave : (s.threads curr).wait_q ≡ none → back s curr ≡ (lock_leave s m curr notified).1
    off_leave e = rw (e, lock_leave) refl

    on_leave :
        (q : ℕ)
        → (s.threads curr).wait_q ≡ some q
        → update_pi_chain (left s curr) (s.mutexes m).owner ≡ (lock_leave s m curr notified).1
    on_leave q e = rw (e, lock_leave) refl
