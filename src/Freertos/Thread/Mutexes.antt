-- ===== src/Freertos/Thread/Mutexes.antt =====
-- What the calls of thread.c keep of the mutexes and wait queues.
use hazel_osal.Prelude.{
  ℕ, ◌≡◌, refl, ap, sym, subst, ◌∙◌, inl, inr, Bool, true, false, ◌||◌, not, none, some, [], arith,
  Bool-cases, Option-cases,
}
use hazel_osal.Prelude.Ids.{has, update, remove}
use hazel_osal.Prelude.Int.{ℤ}
use hazel_osal.Life.{ThreadState}
use hazel_osal.Freertos.Objects.{Thread, Sys, is_on, is_at}
use hazel_osal.Freertos.Waitq.{unlink_from}
use hazel_osal.Freertos.Mutex.{is_empty, dequeued}
use hazel_osal.Freertos.Mutex.Inherit.{requeue, update_pi_chain}
use hazel_osal.Freertos.Mutex.Inherit.Kept.{requeue-Kept}
use hazel_osal.Freertos.Mutex.Deadlock.{next_owner}
use hazel_osal.Freertos.Mutex.Invariant.{awaited, Inv, Same, Same-Inv, Inv-Waits, Kept-Inv}
use hazel_osal.Freertos.Mutex.Invariant.Taking.{pi-Inv}
use hazel_osal.Freertos.Mutex.Invariant.Leaving.{left, left-Inv}
use hazel_osal.Freertos.Thread.{set_thread, create, detach, abort_enter, replace, set_priority}

-- a thread with the same links
abbrev pub IsLike : Thread → Thread → Type 0
IsLike a b =
    (a.wait_q ≡ b.wait_q)
    × (a.waiting_mutex ≡ b.waiting_mutex)
    × (a.owned_mutexes ≡ b.owned_mutexes)

set_like-wait_q :
    (s : Sys) (t : ℕ) (thread : Thread)
    → IsLike thread (s.threads t)
    → (u : ℕ) → ((set_thread s t thread).threads u).wait_q ≡ (s.threads u).wait_q
set_like-wait_q s t thread l u = ground (arith, l.0)

set_like-Same :
    (s : Sys) (t : ℕ) (thread : Thread)
    → IsLike thread (s.threads t)
    → Same s (set_thread s t thread)
set_like-Same s t thread l = record {
  same_mutexes = λ m. refl;
  same_owned = λ u. ground (arith, l.2);
  same_waiting = λ u. ground (arith, l.1);
  same_awaited = λ u. rw (set_like-wait_q s t thread l u, awaited) refl;
}

-- Links are all that the invariant sees of a thread.
set_like-Inv :
    (s : Sys) (t : ℕ) (thread : Thread)
    → IsLike thread (s.threads t)
    → Inv s
    → Inv (set_thread s t thread)
set_like-Inv s t thread l v =
    Same-Inv s (set_thread s t thread) (set_like-Same s t thread l)
      (record {
        on_list = λ q u.
            v.queues.on_list q u ∙ ap (λ w. is_at w q) (sym (set_like-wait_q s t thread l u));
        distinct = v.queues.distinct;
      })
      v

pub create-Inv :
    (s : Sys) (t : ℕ) (prio : ℤ) (kernel_prio : ℕ) (completion task : Bool)
    → (s.threads t).wait_q ≡ none
    → (s.threads t).owned_mutexes ≡ []
    → Inv s
    → Inv (create s t prio kernel_prio completion task).1
unfolding create
create-Inv s t prio kernel_prio completion task w o v =
    let free : (s.threads t).waiting_mutex ≡ none = v.waiting t ∙ ground (arith, w) in
    elim (Bool-cases completion) [
      | inr none_made ↦ rw (none_made, create) (set_like-Inv s t _ (sym w, sym free, sym o) v)
      | inl made ↦ elim (Bool-cases task) [
        | inr no_task ↦ rw (made, no_task, create) (set_like-Inv s t _ (sym w, sym free, sym o) v)
        | inl runs ↦ rw (made, runs, create) (set_like-Inv s t _ (sym w, sym free, sym o) v)
      ]
    ]

-- a thread that is taken off its queue
unlinked : Sys → (q t : ℕ) → Sys
unlinked s q t = record s {
  threads = update s.threads t (record (s.threads t) { wait_q = none; waiting_mutex = none });
  waiters = update s.waiters q (remove t (s.waiters q));
}

unlinked-Inv : (s : Sys) (q t : ℕ) → (s.threads t).wait_q ≡ some q → Inv s → Inv (unlinked s q t)
unfolding unlinked dequeued unlink_from
unlinked-Inv s q t e v =
    Same-Inv (left s t) (unlinked s q t)
      (record {
        same_mutexes = λ m. rw e refl;
        same_owned = λ u. ground arith;
        same_waiting = λ u. ground arith;
        same_awaited = λ u. rw e (ground arith);
      })
      (record {
        on_list = λ q' u. queue q' u;
        distinct = λ q'. ground (arith, (left-Inv s t v).queues.distinct q', e);
      })
      (left-Inv s t v)
  where
    queue :
        (q' u : ℕ)
        → has u ((unlinked s q t).waiters q') ≡ is_at ((unlinked s q t).threads u).wait_q q'
    queue q' u = ground (arith, (left-Inv s t v).queues.on_list q' u, e)

detach-Inv : (s : Sys) (t : ℕ) → Inv s → Inv (detach s t)
unfolding detach unlink_from unlinked
detach-Inv s t v = elim (Option-cases (s.threads t).wait_q) [
  | inl off ↦ rw (off, detach) v
  | inr (q, e) ↦
      subst Inv (on q e) (pi-Inv (unlinked s q t) (next_owner s t) (unlinked-Inv s q t e v))
]
  where
    on :
        (q : ℕ)
        → (s.threads t).wait_q ≡ some q
        → update_pi_chain (unlinked s q t) (next_owner s t) ≡ detach s t
    on q e = rw (e, detach) refl

-- an aborted thread
dead : Sys → ℕ → Thread
dead s t = record (s.threads t) {
  state = ThreadState.terminated;
  life = record (s.threads t).life { cancel_requested = true; aborted = true; completed = true };
}

pub abort-Inv : (isr self : Bool) (s : Sys) (t : ℕ) → Inv s → Inv (abort_enter isr self s t).1
unfolding abort_enter dead
abort-Inv isr self s t v =
    let thread = s.threads t in
    elim (Bool-cases (not thread.handle || not thread.life.completion_handle)) [
      | inl bare ↦ rw (bare, abort_enter) v
      | inr made ↦ elim (Bool-cases isr) [
        | inl in_isr ↦ rw (made, in_isr, abort_enter) v
        | inr task ↦ elim (Bool-cases thread.life.completed) [
          | inl done ↦ rw (made, task, done, abort_enter) v
          | inr runs ↦ elim (Bool-cases (is_empty thread.owned_mutexes)) [
            | inr owns ↦ rw (made, task, runs, owns, abort_enter) v
            | inl owns_none ↦ subst Inv (ends made task runs owns_none) (
                set_like-Inv (detach s t) t (dead (detach s t) t) (refl, refl, refl)
                  (detach-Inv s t v))
          ]
        ]
      ]
    ]
  where
    ends :
        (not (s.threads t).handle || not (s.threads t).life.completion_handle) ≡ false
        → isr ≡ false
        → (s.threads t).life.completed ≡ false
        → is_empty (s.threads t).owned_mutexes ≡ true
        → set_thread (detach s t) t (dead (detach s t) t) ≡ (abort_enter isr self s t).1
    ends made task runs owns_none = rw (made, task, runs, owns_none, abort_enter) refl

replace-Inv : (s : Sys) (t : ℕ) → Inv s → Inv (replace s t)
unfolding replace
replace-Inv s t v = elim (Option-cases (s.threads t).wait_q) [
  | inl off ↦ rw (off, replace) v
  | inr (q, e) ↦ elim (Bool-cases (is_on (s.threads t).waiting_mutex)) [
    | inl mutex ↦ rw (e, mutex, replace) v
    | inr plain ↦
        rw (e, plain, replace)
          (Kept-Inv s (requeue s t q)
            (requeue-Kept s t q (ground (arith, v.queues.on_list q t, e)) (Inv-Waits s v)) v)
  ]
]

pub set_priority-Inv : (s : Sys) (t : ℕ) (priority : ℤ) → Inv s → Inv (set_priority s t priority)
unfolding set_priority
set_priority-Inv s t priority v = elim (Bool-cases (s.threads t).handle) [
  | inr bare ↦ rw (bare, set_priority) v
  | inl made ↦
      let based = set_thread s t (record (s.threads t) { base_priority = priority }) in
      subst Inv (behind made) (
        replace-Inv (update_pi_chain based (some t)) t
          (pi-Inv based (some t) (set_like-Inv s t _ (refl, refl, refl) v)))
]
  where
    behind :
        (s.threads t).handle ≡ true
        → replace
            (update_pi_chain
              (set_thread s t (record (s.threads t) { base_priority = priority }))
              (some t))
            t
          ≡ set_priority s t priority
    behind made = rw (made, set_priority) refl
