-- ===== src/Freertos/Mutex/Raised.antt =====
-- Which priority the owner of a mutex has after a call of `os_mutex_lock`.
use hazel_osal.Prelude.{
  ℕ, zero, suc, ◌≤◌, ◌≡◌, refl, ap, ◌∙◌, inl, inr, true, false, ◌&&◌, not, Option, none, some, List,
  [], ◌∷◌, leb, ◌==◌, arith, Bool-cases, Option-cases,
}
use hazel_osal.Prelude.Ids.{has}
use hazel_osal.Errno.{wait_forever}
use hazel_osal.Prelude.Int.{ℤ, pos, negsuc, ◌≤ℤ◌}
use hazel_osal.Freertos.Objects.{Thread, Sys, capped}
use hazel_osal.Freertos.Waitq.Order.{has-insert_priority}
use hazel_osal.Freertos.Mutex.{Attempt, acquire, enqueue, lock_try}
use hazel_osal.Freertos.Mutex.Deadlock.{would_deadlock}
use hazel_osal.Freertos.Mutex.Inherit.{
  compute_priority, set_priority, requeue, update_chain, update_pi_chain,
}
use hazel_osal.Freertos.Mutex.Inherit.Bounds.{compute_priority-IsHighest}
use hazel_osal.Freertos.Mutex.Invariant.{Inv}

set_priority-other :
    (s : Sys) (t o : ℕ) (p : ℤ) → (o == t) ≡ false → (set_priority s t p).threads o ≡ s.threads o
unfolding set_priority
set_priority-other s t o (negsuc n) h = refl
set_priority-other s t o (pos p) h = ground (arith, h)

has-other : (o t : ℕ) (l : List ℕ) → has o l ≡ true → has t l ≡ false → (o == t) ≡ false
has-other o t l h n = elim (Bool-cases (o == t)) [
  | inl same ↦ let e : o ≡ t = ground (arith, same) in cc
  | inr other ↦ other
]

-- A thread that was visited is not changed again.
visited-same :
    (d : ℕ) (visited : List ℕ) (s : Sys) (x : Option ℕ) (o : ℕ)
    → has o visited ≡ true
    → (update_chain d visited s x).threads o ≡ s.threads o
unfolding update_chain requeue
visited-same zero visited s x o h = refl
visited-same (suc d) visited s none o h = refl
visited-same (suc d) visited s (some t) o h = elim (Bool-cases (has t visited)) [
  | inl seen ↦ rw (seen, update_chain) refl
  | inr new ↦
      let kept = set_priority-other s t o (compute_priority s t) (apart new) in
      elim (Option-cases (s.threads t).waiting_mutex) [
        | inl last ↦ rw (new, last, update_chain) kept
        | inr (m, e) ↦
            rw (new, e, update_chain)
              (visited-same d (t ∷ visited) (requeue (set_priority s t (compute_priority s t)) t m)
                  (s.mutexes m).owner o (ground arith)
                ∙ kept)
      ]
]
  where
    apart : has t visited ≡ false → (o == t) ≡ false
    apart n = has-other o t visited h n

-- The first thread of the chain gets its computed priority.
chain-first :
    (d : ℕ) (s : Sys) (o : ℕ)
    → (update_chain (suc d) [] s (some o)).threads o
      ≡ (set_priority s o (compute_priority s o)).threads o
unfolding update_chain requeue
chain-first d s o = elim (Option-cases (s.threads o).waiting_mutex) [
  | inl last ↦ rw (last, update_chain) refl
  | inr (m, e) ↦
      rw (e, update_chain)
        (visited-same d (o ∷ []) (requeue (set_priority s o (compute_priority s o)) o m)
          (s.mutexes m).owner o (ground arith))
]

update_pi_chain-first :
    (s : Sys) (o : ℕ)
    → (update_pi_chain s (some o)).threads o ≡ (set_priority s o (compute_priority s o)).threads o
unfolding update_pi_chain
update_pi_chain-first s o = chain-first 15 s o

-- What an update to an effective priority makes of the priority of a task: a negative one is not
-- set, and another one is cut to the highest.
abbrev pub granted : (max_priority old : ℕ) → (effective_priority : ℤ) → ℕ
granted max_priority old (pos p) = capped max_priority p
granted max_priority old (negsuc n) = old

set_priority-granted :
    (s : Sys) (o : ℕ) (p : ℤ)
    → (s.threads o).priority ≤ s.max_priority
    → ((set_priority s o p).threads o).priority ≡ granted s.max_priority (s.threads o).priority p
unfolding set_priority
set_priority-granted s o (negsuc n) h = refl
set_priority-granted s o (pos p) h = ground arith

-- A thread that goes on the queue of a mutex counts for the priority of its owner.
enqueue-above :
    (s : Sys) (m curr o : ℕ)
    → Inv s
    → (s.mutexes m).owner ≡ some o
    → (s.threads o).handle ≡ true
    → (s.threads curr).handle ≡ true
    → pos (s.threads curr).priority ≤ℤ compute_priority (enqueue s m curr) o
unfolding enqueue
enqueue-above s m curr o v e up cup =
    let highest = compute_priority-IsHighest (enqueue s m curr) o (ground (arith, up)) in
    let above =
      highest.1 m curr (ground (arith, v.owned m o, e))
        (ground (arith, has-insert_priority s.threads (s.waiters m) curr curr)) in
    ground (arith, above, cup)

-- A round that does not return has queued the thread and updated priorities.
pub lock_try-waits :
    (s : Sys) (m curr timeout elapsed o remaining : ℕ)
    → (s.mutexes m).owner ≡ some o
    → (lock_try s m curr timeout elapsed).0 ≡ Attempt.waits remaining
    → (lock_try s m curr timeout elapsed).1 ≡ update_pi_chain (enqueue s m curr) (some o)
unfolding lock_try
lock_try-waits s m curr timeout elapsed o remaining e w = elim (Bool-cases (o == curr)) [
  | inl own ↦ let w' = rw (e, own, lock_try) at w in cc
  | inr other ↦ elim (Bool-cases (timeout == 0)) [
    | inl now ↦ let w' = rw (e, other, now, lock_try) at w in cc
    | inr later ↦ elim (Bool-cases (would_deadlock s curr m)) [
      | inl dead ↦ let w' = rw (e, other, later, dead, lock_try) at w in cc
      | inr live ↦ elim (Bool-cases (not (timeout == wait_forever) && leb timeout elapsed)) [
        | inl late ↦ let w' = rw (e, other, later, live, late, lock_try) at w in cc
        | inr early ↦ rw (e, other, later, live, early, lock_try) refl
      ]
    ]
  ]
]

enqueue-task :
    (s : Sys) (m curr o : ℕ)
    → (((enqueue s m curr).threads o).handle ≡ (s.threads o).handle)
      × (((enqueue s m curr).threads o).priority ≡ (s.threads o).priority)
      × ((enqueue s m curr).max_priority ≡ s.max_priority)
unfolding enqueue
enqueue-task s m curr o = ground arith

pub computed :
    (s : Sys) (o : ℕ)
    → (s.threads o).priority ≤ s.max_priority
    → ((update_pi_chain s (some o)).threads o).priority
      ≡ granted s.max_priority (s.threads o).priority (compute_priority s o)
computed s o le =
    ap (λ (t : Thread). t.priority) (update_pi_chain-first s o)
    ∙ set_priority-granted s o (compute_priority s o) le

-- a number that is at least a priority is none below zero
not_negative :
    (q : ℕ) (e : ℤ) (max old : ℕ)
    → pos q ≤ℤ e
    → q ≤ max
    → (p : ℕ) × (e ≡ pos p) × (granted max old e ≡ capped max p) × (q ≤ granted max old e)
not_negative q (pos p) max old h le = (p, refl, refl, ground arith)
not_negative q (negsuc n) max old h le = absurd (omega arith)

-- Let a round of os_mutex_lock by a thread with a handle, on a mutex whose owner has one, end in a
-- wait, in a state that satisfies the invariant and in which the tasks of both have priorities up
-- to the highest one. Then what os_mutex_compute_priority_locked finds for the owner with the
-- thread on the queue is not negative, the task of the owner has that priority, cut to the highest
-- one, and it is at least the priority of the thread.
pub lock_try-inherits :
    (s : Sys) (m curr timeout elapsed o remaining : ℕ)
    → Inv s
    → (s.mutexes m).owner ≡ some o
    → (s.threads o).handle ≡ true
    → (s.threads curr).handle ≡ true
    → (s.threads o).priority ≤ s.max_priority
    → (s.threads curr).priority ≤ s.max_priority
    → (lock_try s m curr timeout elapsed).0 ≡ Attempt.waits remaining
    → let s' = (lock_try s m curr timeout elapsed).1 in
      (p : ℕ) × (compute_priority (enqueue s m curr) o ≡ pos p)
      × ((s'.threads o).priority ≡ capped s.max_priority p)
      × ((s.threads curr).priority ≤ (s'.threads o).priority)
lock_try-inherits s m curr timeout elapsed o remaining v e up cup le cle w =
    let after = lock_try-waits s m curr timeout elapsed o remaining e w in
    let (h, same, max) = enqueue-task s m curr o in
    let c = computed (enqueue s m curr) o (omega (arith, same, max)) in
    let granted_lem =
      not_negative (s.threads curr).priority (compute_priority (enqueue s m curr) o)
        (enqueue s m curr).max_priority ((enqueue s m curr).threads o).priority
        (enqueue-above s m curr o v e up cup) (omega (arith, max)) in
    rw after (
      granted_lem.0,
      granted_lem.1,
      c ∙ granted_lem.2 ∙ ap (λ n. capped n granted_lem.0) max,
      omega (arith, c, granted_lem.3),
    )

-- A thread that takes a free mutex on which another thread waits keeps its own priority, which may be
-- lower than that of the waiting one.
pub lock_try-barges :
    (s : Sys) (m curr timeout elapsed u : ℕ)
    → (s.mutexes m).owner ≡ none
    → has u (s.waiters m) ≡ true
    → (u == curr) ≡ false
    → let s' = (lock_try s m curr timeout elapsed).1 in
      ((s'.mutexes m).owner ≡ some curr)
      × (has u (s'.waiters m) ≡ true)
      × ((s'.threads curr).priority ≡ (s.threads curr).priority)
      × ((s'.threads u).priority ≡ (s.threads u).priority)
unfolding lock_try acquire
lock_try-barges s m curr timeout elapsed u o h n =
    rw (o, lock_try, acquire) (ground arith, h, ground arith, ground arith)
