-- ===== src/Freertos/Thread/Priority.antt =====
-- The priority of a FreeRTOS thread whose priority is set, and the mutexes of one that is aborted.
use hazel_osal.Prelude.{
  ℕ, ◌≤◌, ◌≡◌, refl, ap, sym, ◌∙◌, inl, inr, Bool, true, false, some, List, [], ◌∷◌, arith,
  Bool-cases, Option-cases,
}
use hazel_osal.Prelude.Ids.{has}
use hazel_osal.Prelude.Int.{ℤ}
use hazel_osal.Life.{goes_on}
use hazel_osal.Freertos.Objects.{Thread, Sys, is_on, is_at}
use hazel_osal.Freertos.Mutex.{is_empty}
use hazel_osal.Freertos.Mutex.Inherit.{compute_priority, requeue, update_pi_chain}
use hazel_osal.Freertos.Mutex.Inherit.Bounds.{IsHighest, compute_priority-IsHighest}
use hazel_osal.Freertos.Mutex.Invariant.{Inv}
use hazel_osal.Freertos.Mutex.Raised.{granted, computed}
use hazel_osal.Freertos.Thread.Laws.{abort_enter-passed}
use hazel_osal.Freertos.Thread.{set_thread, abort_enter, replace, set_priority}

replace-threads : (s : Sys) (t : ℕ) → (replace s t).threads ≡ s.threads
unfolding replace requeue
replace-threads s t = elim (Option-cases (s.threads t).wait_q) [
  | inl off ↦ rw (off, replace) refl
  | inr (q, e) ↦ elim (Bool-cases (is_on (s.threads t).waiting_mutex)) [
    | inl mutex ↦ rw (e, mutex, replace) refl
    | inr plain ↦ rw (e, plain, replace) refl
  ]
]

set_priority-raised :
    (s : Sys) (t : ℕ) (priority : ℤ)
    → (s.threads t).handle ≡ true
    → (set_priority s t priority).threads
      ≡ (update_pi_chain
          (set_thread s t (record (s.threads t) { base_priority = priority }))
          (some t)).threads
unfolding set_priority
set_priority-raised s t priority up =
    let based = set_thread s t (record (s.threads t) { base_priority = priority }) in
    let e : set_priority s t priority ≡ replace (update_pi_chain based (some t)) t =
      rw (up, set_priority) refl in
    ap (λ (x : Sys). x.threads) e ∙ replace-threads (update_pi_chain based (some t)) t

-- Setting the base priority changes no priority and no list.
IsHighest-based :
    (s : Sys) (t : ℕ) (priority p : ℤ)
    → let based = set_thread s t (record (s.threads t) { base_priority = priority }) in
      IsHighest based (based.threads t).owned_mutexes (based.threads t).base_priority p
      → IsHighest s (s.threads t).owned_mutexes priority p
IsHighest-based s t priority p (base, every, from) = (
  ground (arith, base),
  λ m w h i. ground (arith, every m w (ground (arith, h)) i),
  elim from [
    | inl e ↦ inl (ground (arith, e))
    | inr (m, w, h, i, e) ↦ inr (m, w, ground (arith, h), ground (arith, i), ground (arith, e))
  ],
)

-- os_thread_set_priority on a FreeRTOS thread with a handle, whose task has a priority up to the
-- highest one, finds the least number that is at least the priority that was asked for and that of
-- each thread which waits for one of its mutexes, -EINVAL for one without a handle. If that number
-- is negative, the task keeps its priority; else it gets that number, cut to the highest priority.
pub set_priority-least :
    (s : Sys) (t : ℕ) (priority : ℤ)
    → (s.threads t).handle ≡ true
    → (s.threads t).priority ≤ s.max_priority
    → (e : ℤ) × IsHighest s (s.threads t).owned_mutexes priority e
      × (((set_priority s t priority).threads t).priority
          ≡ granted s.max_priority (s.threads t).priority e)
set_priority-least s t priority up le =
    let based = set_thread s t (record (s.threads t) { base_priority = priority }) in
    let highest = compute_priority-IsHighest based t (ground (arith, up)) in
    let same : (based.threads t).priority ≡ (s.threads t).priority = ground arith in
    (
      compute_priority based t,
      IsHighest-based s t priority _ highest,
      ap (λ (f : ℕ → Thread). (f t).priority) (set_priority-raised s t priority up)
          ∙ computed based t (omega (arith, same))
          ∙ ap (λ old. granted s.max_priority old (compute_priority based t)) same,
    )

owns_nothing : (l : List ℕ) (m : ℕ) → is_empty l ≡ true → has m l ≡ false
owns_nothing [] m e = refl
owns_nothing (x ∷ l) m e = cc

-- If os_thread_abort on a FreeRTOS thread goes on to delete it, in a state that satisfies the
-- invariant, the thread owns no mutex.
pub abort_enter-owns_none :
    (isr self : Bool) (s : Sys) (t m : ℕ)
    → Inv s
    → (abort_enter isr self s t).0 ≡ goes_on
    → is_at (s.mutexes m).owner t ≡ false
abort_enter-owns_none isr self s t m v go =
    let none_owned =
      owns_nothing (s.threads t).owned_mutexes m (abort_enter-passed isr self s t go).1 in
    sym (v.owned m t) ∙ none_owned
