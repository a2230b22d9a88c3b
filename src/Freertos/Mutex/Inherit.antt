-- ===== src/Freertos/Mutex/Inherit.antt =====
-- Priority inheritance in src/osal_freertos/mutex.c.
pub mod Bounds
pub mod Kept
use hazel_osal.Prelude.{
  ℕ, zero, suc, ◌≡◌, Bool, true, false, ◌&&◌, not, Option, none, some, List, [], ◌∷◌, ltb, ◌==◌,
  if◌then◌else◌,
}
use hazel_osal.Prelude.Ids.{has, update, remove}
use hazel_osal.Prelude.Int.{ℤ, pos, negsuc, ltb_ℤ}
use hazel_osal.Freertos.Objects.{Thread, Mutex, Sys, is_on, priority_of, capped}
use hazel_osal.Freertos.Waitq.{insert_priority}

-- `OS_PI_MAX_CHAIN_DEPTH`
abbrev pub pi_max_chain_depth : ℕ
pi_max_chain_depth = 16

-- the inner loop of `os_mutex_compute_priority_locked`, over the waiters of one mutex
unfoldable pub over_waiters : (ℕ → Thread) → List ℕ → (effective_priority : ℤ) → ℤ
over_waiters threads [] effective_priority = effective_priority
over_waiters threads (waiter ∷ rest) effective_priority = over_waiters threads rest (
    if ltb_ℤ effective_priority (priority_of (threads waiter))
    then priority_of (threads waiter)
    else effective_priority)

-- the outer loop, over the mutexes that the thread owns
unfoldable pub over_owned : Sys → List ℕ → (effective_priority : ℤ) → ℤ
unfolding over_waiters
over_owned s [] effective_priority = effective_priority
over_owned s (m ∷ rest) effective_priority =
    over_owned s rest (over_waiters s.threads (s.waiters m) effective_priority)

-- No handle gives -EINVAL.
unfoldable pub compute_priority : Sys → ℕ → ℤ
unfolding over_owned
compute_priority s t =
    if not (s.threads t).handle
    then negsuc 21
    else over_owned s (s.threads t).owned_mutexes (s.threads t).base_priority

-- The task gets the priority if it is not negative and another one than the task has.
unfoldable pub set_priority : Sys → ℕ → (effective_priority : ℤ) → Sys
set_priority s t (negsuc n) = s
set_priority s t (pos p) = if (s.threads t).priority == p then s else record s {
  threads = update s.threads t (record (s.threads t) { priority = capped s.max_priority p });
}

-- `sys_dlist_remove` and `os_waitq_insert_priority_locked`: the thread finds its place again.
unfoldable pub requeue : Sys → ℕ → ℕ → Sys
requeue s t m = record s {
  waiters = update s.waiters m (insert_priority s.threads (remove t (s.waiters m)) t);
}

-- The loop of `os_mutex_update_pi_chain_locked`: `depth` counts the rounds that are left, `visited`
-- is the array.
unfoldable pub update_chain : (depth : ℕ) → (visited : List ℕ) → Sys → (thread : Option ℕ) → Sys
unfolding compute_priority set_priority requeue
update_chain zero visited s thread = s
update_chain (suc depth) visited s none = s
update_chain (suc depth) visited s (some t) =
    let s' = set_priority s t (compute_priority s t) in
    if has t visited then s else elim (s.threads t).waiting_mutex [
      | none ↦ s'
      | some upstream ↦
          update_chain depth (t ∷ visited) (requeue s' t upstream) (s.mutexes upstream).owner
    ]

unfoldable pub update_pi_chain : Sys → Option ℕ → Sys
unfolding update_chain
update_pi_chain s thread = update_chain pi_max_chain_depth [] s thread
