-- ===== src/Freertos/Mutex/Unsorted.antt =====
-- The queues after a call of `os_mutex_lock` that waits.
use hazel_osal.Prelude.{
  ℕ, suc, ◌≡◌, refl, ap, ◌∙◌, inl, inr, false, none, some, [], ◌==◌, arith, Bool-cases,
}
use hazel_osal.Prelude.Int.{ℤ, pos, negsuc}
use hazel_osal.Freertos.Objects.{Sys}
use hazel_osal.Freertos.Mutex.{Attempt, enqueue, lock_try}
use hazel_osal.Freertos.Mutex.Inherit.{
  compute_priority, set_priority, update_chain, update_pi_chain,
}
use hazel_osal.Freertos.Mutex.Raised.{lock_try-waits}

-- A thread that waits for a mutex is not its owner.
waits-other :
    (s : Sys) (m curr timeout elapsed o remaining : ℕ)
    → (s.mutexes m).owner ≡ some o
    → (lock_try s m curr timeout elapsed).0 ≡ Attempt.waits remaining
    → (o == curr) ≡ false
unfolding lock_try
waits-other s m curr timeout elapsed o remaining e w = elim (Bool-cases (o == curr)) [
  | inl own ↦ let w' = rw (e, own, lock_try) at w in cc
  | inr other ↦ other
]

enqueue-waiting :
    (s : Sys) (m curr o : ℕ)
    → (o == curr) ≡ false
    → ((enqueue s m curr).threads o).waiting_mutex ≡ (s.threads o).waiting_mutex
unfolding enqueue
enqueue-waiting s m curr o apart = ground (arith, apart)

enqueue-waiters :
    (s : Sys) (m curr q : ℕ) → (q == m) ≡ false → (enqueue s m curr).waiters q ≡ s.waiters q
unfolding enqueue
enqueue-waiters s m curr q other = ground (arith, other)

set_priority-waiters : (s : Sys) (t : ℕ) (p : ℤ) → (set_priority s t p).waiters ≡ s.waiters
unfolding set_priority
set_priority-waiters s t (negsuc n) = refl
set_priority-waiters s t (pos p) = ground arith

-- A chain of one thread changes no queue.
chain-last :
    (d : ℕ) (s : Sys) (o : ℕ)
    → (s.threads o).waiting_mutex ≡ none
    → (update_chain (suc d) [] s (some o)).waiters ≡ s.waiters
unfolding update_chain
chain-last d s o last = rw (last, update_chain) (set_priority-waiters s o (compute_priority s o))

-- The owner that waits for no mutex is the only thread of the chain, and no queue but that of the mutex
-- changes: one on which the owner itself waits keeps the order that it had before its priority rose.
pub lock_try-unsorted :
    (s : Sys) (m curr timeout elapsed o remaining q : ℕ)
    → (s.mutexes m).owner ≡ some o
    → (s.threads o).waiting_mutex ≡ none
    → (q == m) ≡ false
    → (lock_try s m curr timeout elapsed).0 ≡ Attempt.waits remaining
    → (lock_try s m curr timeout elapsed).1.waiters q ≡ s.waiters q
unfolding update_pi_chain
lock_try-unsorted s m curr timeout elapsed o remaining q e free other w =
    let apart = waits-other s m curr timeout elapsed o remaining e w in
    let last : ((enqueue s m curr).threads o).waiting_mutex ≡ none =
      enqueue-waiting s m curr o apart ∙ free in
    rw (lock_try-waits s m curr timeout elapsed o remaining e w)
      (ap (λ f. f q) (chain-last 15 (enqueue s m curr) o last) ∙ enqueue-waiters s m curr q other)
