-- ===== src/Freertos/Mutex/Recursive.antt =====
-- A mutex that its owner locks again.
use hazel_osal.Prelude.{ℕ, ◌+◌, ◌-◌, ◌^◌, ◌<◌, ◌≡◌, refl, true, false, ◌==◌, arith, some}
use hazel_osal.Prelude.Ids.{update}
use hazel_osal.Errno.{ok}
use hazel_osal.Freertos.Objects.{Sys, is_at}
use hazel_osal.Freertos.Mutex.{Attempt, lock_again, lock_try, unlock_locked}

again :
    (s : Sys) (m curr timeout elapsed : ℕ)
    → (s.mutexes m).owner ≡ some curr
    → lock_try s m curr timeout elapsed ≡ (Attempt.returns (ok 0), lock_again s m)
unfolding lock_try
again s m curr timeout elapsed o = rw (o, lock_try) (ground arith)

-- what an unlock leaves of a mutex that stays locked
lowered : Sys → ℕ → Sys
lowered s m = record s {
  mutexes = update s.mutexes m (record (s.mutexes m) { lock_count = (s.mutexes m).lock_count - 1 });
}

lowers :
    (s : Sys) (m curr : ℕ)
    → is_at (s.mutexes m).owner curr ≡ true
    → ((s.mutexes m).lock_count == 0) ≡ false
    → ((s.mutexes m).lock_count - 1 == 0) ≡ false
    → unlock_locked s m curr ≡ (ok 0, lowered s m)
unfolding unlock_locked lowered
lowers s m curr o some_in more = rw (o, some_in, more, unlock_locked) refl

unlocks :
    (s : Sys) (m curr : ℕ)
    → (s.mutexes m).owner ≡ some curr
    → 0 < (s.mutexes m).lock_count
    → (s.mutexes m).lock_count + 1 < 2 ^ 32
    → unlock_locked (lock_again s m) m curr ≡ (ok 0, lowered (lock_again s m) m)
unfolding lock_again
unlocks s m curr o held room =
    lowers (lock_again s m) m curr (ground (arith, o)) (ground (arith, held, room))
      (ground (arith, held, room))

-- If the owner of a locked mutex, whose count stays below 2^32, locks it and unlocks it, both
-- calls succeed, and threads, queues and mutexes are as before.
pub unlock-lock_try :
    (s : Sys) (m curr timeout elapsed : ℕ)
    → (s.mutexes m).owner ≡ some curr
    → 0 < (s.mutexes m).lock_count
    → (s.mutexes m).lock_count + 1 < 2 ^ 32
    → let s' = (unlock_locked (lock_try s m curr timeout elapsed).1 m curr).1 in
      ((lock_try s m curr timeout elapsed).0 ≡ Attempt.returns (ok 0))
      × ((unlock_locked (lock_try s m curr timeout elapsed).1 m curr).0 ≡ ok 0)
      × (s'.threads ≡ s.threads)
      × (s'.waiters ≡ s.waiters)
      × ((n : ℕ) → s'.mutexes n ≡ s.mutexes n)
unfolding lock_again lowered
unlock-lock_try s m curr timeout elapsed o held room =
    rw (again s m curr timeout elapsed o, unlocks s m curr o held room)
      (refl, refl, refl, refl, λ n. ground (arith, held, room))
