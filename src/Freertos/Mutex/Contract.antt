-- ===== src/Freertos/Mutex/Contract.antt =====
-- The mutexes of FreeRTOS keep the promise of Lock.antt.
use hazel_osal.Prelude.{
  ℕ, zero, suc, ◌+◌, ◌-◌, ◌^◌, ◌<◌, ◌≡◌, refl, ◌∙◌, inl, inr, true, false, Option, none, some, List,
  [], ◌∷◌, ◌==◌, arith, Bool-cases, Option-cases,
}
use hazel_osal.Prelude.Ids.{has}
use hazel_osal.Lock.{Lock, free, try, unlock}
use hazel_osal.Prelude.Int.{ℤ, pos, negsuc}
use hazel_osal.Freertos.Objects.{Sys}
use hazel_osal.Freertos.Mutex.{
  Attempt, acquire, lock_again, lock_try, lock_guard, trylock, wake_head, disown, release,
  unlock_locked,
}
use hazel_osal.Freertos.Mutex as Code
use hazel_osal.Freertos.Mutex.Inherit.{
  compute_priority, set_priority, requeue, update_chain, update_pi_chain,
}
use hazel_osal.Freertos.Mutex.Invariant.{Inv}

abbrev pub view : Sys → ℕ → Lock
view s m = record { owner = (s.mutexes m).owner; count = (s.mutexes m).lock_count }

set_priority-mutexes : (s : Sys) (t : ℕ) (p : ℤ) → (set_priority s t p).mutexes ≡ s.mutexes
unfolding set_priority
set_priority-mutexes s t (negsuc n) = refl
set_priority-mutexes s t (pos p) = ground arith

update_chain-mutexes :
    (d : ℕ) (visited : List ℕ) (s : Sys) (o : Option ℕ)
    → (update_chain d visited s o).mutexes ≡ s.mutexes
unfolding update_chain requeue
update_chain-mutexes zero visited s o = refl
update_chain-mutexes (suc d) visited s none = refl
update_chain-mutexes (suc d) visited s (some t) =
    let s' = set_priority s t (compute_priority s t) in
    let kept = set_priority-mutexes s t (compute_priority s t) in
    elim (Bool-cases (has t visited)) [
      | inl seen ↦ rw (seen, update_chain) refl
      | inr new ↦ elim (Option-cases (s.threads t).waiting_mutex) [
        | inl last ↦ rw (new, last, update_chain) kept
        | inr (m, e) ↦
            rw (new, e, update_chain)
              (update_chain-mutexes d (t ∷ visited) (requeue s' t m) (s.mutexes m).owner ∙ kept)
      ]
    ]

wake_head-mutexes : (s : Sys) (m : ℕ) (l : List ℕ) → (wake_head s m l).mutexes ≡ s.mutexes
unfolding wake_head
wake_head-mutexes s m [] = refl
wake_head-mutexes s m (t ∷ l) = refl

trylock-Lock :
    (s : Sys) (m curr : ℕ)
    → (s.mutexes m).initialized ≡ true
    → (s.mutexes m).lock_count + 1 < 2 ^ 32
    → let (a, s') = trylock false s m (some curr) in
      (a ≡ Attempt.returns (try (view s m) curr).0) × (view s' m ≡ (try (view s m) curr).1)
unfolding trylock lock_guard lock_try acquire lock_again
trylock-Lock s m curr i room = elim (Option-cases (s.mutexes m).owner) [
  | inl none_has ↦ rw (i, none_has, trylock, lock_try) (refl, ground arith)
  | inr (o, e) ↦ elim (Bool-cases (o == curr)) [
    | inl own ↦ rw (i, e, own, trylock, lock_try) (refl, ground (arith, room))
    | inr other ↦ rw (i, e, other, trylock, lock_try) (refl, ground arith)
  ]
]

-- what the last unlock leaves of the mutexes
release-mutexes : (s : Sys) (m curr : ℕ) → (release s m curr).mutexes ≡ (disown s m curr).mutexes
unfolding release update_pi_chain
release-mutexes s m curr =
    update_chain-mutexes 16 [] (wake_head (disown s m curr) m (s.waiters m)) (some curr)
    ∙ wake_head-mutexes (disown s m curr) m (s.waiters m)

release-view : (s : Sys) (m curr : ℕ) → view (release s m curr) m ≡ free
unfolding disown
release-view s m curr = rw (release-mutexes s m curr) (ground arith)

unlock-Lock :
    (s : Sys) (m curr : ℕ)
    → Inv s
    → (s.mutexes m).initialized ≡ true
    → let (r, s') = Code.unlock false s m (some curr) in
      (r ≡ (unlock (view s m) curr).0) × (view s' m ≡ (unlock (view s m) curr).1)
unfolding Code.unlock lock_guard unlock_locked
unlock-Lock s m curr v i = elim (Option-cases (s.mutexes m).owner) [
  | inl none_has ↦ rw (i, none_has, Code.unlock, unlock_locked) (refl, ground arith)
  | inr (o, e) ↦ elim (Bool-cases (o == curr)) [
    | inr other ↦ rw (i, e, other, Code.unlock, unlock_locked) (refl, ground arith)
    | inl own ↦
        let held : ((s.mutexes m).lock_count == 0) ≡ false = ground (arith, v.counted m, e) in
        elim (Bool-cases ((s.mutexes m).lock_count - 1 == 0)) [
          | inl last ↦
              let one : ((s.mutexes m).lock_count == 1) ≡ true = ground (arith, held, last) in
              rw (i, e, own, held, last, one, Code.unlock, unlock_locked)
                (refl, release-view s m curr)
          | inr more ↦
              let many : ((s.mutexes m).lock_count == 1) ≡ false = ground (arith, held, more) in
              rw (i, e, own, held, more, many, Code.unlock, unlock_locked) (refl, ground arith)
        ]
  ]
]

-- In a state that satisfies the invariant, outside an interrupt handler, on an initialized mutex
-- whose count stays below 2^32, os_mutex_trylock and os_mutex_unlock by a thread return what the
-- recursive lock of Lock.antt returns and change the owner and the count as it does.
pub mutex-Lock :
    (s : Sys) (m curr : ℕ)
    → Inv s
    → (s.mutexes m).initialized ≡ true
    → (s.mutexes m).lock_count + 1 < 2 ^ 32
    → let tried = trylock false s m (some curr) in
      let unlocked = Code.unlock false s m (some curr) in
      (tried.0 ≡ Attempt.returns (try (view s m) curr).0)
      × (view tried.1 m ≡ (try (view s m) curr).1)
      × (unlocked.0 ≡ (unlock (view s m) curr).0)
      × (view unlocked.1 m ≡ (unlock (view s m) curr).1)
mutex-Lock s m curr v i room =
    let (a, b) = trylock-Lock s m curr i room in
    let (c, d) = unlock-Lock s m curr v i in (a, b, c, d)
