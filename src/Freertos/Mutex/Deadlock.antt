-- ===== src/Freertos/Mutex/Deadlock.antt =====
-- The chain of owners that `os_mutex_would_deadlock_locked` follows.
use hazel_osal.Prelude.{
  ℕ, zero, suc, ◌≡◌, ◌↔◌, ◌⊎◌, refl, inl, inr, Bool, true, false, not, Option, none, some, List, [],
  ◌∷◌, ◌==◌, if◌then◌else◌, arith, Option-cases,
}
use hazel_osal.Prelude.Ids.{has}
use hazel_osal.Freertos.Objects.{Sys, is_on}
use hazel_osal.Freertos.Mutex.Inherit.{pi_max_chain_depth}

-- the owner of the mutex that a thread waits for
abbrev pub next_owner : Sys → ℕ → Option ℕ
next_owner s t = elim (s.threads t).waiting_mutex [ none ↦ none | some m ↦ (s.mutexes m).owner ]

-- the loop: `depth` counts the rounds that are left
unfoldable pub meets : (depth : ℕ) → Sys → ℕ → (owner : Option ℕ) → Bool
meets zero s t owner = is_on owner
meets (suc depth) s t none = false
meets (suc depth) s t (some owner) =
    let next = meets depth s t (next_owner s owner) in
    if owner == t then true else if not (is_on (s.threads owner).waiting_mutex) then false else next

unfoldable pub would_deadlock : Sys → (thread mutex : ℕ) → Bool
unfolding meets
would_deadlock s t m = meets pi_max_chain_depth s t (s.mutexes m).owner

-- The chain of a function from threads to threads ends within a number of threads.
unfoldable pub ends : ℕ → (ℕ → Option ℕ) → Option ℕ → Bool
ends d f none = true
ends zero f (some t) = false
ends (suc d) f (some t) = ends d f (f t)

abbrev pub Ends : (ℕ → Option ℕ) → Option ℕ → Type 0
Ends f o = (d : ℕ) × (ends d f o ≡ true)

-- the first threads of a chain
unfoldable pub chain : ℕ → (ℕ → Option ℕ) → Option ℕ → List ℕ
chain d f none = []
chain zero f (some t) = []
chain (suc d) f (some t) = t ∷ chain d f (f t)

-- If each thread keeps its next one, or gets one from which the chain ends, chains still end.
pub ends-Ends :
    (f g : ℕ → Option ℕ)
    → ((u : ℕ) → (g u ≡ f u) ⊎ Ends g (g u))
    → (d : ℕ) (o : Option ℕ) → ends d f o ≡ true
    → Ends g o
unfolding ends
ends-Ends f g h d none e = (0, refl)
ends-Ends f g h zero (some t) e = cc
ends-Ends f g h (suc d) (some t) e = elim (h t) [
  | inl same ↦ let (d', e') = ends-Ends f g h d (f t) e in (suc d', rw same e')
  | inr (d', e') ↦ (suc d', e')
]

meets-none : (d : ℕ) (s : Sys) (t : ℕ) → meets d s t none ≡ false
unfolding meets
meets-none zero s t = refl
meets-none (suc d) s t = refl

-- A round of the search.
meets-some :
    (d : ℕ) (s : Sys) (t o : ℕ)
    → meets (suc d) s t (some o) ≡ (if o == t then true else meets d s t (next_owner s o))
unfolding meets
meets-some d s t o = elim (Option-cases (s.threads o).waiting_mutex) [
  | inl free ↦ rw free (ground (arith, meets-none d s t))
  | inr (m, e) ↦ rw e (ground arith)
]

-- A search that finds no deadlock has followed the chain to its end without meeting the thread.
pub meets-Ends :
    (s : Sys) (t : ℕ) (g : ℕ → Option ℕ)
    → ((u : ℕ) → (u == t) ≡ false → g u ≡ next_owner s u)
    → (d : ℕ) (o : Option ℕ) → meets d s t o ≡ false
    → Ends g o
unfolding meets ends
meets-Ends s t g h d none e = (0, refl)
meets-Ends s t g h zero (some o) e = cc
meets-Ends s t g h (suc d) (some o) e =
    let other : (o == t) ≡ false = ground (arith, meets-some d s t o) in
    let next : meets d s t (next_owner s o) ≡ false = ground (arith, meets-some d s t o) in
    let (d', e') = meets-Ends s t g h d (next_owner s o) next in (suc d', rw (h o other) e')

meets_iff :
    (s : Sys) (t d : ℕ) (o : Option ℕ)
    → (meets d s t o ≡ false)
      ↔ ((has t (chain d (next_owner s) o) ≡ false) × (ends d (next_owner s) o ≡ true))
unfolding meets chain ends
meets_iff s t zero none = ((λ h. (refl, refl)), (λ h. refl))
meets_iff s t zero (some o) = ((λ h. cc), (λ h. absurd (ground arith)))
meets_iff s t (suc d) none = ((λ h. (refl, refl)), (λ h. refl))
meets_iff s t (suc d) (some o) =
    let rest = meets_iff s t d (next_owner s o) in
    rw (meets-some d s t o) ((λ h. ground (arith, rest.0)), (λ h. ground (arith, rest.1)))

-- os_mutex_would_deadlock_locked is false exactly if the chain of owners from the mutex ends
-- within 16 threads and the calling thread is not on it.
pub would_deadlock_iff :
    (s : Sys) (t m : ℕ)
    → (would_deadlock s t m ≡ false) ↔ (
        (has t (chain pi_max_chain_depth (next_owner s) (s.mutexes m).owner) ≡ false)
        × (ends pi_max_chain_depth (next_owner s) (s.mutexes m).owner ≡ true))
unfolding would_deadlock
would_deadlock_iff s t m = meets_iff s t pi_max_chain_depth (s.mutexes m).owner
