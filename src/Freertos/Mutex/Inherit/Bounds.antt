-- ===== src/Freertos/Mutex/Inherit/Bounds.antt =====
-- The priority that a thread inherits.
use hazel_osal.Prelude.{
  ℕ, ◌≡◌, ◌⊎◌, refl, ◌∙◌, inl, inr, true, List, [], ◌∷◌, if◌then◌else◌, arith, Bool-cases,
}
use hazel_osal.Prelude.Int.{ℤ, ◌≤ℤ◌, ltb_ℤ}
use hazel_osal.Prelude.Ids.{has, has_cases}
use hazel_osal.Freertos.Objects.{Thread, Sys, priority_of}
use hazel_osal.Freertos.Mutex.Inherit.{over_waiters, over_owned, compute_priority}

-- a round of the inner loop
abbrev raised : Thread → ℤ → ℤ
raised thread p = if ltb_ℤ p (priority_of thread) then priority_of thread else p

raised_ge :
    (thread : Thread) (p : ℤ) → (p ≤ℤ raised thread p) × (priority_of thread ≤ℤ raised thread p)
raised_ge thread p = ground arith

over_waiters_ge : (threads : ℕ → Thread) (l : List ℕ) (p : ℤ) → p ≤ℤ over_waiters threads l p
unfolding over_waiters
over_waiters_ge threads [] p = omega arith
over_waiters_ge threads (w ∷ l) p =
    omega (arith, over_waiters_ge threads l (raised (threads w) p), (raised_ge (threads w) p).0)

over_waiters-has :
    (threads : ℕ → Thread) (l : List ℕ) (p : ℤ) (w : ℕ)
    → has w l ≡ true
    → priority_of (threads w) ≤ℤ over_waiters threads l p
unfolding over_waiters
over_waiters-has threads [] p w h = cc
over_waiters-has threads (x ∷ l) p w h = elim (has_cases w x l h) [
  | inl e ↦
      rw e (
        omega
          (arith, over_waiters_ge threads l (raised (threads x) p), (raised_ge (threads x) p).1))
  | inr later ↦ over_waiters-has threads l (raised (threads x) p) w later
]

over_owned_ge : (s : Sys) (l : List ℕ) (p : ℤ) → p ≤ℤ over_owned s l p
unfolding over_owned
over_owned_ge s [] p = omega arith
over_owned_ge s (m ∷ l) p = omega (
  arith,
  over_owned_ge s l (over_waiters s.threads (s.waiters m) p),
  over_waiters_ge s.threads (s.waiters m) p,
)

over_owned-has :
    (s : Sys) (l : List ℕ) (p : ℤ) (m w : ℕ)
    → has m l ≡ true
    → has w (s.waiters m) ≡ true
    → priority_of (s.threads w) ≤ℤ over_owned s l p
unfolding over_owned
over_owned-has s [] p m w h i = cc
over_owned-has s (x ∷ l) p m w h i =
    let q = over_waiters s.threads (s.waiters x) p in
    elim (has_cases m x l h) [
      | inl e ↦
          omega
            (arith, over_owned_ge s l q, over_waiters-has s.threads (s.waiters x) p w (rw e at i))
      | inr later ↦ over_owned-has s l q m w later i
    ]

-- Where a priority comes from.
abbrev pub IsFrom : Sys → List ℕ → (base p : ℤ) → Type 0
IsFrom s l base p =
    (p ≡ base)
    ⊎ ((m : ℕ) × (w : ℕ) × (has m l ≡ true)
        × (has w (s.waiters m) ≡ true)
        × (p ≡ priority_of (s.threads w)))

over_waiters-from :
    (threads : ℕ → Thread) (l : List ℕ) (p : ℤ)
    → (over_waiters threads l p ≡ p)
      ⊎ ((w : ℕ) × (has w l ≡ true) × (over_waiters threads l p ≡ priority_of (threads w)))
unfolding over_waiters
over_waiters-from threads [] p = inl refl
over_waiters-from threads (x ∷ l) p =
    let t = ltb_ℤ p (priority_of (threads x)) in
    elim (Bool-cases t) [
      | inl up ↦ elim (over_waiters-from threads l (priority_of (threads x))) [
        | inl e ↦ inr (x, ground arith, rw up e)
        | inr (w, h, e) ↦ inr (w, ground arith, rw up e)
      ]
      | inr down ↦ elim (over_waiters-from threads l p) [
        | inl e ↦ inl (rw down e)
        | inr (w, h, e) ↦ inr (w, ground arith, rw down e)
      ]
    ]

over_owned-IsFrom : (s : Sys) (l : List ℕ) (p : ℤ) → IsFrom s l p (over_owned s l p)
unfolding over_owned
over_owned-IsFrom s [] p = inl refl
over_owned-IsFrom s (x ∷ l) p =
    elim (over_owned-IsFrom s l (over_waiters s.threads (s.waiters x) p)) [
      | inl e ↦ elim (over_waiters-from s.threads (s.waiters x) p) [
        | inl e' ↦ inl (e ∙ e')
        | inr (w, h, e') ↦ inr (x, w, ground arith, h, e ∙ e')
      ]
      | inr (m, w, h, i, e) ↦ inr (m, w, ground arith, i, e)
    ]

-- What `os_mutex_compute_priority_locked` finds for a thread with a handle: the least number that is
-- at least its base priority and what os_thread_get_priority returns for each thread that waits for
-- one of its mutexes.
abbrev pub IsHighest : Sys → List ℕ → (base p : ℤ) → Type 0
IsHighest s l base p =
    (base ≤ℤ p)
    × ((m w : ℕ) → has m l ≡ true → has w (s.waiters m) ≡ true → priority_of (s.threads w) ≤ℤ p)
    × IsFrom s l base p

pub compute_priority-IsHighest :
    (s : Sys) (t : ℕ)
    → (s.threads t).handle ≡ true
    → IsHighest s (s.threads t).owned_mutexes (s.threads t).base_priority (compute_priority s t)
unfolding compute_priority
compute_priority-IsHighest s t up =
    let owned = (s.threads t).owned_mutexes in
    let base = (s.threads t).base_priority in
    rw (up, compute_priority)
      (
        over_owned_ge s owned base,
        (λ m w h i. over_owned-has s owned base m w h i),
        over_owned-IsFrom s owned base,
      )
