-- ===== src/Freertos/Thread/Laws.antt =====
-- thread.c of FreeRTOS keeps the laws of Life/Calls.antt.
use hazel_osal.Prelude.{
  ℕ, zero, suc, ◌≡◌, ◌⊎◌, refl, ap, ◌∙◌, inl, inr, Bool, true, false, ◌||◌, not, Option, none, some,
  List, [], ◌∷◌, arith, Bool-cases, Option-cases,
}
use hazel_osal.Prelude.Ids.{has, update, remove}
use hazel_osal.Errno.{Result, err, einval, ebusy, ealready, ewouldblock}
use hazel_osal.Prelude.Int.{ℤ, pos, negsuc}
use hazel_osal.Freertos.Mutex.{is_empty}
use hazel_osal.Freertos.Mutex.Deadlock.{next_owner}
use hazel_osal.Life.{Life, returns, goes_on}
use hazel_osal.Life.Machine.{abort_life}
use hazel_osal.Life.Calls.{Calls, Laws}
use hazel_osal.Life.Calls.Forms.{join-Outcome, delete-Outcome, cancel-Outcome}
use hazel_osal.Freertos.Objects.{Sys}
use hazel_osal.Freertos.Waitq.{unlink_from}
use hazel_osal.Freertos.Mutex.Inherit.{
  set_priority, requeue, compute_priority, update_chain, update_pi_chain,
}
use hazel_osal.Freertos.Thread.{
  set_life, entry_complete, entry_signal, reap, join_enter, join_timeout, delete_enter, cancel,
  detach, abort_enter, abort_signal,
}

abbrev pub life_of : ℕ → Sys → Life
life_of t s = (s.threads t).life

set_priority-life : (s : Sys) (t u : ℕ) (p : ℤ) → life_of u (set_priority s t p) ≡ life_of u s
unfolding set_priority
set_priority-life s t u (negsuc n) = refl
set_priority-life s t u (pos p) = ground arith

update_chain-life :
    (d : ℕ) (visited : List ℕ) (s : Sys) (o : Option ℕ) (u : ℕ)
    → life_of u (update_chain d visited s o) ≡ life_of u s
unfolding update_chain requeue
update_chain-life zero visited s o u = refl
update_chain-life (suc d) visited s none u = refl
update_chain-life (suc d) visited s (some t) u =
    let s' = set_priority s t (compute_priority s t) in
    let kept = set_priority-life s t u (compute_priority s t) in
    elim (Bool-cases (has t visited)) [
      | inl seen ↦ rw (seen, update_chain) refl
      | inr new ↦ elim (Option-cases (s.threads t).waiting_mutex) [
        | inl last ↦ rw (new, last, update_chain) kept
        | inr (m, e) ↦
            rw (new, e, update_chain)
              (update_chain-life d (t ∷ visited) (requeue s' t m) (s.mutexes m).owner u ∙ kept)
      ]
    ]

detach-life : (s : Sys) (t u : ℕ) → life_of u (detach s t) ≡ life_of u s
unfolding detach unlink_from update_pi_chain
detach-life s t u = elim (Option-cases (s.threads t).wait_q) [
  | inl off ↦ rw (off, detach) refl
  | inr (q, e) ↦
      rw (e, detach, unlink_from)
        (update_chain-life 16 []
            (record s {
              threads =
                  update s.threads t (record (s.threads t) { wait_q = none; waiting_mutex = none });
              waiters = update s.waiters q (remove t (s.waiters q));
            })
            (next_owner s t) u
          ∙ ground arith)
]

set_life-life : (s : Sys) (t : ℕ) (life : Life) → life_of t (set_life s t life) ≡ life
set_life-life s t life = ground arith

-- Which tests an abort has passed that goes on.
pub abort_enter-passed :
    (isr self : Bool) (s : Sys) (t : ℕ)
    → (abort_enter isr self s t).0 ≡ goes_on
    → ((life_of t s).completion_handle ≡ true) × (is_empty (s.threads t).owned_mutexes ≡ true)
unfolding abort_enter
abort_enter-passed isr self s t go =
    let thread = s.threads t in
    elim (Bool-cases (not thread.handle || not thread.life.completion_handle)) [
      | inl bare ↦ let go' = rw (bare, abort_enter) at go in cc
      | inr made ↦ elim (Bool-cases isr) [
        | inl in_isr ↦ let go' = rw (made, in_isr, abort_enter) at go in cc
        | inr task ↦ elim (Bool-cases thread.life.completed) [
          | inl done ↦ let go' = rw (made, task, done, abort_enter) at go in cc
          | inr runs ↦ elim (Bool-cases (is_empty thread.owned_mutexes)) [
            | inr owns ↦ let go' = rw (made, task, runs, owns, abort_enter) at go in cc
            | inl owns_none ↦ (ground (arith, made), owns_none)
          ]
        ]
      ]
    ]

abort_enter-cases :
    (isr self : Bool) (s : Sys) (t : ℕ)
    → ((r : Result) × (abort_enter isr self s t ≡ (returns r, s)))
      ⊎ (((abort_enter isr self s t).0 ≡ goes_on)
          × ((life_of t s).completed ≡ false)
          × (life_of t (abort_enter isr self s t).1 ≡ abort_life (life_of t s)))
unfolding abort_enter
abort_enter-cases isr self s t =
    let thread = s.threads t in
    elim (Bool-cases (not thread.handle || not thread.life.completion_handle)) [
      | inl bare ↦ inl (err einval, rw (bare, abort_enter) refl)
      | inr made ↦ elim (Bool-cases isr) [
        | inl in_isr ↦ inl (err ewouldblock, rw (made, in_isr, abort_enter) refl)
        | inr task ↦ elim (Bool-cases thread.life.completed) [
          | inl done ↦ inl (err ealready, rw (made, task, done, abort_enter) refl)
          | inr runs ↦ elim (Bool-cases (is_empty thread.owned_mutexes)) [
            | inr owns ↦ inl (err ebusy, rw (made, task, runs, owns, abort_enter) refl)
            | inl owns_none ↦ inr (
              rw (made, task, runs, owns_none, abort_enter) refl,
              runs,
              rw (made, task, runs, owns_none, abort_enter) (ground (arith, detach-life s t t)),
            )
          ]
        ]
      ]
    ]

-- An abort that goes on.
pub abort_enter-life :
    (isr self : Bool) (s : Sys) (t : ℕ)
    → (abort_enter isr self s t).0 ≡ goes_on
    → life_of t (abort_enter isr self s t).1 ≡ abort_life (life_of t s)
abort_enter-life isr self s t go = elim (abort_enter-cases isr self s t) [
  | inl (r, e) ↦ let same = ap (λ b. b.0) e in cc
  | inr (g, n, e) ↦ e
]

join_enter-cases :
    (isr self : Bool) (s : Sys) (t : ℕ)
    → ((r : Result) × (join_enter isr self s t ≡ (returns r, s)))
      ⊎ (((join_enter isr self s t).0 ≡ goes_on)
          × ((life_of t s).completion_reaped ≡ false)
          × ((life_of t s).join_active ≡ false)
          × (life_of t (join_enter isr self s t).1 ≡ record (life_of t s) { join_active = true }))
unfolding join_enter
join_enter-cases isr self s t =
    let life = record (life_of t s) { join_active = true } in
    elim (join-Outcome isr self (life_of t s) s (set_life s t life)) [
      | inl stays ↦ inl stays
      | inr ((reaped, active), e) ↦
          inr (ap (λ b. b.0) e, reaped, active, ap (λ b. life_of t b.1) e ∙ set_life-life s t life)
    ]

delete_enter-cases :
    (isr : Bool) (s : Sys) (t : ℕ)
    → ((r : Result) × (delete_enter isr s t ≡ (returns r, s)))
      ⊎ (((delete_enter isr s t).0 ≡ goes_on)
          × ((life_of t s).completion_reaped ≡ false)
          × ((life_of t s).completed ≡ true)
          × ((life_of t s).completion_signaled ≡ true)
          × ((life_of t s).join_active ≡ false)
          × (life_of t (delete_enter isr s t).1 ≡ record (life_of t s) { join_active = true }))
unfolding delete_enter
delete_enter-cases isr s t =
    let life = record (life_of t s) { join_active = true } in
    elim (delete-Outcome isr (life_of t s) s (set_life s t life)) [
      | inl stays ↦ inl stays
      | inr ((reaped, completed, signaled, active), e) ↦ inr (
        ap (λ b. b.0) e,
        reaped,
        completed,
        signaled,
        active,
        ap (λ b. life_of t b.1) e ∙ set_life-life s t life,
      )
    ]

cancel-cases :
    (isr : Bool) (s : Sys) (t : ℕ)
    → ((cancel isr s t).1 ≡ s)
      ⊎ (((life_of t s).completed ≡ false)
          × (life_of t (cancel isr s t).1 ≡ record (life_of t s) { cancel_requested = true }))
unfolding cancel
cancel-cases isr s t =
    let life = record (life_of t s) { cancel_requested = true } in
    elim (cancel-Outcome (s.threads t).handle isr (life_of t s).completed s (set_life s t life)) [
      | inl (result, e) ↦ inl (ap (λ b. b.1) e)
      | inr (runs, e) ↦ inr (runs, ap (λ b. life_of t b.1) e ∙ set_life-life s t life)
    ]

-- the calls, for the thread at an address
abbrev pub calls : ℕ → Calls Sys
calls t = record {
  life_of = life_of t;
  entry_complete = λ s. entry_complete s t;
  entry_signal = λ s. entry_signal s t;
  join_enter = λ isr self s. join_enter isr self s t;
  join_timeout = λ timeout s. join_timeout timeout s t;
  reap = λ s. reap s t;
  delete_enter = λ isr s. delete_enter isr s t;
  cancel = λ isr s. cancel isr s t;
  abort_enter = λ isr self s. abort_enter isr self s t;
  abort_signal = λ s. abort_signal s t;
}

pub laws : (t : ℕ) → Laws Sys (calls t)
unfolding entry_complete entry_signal join_timeout reap abort_signal
laws t = record {
  entry_complete_lem = λ s. ground arith;
  entry_signal_lem = λ s. ground arith;
  join_enter_lem = λ isr self s. join_enter-cases isr self s t;
  join_timeout_lem = λ timeout s. ground arith;
  reap_lem = λ s. ground arith;
  delete_enter_lem = λ isr s. delete_enter-cases isr s t;
  cancel_lem = λ isr s. cancel-cases isr s t;
  abort_enter_lem = λ isr self s. abort_enter-cases isr self s t;
  abort_signal_lem = λ s. ground arith;
}
