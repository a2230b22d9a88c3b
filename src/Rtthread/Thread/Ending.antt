-- ===== src/Rtthread/Thread/Ending.antt =====
-- The end of a RT-Thread thread: thread.c keeps the laws of Life/Calls.antt.
use hazel_osal.Prelude.{
  ℕ, ◌≡◌, ◌⊎◌, refl, ap, sym, subst, ◌∙◌, inl, inr, Bool, true, false, ◌||◌, not, arith, Bool-cases,
}
use hazel_osal.Errno.{Result, err, einval, edeadlk, ealready, ewouldblock}
use hazel_osal.Life.{Life, zero_life, returns, goes_on}
use hazel_osal.Life.Machine.{is_given, is_active, begun, abort_life}
use hazel_osal.Life.Machine.Safety.{Safe, begun-Safe}
use hazel_osal.Life.Machine.Reached.{joinable}
use hazel_osal.Life.Calls.{Calls, Laws}
use hazel_osal.Life.Calls.Forms.{join-Outcome, delete-Outcome, cancel-Outcome}
use hazel_osal.Life.Calls.Refines.{Run, RunReach, started, view, calls-Safe}
use hazel_osal.Prelude.Int.{ℤ}
use hazel_osal.Rtthread.Waitq.{Sys}
use hazel_osal.Rtthread.Thread.{
  create, set_life, entry_complete, entry_signal, reap, join_enter, join_timeout, delete_enter,
  cancel, abort_enter, abort_signal,
}

abbrev pub life_of : ℕ → Sys → Life
life_of t s = (s.threads t).life

set_life-life : (s : Sys) (t : ℕ) (life : Life) → life_of t (set_life s t life) ≡ life
set_life-life s t life = ground arith

abort_enter-cases :
    (isr self : Bool) (s : Sys) (t : ℕ)
    → ((r : Result) × (abort_enter isr self s t ≡ (returns r, s)))
      ⊎ (((abort_enter isr self s t).0 ≡ goes_on)
          × ((life_of t s).completed ≡ false)
          × (life_of t (abort_enter isr self s t).1 ≡ abort_life (life_of t s)))
unfolding abort_enter
abort_enter-cases isr self s t =
    let thread = s.threads t in
    elim (Bool-cases (not thread.handle || not thread.life.completion_handle)) [
      | inl bare ↦ inl (err einval, rw (bare, abort_enter) refl)
      | inr made ↦ elim (Bool-cases isr) [
        | inl in_isr ↦ inl (err ewouldblock, rw (made, in_isr, abort_enter) refl)
        | inr task ↦ elim (Bool-cases self) [
          | inl own ↦ inl (err edeadlk, rw (made, task, own, abort_enter) refl)
          | inr other ↦ elim (Bool-cases thread.life.completed) [
            | inl done ↦ inl (err ealready, rw (made, task, other, done, abort_enter) refl)
            | inr runs ↦ inr (
              rw (made, task, other, runs, abort_enter) refl,
              runs,
              rw (made, task, other, runs, abort_enter) (ground arith),
            )
          ]
        ]
      ]
    ]

join_enter-cases :
    (isr self : Bool) (s : Sys) (t : ℕ)
    → ((r : Result) × (join_enter isr self s t ≡ (returns r, s)))
      ⊎ (((join_enter isr self s t).0 ≡ goes_on)
          × ((life_of t s).completion_reaped ≡ false)
          × ((life_of t s).join_active ≡ false)
          × (life_of t (join_enter isr self s t).1 ≡ record (life_of t s) { join_active = true }))
unfolding join_enter
join_enter-cases isr self s t =
    let life = record (life_of t s) { join_active = true } in
    elim (join-Outcome isr self (life_of t s) s (set_life s t life)) [
      | inl stays ↦ inl stays
      | inr ((reaped, active), e) ↦
          inr (ap (λ b. b.0) e, reaped, active, ap (λ b. life_of t b.1) e ∙ set_life-life s t life)
    ]

delete_enter-cases :
    (isr : Bool) (s : Sys) (t : ℕ)
    → ((r : Result) × (delete_enter isr s t ≡ (returns r, s)))
      ⊎ (((delete_enter isr s t).0 ≡ goes_on)
          × ((life_of t s).completion_reaped ≡ false)
          × ((life_of t s).completed ≡ true)
          × ((life_of t s).completion_signaled ≡ true)
          × ((life_of t s).join_active ≡ false)
          × (life_of t (delete_enter isr s t).1 ≡ record (life_of t s) { join_active = true }))
unfolding delete_enter
delete_enter-cases isr s t =
    let life = record (life_of t s) { join_active = true } in
    elim (delete-Outcome isr (life_of t s) s (set_life s t life)) [
      | inl stays ↦ inl stays
      | inr ((reaped, completed, signaled, active), e) ↦ inr (
        ap (λ b. b.0) e,
        reaped,
        completed,
        signaled,
        active,
        ap (λ b. life_of t b.1) e ∙ set_life-life s t life,
      )
    ]

cancel-cases :
    (isr : Bool) (s : Sys) (t : ℕ)
    → ((cancel isr s t).1 ≡ s)
      ⊎ (((life_of t s).completed ≡ false)
          × (life_of t (cancel isr s t).1 ≡ record (life_of t s) { cancel_requested = true }))
unfolding cancel
cancel-cases isr s t =
    let life = record (life_of t s) { cancel_requested = true } in
    elim (cancel-Outcome (s.threads t).handle isr (life_of t s).completed s (set_life s t life)) [
      | inl (result, e) ↦ inl (ap (λ b. b.1) e)
      | inr (runs, e) ↦ inr (runs, ap (λ b. life_of t b.1) e ∙ set_life-life s t life)
    ]

-- the calls, for the thread at an address
abbrev pub calls : ℕ → Calls Sys
calls t = record {
  life_of = life_of t;
  entry_complete = λ s. entry_complete s t;
  entry_signal = λ s. entry_signal s t;
  join_enter = λ isr self s. join_enter isr self s t;
  join_timeout = λ timeout s. join_timeout timeout s t;
  reap = λ s. reap s t;
  delete_enter = λ isr s. delete_enter isr s t;
  cancel = λ isr s. cancel isr s t;
  abort_enter = λ isr self s. abort_enter isr self s t;
  abort_signal = λ s. abort_signal s t;
}

laws : (t : ℕ) → Laws Sys (calls t)
unfolding entry_complete entry_signal join_timeout reap abort_signal
laws t = record {
  entry_complete_lem = λ s. ground arith;
  entry_signal_lem = λ s. ground arith;
  join_enter_lem = λ isr self s. join_enter-cases isr self s t;
  join_timeout_lem = λ timeout s. ground arith;
  reap_lem = λ s. ground arith;
  delete_enter_lem = λ isr s. delete_enter-cases isr s t;
  cancel_lem = λ isr s. cancel-cases isr s t;
  abort_enter_lem = λ isr self s. abort_enter-cases isr self s t;
  abort_signal_lem = λ s. ground arith;
}

created :
    (max t : ℕ) (prio : ℤ) (s : Sys)
    → view (calls t) (started (create max s t prio true true true true).1)
      ≡ begun (record zero_life { completion_handle = true })
unfolding create
created max t prio s =
    let e : life_of t (create max s t prio true true true true).1
        ≡ record zero_life { completion_handle = true } =
      ground arith in
    ap begun e

created-Safe :
    (max t : ℕ) (prio : ℤ) (s : Sys)
    → Safe (view (calls t) (started (create max s t prio true true true true).1))
created-Safe max t prio s =
    subst Safe (sym (created max t prio s))
      (begun-Safe (record zero_life { completion_handle = true }) refl refl refl refl)

-- For an RT-Thread thread that os_thread_create has made, and every order of its own critical
-- sections and those of any number of clients that join, delete, cancel and abort it, with the
-- calls of the kernel between them, where the kernel deletes each aborted thread: at most one
-- client is in a join or a deletion, join_active is set exactly then, and the thread has not been
-- reaped then; the thread is reaped only after the release of its completion semaphore, and is
-- completed then; completion_handle is set exactly until the thread is reaped; and after the
-- release the semaphore holds its token, unless a client is reaping or the thread has been reaped.
pub Reach-Safe_rtthread :
    (max t : ℕ) (prio : ℤ) (s : Sys) (r : Run Sys)
    → RunReach (calls t) (started (create max s t prio true true true true).1) r
    → Safe (view (calls t) r)
Reach-Safe_rtthread max t prio s r reach =
    calls-Safe (calls t) (laws t) (started (create max s t prio true true true true).1) r
      (created-Safe max t prio s) reach

-- As for FreeRTOS, a thread whose semaphore has been released and that nobody joins can be joined.
pub ended-joinable_rtthread :
    (max t : ℕ) (prio : ℤ) (s : Sys) (r : Run Sys)
    → RunReach (calls t) (started (create max s t prio true true true true).1) r
    → is_given r.body ≡ true
    → (life_of t r.state).completion_reaped ≡ false
    → ((c : ℕ) → is_active (r.clients c) ≡ false)
    → (r.token ≡ true)
      × ((join_enter false false r.state t).0 ≡ goes_on)
      × ((life_of t (reap (join_enter false false r.state t).1 t)).completion_reaped ≡ true)
unfolding join_enter reap
ended-joinable_rtthread max t prio s r reach g n idle =
    let (token, handle, free) =
      joinable (view (calls t) r) (Reach-Safe_rtthread max t prio s r reach) g n idle in
    (token, ground (arith, n, handle, free), ground (arith, n, handle, free))
