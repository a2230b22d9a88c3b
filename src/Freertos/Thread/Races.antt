-- ===== src/Freertos/Thread/Races.antt =====
-- Orders of critical sections of thread.c in which a call touches a thread that has been reaped.
use hazel_osal.Prelude.{ℕ, ◌≡◌, refl, ap, subst, ◌∙◌, true, false, ◌==◌, arith}
use hazel_osal.Prelude.Ids.{update}
use hazel_osal.Prelude.Int.{ℤ}
use hazel_osal.Life.{goes_on}
use hazel_osal.Life.Machine.{Body, Phase}
use hazel_osal.Life.Calls.Refines.{Run, RunStep, RunReach, here, next, after-goes}
use hazel_osal.Freertos.Objects.{Sys}
use hazel_osal.Freertos.Thread.{
  create, entry_complete, entry_signal, join_enter, reap, delete_enter, abort_enter,
}
use hazel_osal.Freertos.Thread.Laws.{life_of, calls, abort_enter-passed, abort_enter-life}

joined :
    (s : Sys) (t : ℕ)
    → (life_of t s).completion_handle ≡ true
    → (life_of t s).completion_reaped ≡ false
    → (life_of t s).join_active ≡ false
    → ((join_enter false false s t).0 ≡ goes_on)
      × ((life_of t (reap (join_enter false false s t).1 t)).completion_reaped ≡ true)
      × ((life_of t (reap (join_enter false false s t).1 t)).completion_handle ≡ false)
      × (((reap (join_enter false false s t).1 t).threads t).handle ≡ false)
unfolding join_enter reap
joined s t h r j =
    (ground (arith, h, r, j), ground (arith, h, r, j), ground (arith, h, r, j), ground arith)

entry_complete-life :
    (s : Sys) (t : ℕ)
    → (life_of t (entry_complete s t)).completion_handle ≡ (life_of t s).completion_handle
unfolding entry_complete
entry_complete-life s t = ground arith

entry_complete-reaped :
    (s : Sys) (t : ℕ)
    → (life_of t (entry_complete s t)).completion_reaped ≡ (life_of t s).completion_reaped
unfolding entry_complete
entry_complete-reaped s t = ground arith

entry_complete-active :
    (s : Sys) (t : ℕ) → (life_of t (entry_complete s t)).join_active ≡ (life_of t s).join_active
unfolding entry_complete
entry_complete-active s t = ground arith

-- Let a client `c` call os_thread_abort on a FreeRTOS thread that runs and is neither reaped nor
-- being joined, and let the call pass its first critical section. Then there is a run, in which
-- the thread returns from its entry function and another client joins it, to a state in which the
-- thread is reaped, its handles are cleared and `c` has still to delete the task and to release
-- the completion semaphore, which is a step that can follow.
pub abort_enter-late :
    (r : Run Sys) (t c d : ℕ)
    → (c == d) ≡ false
    → r.body ≡ Body.running
    → r.clients c ≡ Phase.idle
    → r.clients d ≡ Phase.idle
    → (life_of t r.state).completion_reaped ≡ false
    → (life_of t r.state).join_active ≡ false
    → (abort_enter false false r.state t).0 ≡ goes_on
    → (r' : Run Sys) × RunReach (calls t) r r'
      × (r'.clients c ≡ Phase.killing)
      × ((life_of t r'.state).completion_reaped ≡ true)
      × ((life_of t r'.state).completion_handle ≡ false)
      × ((r'.state.threads t).handle ≡ false)
      × RunStep (calls t) r' (record r' {
        token = true;
        body = Body.ended;
        clients = update r'.clients c Phase.telling;
      })
unfolding entry_complete
abort_enter-late r t c d apart running c_idle d_idle unreaped unjoined go =
    let aborted = abort_enter false false r.state t in
    let l = abort_enter-life false false r.state t go in
    let passed = abort_enter-passed false false r.state t go in
    let over = entry_complete aborted.1 t in
    let (join_goes, reaped, bare, gone) =
      joined over t (entry_complete-life aborted.1 t ∙ ap (λ x. x.completion_handle) l ∙ passed.0)
        (entry_complete-reaped aborted.1 t ∙ ap (λ x. x.completion_reaped) l ∙ unreaped)
        (entry_complete-active aborted.1 t ∙ ap (λ x. x.join_active) l ∙ unjoined) in
    let join = join_enter false false over t in
    let killing = update r.clients c Phase.killing in
    let r1 : Run Sys = record r { state = aborted.1; clients = killing } in
    let r3 : Run Sys = record {
      state = over;
      token = true;
      body = Body.signaling;
      clients = killing;
    } in
    let r4 : Run Sys = record r3 { state = join.1; clients = update killing d Phase.joining } in
    let r5 : Run Sys = record r4 { token = false; clients = update r4.clients d Phase.reaping } in
    let r6 : Run Sys = record r5 {
      state = reap join.1 t;
      clients = update r5.clients d Phase.idle;
    } in
    let aborts : RunStep (calls t) r r1 =
      subst (λ x. RunStep (calls t) r x) (after-goes r c Phase.killing aborted go)
        (RunStep.aborts c false c_idle) in
    let joins : RunStep (calls t) r3 r4 =
      subst (λ x. RunStep (calls t) r3 x) (after-goes r3 d Phase.joining join join_goes)
        (RunStep.joins d false false (ground (arith, d_idle, apart))) in
    let ended : RunReach (calls t) r r3 =
      next (next (next here aborts) (RunStep.completes running)) (RunStep.gives refl) in
    let late : r6.clients c ≡ Phase.killing = ground (arith, apart) in
    (
      r6,
      next (next (next ended joins) (RunStep.takes d (ground arith) refl))
          (RunStep.reaps d (ground arith)),
      late,
      reaped,
      bare,
      gone,
      RunStep.kills c late,
    )

-- If the last critical section of a FreeRTOS thread comes after its object has been used for a new
-- thread, the new thread counts as signaled before it has completed, and once it has completed,
-- os_thread_delete reaps it before the release of its completion semaphore, where otherwise it
-- does not go on.
pub entry_signal-late :
    (s : Sys) (t : ℕ) (prio : ℤ) (kernel_prio : ℕ)
    → let again = (create s t prio kernel_prio true true).1 in
      let signaled = entry_signal again t in
      ((life_of t signaled).completed ≡ false)
      × ((life_of t signaled).completion_signaled ≡ true)
      × ((delete_enter false (entry_complete signaled t) t).0 ≡ goes_on)
      × ¬ ((delete_enter false (entry_complete again t) t).0 ≡ goes_on)
unfolding create entry_signal entry_complete delete_enter
entry_signal-late s t prio kernel_prio =
    (ground arith, ground arith, ground arith, λ h. ground arith)
