-- ===== src/Rtthread/Thread/Races.antt =====
-- Calls of src/osal_rtthread/thread.c that leave a thread in a state that another call takes for a
-- sound one.
use hazel_osal.Prelude.{
  ℕ, ◌≡◌, refl, inl, inr, Bool, true, false, ◌||◌, not, none, some, arith, Bool-cases,
}
use hazel_osal.Prelude.Ids.{has, update, remove, has-remove}
use hazel_osal.Errno.{err, enomem, einval}
use hazel_osal.Life.{goes_on, returns, ThreadState}
use hazel_osal.Prelude.Int.{ℤ}
use hazel_osal.Rtthread.Waitq.{Sys, unlink_from}
use hazel_osal.Rtthread.Waitq.Concurrent.{Inv}
use hazel_osal.Rtthread.Thread.{create, join_enter, abort_enter, abort_undo}

-- If RT-Thread does not make the thread of an os_thread_create, the call returns -ENOMEM, and a
-- later os_thread_join goes on to take the completion semaphore, which has been detached; if it
-- does not start the thread, the call returns -EINVAL, and so does the join.
pub create-stale :
    (max : ℕ) (s : Sys) (t : ℕ) (prio : ℤ) (startup : Bool)
    → let unmade = create max s t prio true true false startup in
      let unstarted = create max s t prio true true true false in
      (unmade.0 ≡ err enomem)
      × ((join_enter false false unmade.1 t).0 ≡ goes_on)
      × (unstarted.0 ≡ err einval)
      × ((join_enter false false unstarted.1 t).0 ≡ returns (err einval))
unfolding create join_enter
create-stale max s t prio startup = (refl, ground arith, refl, ground arith)

-- what an abort writes for a thread on a queue
off_queue : Sys → (q t : ℕ) → Sys
off_queue s q t = record {
  threads = update s.threads t (record (s.threads t) {
    wait_q = none;
    state = ThreadState.terminated;
    life = record (s.threads t).life { cancel_requested = true; aborted = true; completed = true };
  });
  waiters = update s.waiters q (remove t (s.waiters q));
}

abort_enter-off :
    (s : Sys) (q t : ℕ)
    → (s.threads t).wait_q ≡ some q
    → (abort_enter false false s t).0 ≡ goes_on
    → (abort_enter false false s t).1 ≡ off_queue s q t
unfolding abort_enter off_queue unlink_from
abort_enter-off s q t e go =
    let thread = s.threads t in
    elim (Bool-cases (not thread.handle || not thread.life.completion_handle)) [
      | inl bare ↦ let go' = rw (bare, abort_enter) at go in cc
      | inr made ↦ elim (Bool-cases thread.life.completed) [
        | inl done ↦ let go' = rw (made, done, abort_enter) at go in cc
        | inr runs ↦ rw (made, runs, e, abort_enter, unlink_from) refl
      ]
    ]

-- If RT-Thread does not delete the thread of an os_thread_abort that has gone on, for a thread
-- that waits on a queue, the thread is no longer on the list of the queue, has no wait_q, is
-- marked as ready, and its cancellation stays requested.
pub abort_undo-forgets :
    (s : Sys) (q t : ℕ)
    → Inv s
    → (s.threads t).wait_q ≡ some q
    → (abort_enter false false s t).0 ≡ goes_on
    → let s' = (abort_undo (abort_enter false false s t).1 t).1 in
      (has t (s.waiters q) ≡ true)
      × (has t (s'.waiters q) ≡ false)
      × ((s'.threads t).wait_q ≡ none)
      × ((s'.threads t).state ≡ ThreadState.ready)
      × ((s'.threads t).life.cancel_requested ≡ true)
unfolding abort_undo off_queue
abort_undo-forgets s q t v e go = rw (abort_enter-off s q t e go) (
  ground (arith, v.on_list q t, e),
  ground (arith, has-remove t t (s.waiters q) (v.distinct q)),
  ground arith,
  ground arith,
  ground arith,
)
