-- ===== src/Freertos/Thread/Ending.antt =====
-- The end of a FreeRTOS thread, with any number of clients.
use hazel_osal.Prelude.{ℕ, ◌≡◌, refl, ap, sym, subst, true, false, arith}
use hazel_osal.Prelude.Int.{ℤ}
use hazel_osal.Life.{zero_life, goes_on}
use hazel_osal.Life.Machine.{is_given, is_active, begun}
use hazel_osal.Life.Machine.Safety.{Safe, begun-Safe}
use hazel_osal.Life.Machine.Reached.{joinable}
use hazel_osal.Life.Calls.Refines.{Run, RunReach, started, view, calls-Safe}
use hazel_osal.Freertos.Objects.{Sys}
use hazel_osal.Freertos.Thread.{create, reap, join_enter}
use hazel_osal.Freertos.Thread.Laws.{life_of, calls, laws}

created :
    (t : ℕ) (prio : ℤ) (kernel_prio : ℕ) (s : Sys)
    → view (calls t) (started (create s t prio kernel_prio true true).1)
      ≡ begun (record zero_life { completion_handle = true })
unfolding create
created t prio kernel_prio s =
    let e : life_of t (create s t prio kernel_prio true true).1
        ≡ record zero_life { completion_handle = true } =
      ground arith in
    ap begun e

created-Safe :
    (t : ℕ) (prio : ℤ) (kernel_prio : ℕ) (s : Sys)
    → Safe (view (calls t) (started (create s t prio kernel_prio true true).1))
created-Safe t prio kernel_prio s =
    subst Safe (sym (created t prio kernel_prio s))
      (begun-Safe (record zero_life { completion_handle = true }) refl refl refl refl)

-- For a FreeRTOS thread that os_thread_create has made, and every order of its own critical
-- sections and those of any number of clients that join, delete, cancel and abort it, with the
-- calls of the kernel between them: at most one client is in a join or a deletion, join_active is
-- set exactly then, and the thread has not been reaped then; the thread is reaped only after the
-- release of its completion semaphore, and is completed then; completion_handle is set exactly
-- until the thread is reaped; and after the release the semaphore holds its token, unless a client
-- is reaping or the thread has been reaped.
pub Reach-Safe_freertos :
    (t : ℕ) (prio : ℤ) (kernel_prio : ℕ) (s : Sys) (r : Run Sys)
    → RunReach (calls t) (started (create s t prio kernel_prio true true).1) r
    → Safe (view (calls t) r)
Reach-Safe_freertos t prio kernel_prio s r reach =
    calls-Safe (calls t) (laws t) (started (create s t prio kernel_prio true true).1) r
      (created-Safe t prio kernel_prio s) reach

-- For a FreeRTOS thread that os_thread_create has made, in every order of calls: once its
-- completion semaphore has been released, if the thread has not been reaped and no client is in a
-- join or a deletion, then the semaphore holds a token, a join by another thread goes on to take
-- it, and the reaping after it marks the thread as reaped.
pub ended-joinable_freertos :
    (t : ℕ) (prio : ℤ) (kernel_prio : ℕ) (s : Sys) (r : Run Sys)
    → RunReach (calls t) (started (create s t prio kernel_prio true true).1) r
    → is_given r.body ≡ true
    → (life_of t r.state).completion_reaped ≡ false
    → ((c : ℕ) → is_active (r.clients c) ≡ false)
    → (r.token ≡ true)
      × ((join_enter false false r.state t).0 ≡ goes_on)
      × ((life_of t (reap (join_enter false false r.state t).1 t)).completion_reaped ≡ true)
unfolding join_enter reap
ended-joinable_freertos t prio kernel_prio s r reach g n idle =
    let (token, handle, free) =
      joinable (view (calls t) r) (Reach-Safe_freertos t prio kernel_prio s r reach) g n idle in
    (token, ground (arith, n, handle, free), ground (arith, n, handle, free))
