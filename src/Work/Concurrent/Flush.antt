-- ===== src/Work/Concurrent/Flush.antt =====
-- What `os_work_flush` waits for.
use hazel_osal.Prelude.{ℕ, ◌≡◌, true, false, some, ◌==◌, arith}
use hazel_osal.Work.{Sys, is_at}
use hazel_osal.Work.Cancel.{unlink_from, settled, cancel_unlink, flush_begin, flush_ends, is_ready}
use hazel_osal.Work.Worker.{finish}

module _ {Sem : Type 0} where
  -- If an initialized item that runs has been submitted again on the same queue, under a number
  -- other than the one that runs, then after a cancel and the return of its handler it is neither
  -- running nor queued nor being canceled, and os_work_flush waits for a submission that has not
  -- completed.
  pub flush-stuck :
      (s : Sys Sem) (q w : ℕ)
      → is_ready (s.works w) ≡ true
      → (s.works w).flags.running ≡ true
      → (s.works w).flags.queued ≡ true
      → is_at (s.works w).queue q ≡ true
      → ((s.works w).running_id == (s.works w).submission_id) ≡ false
      → let s' = finish (cancel_unlink s w) q w in
        ((s'.works w).flags.running ≡ false)
        × ((s'.works w).flags.queued ≡ false)
        × ((s'.works w).flags.canceling ≡ false)
        × (flush_begin s' w true ≡ some ((s.works w).submission_id, true))
        × (flush_ends s' w (s.works w).submission_id ≡ false)
  unfolding finish cancel_unlink settled flush_begin flush_ends is_ready unlink_from
  flush-stuck s q w ready running queued at differ = ground arith
