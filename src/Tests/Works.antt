-- ===== src/Tests/Works.antt =====
-- Work items 1 and 2, and the work queue 9.
use hazel_osal.Prelude.{ℕ, ◌≡◌, refl, false, true, none, some, [], arith}
use hazel_osal.Freertos.Semaphore
use hazel_osal.Freertos.Semaphore.{ops}
use hazel_osal.Work.{Work, Queue, Sys, no_flags, work_magic}
use hazel_osal.Work.Submit.{submit_link, is_closed, linked}
use hazel_osal.Work.Cancel.{cancel_unlink}
use hazel_osal.Work.Delay.{placed}
use hazel_osal.Errno.{Result}
use hazel_osal.Work.Submit.{submit_to_queue, is_submitted}
use hazel_osal.Work.Submit.Link.{Taken, submit_to_queue-Taken}
use hazel_osal.Work.Worker.{begin, promote_delayed}
use hazel_osal.Work.Worker.Promote.{IsPromoted, promote_delayed-total}
use hazel_osal.Work.Concurrent.{Inv, here, next, submits, begins}
use hazel_osal.Work.Concurrent.Safety.{fresh-Inv, Reach-Inv_work}
use hazel_osal.Tests.Kernels.{law}
use hazel_osal.Tests.Kernels.{Counter, semphr}
use hazel_osal.Work.Cancel.{unlink_from, settled, trytake_items}
use hazel_osal.Work.Worker.{idle, take_items}
use hazel_osal.Work.Submit.{submit_to}
use hazel_osal.Work.Concurrent.Steal.{cancel-steals}
use hazel_osal.Prelude.Ids.{update}
use hazel_osal.Prelude.{[], ◌∷◌}

abbrev pub Sem : Type 0
Sem = Semaphore.Sem Counter

abbrev pub item : Work Sem
item = record {
  node_queued = false;
  handler = true;
  queue = none;
  sync = Semaphore.zero semphr;
  flags = no_flags;
  submission_id = 0;
  running_id = 0;
  completion_id = 0;
  magic = work_magic;
  sync_initialized = true;
  delay_queue = none;
  deadline = 0;
}

abbrev pub queue : Queue Sem
queue = record {
  list = [];
  items = Semaphore.zero semphr;
  count = 0;
  fifo_initialized = true;
  delayed = [];
  stop_queued = false;
  current = none;
  started = true;
  stopping = false;
  draining = false;
  plugged = false;
  no_yield = false;
}

abbrev fresh : Sys Sem
fresh = record { works = λ w. item; queues = λ q. queue }

abbrev submitted : Sys Sem
submitted = (submit_link none fresh 9 1).1

Reach-Inv_work_example : Inv (begin submitted 9).1
unfolding submit_link is_closed linked
Reach-Inv_work_example =
    Reach-Inv_work (fresh-Inv fresh ((λ w. refl), (λ q. (refl, refl, refl, refl))))
      (next (next here (submits none 9 1 refl)) (begins 9 refl))

-- The item 1, submitted again while its handler runs.
abbrev again : Sys Sem
again = (submit_link none (begin submitted 9).1 9 1).1

abbrev waiting : Sys Sem
waiting = placed fresh 9 2 100

promote_delayed-total_example :
    (r : ℕ × Sys Sem) × (promote_delayed (ops semphr) 2 waiting 9 (λ round. 200) 0 ≡ some r)
    × IsPromoted (ops semphr) 9 (λ round. 200) 0 1 r
unfolding placed
promote_delayed-total_example =
    promote_delayed-total (ops semphr) 2 waiting 9 (λ round. 200) 0 (omega arith)

abbrev taken : Result × Sys Sem
taken = submit_to_queue (ops semphr) false none fresh (some 9) 1

submit_to_queue-Taken_example :
    (is_submitted taken.0 ≡ false → taken.1 ≡ fresh)
    × (is_submitted taken.0 ≡ true → Taken (ops semphr) false fresh 9 1 taken.1)
submit_to_queue-Taken_example = submit_to_queue-Taken (ops semphr) false none fresh 9 1

-- The item 1 alone on the queue 9, with its token.
abbrev one_queued : Sys Sem
one_queued = record {
  works = update fresh.works 1 (record item {
    queue = some 9;
    node_queued = true;
    flags = record no_flags { queued = true };
  });
  queues = λ q. record queue {
    list = 1 ∷ [];
    count = 1;
    items = (Semaphore.init semphr (Semaphore.zero semphr) 1 0xffff).1;
  };
}

accepted :
    is_submitted
      (submit_to_queue
        (ops semphr)
        false
        none
        (take_items (ops semphr) (cancel_unlink one_queued 1) 9 7).1
        (some 9)
        2).0
    ≡ true
unfolding Semaphore.init take_items submit_to_queue submit_to submit_link is_closed cancel_unlink
    unlink_from settled linked
accepted = refl

cancel-steals_example :
    let waked = (take_items (ops semphr) (cancel_unlink one_queued 1) 9 7).1 in
    let (r, s') = submit_to_queue (ops semphr) false none waked (some 9) 2 in
    (begin waked 9 ≡ (idle, waked))
    × (((trytake_items (ops semphr) false s' (some 9)).queues 9).list ≡ 2 ∷ [])
    × ((ops semphr).count ((trytake_items (ops semphr) false s' (some 9)).queues 9).items ≡ 0)
unfolding Semaphore.init Semaphore.live Semaphore.count Semaphore.max_of
cancel-steals_example =
    cancel-steals law false false one_queued 9 1 2 7 refl refl refl refl refl (omega arith) accepted
