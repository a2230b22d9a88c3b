-- ===== src/Tests/Stops.antt =====
-- The queue 9 is stopped, with the item 2 delayed on it.
use hazel_osal.Prelude.{ℕ, ◌≡◌, refl, false, true, none, [], ◌∷◌, ◌==◌, if◌then◌else◌, arith}
use hazel_osal.Prelude.Ids.{has}
use hazel_osal.Errno.{ok, err, ebusy, wait_forever}
use hazel_osal.Freertos.Semaphore
use hazel_osal.Freertos.Semaphore.{ops}
use hazel_osal.Work.{Sys, no_flags, set_queue}
use hazel_osal.Work.Worker.{stopped, begin, take_items}
use hazel_osal.Work.Control.{stop_link, stop_begin, stop_end, is_drained}
use hazel_osal.Work.Control.Stop.{stop-completes, stop_again-busy}
use hazel_osal.Tests.Kernels.{semphr, law}
use hazel_osal.Tests.Works.{Sem, item, queue}

abbrev plugged_system : Sys Sem
plugged_system = record {
  works = λ w. if w == 2 then record item { flags = record no_flags { delayed = true } } else item;
  queues = λ q. record queue {
    plugged = true;
    delayed = 2 ∷ [];
    items = (Semaphore.init semphr (Semaphore.zero semphr) 0 0xffff).1;
  };
}

stop-completes_example :
    let begun = (stop_begin (ops semphr) false false plugged_system 9).1 in
    let (taken, s1) = take_items (ops semphr) begun 9 7 in
    let (next, s2) = begin s1 9 in
    let (r, s') = stop_end (ops semphr) false s2 9 (ok 0) in
    (taken ≡ ok 0)
    × (next ≡ stopped)
    × (r ≡ ok 0)
    × ((s'.queues 9).started ≡ false)
    × ((s'.queues 9).list ≡ [])
    × ((s'.queues 9).delayed ≡ [])
    × ((s'.queues 9).current ≡ none)
    × ((w : ℕ)
        → has w (plugged_system.queues 9).delayed ≡ true
        → (s'.works w).flags.delayed ≡ false)
unfolding stop_begin stop_link is_drained Semaphore.init Semaphore.deinit Semaphore.live
    Semaphore.max_of Semaphore.take Semaphore.give
stop-completes_example =
    stop-completes (ops semphr) wait_forever law false plugged_system 9 7 refl refl refl
      (omega arith) refl refl

stop_again-busy_example :
    let (first, queue') = stop_link false (plugged_system.queues 9) in
    let (r, s') = stop_end (ops semphr) false (set_queue plugged_system 9 queue') 9 (ok 0) in
    (first ≡ ok 0) × (r ≡ err ebusy) × ((stop_link false (s'.queues 9)).0 ≡ err ebusy)
unfolding is_drained
stop_again-busy_example =
    stop_again-busy (ops semphr) false plugged_system 9 refl refl refl refl refl
