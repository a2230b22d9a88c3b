-- ===== src/Tests/Waits.antt =====
-- Callers that wait for the item 1 on the queue 9.
use hazel_osal.Prelude.{◌<◌, ◌≡◌, refl, false, none, some, ◌⊎◌, inl, inr, arith}
use hazel_osal.Prelude.{◌+◌}
use hazel_osal.Prelude.Ids.{update}
use hazel_osal.Freertos.Semaphore
use hazel_osal.Freertos.Semaphore.{ops}
use hazel_osal.Work.{Work, Sys, notify}
use hazel_osal.Work.Submit.{submit_link, is_closed, linked}
use hazel_osal.Work.Worker.{begin, begin_with, finish, finish_notify}
use hazel_osal.Work.Cancel.{flush_begin, flush_ends, is_ready}
use hazel_osal.Work.Concurrent.{finishes}
use hazel_osal.Work.Waits.{
  returned, flush_enters, advance, resume, take_sync, flush_enter, awaits, on,
}
use hazel_osal.Work.Waits.Steps.{
  Waits, Fits, here, next, sections, notifies, enters, advances, owes,
}
use hazel_osal.Work.Waits.Wake.{Inv, start-Inv, over}
use hazel_osal.Work.Waits.Woken.{Reach-woken, answer}
use hazel_osal.Work.Waits.Missed.{flush-misses}
use hazel_osal.Tests.Kernels.{law, semphr}
use hazel_osal.Tests.Works.{Sem, item, queue}

abbrev synced : Work Sem
synced = record item { sync = (Semaphore.init semphr (Semaphore.zero semphr) 0 1).1 }

abbrev idle_system : Sys Sem
idle_system = record { works = λ w. synced; queues = λ q. queue }

-- The item 1 runs.
abbrev running : Sys Sem
running = (begin (submit_link none idle_system 9 1).1 9).1

abbrev before : Waits Sem
before = record { sys = running; owed = λ w. 0; callers = λ c. returned false }

before-Inv : Inv (ops semphr) (λ w. false) before
unfolding Semaphore.init submit_link is_closed linked begin begin_with Semaphore.live
    Semaphore.max_of
before-Inv = start-Inv (ops semphr) (λ w. false) running (λ w h. ground arith) (λ w. ground arith)

-- Caller 7 flushes the item, and waits; the handler returns, and the item is notified.
abbrev entered : Waits Sem
entered = record before { callers = update before.callers 7 (flush_enters 1 false) }

abbrev checking : Waits Sem
checking = record entered {
  sys = (advance (ops semphr) none running (entered.callers 7)).1;
  callers = update entered.callers 7 (advance (ops semphr) none running (entered.callers 7)).0;
}

abbrev waiting : Waits Sem
waiting = record checking {
  sys = (advance (ops semphr) none checking.sys (checking.callers 7)).1;
  callers =
      update checking.callers 7 (advance (ops semphr) none checking.sys (checking.callers 7)).0;
}

current : (waiting.sys.queues 9).current ≡ some 1
unfolding flush_enter flush_begin is_ready advance submit_link is_closed linked begin begin_with
current = refl

abbrev completed : Waits Sem
completed = record waiting {
  sys = finish waiting.sys 9 1;
  owed = λ w. waiting.owed w + owes {s = waiting.sys} (finishes 9 1 current) w;
}

abbrev notified : Waits Sem
notified = record completed {
  sys = notify (ops semphr) false completed.sys 1;
  owed = update completed.owed 1 0;
}

Reach-woken_example :
    (0 < notified.owed 1)
    ⊎ ((0 < (ops semphr).count (notified.sys.works 1).sync)
        × ((advance
              (ops semphr)
              none
              (take_sync (ops semphr) notified.sys 1)
              (resume (notified.callers 7))).0
            ≡ returned (answer (notified.callers 7))))
unfolding flush_enter flush_begin flush_ends is_ready advance submit_link is_closed linked begin
    begin_with over awaits on owes finish notify Fits
Reach-woken_example =
    Reach-woken (λ w. false) law 7 1 none before-Inv
      (next
        (next
          (next
            (next
              (next here
                (enters 7 1 (flush_enters 1 false) refl (λ c. refl) (inr (inr (inl refl)))))
              (advances 7 none))
            (advances 7 none))
          (sections _ (finishes 9 1 current) tt))
        (notifies false 1 0 refl))
      refl (λ h. refl) refl

flush-misses_example :
    let first = finish_notify (ops semphr) (submit_link none running 9 1).1 9 1 in
    let second = finish_notify (ops semphr) (begin first 9).1 9 1 in
    ((second.works 1).flags.running ≡ false)
    × ((second.works 1).flags.queued ≡ false)
    × ((second.works 1).flags.canceling ≡ false)
    × (flush_ends second 1 1 ≡ false)
    × ((ops semphr).count ((take_sync (ops semphr) second 1).works 1).sync ≡ 0)
unfolding submit_link is_closed linked begin begin_with Semaphore.init Semaphore.live
    Semaphore.count Semaphore.max_of
flush-misses_example =
    flush-misses law none running 9 1 1 refl refl refl refl refl refl refl refl (omega arith) refl
