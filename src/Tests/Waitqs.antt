-- ===== src/Tests/Waitqs.antt =====
-- The wait queue 9 with the threads 1 and 2.
use hazel_osal.Prelude.{ℕ, ◌≡◌, refl, false, true, none, some, []}
use hazel_osal.Errno.{err, etimedout}
use hazel_osal.Prelude.Int.{pos}
use hazel_osal.Rtthread.Waitq as RtWaitq
use hazel_osal.Rtthread.Waitq.Concurrent as RtConcurrent
use hazel_osal.Life.{ThreadState, zero_life}
use hazel_osal.Freertos.Objects.{Thread, Sys}
use hazel_osal.Freertos.Waitq.{insert_priority, block_enter, block_leave, wake_one}
use hazel_osal.Freertos.Waitq.Concurrent.{Inv, here, next, enters, Reach-Inv_waitq, woken-late}

abbrev threads : ℕ → Thread
threads t = record {
  handle = true;
  priority = t;
  base_priority = pos t;
  wait_q = none;
  waiting_mutex = none;
  owned_mutexes = [];
  life = zero_life;
  wait_result = 0;
  state = ThreadState.ready;
  notification = none;
}

abbrev idle : Sys
idle = record {
  threads = threads;
  waiters = λ q. [];
  mutexes = λ m. record { owner = none; lock_count = 0; initialized = false };
  max_priority = 7;
}

idle-Inv : Inv idle
idle-Inv = record { on_list = λ q t. refl; distinct = λ q. tt }

abbrev one_waits : Sys
one_waits = block_enter idle 9 1

one_waits-Inv : Inv one_waits
one_waits-Inv = Reach-Inv_waitq idle-Inv (next here (enters 9 1 refl))

woken-late_example :
    let s' = wake_one one_waits 9 5 in
    ((block_leave s' 1 false 0).0 ≡ err etimedout)
    × (((block_leave s' 1 false 0).1.threads 1).notification ≡ some 5)
    × ((q' : ℕ)
        → (block_leave (block_enter (block_leave s' 1 false 0).1 q' 1) 1 true 5).0 ≡ err etimedout)
unfolding block_enter insert_priority
woken-late_example = woken-late one_waits 9 1 5 [] one_waits-Inv refl refl

abbrev rt_threads : ℕ → RtWaitq.Thread
rt_threads t = record {
  priority = t;
  wait_q = none;
  wait_result = 0;
  state = ThreadState.ready;
  handle = true;
  base_priority = pos t;
  life = zero_life;
  wait_tokens = 0;
}

abbrev rt_idle : RtWaitq.Sys
rt_idle = record { threads = rt_threads; waiters = λ q. [] }

rt_idle-Inv : RtConcurrent.Inv rt_idle
rt_idle-Inv = record { on_list = λ q t. refl; distinct = λ q. tt }

abbrev rt_one_waits : RtWaitq.Sys
rt_one_waits = RtWaitq.block_enter rt_idle 9 1

Reach-Inv_waitq_rtthread_example : RtConcurrent.Inv (RtWaitq.wake_one rt_one_waits 9 5)
Reach-Inv_waitq_rtthread_example = RtConcurrent.Reach-Inv_waitq_rtthread rt_idle-Inv (
    RtConcurrent.next (RtConcurrent.next RtConcurrent.here (RtConcurrent.enters 9 1 refl))
      (RtConcurrent.wakes_one 9 5))
