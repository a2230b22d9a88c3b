-- ===== src/Tests/Threads.antt =====
-- The thread 3, which is created, and the client 8.
use hazel_osal.Prelude.{◌≡◌, refl, Bool, false, true, none, some, [], ◌∷◌, ◌==◌, if◌then◌else◌}
use hazel_osal.Prelude.Ids.{update}
use hazel_osal.Life.{ThreadState, zero_life, goes_on}
use hazel_osal.Life.Machine.{Body, Phase}
use hazel_osal.Life.Machine.Safety.{Safe}
use hazel_osal.Life.Calls.Refines.{
  Run, RunStep, RunReach, started, after, view, here, next, completes, gives, joins,
}
use hazel_osal.Freertos.Thread as Fr
use hazel_osal.Freertos.Thread.Ending as FrEnding
use hazel_osal.Freertos.Thread.Laws as FrLaws
use hazel_osal.Freertos.Thread.Races as FrRaces
use hazel_osal.Rtthread.Thread as Rt
use hazel_osal.Rtthread.Thread.Ending as RtEnding
use hazel_osal.Rtthread.Waitq as RtWaitq
use hazel_osal.Prelude.Int.{pos}
use hazel_osal.Freertos.Objects.{Sys}
use hazel_osal.Tests.Mutexes.{idle}

abbrev made : Sys
made = (Fr.create idle 3 (pos 4) 4 true true).1

-- the thread has returned from its entry function and released the semaphore
abbrev ended : Run Sys
ended = record (started made) {
  state = Fr.entry_complete made 3;
  token = true;
  body = Body.signaling;
}

ends : RunReach (FrLaws.calls 3) (started made) ended
ends = next (next here (completes refl)) (gives refl)

Reach-Safe_freertos_example :
    Safe (
      view (FrLaws.calls 3) (after ended 8 Phase.joining (Fr.join_enter false false ended.state 3)))
Reach-Safe_freertos_example =
    FrEnding.Reach-Safe_freertos 3 (pos 4) 4 idle
      (after ended 8 Phase.joining (Fr.join_enter false false ended.state 3))
      (next ends (joins 8 false false refl))

ended-joinable_freertos_example :
    ◌≡◌ {A = Bool} true true
    × ((Fr.join_enter false false ended.state 3).0 ≡ goes_on)
    × ((FrLaws.life_of 3 (Fr.reap (Fr.join_enter false false ended.state 3).1 3)).completion_reaped
        ≡ true)
unfolding Fr.create Fr.entry_complete
ended-joinable_freertos_example =
    FrEnding.ended-joinable_freertos 3 (pos 4) 4 idle ended ends refl refl (λ c. refl)

-- The client 8 aborts the thread, which the client 6 joins.
abort_enter-late_example :
    (r' : Run Sys) × RunReach (FrLaws.calls 3) (started made) r'
    × (r'.clients 8 ≡ Phase.killing)
    × ((FrLaws.life_of 3 r'.state).completion_reaped ≡ true)
    × ((FrLaws.life_of 3 r'.state).completion_handle ≡ false)
    × ((r'.state.threads 3).handle ≡ false)
    × RunStep
        (FrLaws.calls 3)
        r'
        (record r' { token = true; body = Body.ended; clients = update r'.clients 8 Phase.telling })
unfolding Fr.create Fr.abort_enter Fr.detach
abort_enter-late_example =
    FrRaces.abort_enter-late (started made) 3 8 6 refl refl refl refl refl refl refl

abbrev rt_thread : RtWaitq.Thread
rt_thread = record {
  handle = true;
  priority = 4;
  base_priority = pos 4;
  wait_q = some 9;
  wait_result = 0;
  state = ThreadState.pending;
  wait_tokens = 0;
  life = record zero_life { completion_handle = true };
}

-- the thread 3 waits on the queue 9
abbrev rt_waits : RtWaitq.Sys
rt_waits = record {
  threads = λ t. if t == 3 then rt_thread else record rt_thread { wait_q = none };
  waiters = λ q. if q == 9 then 3 ∷ [] else [];
}

abbrev rt_made : RtWaitq.Sys
rt_made = (Rt.create 32 rt_waits 3 (pos 4) true true true true).1

Reach-Safe_rtthread_example : Safe (
    view (RtEnding.calls 3) (record (started rt_made) {
      state = Rt.entry_complete rt_made 3;
      token = true;
      body = Body.signaling;
    }))
Reach-Safe_rtthread_example =
    RtEnding.Reach-Safe_rtthread 32 3 (pos 4) rt_waits
      (record (started rt_made) {
        state = Rt.entry_complete rt_made 3;
        token = true;
        body = Body.signaling;
      })
      (next (next here (completes refl)) (gives refl))
