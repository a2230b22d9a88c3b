-- ===== src/Tests/Signals.antt =====
-- The signal.
use hazel_osal.Prelude.{◌≤◌, ◌≡◌, refl, false, true, some, ◌++◌, arith}
use hazel_osal.Errno.{Result, ok}
use hazel_osal.Freertos.Semaphore
use hazel_osal.Freertos.Semaphore.{ops}
use hazel_osal.Signal.{Signal, init, raise, reset}
use hazel_osal.Signal.Concurrent.{
  Config, Inv, idle, pending, here, next, raises, raised_by, init-Inv, Reach-once,
}
use hazel_osal.Signal.Reset.{reset-idle}
use hazel_osal.Tests.Kernels.{Counter, semphr, law}

abbrev blank : Signal (Semaphore.Sem Counter)
blank = record {
  notification = Semaphore.zero semphr;
  result = 0;
  raised = false;
  initialized = false;
}

abbrev made : Result × Signal (Semaphore.Sem Counter)
made = init (ops semphr) blank

made-Inv : Inv (ops semphr) (idle made.1)
unfolding init Semaphore.init
made-Inv = init-Inv law blank refl

abbrev up : Config (Semaphore.Sem Counter)
up = raised_by (idle made.1) 7 (raise (ops semphr) false made.1 7)

Reach-once_example : (up.sent ≡ up.received ++ pending up.signal) × (up.waiting ≤ 1)
Reach-once_example = Reach-once law made-Inv (next here (raises false 7))

reset-idle_example :
    (t : Signal (Semaphore.Sem Counter)) × (reset (ops semphr) 2 false made.1 ≡ some (ok 0, t))
    × (t.raised ≡ false)
    × (t.result ≡ 0)
    × Inv (ops semphr) (idle t)
unfolding init Semaphore.init
reset-idle_example = reset-idle law false made.1 made-Inv refl (omega arith)

-- the signal raised with 7, whose token a wait holds
abbrev taken : Signal (Semaphore.Sem Counter)
taken = record made.1 { result = 7; raised = true }

abbrev after : Signal (Semaphore.Sem Counter)
after = record taken {
  notification = (Semaphore.take semphr false taken.notification 0).1;
  raised = false;
  result = 0;
}
