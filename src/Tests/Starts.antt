-- ===== src/Tests/Starts.antt =====
-- A kernel that is started, and the times of a kernel with 100 ticks in a second.
use hazel_osal.Prelude.{ℕ, ◌+◌, ◌*◌, ◌/◌, ◌≡◌, refl, false, true, [], ◌∷◌, arith}
use hazel_osal.Errno.{ok}
use hazel_osal.Freertos.Kernel.{Kernel, scheduler_running, start_enter, start_leave}
use hazel_osal.Freertos.Kernel.Stopping.{stops, start-stops}
use hazel_osal.Freertos.Time as Freertos
use hazel_osal.Rtthread.Time as Rtthread
use hazel_osal.Zephyr.Time.{KTime, ms_to_ticks_ceil}
use hazel_osal.Zephyr.Time.Agree.{ms_to_ticks_ceil-agree}

abbrev off : Kernel
off = record { started_by_osal = false; stop_requested = false }

abbrev fresh : Kernel
fresh = record { started_by_osal = true; stop_requested = false }

start-stops_example : start_leave (stops true false (true ∷ false ∷ []) fresh) ≡ (ok 0, off)
unfolding start_enter scheduler_running
start-stops_example = start-stops true false (true ∷ false ∷ []) off refl

abbrev ktime : KTime ℕ
ktime = record {
  uptime_ticks = λ t. t;
  uptime_get = λ t. t * 10;
  ms_to_ticks_ceil64 = λ ms. (ms * 100 + 999) / 1000;
  ticks_to_ms_floor64 = λ t. t * 10;
  sleep = λ t n. t + n;
}

ms_to_ticks_ceil-agree_example :
    (ms_to_ticks_ceil ktime 25 ≡ Freertos.ms_to_ticks_ceil 100 25)
    × (ms_to_ticks_ceil ktime 25 ≡ Rtthread.ms_to_ticks_ceil 100 25)
ms_to_ticks_ceil-agree_example =
    ms_to_ticks_ceil-agree ktime 100 25 (omega arith) (omega arith) refl
