-- ===== src/Zephyr/Time/Agree.antt =====
-- The backends agree on the ticks of a time.
use hazel_osal.Prelude.{ℕ, ◌+◌, ◌*◌, ◌/◌, ◌%◌, ◌^◌, ◌<◌, ◌≡◌, arith}
use hazel_osal.Freertos.Time as Freertos
use hazel_osal.Freertos.Time.Convert.{scale_ms_to_ticks_ceil-ceil_freertos}
use hazel_osal.Rtthread.Time as Rtthread
use hazel_osal.Rtthread.Time.Convert.{scale_ms_to_ticks_ceil-ceil_rtthread}
use hazel_osal.Zephyr.Time.{KTime, ms_to_ticks_ceil}

-- For a positive 32-bit tick rate, if the conversion of Zephyr rounds the exact number of ticks
-- up, os_ms_to_ticks_ceil gives the same number of ticks on Zephyr, FreeRTOS and RT-Thread.
pub ms_to_ticks_ceil-agree :
    {State : Type 0} (k : KTime State) (rate ms : ℕ)
    → 0 < rate
    → rate < 2 ^ 32
    → k.ms_to_ticks_ceil64 ms ≡ (ms * rate + 999) / 1000
    → (ms_to_ticks_ceil k ms ≡ Freertos.ms_to_ticks_ceil rate ms)
      × (ms_to_ticks_ceil k ms ≡ Rtthread.ms_to_ticks_ceil rate ms)
unfolding ms_to_ticks_ceil Freertos.ms_to_ticks_ceil Rtthread.ms_to_ticks_ceil
ms_to_ticks_ceil-agree k rate ms some_rate small e =
    let r : rate % 2 ^ 32 ≡ rate = omega arith in
    (
      rw (r, scale_ms_to_ticks_ceil-ceil_freertos ms rate some_rate small) (ground (arith, e)),
      rw (r, scale_ms_to_ticks_ceil-ceil_rtthread ms rate some_rate small) (ground (arith, e)),
    )
