-- ===== src/Tests/Times.antt =====
-- A conversion at 100 ticks in a second.
use hazel_osal.Prelude.{◌+◌, ◌*◌, ◌<◌, refl, arith}
use hazel_osal.Freertos.Time as FreertosTime
use hazel_osal.Freertos.Time.Convert.{ticks_to_ms-wraps_freertos}

ticks_to_ms-wraps_freertos_example :
    FreertosTime.ticks_to_ms 100 (0x41_8937_4bc6_a7ef * 100 + 62) < 1000
ticks_to_ms-wraps_freertos_example =
    ticks_to_ms-wraps_freertos 100 (0x41_8937_4bc6_a7ef * 100 + 62) (omega arith) (omega arith) refl
      (omega arith)
