-- ===== src/Freertos/Time/Uptime.antt =====
-- `os_uptime_get` extends a 32-bit tick counter to 64 bits: `portMAX_DELAY` is 2^32 - 1.
use hazel_osal.Prelude.{ℕ, ◌+◌, ◌/◌, ◌%◌, ◌^◌, ◌≤◌, ◌<◌, ◌≡◌, arith}
use hazel_osal.Freertos.Time.{Clock, uptime_ticks_thread, uptime_ticks_isr}

-- The variables stand for the time `t`, counted in ticks from the start.
abbrev pub Tracks : Clock → ℕ → Type 0
Tracks c t =
    (c.cached_epoch + c.cached_tick ≡ t) × (c.cached_epoch % 2 ^ 32 ≡ 0) × (c.cached_tick < 2 ^ 32)

-- On FreeRTOS with a 32-bit tick counter, a call of os_uptime_get from a thread at a time below
-- 2^64 finds that time from the counter and its overflows, and leaves variables that stand for it.
pub uptime_ticks_thread-Tracks :
    (t : ℕ)
    → t < 0x1_0000_0000_0000_0000
    → let (ticks, c) = uptime_ticks_thread 0xffff_ffff (t % 2 ^ 32) (t / 2 ^ 32) in
      (ticks ≡ t) × Tracks c t
unfolding uptime_ticks_thread
uptime_ticks_thread-Tracks t small = ground arith

-- On FreeRTOS with a 32-bit tick counter, if the static variables of os_uptime_get stand for a
-- time, a call from an interrupt handler at a later time, less than 2^32 ticks after and below
-- 2^64, finds that time from the counter, and leaves variables that stand for it.
pub uptime_ticks_isr-Tracks :
    (c : Clock) (t t' : ℕ)
    → Tracks c t
    → t ≤ t'
    → t' < t + 0x1_0000_0000
    → t' < 0x1_0000_0000_0000_0000
    → let (ticks, c') = uptime_ticks_isr 0xffff_ffff c (t' % 2 ^ 32) in (ticks ≡ t') × Tracks c' t'
unfolding uptime_ticks_isr
uptime_ticks_isr-Tracks c t t' v after soon small = ground arith
