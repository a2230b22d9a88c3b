-- ===== src/Zephyr/Time.antt =====
-- src/zephyr/time.c over the time calls of Zephyr (kernel.h), whose values are below 2^64.
pub mod Agree
use hazel_osal.Prelude.{ℕ, ◌-◌, ◌%◌, ◌^◌, Bool, true, false, not, leb, if◌then◌else◌}
use hazel_osal.Errno.{wait_forever}

-- `State` is the state of the kernel; `sleep` is `k_sleep(K_TICKS(ticks))`.
pub record KTime (State : Type 0) : Type 0 where
  pub uptime_ticks : State → ℕ
  pub uptime_get : State → ℕ
  pub ms_to_ticks_ceil64 : ℕ → ℕ
  pub ticks_to_ms_floor64 : ℕ → ℕ
  pub sleep : State → ℕ → State

module _ {State : Type 0} (k : KTime State) where
  pub tick_get : State → ℕ
  tick_get s = k.uptime_ticks s % 2 ^ 32

  pub uptime_get : State → ℕ
  uptime_get s = k.uptime_get s

  unfoldable pub ms_to_ticks_ceil : (milliseconds : ℕ) → ℕ
  ms_to_ticks_ceil milliseconds =
      let ticks = k.ms_to_ticks_ceil64 milliseconds in
      if leb wait_forever ticks then wait_forever - 1 else ticks

  pub ticks_to_ms : (ticks : ℕ) → ℕ
  ticks_to_ms ticks = k.ticks_to_ms_floor64 ticks

  -- `os_delay`
  pub delay : (isr : Bool) → State → (ticks : ℕ) → State
  delay isr s ticks = if not isr then k.sleep s ticks else s
