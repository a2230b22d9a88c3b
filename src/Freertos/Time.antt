-- ===== src/Freertos/Time.antt =====
-- src/osal_freertos/time.c. Unsigned 64-bit arithmetic is written with its wrap-around.
pub mod Convert
pub mod Uptime
use hazel_osal.Prelude.{ℕ, ◌+◌, ◌-◌, ◌*◌, ◌/◌, ◌%◌, ◌^◌, Bool, not, ltb, leb, if◌then◌else◌}
use hazel_osal.Errno.{wait_forever}

abbrev pub uint64_max : ℕ
uint64_max = 0xffff_ffff_ffff_ffff

unfoldable pub scale_ms_to_ticks_ceil : (milliseconds ticks_per_second : ℕ) → ℕ
scale_ms_to_ticks_ceil milliseconds ticks_per_second =
    let max_ticks = wait_forever - 1 in
    let whole = milliseconds / 1000 in
    let remainder = milliseconds % 1000 in
    let ticks =
      ((whole * ticks_per_second) % 2 ^ 64
        + ((remainder * ticks_per_second) % 2 ^ 64 + 999) % 2 ^ 64 / 1000)
      % 2 ^ 64 in
    if ltb (max_ticks / ticks_per_second) whole
    then max_ticks
    else if ltb max_ticks ticks
    then max_ticks
    else ticks

unfoldable pub ticks_to_ms : (rate ticks : ℕ) → ℕ
ticks_to_ms rate ticks =
    let whole = ticks / rate in
    let remainder = ticks % rate in
    if ltb (uint64_max / 1000) whole
    then uint64_max
    else ((whole * 1000) % 2 ^ 64 + (remainder * 1000) % 2 ^ 64 / rate) % 2 ^ 64

unfoldable pub ms_to_ticks_ceil : (rate milliseconds : ℕ) → ℕ
unfolding scale_ms_to_ticks_ceil
ms_to_ticks_ceil rate milliseconds = scale_ms_to_ticks_ceil milliseconds (rate % 2 ^ 32)

-- the static variables of `os_uptime_get`
pub record Clock : Type 0 where
  pub cached_epoch : ℕ
  pub cached_tick : ℕ

-- What a thread does: `entering` and `overflow_count` are what `vTaskSetTimeOutState` stores.
unfoldable pub uptime_ticks_thread : (max_delay : ℕ) → (entering overflow_count : ℕ) → ℕ × Clock
uptime_ticks_thread max_delay entering overflow_count =
    let tick = entering % 2 ^ 32 in
    let ticks = ((overflow_count * (max_delay + 1)) % 2 ^ 64 + tick) % 2 ^ 64 in
    (ticks, record { cached_epoch = (ticks + 2 ^ 64 - tick) % 2 ^ 64; cached_tick = tick })

-- what an interrupt handler does, with the tick that it reads
unfoldable pub uptime_ticks_isr : (max_delay : ℕ) → Clock → (tick : ℕ) → ℕ × Clock
uptime_ticks_isr max_delay c tick =
    let epoch =
      if ltb tick c.cached_tick
      then (c.cached_epoch + (max_delay + 1)) % 2 ^ 64
      else c.cached_epoch in
    ((epoch + tick) % 2 ^ 64, record { cached_epoch = epoch; cached_tick = tick })

pub uptime_get : (max_delay rate : ℕ) → (isr : Bool) → Clock → (tick overflow_count : ℕ) → ℕ × Clock
unfolding uptime_ticks_thread uptime_ticks_isr ticks_to_ms
uptime_get max_delay rate isr c tick overflow_count =
    let (ticks, c') =
      if isr
      then uptime_ticks_isr max_delay c (tick % 2 ^ 32)
      else uptime_ticks_thread max_delay tick overflow_count in
    (ticks_to_ms rate ticks, c')

-- `os_tick_get`, with the counter of the kernel in an interrupt handler and in a task
pub tick_get : (isr : Bool) → (from_isr from_task : ℕ) → ℕ
tick_get isr from_isr from_task = if isr then from_isr % 2 ^ 32 else from_task % 2 ^ 32

-- `os_delay`, by the call of the kernel
pub delay :
    {State : Type 0} → (task_delay : State → ℕ → State) → (isr : Bool) → State → (ticks : ℕ) → State
delay task_delay isr s ticks = if not isr then task_delay s ticks else s
