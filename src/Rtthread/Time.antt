-- ===== src/Rtthread/Time.antt =====
-- src/osal_rtthread/time.c. Unsigned 64-bit arithmetic is written with its wrap-around.
pub mod Convert
pub mod Uptime
use hazel_osal.Prelude.{ℕ, ◌+◌, ◌-◌, ◌*◌, ◌/◌, ◌%◌, ◌^◌, Bool, not, ltb, leb, if◌then◌else◌}
use hazel_osal.Errno.{wait_forever}

abbrev pub uint64_max : ℕ
uint64_max = 0xffff_ffff_ffff_ffff

unfoldable pub scale_ms_to_ticks_ceil : (milliseconds ticks_per_second : ℕ) → ℕ
scale_ms_to_ticks_ceil milliseconds ticks_per_second =
    let max_ticks = wait_forever - 1 in
    let whole = milliseconds / 1000 in
    let remainder = milliseconds % 1000 in
    let ticks =
      ((whole * ticks_per_second) % 2 ^ 64
        + ((remainder * ticks_per_second) % 2 ^ 64 + 999) % 2 ^ 64 / 1000)
      % 2 ^ 64 in
    if ltb (max_ticks / ticks_per_second) whole
    then max_ticks
    else if ltb max_ticks ticks
    then max_ticks
    else ticks

unfoldable pub ticks_to_ms : (rate ticks : ℕ) → ℕ
ticks_to_ms rate ticks =
    let whole = ticks / rate in
    let remainder = ticks % rate in
    if ltb (uint64_max / 1000) whole
    then uint64_max
    else ((whole * 1000) % 2 ^ 64 + (remainder * 1000) % 2 ^ 64 / rate) % 2 ^ 64

unfoldable pub ms_to_ticks_ceil : (rate milliseconds : ℕ) → ℕ
unfolding scale_ms_to_ticks_ceil
ms_to_ticks_ceil rate milliseconds = scale_ms_to_ticks_ceil milliseconds (rate % 2 ^ 32)

-- the static variables of `os_uptime_get`
pub record Clock : Type 0 where
  pub epoch : ℕ
  pub previous : ℕ

-- the critical section of `os_uptime_get`: the number of ticks, and the variables
unfoldable pub uptime_ticks : Clock → (current : ℕ) → ℕ × Clock
uptime_ticks c current =
    let epoch = if ltb current c.previous then (c.epoch + 2 ^ 32) % 2 ^ 64 else c.epoch in
    ((epoch + current) % 2 ^ 64, record { epoch = epoch; previous = current })

pub uptime_get : (rate : ℕ) → Clock → (current : ℕ) → ℕ × Clock
unfolding uptime_ticks ticks_to_ms
uptime_get rate c current = let (ticks, c') = uptime_ticks c current in (ticks_to_ms rate ticks, c')

-- `os_tick_get`, with the counter of the kernel
pub tick_get : (tick : ℕ) → ℕ
tick_get tick = tick % 2 ^ 32

-- `os_delay`, by the call of the kernel
pub delay :
    {State : Type 0}
    → (thread_delay : State → ℕ → State) → (isr : Bool) → State
    → (ticks : ℕ) → State
delay thread_delay isr s ticks = if not isr then thread_delay s ticks else s
