-- ===== src/Freertos/Time/Convert.antt =====
-- The conversions of `os_ms_to_ticks_ceil` and `os_ticks_to_ms` are exact up to their limits.
use hazel_osal.Prelude.{
  ℕ, ◌+◌, ◌*◌, ◌/◌, ◌%◌, ◌^◌, ◌≤◌, ◌<◌, ◌≡◌, inl, inr, ltb, if◌then◌else◌, arith, Bool-cases,
}
use hazel_osal.Prelude.Scale.{over, under, split_scaled, split_thousand, part_lt}
use hazel_osal.Freertos.Time.{scale_ms_to_ticks_ceil, ticks_to_ms}
use native.Mathlib.Nat.{mod-lt}

-- On FreeRTOS, for a positive 32-bit tick rate, os_scale_ms_to_ticks_ceil is the exact number of
-- ticks rounded up, or OS_WAIT_FOREVER - 1 where that number is larger.
pub scale_ms_to_ticks_ceil-ceil_freertos :
    (ms rate : ℕ)
    → 0 < rate
    → rate < 2 ^ 32
    → scale_ms_to_ticks_ceil ms rate ≡ (
        let exact = (ms * rate + 999) / 1000 in
        if ltb 0xffff_fffe exact then 0xffff_fffe else exact)
unfolding scale_ms_to_ticks_ceil
scale_ms_to_ticks_ceil-ceil_freertos ms rate pos small =
    let exact = split_scaled ms rate in
    let rest : (ms % 1000) * rate ≤ 999 * rate = grind arith in
    elim (Bool-cases (ltb (0xffff_fffe / rate) (ms / 1000))) [
      | inl large ↦ ground (arith, exact, over (ms / 1000) rate 0xffff_fffe pos)
      | inr fits ↦ ground (arith, exact, rest, under (ms / 1000) rate 0xffff_fffe pos)
    ]

-- On FreeRTOS, for a positive 32-bit tick rate and where the exact number of milliseconds fits in
-- 64 bits, os_ticks_to_ms is that number rounded down.
pub ticks_to_ms-floor_freertos :
    (rate ticks : ℕ)
    → 0 < rate
    → rate < 2 ^ 32
    → ticks * 1000 / rate ≤ 0xffff_ffff_ffff_ffff
    → ticks_to_ms rate ticks ≡ ticks * 1000 / rate
unfolding ticks_to_ms
ticks_to_ms-floor_freertos rate ticks pos small fits =
    let exact = split_thousand ticks rate pos in
    let rest : ticks % rate < rate = mod-lt ticks pos in ground (arith, exact)

-- On FreeRTOS, for a positive 32-bit tick rate, if the quotient of the ticks by the rate is
-- UINT64_MAX / 1000 and the exact number of milliseconds does not fit in 64 bits, the result of
-- os_ticks_to_ms is below 1000.
pub ticks_to_ms-wraps_freertos :
    (rate ticks : ℕ)
    → 0 < rate
    → rate < 2 ^ 32
    → ticks / rate ≡ 0x41_8937_4bc6_a7ef
    → 0xffff_ffff_ffff_ffff < ticks * 1000 / rate
    → ticks_to_ms rate ticks < 1000
unfolding ticks_to_ms
ticks_to_ms-wraps_freertos rate ticks pos small last over_max =
    let exact = split_thousand ticks rate pos in
    let rest : ticks % rate < rate = mod-lt ticks pos in
    let part = part_lt (ticks % rate) rate pos rest in ground (arith, exact)
