-- ===== src/Rtthread/Priority.antt =====
-- The priorities of src/osal_rtthread/internal.h: those of the OSAL grow with the urgency, those of
-- RT-Thread fall. `max` is `RT_THREAD_PRIORITY_MAX`, at most 256.
use hazel_osal.Errno.{wait_forever}
use hazel_osal.Prelude.Int.{ℤ, pos, negsuc}
use hazel_osal.Prelude.{ℕ, ◌-◌, ◌%◌, ◌^◌, ◌≤◌, ◌<◌, ◌≡◌, ltb, leb, ◌==◌, if◌then◌else◌, arith}

-- `if (priority < 0) priority = 0`
unfoldable pub non_negative : ℤ → ℕ
non_negative (pos n) = n
non_negative (negsuc n) = 0

unfoldable pub os_to_rt_priority : (max : ℕ) → ℤ → ℕ
unfolding non_negative
os_to_rt_priority max priority =
    let raised = non_negative priority in
    let clamped = if leb max raised then max - 1 else raised in (max - 1 - clamped) % 2 ^ 8

-- For a priority of RT-Thread, which is below `max`, the difference is not negative.
unfoldable pub rt_to_os_priority : (max priority : ℕ) → ℕ
rt_to_os_priority max priority = max - 1 - priority

unfoldable pub os_to_rt_timeout : (timeout : ℕ) → ℤ
os_to_rt_timeout timeout =
    if timeout == wait_forever
    then negsuc 0
    else if ltb timeout (2 ^ 31)
    then pos timeout
    else negsuc (2 ^ 32 - 1 - timeout)

-- The conversions are inverse to each other on the priorities below a number of at most 256.
pub os_to_rt_priority-roundtrip :
    (max priority : ℕ)
    → priority < max
    → max ≤ 256
    → (rt_to_os_priority max (os_to_rt_priority max (pos priority)) ≡ priority)
      × (os_to_rt_priority max (pos (rt_to_os_priority max priority)) ≡ priority)
unfolding os_to_rt_priority rt_to_os_priority non_negative
os_to_rt_priority-roundtrip max priority lt le = (ground arith, ground arith)

-- A priority of RT-Thread is below the number of them, falls where that of the OSAL grows, and turns
-- back into the priority that was asked for, cut to the range.
pub os_to_rt_priority-order :
    (max : ℕ) (p q : ℤ)
    → 0 < max
    → max ≤ 256
    → (os_to_rt_priority max p < max)
      × (non_negative p ≤ non_negative q → os_to_rt_priority max q ≤ os_to_rt_priority max p)
      × (rt_to_os_priority max (os_to_rt_priority max p)
          ≡ (if leb max (non_negative p) then max - 1 else non_negative p))
unfolding os_to_rt_priority rt_to_os_priority
os_to_rt_priority-order max p q some_left le = (ground arith, λ h. ground arith, ground arith)
