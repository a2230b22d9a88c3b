-- ===== src/Freertos/Kernel.antt =====
-- src/osal_freertos/kernel.c. A start is cut at `vTaskStartScheduler`, which returns when the scheduler
-- has been ended or could not be started.
pub mod Stopping
use hazel_osal.Prelude.{Bool, true, false, not, Option, none, some, if◌then◌else◌}
use hazel_osal.Errno.{Result, ok, err, enomem, ealready, enotsup, ewouldblock}
use hazel_osal.Life.{Begin, returns, goes_on}

-- the static variables
pub record Kernel : Type 0 where
  pub started_by_osal : Bool
  pub stop_requested : Bool

-- `os_kernel_scheduler_running`: `state` is what `xTaskGetSchedulerState` tells, where the kernel has
-- that function.
unfoldable pub scheduler_running : Kernel → (state : Option Bool) → Bool
scheduler_running k none = k.started_by_osal
scheduler_running k (some running) = running

-- `os_kernel_init`
pub init : (isr : Bool) → Result
init isr = if isr then err ewouldblock else ok 0

-- `os_kernel_start` before the scheduler starts
unfoldable pub start_enter : (isr : Bool) → Kernel → (state : Option Bool) → Begin × Kernel
unfolding scheduler_running
start_enter isr k state =
    if isr
    then (returns (err ewouldblock), k)
    else if scheduler_running k state
    then (returns (err ealready), k)
    else (goes_on, record { started_by_osal = true; stop_requested = false })

-- and after it has returned
unfoldable pub start_leave : Kernel → Result × Kernel
start_leave k =
    if k.stop_requested
    then (ok 0, record { started_by_osal = false; stop_requested = false })
    else (err enomem, record k { started_by_osal = false })

-- `os_kernel_stop`; `supported` is `CONFIG_OSAL_FREERTOS_SCHEDULER_STOP`
unfoldable pub stop : (supported isr : Bool) → Kernel → (state : Option Bool) → Result × Kernel
unfolding scheduler_running
stop supported isr k state =
    if isr
    then (err ewouldblock, k)
    else if not (scheduler_running k state)
    then (err ealready, k)
    else if supported
    then (ok 0, record k { stop_requested = true })
    else (err enotsup, k)
