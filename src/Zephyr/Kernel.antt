-- ===== src/Zephyr/Kernel.antt =====
-- src/zephyr/kernel.c: Zephyr has started before the application runs.
use hazel_osal.Prelude.{Bool, if◌then◌else◌}
use hazel_osal.Errno.{Result, ok, err, ealready, enotsup, ewouldblock}

-- `os_kernel_init`
pub init : (isr : Bool) → Result
init isr = if isr then err ewouldblock else ok 0

-- `os_kernel_start`
pub start : (isr : Bool) → Result
start isr = if isr then err ewouldblock else err ealready

-- `os_kernel_stop`
pub stop : (isr : Bool) → Result
stop isr = if isr then err ewouldblock else err enotsup
