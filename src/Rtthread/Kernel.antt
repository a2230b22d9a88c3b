-- ===== src/Rtthread/Kernel.antt =====
-- src/osal_rtthread/kernel.c. `thread` says that `rt_thread_self` is not NULL.
use hazel_osal.Prelude.{Bool, not, if◌then◌else◌}
use hazel_osal.Errno.{Result, ok, err, eio, ealready, enotsup, ewouldblock}

-- `os_kernel_init`
pub init : (isr : Bool) → Result
init isr = if isr then err ewouldblock else ok 0

-- `os_kernel_start`, whose last line is reached only when the scheduler returns
pub start : (isr thread : Bool) → Result
start isr thread = if isr then err ewouldblock else if thread then err ealready else err eio

-- `os_kernel_stop`
pub stop : (isr thread : Bool) → Result
stop isr thread = if isr then err ewouldblock else if not thread then err ealready else err enotsup
