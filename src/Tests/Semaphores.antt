-- ===== src/Tests/Semaphores.antt =====
-- The contracts of the backends at the plain kernels.
use hazel_osal.Errno.{wait_forever}
use hazel_osal.Sem.{IsSemaphore}
use hazel_osal.Freertos.Semaphore
use hazel_osal.Freertos.Semaphore.Contract as FreertosContract
use hazel_osal.Rtthread.Semaphore as RtthreadSemaphore
use hazel_osal.Rtthread.Semaphore.Contract as RtthreadContract
use hazel_osal.Zephyr.Semaphore as ZephyrSemaphore
use hazel_osal.Zephyr.Semaphore.Contract as ZephyrContract
use hazel_osal.Tests.Kernels.{semphr, rt_sem, k_sem, semphr-IsSemphr, rt_sem-IsRtSem, k_sem-IsKSem}

freertos_example : IsSemaphore (Semaphore.ops semphr) wait_forever
freertos_example = FreertosContract.ops-IsSemaphore_freertos semphr-IsSemphr

rtthread_example : IsSemaphore (RtthreadSemaphore.ops rt_sem) 0x8000_0000
rtthread_example = RtthreadContract.ops-IsSemaphore_rtthread rt_sem-IsRtSem

zephyr_example : IsSemaphore (ZephyrSemaphore.ops k_sem) wait_forever
zephyr_example = ZephyrContract.ops-IsSemaphore_zephyr k_sem-IsKSem
