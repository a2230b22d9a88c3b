-- ===== src/Rtthread.antt =====
-- The RT-Thread backend, src/osal_rtthread.
pub mod Semaphore
pub mod Event
pub mod Time
pub mod Waitq
pub mod Priority
pub mod Thread
pub mod Name
pub mod Kernel
pub mod Mutex
pub mod Memory
pub mod Critical
