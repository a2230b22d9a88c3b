-- ===== src/Freertos.antt =====
-- The FreeRTOS backend, src/osal_freertos.
pub mod Semaphore
pub mod Event
pub mod Time
pub mod Waitq
pub mod Objects
pub mod Mutex
pub mod Thread
pub mod System
pub mod Kernel
pub mod Memory
pub mod Critical
