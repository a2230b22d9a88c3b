-- ===== src/Zephyr.antt =====
-- The Zephyr backend, src/zephyr.
pub mod Semaphore
pub mod Event
pub mod Kernel
pub mod Time
