-- ===== src/Tests.antt =====
-- The theorems at concrete inputs.
mod Kernels
mod Semaphores
mod Queues
mod Fifos
mod Slabs
mod Signals
mod Works
mod Waits
mod Stops
mod Names
mod Waitqs
mod Times
mod Events
mod Mutexes
mod Threads
mod Starts
