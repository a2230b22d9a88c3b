-- ===== src/Lib.antt =====
-- Hazel OSAL: an operating-system abstraction layer in C. include/hazel_wireless/kernel.h declares
-- one set of calls. src/osal_freertos, src/osal_rtthread and src/zephyr implement the primitive ones
-- over their kernels, and src/common builds message queues, FIFOs, memory slabs, signals and work
-- queues on semaphores and critical sections alone.
--
-- The files, each with its code:
--   Prelude.antt and below   shared names, lists with native indices, the byte loops of
--                            src/common/internal.h, lists of addresses, division of products
--   Prelude/Int.antt         the signed `int` of a priority
--   Errno.antt               the status codes and the `int` that calls return
--   Sem.antt                 the semaphore calls that src/common uses, as a record of operations, and
--                            the contract that the backends keep
--   Freertos/, Rtthread/, Zephyr/
--                            semaphore.c, event.c, time.c and kernel.c of a backend, waitq.c, context.c
--                            and memory.c of two.
--                            The calls of the kernel are a record of functions; what its documentation
--                            says of them is a record of hypotheses. Contract.antt is the proof that
--                            the backend keeps its promise.
--   Freertos/Objects.antt    threads, mutexes and wait queues, which point to each other
--   Freertos/Mutex.antt, Freertos/Mutex/
--                            src/osal_freertos/mutex.c: Inherit is priority inheritance, Deadlock the
--                            search along the chain of owners, Invariant what the calls keep
--   Life.antt, Life/         the end of a thread. Machine is the state machine of a thread and its
--                            clients, Calls the interface by which a thread.c fills it
--   Freertos/Thread.antt, Rtthread/Thread.antt and below
--                            thread.c of two backends: Laws and Ending fill that interface, Races holds
--                            orders of sections that go wrong, Mutexes and Unlinked what the calls
--                            make of the mutexes and wait queues
--   Lock.antt                what os_mutex_trylock and os_mutex_unlock promise
--   Rtthread/Mutex.antt      src/osal_rtthread/mutex.c
--   Atomic.antt, Atomic/     src/common/atomic.c
--   Freertos/System.antt     threads, mutexes and wait queues together
--   Rtthread/Priority.antt   the conversions of src/osal_rtthread/internal.h
--   Rtthread/Name.antt       src/osal_rtthread/name.c: Unique is about the hash, Text and Printed the text
--   Event.antt               what os_event_wait promises
--   Queue.antt               the bounded queue that message queues and FIFOs implement
--   Msgq.antt, Msgq/         src/common/message_queue.c
--   Fifo.antt, Fifo/         src/common/fifo.c
--   Slab.antt, Slab/         src/common/mem_slab.c
--   Signal.antt, Signal/     src/common/signal.c
--   Work.antt, Work/         src/common/work_queue.c: Submit, Cancel, Delay, Worker and Control hold
--                            its calls, Invariant and Concurrent what holds of them, Waits the calls
--                            that wait, as callers between two of their parts
--   Tests.antt, Tests/       the theorems at concrete inputs, with plain kernels
--
-- A function has the name of its C function without the prefix os_<object>_. State is passed and
-- returned; a NULL pointer in an argument that the code tests is an option or a Boolean, but the
-- object itself is there. `isr` is what os_is_in_isr says. An address is a number, zero is NULL, and in
-- the work queue zero is also the stop node. uint32_t counters keep their wrap-around. A priority that is
-- an `int` is a signed number, and FreeRTOS cuts the priority of a task to `max_priority`, which stands for
-- configMAX_PRIORITIES - 1.
--
-- A call is cut where other threads may come in between: each part is one critical section or one
-- semaphore call, and the whole call composes the parts. A call that blocks is one step at the time
-- when it returns. The Concurrent modules state every order of the parts as a step relation, with
-- records of what was sent and received, and an invariant that each step keeps.
--
-- Loops are by recursion on a list or a count. The walks along a chain of owners count to 16 as the code
-- does. Two loops have fuel: the reset of a signal, which ends within two rounds, and
-- os_work_promote_delayed, which ends within a round for each delayed item and one more.
--
-- The state of a thread's completion semaphore and the place in its code are part of the state machine of
-- Life/Machine.antt, where a client that deletes the task stops its code at once.
--
-- Not modelled: what a kernel does to a mutex whose owner it deletes; the yields to the scheduler; a work item
-- that is initialized again while it is in use; the lists of sys/dlist.h, which are lists of addresses here;
-- copied and generated headers.
pub mod Prelude
pub mod Errno
pub mod Sem
pub mod Life
pub mod Lock
pub mod Atomic
pub mod Freertos
pub mod Rtthread
pub mod Zephyr
pub mod Msgq
pub mod Event
pub mod Queue
pub mod Fifo
pub mod Slab
pub mod Signal
pub mod Work
mod Tests
