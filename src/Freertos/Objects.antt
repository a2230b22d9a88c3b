-- ===== src/Freertos/Objects.antt =====
-- The objects of the FreeRTOS backend that point to each other: threads, wait queues and mutexes,
-- known by their addresses. A wait queue is the list of the threads on it; that of a mutex, its
-- first member, has the address of the mutex.
use hazel_osal.Prelude.{ℕ, Bool, true, false, Option, none, some, List, ◌==◌, ltb, if◌then◌else◌}
use hazel_osal.Prelude.Int.{ℤ, pos, negsuc}
use hazel_osal.Life.{ThreadState, Life}

-- `struct os_thread`. `handle` says that it is not NULL, `priority` is what
-- `uxTaskPriorityGet` returns for the task, `notification` is the task
-- notification of the kernel, if one is pending, and `owned_mutexes` the list of that name.
pub record Thread : Type 0 where
  pub handle : Bool
  pub priority : ℕ
  pub base_priority : ℤ
  pub wait_q : Option ℕ
  pub waiting_mutex : Option ℕ
  pub wait_result : ℕ
  pub state : ThreadState
  pub owned_mutexes : List ℕ
  pub notification : Option ℕ
  pub life : Life

-- `struct os_mutex`; its `owner_node` is on the list `owned_mutexes` of the owner.
pub record Mutex : Type 0 where
  pub owner : Option ℕ
  pub lock_count : ℕ
  pub initialized : Bool

-- `max_priority` is `configMAX_PRIORITIES - 1`, the highest priority of a task.
pub record Sys : Type 0 where
  pub max_priority : ℕ
  pub threads : ℕ → Thread
  pub waiters : ℕ → List ℕ
  pub mutexes : ℕ → Mutex

-- not NULL
abbrev pub is_on : Option ℕ → Bool
is_on none = false
is_on (some q) = true

-- equal to the address
abbrev pub is_at : Option ℕ → ℕ → Bool
is_at none a = false
is_at (some b) a = b == a

-- `os_thread_get_priority`: a thread with no handle has -EINVAL.
abbrev pub priority_of : Thread → ℤ
priority_of thread = if thread.handle then pos thread.priority else negsuc 21

-- `vTaskPrioritySet` and the creation of a task are documented to cut a priority to the highest one.
abbrev pub capped : (max_priority priority : ℕ) → ℕ
capped max_priority priority = if ltb max_priority priority then max_priority else priority
