-- ===== src/Life.antt =====
-- The members of `struct os_thread` (include/hazel_wireless/kernel.h) that thread.c of the backends
-- keeps about the end of a thread.
pub mod Machine
pub mod Calls
use hazel_osal.Prelude.{ℕ, Bool, false}
use hazel_osal.Errno.{Result}

-- `enum os_thread_state`
pub data ThreadState : Type 0 where
  ready pending terminated : ThreadState

-- `completion_handle` says that it is not NULL.
pub record Life : Type 0 where
  pub completion_handle : Bool
  pub completed : Bool
  pub completion_signaled : Bool
  pub completion_reaped : Bool
  pub join_active : Bool
  pub cancel_requested : Bool
  pub aborted : Bool

-- what `memset` leaves
abbrev pub zero_life : Life
zero_life = record {
  completion_handle = false;
  completed = false;
  completion_signaled = false;
  completion_reaped = false;
  join_active = false;
  cancel_requested = false;
  aborted = false;
}

-- How the first critical section of a call ends: the call returns, or goes on.
pub data Begin : Type 0 where
  returns : Result → Begin
  goes_on : Begin
