-- ===== src/Life/Machine.antt =====
-- How a thread ends, as the documentation of `os_thread_join`, `os_thread_delete`,
-- `os_thread_cancel` and `os_thread_abort` in include/hazel_wireless/kernel.h promises it: the thread
-- itself, and any number of clients that join, delete or abort it.
pub mod Safety
pub mod Reached
use hazel_osal.Prelude.{ℕ, ◌≡◌, Bool, true, false}
use hazel_osal.Prelude.Ids.{update}
use hazel_osal.Life.{Life}

-- where the code of the thread is: before its end, behind the end of its entry function, behind the
-- release of the completion semaphore, or gone
pub data Body : Type 0 where
  running completing signaling ended : Body

-- where a client is: in no call, waiting in a join, about to reap, or behind one of the critical
-- sections of an abort
pub data Phase : Type 0 where
  idle joining reaping killing telling : Phase

-- The thread, the completion semaphore (`token`), its code and its clients.
pub record Machine : Type 0 where
  pub life : Life
  pub token : Bool
  pub body : Body
  pub clients : ℕ → Phase

-- the release of the semaphore is past
abbrev pub is_given : Body → Bool
is_given Body.running = false
is_given Body.completing = false
is_given Body.signaling = true
is_given Body.ended = true

abbrev pub is_running : Body → Bool
is_running Body.running = true
is_running Body.completing = false
is_running Body.signaling = false
is_running Body.ended = false

-- in a join or a deletion
abbrev pub is_active : Phase → Bool
is_active Phase.idle = false
is_active Phase.joining = true
is_active Phase.reaping = true
is_active Phase.killing = false
is_active Phase.telling = false

abbrev pub is_reaping : Phase → Bool
is_reaping Phase.idle = false
is_reaping Phase.joining = false
is_reaping Phase.reaping = true
is_reaping Phase.killing = false
is_reaping Phase.telling = false

-- in an abort
abbrev pub is_aborting : Phase → Bool
is_aborting Phase.idle = false
is_aborting Phase.joining = false
is_aborting Phase.reaping = false
is_aborting Phase.killing = true
is_aborting Phase.telling = true

abbrev pub is_telling : Phase → Bool
is_telling Phase.idle = false
is_telling Phase.joining = false
is_telling Phase.reaping = false
is_telling Phase.killing = false
is_telling Phase.telling = true

abbrev pub set_life : Machine → Life → Machine
set_life m life = record m { life = life }

abbrev pub set_body : Machine → Body → Machine
set_body m body = record m { body = body }

abbrev pub set_client : Machine → ℕ → Phase → Machine
set_client m c phase = record m { clients = update m.clients c phase }

-- what an abort writes
abbrev pub abort_life : Life → Life
abort_life l = record l { cancel_requested = true; aborted = true; completed = true }

abbrev pub reap_life : Life → Life
reap_life l = record l { completion_handle = false; completion_reaped = true; join_active = false }

-- a thread that has begun to run
abbrev pub begun : Life → Machine
begun l = record { life = l; token = false; body = Body.running; clients = λ c. Phase.idle }

-- One critical section, or one call of the kernel, by the thread or a client `c`.
pub data Step (m : Machine) : Machine → Type 0 where
  completes :
      m.body ≡ Body.running
      → Step m (set_body (set_life m (record m.life { completed = true })) Body.completing)
  gives : m.body ≡ Body.completing → Step m (record m { token = true; body = Body.signaling })
  signals :
      m.body ≡ Body.signaling
      → Step m (set_body (set_life m (record m.life { completion_signaled = true })) Body.ended)
  aborts_itself :
      m.body ≡ Body.running
      → m.life.completed ≡ false
      → Step m (set_body (set_life m (abort_life m.life)) Body.completing)
  joins :
      (c : ℕ)
      → m.clients c ≡ Phase.idle
      → m.life.completion_reaped ≡ false
      → m.life.join_active ≡ false
      → Step m (set_client (set_life m (record m.life { join_active = true })) c Phase.joining)
  takes :
      (c : ℕ)
      → m.clients c ≡ Phase.joining
      → m.token ≡ true
      → Step m (set_client (record m { token = false }) c Phase.reaping)
  gives_up :
      (c : ℕ)
      → m.clients c ≡ Phase.joining
      → Step m (set_client (set_life m (record m.life { join_active = false })) c Phase.idle)
  deletes :
      (c : ℕ)
      → m.clients c ≡ Phase.idle
      → m.life.completion_reaped ≡ false
      → m.life.completed ≡ true
      → m.life.completion_signaled ≡ true
      → m.life.join_active ≡ false
      → Step m (set_client (set_life m (record m.life { join_active = true })) c Phase.reaping)
  reaps :
      (c : ℕ)
      → m.clients c ≡ Phase.reaping
      → Step m (set_client (set_life m (reap_life m.life)) c Phase.idle)
  cancels :
      m.life.completed ≡ false → Step m (set_life m (record m.life { cancel_requested = true }))
  aborts :
      (c : ℕ)
      → m.clients c ≡ Phase.idle
      → m.life.completed ≡ false
      → Step m (set_client (set_life m (abort_life m.life)) c Phase.killing)
  kills :
      (c : ℕ)
      → m.clients c ≡ Phase.killing
      → Step m (set_client (record m { token = true; body = Body.ended }) c Phase.telling)
  tells :
      (c : ℕ)
      → m.clients c ≡ Phase.telling
      → Step m (set_client (set_life m (record m.life { completion_signaled = true })) c Phase.idle)
  rests : Step m m

-- steps, the last one first
pub data Reach (m : Machine) : Machine → Type 0 where
  here : Reach m m
  next : {m' m'' : Machine} → Reach m m' → Step m' m'' → Reach m m''
