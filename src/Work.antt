-- ===== src/Work.antt =====
-- src/common/work_queue.c: the state of work items and work queues, and the helpers of the file.
-- Items and queues are known by their addresses. The item's node is its first member, so a node on
-- a queue's list has the address of its item; a queue's own stop node is written 0.
pub mod Submit
pub mod Cancel
pub mod Delay
pub mod Worker
pub mod Control
pub mod Invariant
pub mod Concurrent
pub mod Waits
use hazel_osal.Prelude.{
  ℕ, zero, suc, ◌+◌, ◌-◌, ◌%◌, ◌^◌, Bool, true, false, ◌||◌, ◌&&◌, not, Option, none, some, List,
  [], ◌∷◌, ◌++◌, ltb, leb, ◌==◌, if◌then◌else◌,
}
use hazel_osal.Prelude.Ids.{update}
use hazel_osal.Errno.{Result, ok, err, einval, is_zero}
use hazel_osal.Sem.{SemOps}

-- `flags`: the bits of `enum os_work_state`
pub record Flags : Type 0 where
  pub running : Bool
  pub canceling : Bool
  pub queued : Bool
  pub delayed : Bool

abbrev pub no_flags : Flags
no_flags = record { running = false; canceling = false; queued = false; delayed = false }

abbrev pub flags_value : Flags → ℕ
flags_value f =
    (if f.running then 1 else 0)
    + (if f.canceling then 2 else 0)
    + (if f.queued then 4 else 0)
    + (if f.delayed then 8 else 0)

-- `struct os_work`, with the members that `struct os_work_delayable` adds to it. `handler` says
-- that there is one, `node_queued` is `node.queued`.
pub record Work (Sem : Type 0) : Type 0 where
  pub node_queued : Bool
  pub handler : Bool
  pub queue : Option ℕ
  pub sync : Sem
  pub flags : Flags
  pub submission_id : ℕ
  pub running_id : ℕ
  pub completion_id : ℕ
  pub magic : ℕ
  pub sync_initialized : Bool
  pub delay_queue : Option ℕ
  pub deadline : ℕ

-- `struct os_work_queue`; `list`, `items`, `count` and `fifo_initialized` are its `fifo`.
pub record Queue (Sem : Type 0) : Type 0 where
  pub list : List ℕ
  pub items : Sem
  pub count : ℕ
  pub fifo_initialized : Bool
  pub delayed : List ℕ
  pub stop_queued : Bool
  pub current : Option ℕ
  pub started : Bool
  pub stopping : Bool
  pub draining : Bool
  pub plugged : Bool
  pub no_yield : Bool

pub record Sys (Sem : Type 0) : Type 0 where
  pub works : ℕ → Work Sem
  pub queues : ℕ → Queue Sem

abbrev pub work_magic : ℕ
work_magic = 0x6f73_776b

abbrev pub int32_max : ℕ
int32_max = 0x7fff_ffff

-- `pointer == address`
abbrev pub is_at : Option ℕ → ℕ → Bool
is_at none a = false
is_at (some b) a = b == a

abbrev pub is_null : Option ℕ → Bool
is_null none = true
is_null (some a) = false

-- `os_work_deadline_remaining`: the difference is an `int32_t`, of which only a positive one
-- counts.
unfoldable pub deadline_remaining : ℕ → ℕ → ℕ
deadline_remaining deadline now =
    let remaining = (deadline + 2 ^ 32 - now) % 2 ^ 32 in
    if leb remaining int32_max then remaining else 0

module _ {Sem : Type 0} where
  abbrev pub set_work : Sys Sem → ℕ → Work Sem → Sys Sem
  set_work s w work = record s { works = update s.works w work }

  abbrev pub set_queue : Sys Sem → ℕ → Queue Sem → Sys Sem
  set_queue s q queue = record s { queues = update s.queues q queue }

  pub busy_get : Sys Sem → ℕ → ℕ
  busy_get s w = if not ((s.works w).magic == work_magic) then 0 else flags_value (s.works w).flags

  pub is_pending : Sys Sem → ℕ → Bool
  unfolding busy_get
  is_pending s w = not (busy_get s w == 0)

module _ {Sem : Type 0} (o : SemOps Sem) where
  unfoldable pub notify : Bool → Sys Sem → ℕ → Sys Sem
  notify isr s w =
      if (s.works w).sync_initialized
      then set_work s w (record (s.works w) { sync = o.give isr (s.works w).sync })
      else s

  -- `os_sem_give(&queue->fifo.items)`
  unfoldable pub give_items : Bool → Sys Sem → ℕ → Sys Sem
  give_items isr s q = set_queue s q (record (s.queues q) { items = o.give isr (s.queues q).items })

  -- `os_work_init`, and `os_work_init_delayable`, which clears its own members too
  pub init : Sys Sem → ℕ → (handler : Bool) → Sys Sem
  init s w handler =
      let (r, sync) = o.init o.zero 0 1 in
      set_work s w (record {
        node_queued = false;
        handler = handler;
        queue = none;
        sync = sync;
        flags = no_flags;
        submission_id = 0;
        running_id = 0;
        completion_id = 0;
        magic = work_magic;
        sync_initialized = is_zero r;
        delay_queue = none;
        deadline = 0;
      })
