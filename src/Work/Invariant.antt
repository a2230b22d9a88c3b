-- ===== src/Work/Invariant.antt =====
-- What holds of the work items and queues between any two critical sections of work_queue.c.
pub mod Lists
pub mod Runs
pub mod Delays
use hazel_osal.Prelude.{
  ℕ, ◌≤◌, ◌≡◌, Bool, true, false, ◌&&◌, not, List, ◌==◌, length, if◌then◌else◌,
}
use hazel_osal.Prelude.Ids.{has, Distinct}
use hazel_osal.Work.{Sys, is_at}

module _ {Sem : Type 0} where
  -- The list of a queue holds exactly the items that are queued on it, each once, and `count` is
  -- their number, with the stop node.
  pub record ListInv (s : Sys Sem) : Type 0 where
    pub on_list :
        (q w : ℕ)
        → has w (s.queues q).list ≡ true
        → (w == 0) ≡ false
        → ((s.works w).flags.queued ≡ true)
          × (is_at (s.works w).queue q ≡ true)
          × ((s.works w).node_queued ≡ true)
    pub listed :
        (q w : ℕ)
        → (s.works w).flags.queued ≡ true
        → is_at (s.works w).queue q ≡ true
        → (w == 0) ≡ false
        → has w (s.queues q).list ≡ true
    pub distinct : (q : ℕ) → Distinct (s.queues q).list
    pub counted : (q : ℕ) → (s.queues q).count ≡ length (s.queues q).list
    pub bounded : (q : ℕ) → (s.queues q).count ≤ 0x1_0000

  -- An item runs exactly when it is the current one of its queue, and only such an item is being
  -- canceled.
  pub record RunInv (s : Sys Sem) : Type 0 where
    pub current_runs :
        (q w : ℕ)
        → is_at (s.queues q).current w ≡ true
        → ((s.works w).flags.running ≡ true) × (is_at (s.works w).queue q ≡ true)
    pub runs_current :
        (q w : ℕ)
        → (s.works w).flags.running ≡ true
        → is_at (s.works w).queue q ≡ true
        → is_at (s.queues q).current w ≡ true
    pub canceling_runs :
        (w : ℕ) → (s.works w).flags.canceling ≡ true → (s.works w).flags.running ≡ true

  -- The delayed items of a queue are exactly those that are delayed on it, each once.
  pub record DelayInv (s : Sys Sem) : Type 0 where
    pub on_delayed :
        (q w : ℕ)
        → has w (s.queues q).delayed
          ≡ ((s.works w).flags.delayed && is_at (s.works w).delay_queue q)
    pub delayed_distinct : (q : ℕ) → Distinct (s.queues q).delayed
