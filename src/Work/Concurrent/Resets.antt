-- ===== src/Work/Concurrent/Resets.antt =====
-- Items that are initialized again, and queues that are stopped and started again.
use hazel_osal.Prelude.{ℕ, ◌≡◌, ap, length, arith}
use hazel_osal.Work.{Work, Queue, Sys, no_flags, set_work, set_queue}
use hazel_osal.Work.Concurrent.{Inv, IsBlank, Same-Inv}

module _ {Sem : Type 0} where
  -- Both queues are blank.
  pub blank-Inv :
      (s : Sys Sem) (q : ℕ) (queue : Queue Sem)
      → IsBlank (s.queues q)
      → IsBlank queue
      → queue.count ≡ 0
      → Inv s
      → Inv (set_queue s q queue)
  blank-Inv s q queue old new c v =
      Same-Inv s q queue (ground (arith, new, old, c, ap length old.0, v.lists.counted q)) v

  -- An item without a flag is on no list and no current one.
  pub unused-Inv :
      (s : Sys Sem) (w : ℕ) (work : Work Sem)
      → (s.works w).flags ≡ no_flags
      → work.flags ≡ no_flags
      → Inv s
      → Inv (set_work s w work)
  unused-Inv s w work old new v = record {
    lists = record {
      on_list = λ q' w' h n. ground (arith, v.lists.on_list q' w' h n, old);
      listed = λ q' w' h at n. ground (arith, v.lists.listed q' w', new);
      distinct = v.lists.distinct;
      counted = v.lists.counted;
      bounded = v.lists.bounded;
    };
    runs = record {
      current_runs = λ q' w' c. ground (arith, v.runs.current_runs q' w', old);
      runs_current = λ q' w' r at. ground (arith, v.runs.runs_current q' w', new);
      canceling_runs = λ w' c. ground (arith, v.runs.canceling_runs w', new);
    };
    delays = record {
      on_delayed = λ q' w'. ground (arith, v.delays.on_delayed q' w', old, new);
      delayed_distinct = v.delays.delayed_distinct;
    };
  }
