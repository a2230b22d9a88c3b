-- ===== src/Work/Concurrent/Safety.antt =====
-- The invariant of the work items and queues is kept by every step.
use hazel_osal.Prelude.{ℕ, ◌≡◌, refl, true, none, [], arith}
use hazel_osal.Prelude.Ids.{has}
use hazel_osal.Work.{Sys, no_flags}
use hazel_osal.Work.Delay.{undelay}
use hazel_osal.Work.Invariant.Lists.{
  submit_link-ListInv, cancel_unlink-ListInv, begin-ListInv, finish-ListInv, promote_unlink-ListInv,
  undelay-ListInv, placed-ListInv,
}
use hazel_osal.Work.Invariant.Runs.{
  submit_link-RunInv, cancel_unlink-RunInv, begin-RunInv, finish-RunInv, promote_unlink-RunInv,
  undelay-RunInv, placed-RunInv,
}
use hazel_osal.Work.Invariant.Delays.{
  submit_link-DelayInv, cancel_unlink-DelayInv, begin-DelayInv, finish-DelayInv,
  promote_unlink-DelayInv, undelay-DelayInv, undelay-free, placed-DelayInv,
}
use hazel_osal.Work.Concurrent.{
  Inv, Step, submits, cancels, undelays, delays, begins, finishes, promotes, stops, stop_undelays,
  drains, drained, unplugs, inits, resets, signals_items, signals_sync, Reach, here, next, Same-Inv,
  drain_begin-Same, drain_round-Same, unplug-Same, stop_link-Inv, stop_undelay-promote_unlink,
}
use hazel_osal.Work.Concurrent.Resets.{blank-Inv, unused-Inv}

module _ {Sem : Type 0} where
  pub Step-Inv : {s s' : Sys Sem} → Inv s → Step s s' → Inv s'
  Step-Inv {s = s} v (submits self q w n) = record {
    lists = submit_link-ListInv self s q w n v.lists;
    runs = submit_link-RunInv self s q w v.runs;
    delays = submit_link-DelayInv self s q w v.delays;
  }
  Step-Inv {s = s} v (cancels w n) = record {
    lists = cancel_unlink-ListInv s w n v.lists;
    runs = cancel_unlink-RunInv s w v.runs;
    delays = cancel_unlink-DelayInv s w v.delays;
  }
  Step-Inv {s = s} v (undelays w) = record {
    lists = undelay-ListInv s w v.lists;
    runs = undelay-RunInv s w v.runs;
    delays = undelay-DelayInv s w v.delays;
  }
  Step-Inv {s = s} v (delays q w deadline) = record {
    lists = placed-ListInv (undelay s w) q w deadline (undelay-ListInv s w v.lists);
    runs = placed-RunInv (undelay s w) q w deadline (undelay-RunInv s w v.runs);
    delays =
        placed-DelayInv (undelay s w) q w deadline (undelay-free s w)
          (undelay-DelayInv s w v.delays);
  }
  Step-Inv {s = s} v (begins q idle) = record {
    lists = begin-ListInv s q v.lists;
    runs = begin-RunInv s q idle v.lists v.runs;
    delays = begin-DelayInv s q v.delays;
  }
  Step-Inv {s = s} v (finishes q w e) = record {
    lists = finish-ListInv s q w v.lists;
    runs = finish-RunInv s q w e v.runs;
    delays = finish-DelayInv s q w v.delays;
  }
  Step-Inv {s = s} v (promotes q w there) = record {
    lists = promote_unlink-ListInv s q w v.lists;
    runs = promote_unlink-RunInv s q w v.runs;
    delays = promote_unlink-DelayInv s q w there v.delays;
  }
  Step-Inv {s = s} v (stops self q) = stop_link-Inv self s q v
  Step-Inv {s} v (stop_undelays q w rest e) =
      let there : has w (s.queues q).delayed ≡ true = ground (arith, e) in
      rw (stop_undelay-promote_unlink s q w rest e) (record {
        lists = promote_unlink-ListInv s q w v.lists;
        runs = promote_unlink-RunInv s q w v.runs;
        delays = promote_unlink-DelayInv s q w there v.delays;
      })
  Step-Inv {s = s} v (drains isr plug q) = Same-Inv s q _ (drain_begin-Same isr plug (s.queues q)) v
  Step-Inv {s = s} v (drained q) = Same-Inv s q _ (drain_round-Same (s.queues q)) v
  Step-Inv {s = s} v (unplugs q) = Same-Inv s q _ (unplug-Same (s.queues q)) v
  Step-Inv {s = s} v (inits w work old new) = unused-Inv s w work old new v
  Step-Inv {s = s} v (resets q queue old new c) = blank-Inv s q queue old new c v
  Step-Inv {s = s} v (signals_items q items) = Same-Inv s q _ (refl, refl, refl, refl) v
  Step-Inv {s = s} v (signals_sync w sync) = record {
    lists = record {
      on_list = λ q' w' h n. ground (arith, v.lists.on_list q' w');
      listed = λ q' w' h at n. ground (arith, v.lists.listed q' w');
      distinct = v.lists.distinct;
      counted = v.lists.counted;
      bounded = v.lists.bounded;
    };
    runs = record {
      current_runs = λ q' w' c. ground (arith, v.runs.current_runs q' w');
      runs_current = λ q' w' r at. ground (arith, v.runs.runs_current q' w');
      canceling_runs = λ w' c. ground (arith, v.runs.canceling_runs w');
    };
    delays = record {
      on_delayed = λ q' w'. ground (arith, v.delays.on_delayed q' w');
      delayed_distinct = v.delays.delayed_distinct;
    };
  }

  -- Every sequence of critical sections of the work queue, in which an item is initialized only
  -- while it has no flag and a queue is reset only while there is no work on it, keeps the
  -- invariant: the list of a queue holds exactly the items that are queued on it, each once, and
  -- the count is their number with the stop node; an item runs exactly when it is the current one
  -- of its queue, and only a running item is being canceled; the delayed items of a queue are
  -- exactly those that are delayed on it, each once.
  pub Reach-Inv_work : {s s' : Sys Sem} → Inv s → Reach s s' → Inv s'
  Reach-Inv_work v here = v
  Reach-Inv_work v (next r step) = Step-Inv (Reach-Inv_work v r) step

  -- A system whose items have just been initialized and whose queues are zero or freshly started.
  abbrev pub IsFresh : Sys Sem → Type 0
  IsFresh s =
      ((w : ℕ) → (s.works w).flags ≡ no_flags)
      × ((q : ℕ)
          → ((s.queues q).list ≡ [])
            × ((s.queues q).count ≡ 0)
            × ((s.queues q).delayed ≡ [])
            × ((s.queues q).current ≡ none))

  -- A system whose items have no flag set and whose queues are empty, with no delayed and no
  -- current item, satisfies the invariant of the work queue.
  pub fresh-Inv : (s : Sys Sem) → IsFresh s → Inv s
  fresh-Inv s (f, e) = record {
    lists = record {
      on_list = λ q w h n. ground (arith, e q);
      listed = λ q w h at n. ground (arith, f w);
      distinct = λ q. ground (arith, e q);
      counted = λ q. ground (arith, e q);
      bounded = λ q. ground (arith, e q);
    };
    runs = record {
      current_runs = λ q w c. ground (arith, e q);
      runs_current = λ q w r at. ground (arith, f w);
      canceling_runs = λ w c. ground (arith, f w);
    };
    delays = record {
      on_delayed = λ q w. ground (arith, e q, f w);
      delayed_distinct = λ q. ground (arith, e q);
    };
  }
