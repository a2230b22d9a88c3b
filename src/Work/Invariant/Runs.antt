-- ===== src/Work/Invariant/Runs.antt =====
-- The critical sections keep what the queues run.
use hazel_osal.Prelude.{
  ℕ, ◌≡◌, refl, ap, inl, inr, false, ◌&&◌, not, Option, none, some, List, [], ◌∷◌, ◌==◌, arith,
  Bool-cases,
}
use hazel_osal.Work.{Sys, is_at, set_work}
use hazel_osal.Work.Submit.{linked, submit_link}
use hazel_osal.Work.Submit.Link.{refuses, submit_link-refuses, submit_link-takes}
use hazel_osal.Work.Cancel.{unlink_from, settled, cancel_unlink}
use hazel_osal.Work.Delay.{undelay_from, undelay, placed}
use hazel_osal.Work.Worker.{begin_with, begin, finish, promote_unlink}
use hazel_osal.Work.Invariant.{ListInv, RunInv}

module _ {Sem : Type 0} where
  linked-RunInv :
      (s : Sys Sem) (q w : ℕ)
      → ((s.works w).flags.running && not (is_at (s.works w).queue q)) ≡ false
      → RunInv s
      → RunInv (linked s q w)
  unfolding linked
  linked-RunInv s q w free v = record {
    current_runs = λ q' w' c. ground (arith, v.current_runs q' w');
    runs_current = λ q' w' r at. ground (arith, v.runs_current q' w');
    canceling_runs = λ w' c. ground (arith, v.canceling_runs w');
  }

  pub submit_link-RunInv :
      (self : Option ℕ) (s : Sys Sem) (q w : ℕ) → RunInv s → RunInv (submit_link self s q w).1
  unfolding refuses
  submit_link-RunInv self s q w v = elim (Bool-cases (refuses self s q w)) [
    | inl refused ↦ rw (submit_link-refuses self s q w refused) v
    | inr free ↦
        rw (ap (λ r. r.1) (submit_link-takes self s q w free))
          (linked-RunInv s q w (ground arith) v)
  ]

  unlink_from-RunInv :
      (s : Sys Sem) (w : ℕ) (queue : Option ℕ) → RunInv s → RunInv (unlink_from s w queue)
  unfolding unlink_from
  unlink_from-RunInv s w none v = v
  unlink_from-RunInv s w (some q) v = record {
    current_runs = λ q' w' c. ground (arith, v.current_runs q' w');
    runs_current = λ q' w' r at. ground (arith, v.runs_current q' w');
    canceling_runs = λ w' c. ground (arith, v.canceling_runs w');
  }

  settled-RunInv : (s : Sys Sem) (w : ℕ) → RunInv s → RunInv (set_work s w (settled (s.works w)))
  unfolding settled
  settled-RunInv s w v = record {
    current_runs = λ q' w' c. ground (arith, v.current_runs q' w');
    runs_current = λ q' w' r at. ground (arith, v.runs_current q' w');
    canceling_runs = λ w' c. ground (arith, v.canceling_runs w');
  }

  pub cancel_unlink-RunInv : (s : Sys Sem) (w : ℕ) → RunInv s → RunInv (cancel_unlink s w)
  unfolding cancel_unlink
  cancel_unlink-RunInv s w v = elim (Bool-cases (s.works w).flags.queued) [
    | inl queued ↦
        rw (queued, cancel_unlink)
          (settled-RunInv (unlink_from s w (s.works w).queue) w
            (unlink_from-RunInv s w (s.works w).queue v))
    | inr free ↦ rw (free, cancel_unlink) (settled-RunInv s w v)
  ]

  begin_with-RunInv :
      (s : Sys Sem) (q : ℕ) (l : List ℕ)
      → (s.queues q).list ≡ l
      → (s.queues q).current ≡ none
      → ListInv s
      → RunInv s
      → RunInv (begin_with s q l).1
  unfolding begin_with
  begin_with-RunInv s q [] e idle l v = v
  begin_with-RunInv s q (node ∷ rest) e idle l v = elim (Bool-cases (node == 0)) [
    | inl stop ↦ rw stop (record {
      current_runs = λ q' w' c. ground (arith, v.current_runs q' w');
      runs_current = λ q' w' r at. ground (arith, v.runs_current q' w');
      canceling_runs = v.canceling_runs;
    })
    | inr item ↦ rw item (record {
      current_runs = λ q' w' c.
          ground (arith, v.current_runs q' w', v.runs_current q node, l.on_list q node, e);
      runs_current = λ q' w' r at.
          ground (arith, v.runs_current q' w', v.runs_current q node, l.on_list q node, e);
      canceling_runs = λ w' c. ground (arith, v.canceling_runs w');
    })
  ]

  -- The worker takes an item when it runs none.
  pub begin-RunInv :
      (s : Sys Sem) (q : ℕ)
      → (s.queues q).current ≡ none
      → ListInv s
      → RunInv s
      → RunInv (begin s q).1
  unfolding begin
  begin-RunInv s q idle l v = begin_with-RunInv s q (s.queues q).list refl idle l v

  pub finish-RunInv :
      (s : Sys Sem) (q w : ℕ) → (s.queues q).current ≡ some w → RunInv s → RunInv (finish s q w)
  unfolding finish
  finish-RunInv s q w e v = record {
    current_runs = λ q' w' c. ground (arith, v.current_runs q' w', v.current_runs q w, e);
    runs_current = λ q' w' r at. ground (arith, v.runs_current q' w', v.current_runs q w, e);
    canceling_runs = λ w' c. ground (arith, v.canceling_runs w');
  }

  pub promote_unlink-RunInv : (s : Sys Sem) (q w : ℕ) → RunInv s → RunInv (promote_unlink s q w)
  unfolding promote_unlink
  promote_unlink-RunInv s q w v = record {
    current_runs = λ q' w' c. ground (arith, v.current_runs q' w');
    runs_current = λ q' w' r at. ground (arith, v.runs_current q' w');
    canceling_runs = λ w' c. ground (arith, v.canceling_runs w');
  }

  pub placed-RunInv : (s : Sys Sem) (q w deadline : ℕ) → RunInv s → RunInv (placed s q w deadline)
  unfolding placed
  placed-RunInv s q w deadline v = record {
    current_runs = λ q' w' c. ground (arith, v.current_runs q' w');
    runs_current = λ q' w' r at. ground (arith, v.runs_current q' w');
    canceling_runs = λ w' c. ground (arith, v.canceling_runs w');
  }

  undelay_from-RunInv :
      (s : Sys Sem) (w : ℕ) (queue : Option ℕ)
      → RunInv s
      → RunInv (
          set_work
            (undelay_from s w queue)
            w
            (record (s.works w) { flags = record ((s.works w).flags) { delayed = false } }))
  unfolding undelay_from
  undelay_from-RunInv s w none v = record {
    current_runs = λ q' w' c. ground (arith, v.current_runs q' w');
    runs_current = λ q' w' r at. ground (arith, v.runs_current q' w');
    canceling_runs = λ w' c. ground (arith, v.canceling_runs w');
  }
  undelay_from-RunInv s w (some q) v = record {
    current_runs = λ q' w' c. ground (arith, v.current_runs q' w');
    runs_current = λ q' w' r at. ground (arith, v.runs_current q' w');
    canceling_runs = λ w' c. ground (arith, v.canceling_runs w');
  }

  pub undelay-RunInv : (s : Sys Sem) (w : ℕ) → RunInv s → RunInv (undelay s w)
  unfolding undelay
  undelay-RunInv s w v = elim (Bool-cases (s.works w).flags.delayed) [
    | inl delayed ↦ rw (delayed, undelay) (undelay_from-RunInv s w (s.works w).delay_queue v)
    | inr free ↦ rw (free, undelay) v
  ]
