-- ===== src/Work/Invariant/Delays.antt =====
-- The critical sections keep the lists of delayed items.
use hazel_osal.Prelude.{
  ℕ, ◌≡◌, refl, ap, inl, inr, true, false, Option, none, some, List, [], ◌∷◌, ◌==◌, arith,
  Bool-cases,
}
use hazel_osal.Prelude.Ids.{has, has-append, has-remove, Distinct-snoc, Distinct-remove}
use hazel_osal.Work.{Sys, set_work}
use hazel_osal.Work.Submit.{linked, submit_link}
use hazel_osal.Work.Submit.Link.{refuses, submit_link-refuses, submit_link-takes}
use hazel_osal.Work.Cancel.{unlink_from, settled, cancel_unlink}
use hazel_osal.Work.Delay.{undelay_from, undelay, placed}
use hazel_osal.Work.Worker.{begin_with, begin, finish, promote_unlink}
use hazel_osal.Work.Invariant.{DelayInv}

module _ {Sem : Type 0} where
  linked-DelayInv : (s : Sys Sem) (q w : ℕ) → DelayInv s → DelayInv (linked s q w)
  unfolding linked
  linked-DelayInv s q w v = record {
    on_delayed = λ q' w'. ground (arith, v.on_delayed q' w');
    delayed_distinct = λ q'. ground (arith, v.delayed_distinct q');
  }

  pub submit_link-DelayInv :
      (self : Option ℕ) (s : Sys Sem) (q w : ℕ) → DelayInv s → DelayInv (submit_link self s q w).1
  submit_link-DelayInv self s q w v = elim (Bool-cases (refuses self s q w)) [
    | inl refused ↦ rw (submit_link-refuses self s q w refused) v
    | inr free ↦ rw (ap (λ r. r.1) (submit_link-takes self s q w free)) (linked-DelayInv s q w v)
  ]

  unlink_from-DelayInv :
      (s : Sys Sem) (w : ℕ) (queue : Option ℕ) → DelayInv s → DelayInv (unlink_from s w queue)
  unfolding unlink_from
  unlink_from-DelayInv s w none v = v
  unlink_from-DelayInv s w (some q) v = record {
    on_delayed = λ q' w'. ground (arith, v.on_delayed q' w');
    delayed_distinct = λ q'. ground (arith, v.delayed_distinct q');
  }

  settled-DelayInv :
      (s : Sys Sem) (w : ℕ) → DelayInv s → DelayInv (set_work s w (settled (s.works w)))
  unfolding settled
  settled-DelayInv s w v = record {
    on_delayed = λ q' w'. ground (arith, v.on_delayed q' w');
    delayed_distinct = v.delayed_distinct;
  }

  pub cancel_unlink-DelayInv : (s : Sys Sem) (w : ℕ) → DelayInv s → DelayInv (cancel_unlink s w)
  unfolding cancel_unlink
  cancel_unlink-DelayInv s w v = elim (Bool-cases (s.works w).flags.queued) [
    | inl queued ↦
        rw (queued, cancel_unlink)
          (settled-DelayInv (unlink_from s w (s.works w).queue) w
            (unlink_from-DelayInv s w (s.works w).queue v))
    | inr free ↦ rw (free, cancel_unlink) (settled-DelayInv s w v)
  ]

  begin_with-DelayInv :
      (s : Sys Sem) (q : ℕ) (l : List ℕ) → DelayInv s → DelayInv (begin_with s q l).1
  unfolding begin_with
  begin_with-DelayInv s q [] v = v
  begin_with-DelayInv s q (node ∷ rest) v = elim (Bool-cases (node == 0)) [
    | inl stop ↦ rw stop (record {
      on_delayed = λ q' w'. ground (arith, v.on_delayed q' w');
      delayed_distinct = λ q'. ground (arith, v.delayed_distinct q');
    })
    | inr item ↦ rw item (record {
      on_delayed = λ q' w'. ground (arith, v.on_delayed q' w');
      delayed_distinct = λ q'. ground (arith, v.delayed_distinct q');
    })
  ]

  pub begin-DelayInv : (s : Sys Sem) (q : ℕ) → DelayInv s → DelayInv (begin s q).1
  unfolding begin
  begin-DelayInv s q v = begin_with-DelayInv s q (s.queues q).list v

  pub finish-DelayInv : (s : Sys Sem) (q w : ℕ) → DelayInv s → DelayInv (finish s q w)
  unfolding finish
  finish-DelayInv s q w v = record {
    on_delayed = λ q' w'. ground (arith, v.on_delayed q' w');
    delayed_distinct = λ q'. ground (arith, v.delayed_distinct q');
  }

  -- The worker takes a due item off the list that it stands on.
  pub promote_unlink-DelayInv :
      (s : Sys Sem) (q w : ℕ)
      → has w (s.queues q).delayed ≡ true
      → DelayInv s
      → DelayInv (promote_unlink s q w)
  unfolding promote_unlink
  promote_unlink-DelayInv s q w there v = record {
    on_delayed = λ q' w'. ground (
      arith,
      v.on_delayed q' w',
      v.on_delayed q w,
      v.on_delayed q' w,
      has-remove w w' (s.queues q).delayed (v.delayed_distinct q),
    );
    delayed_distinct = λ q'. ground (
      arith,
      v.delayed_distinct q',
      Distinct-remove w (s.queues q).delayed (v.delayed_distinct q),
    );
  }

  undelay_from-DelayInv :
      (s : Sys Sem) (w : ℕ) (queue : Option ℕ)
      → (s.works w).delay_queue ≡ queue
      → (s.works w).flags.delayed ≡ true
      → DelayInv s
      → DelayInv (
          set_work
            (undelay_from s w queue)
            w
            (record (s.works w) { flags = record ((s.works w).flags) { delayed = false } }))
  unfolding undelay_from
  undelay_from-DelayInv s w none e d v = record {
    on_delayed = λ q' w'. ground (arith, v.on_delayed q' w');
    delayed_distinct = v.delayed_distinct;
  }
  undelay_from-DelayInv s w (some q) e d v = record {
    on_delayed = λ q' w'. ground (
      arith,
      v.on_delayed q' w',
      v.on_delayed q' w,
      has-remove w w' (s.queues q).delayed (v.delayed_distinct q),
    );
    delayed_distinct = λ q'. ground (
      arith,
      v.delayed_distinct q',
      Distinct-remove w (s.queues q).delayed (v.delayed_distinct q),
    );
  }

  pub undelay-DelayInv : (s : Sys Sem) (w : ℕ) → DelayInv s → DelayInv (undelay s w)
  unfolding undelay
  undelay-DelayInv s w v = elim (Bool-cases (s.works w).flags.delayed) [
    | inl delayed ↦
        rw (delayed, undelay) (undelay_from-DelayInv s w (s.works w).delay_queue refl delayed v)
    | inr free ↦ rw (free, undelay) v
  ]

  pub placed-DelayInv :
      (s : Sys Sem) (q w deadline : ℕ)
      → (s.works w).flags.delayed ≡ false
      → DelayInv s
      → DelayInv (placed s q w deadline)
  unfolding placed
  placed-DelayInv s q w deadline free v = record {
    on_delayed = λ q' w'.
        ground (
          arith,
          v.on_delayed q' w',
          v.on_delayed q w,
          has-append w' (s.queues q).delayed (w ∷ []),
        );
    delayed_distinct = λ q'. ground (
      arith,
      v.on_delayed q w,
      v.delayed_distinct q',
      v.delayed_distinct q,
      Distinct-snoc (s.queues q).delayed w,
    );
  }

  pub undelay-free : (s : Sys Sem) (w : ℕ) → ((undelay s w).works w).flags.delayed ≡ false
  unfolding undelay undelay_from
  undelay-free s w = ground arith
