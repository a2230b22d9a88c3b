-- ===== src/Work/Invariant/Lists.antt =====
-- The critical sections keep the lists of the queues.
use hazel_osal.Prelude.{
  ℕ, ◌≡◌, refl, ap, inl, inr, true, false, Option, none, some, List, [], ◌∷◌, leb, ◌==◌, length,
  length-append, arith, Bool-cases,
}
use hazel_osal.Prelude.Ids.{
  has, Distinct, has-append, has-remove, Distinct-snoc, Distinct-remove, length-remove,
}
use hazel_osal.Work.{Sys, set_work}
use hazel_osal.Work.Submit.{linked, submit_link}
use hazel_osal.Work.Cancel.{unlink_from, settled, cancel_unlink}
use hazel_osal.Work.Delay.{undelay_from, undelay, placed}
use hazel_osal.Work.Worker.{begin_with, begin, finish, promote_unlink}
use hazel_osal.Work.Invariant.{ListInv}

module _ {Sem : Type 0} where
  linked-ListInv :
      (s : Sys Sem) (q w : ℕ)
      → (w == 0) ≡ false
      → (s.works w).flags.queued ≡ false
      → leb 0xffff (s.queues q).count ≡ false
      → ListInv s
      → ListInv (linked s q w)
  unfolding linked
  linked-ListInv s q w some_w free room v =
      let fresh : has w (s.queues q).list ≡ false = ground (arith, v.on_list q w) in
      record {
        on_list =
            λ q' w' h n. ground (arith, v.on_list q' w', has-append w' (s.queues q).list (w ∷ []));
        listed = λ q' w' h at n.
            ground (arith, v.listed q' w', has-append w' (s.queues q).list (w ∷ []));
        distinct =
            λ q'. ground (arith, v.distinct q', v.distinct q, Distinct-snoc (s.queues q).list w);
        counted = λ q'.
            ground (arith, v.counted q', v.counted q, length-append (s.queues q).list (w ∷ []));
        bounded = λ q'. ground (arith, v.bounded q');
      }

  -- `os_work_submit_to_queue` keeps the lists.
  pub submit_link-ListInv :
      (self : Option ℕ) (s : Sys Sem) (q w : ℕ)
      → (w == 0) ≡ false
      → ListInv s
      → ListInv (submit_link self s q w).1
  unfolding submit_link
  submit_link-ListInv self s q w some_w v = elim (Bool-cases (s.works w).flags.queued) [
    | inl queued ↦ ground arith
    | inr free ↦ elim (Bool-cases (leb 0xffff (s.queues q).count)) [
      | inl full ↦ ground arith
      | inr room ↦ ground (arith, linked-ListInv s q w some_w free room v)
    ]
  ]

  unlink_from-ListInv :
      (s : Sys Sem) (w : ℕ) (queue : Option ℕ)
      → (w == 0) ≡ false
      → (s.works w).flags.queued ≡ true
      → (s.works w).queue ≡ queue
      → ListInv s
      → ListInv (unlink_from s w queue)
  unfolding unlink_from
  unlink_from-ListInv s w none some_w queued e v = v
  unlink_from-ListInv s w (some q) some_w queued e v =
      let there : has w (s.queues q).list ≡ true = ground (arith, v.listed q w) in
      record {
        on_list = λ q' w' h n.
            ground (arith, v.on_list q' w', has-remove w w' (s.queues q).list (v.distinct q));
        listed = λ q' w' h at n.
            ground (arith, v.listed q' w', has-remove w w' (s.queues q).list (v.distinct q));
        distinct =
            λ q'. ground (arith, v.distinct q', Distinct-remove w (s.queues q).list (v.distinct q));
        counted = λ q'. ground (
          arith,
          v.counted q',
          v.counted q,
          v.bounded q,
          length-remove w (s.queues q).list there,
        );
        bounded = λ q'. ground (
          arith,
          v.bounded q',
          v.counted q,
          v.bounded q,
          length-remove w (s.queues q).list there,
        );
      }

  settled-ListInv : (s : Sys Sem) (w : ℕ) → ListInv s → ListInv (set_work s w (settled (s.works w)))
  unfolding settled
  settled-ListInv s w v = record {
    on_list = λ q' w' h n. ground (arith, v.on_list q' w');
    listed = λ q' w' h at n. ground (arith, v.listed q' w');
    distinct = v.distinct;
    counted = v.counted;
    bounded = v.bounded;
  }

  -- `os_work_cancel` keeps the lists.
  pub cancel_unlink-ListInv :
      (s : Sys Sem) (w : ℕ) → (w == 0) ≡ false → ListInv s → ListInv (cancel_unlink s w)
  unfolding cancel_unlink
  cancel_unlink-ListInv s w some_w v = elim (Bool-cases (s.works w).flags.queued) [
    | inl queued ↦
        rw (queued, cancel_unlink)
          (settled-ListInv (unlink_from s w (s.works w).queue) w
            (unlink_from-ListInv s w (s.works w).queue some_w queued refl v))
    | inr free ↦ rw (free, cancel_unlink) (settled-ListInv s w v)
  ]

  begin_with-ListInv :
      (s : Sys Sem) (q : ℕ) (l : List ℕ)
      → (s.queues q).list ≡ l
      → ListInv s
      → ListInv (begin_with s q l).1
  unfolding begin_with
  begin_with-ListInv s q [] e v = v
  begin_with-ListInv s q (node ∷ rest) e v =
      let d : Distinct (node ∷ rest) = rw e at (v.distinct q) in
      elim (Bool-cases (node == 0)) [
        | inl stop ↦ rw stop (record {
          on_list = λ q' w' h n. ground (arith, v.on_list q' w', e, d);
          listed = λ q' w' h at n. ground (arith, v.listed q' w', e, d);
          distinct = λ q'. ground (arith, v.distinct q', d);
          counted = λ q'. ground (arith, v.counted q', v.counted q, v.bounded q, ap length e);
          bounded = λ q'. ground (arith, v.bounded q', v.counted q, v.bounded q, ap length e);
        })
        | inr item ↦ rw item (record {
          on_list = λ q' w' h n. ground (arith, v.on_list q' w', v.on_list q node, e, d);
          listed = λ q' w' h at n. ground (arith, v.listed q' w', v.on_list q node, e, d);
          distinct = λ q'. ground (arith, v.distinct q', d, e);
          counted = λ q'. ground (arith, v.counted q', v.counted q, v.bounded q, ap length e);
          bounded = λ q'. ground (arith, v.bounded q', v.counted q, v.bounded q, ap length e);
        })
      ]

  -- Taking the next node off the list keeps the lists.
  pub begin-ListInv : (s : Sys Sem) (q : ℕ) → ListInv s → ListInv (begin s q).1
  unfolding begin
  begin-ListInv s q v = begin_with-ListInv s q (s.queues q).list refl v

  -- So does what follows the handler.
  pub finish-ListInv : (s : Sys Sem) (q w : ℕ) → ListInv s → ListInv (finish s q w)
  unfolding finish
  finish-ListInv s q w v = record {
    on_list = λ q' w' h n. ground (arith, v.on_list q' w');
    listed = λ q' w' h at n. ground (arith, v.listed q' w');
    distinct = λ q'. ground (arith, v.distinct q');
    counted = λ q'. ground (arith, v.counted q');
    bounded = λ q'. ground (arith, v.bounded q');
  }

  pub promote_unlink-ListInv : (s : Sys Sem) (q w : ℕ) → ListInv s → ListInv (promote_unlink s q w)
  unfolding promote_unlink
  promote_unlink-ListInv s q w v = record {
    on_list = λ q' w' h n. ground (arith, v.on_list q' w');
    listed = λ q' w' h at n. ground (arith, v.listed q' w');
    distinct = λ q'. ground (arith, v.distinct q');
    counted = λ q'. ground (arith, v.counted q');
    bounded = λ q'. ground (arith, v.bounded q');
  }

  undelay_from-ListInv :
      (s : Sys Sem) (w : ℕ) (queue : Option ℕ)
      → ListInv s
      → ListInv (
          set_work
            (undelay_from s w queue)
            w
            (record (s.works w) { flags = record ((s.works w).flags) { delayed = false } }))
  unfolding undelay_from
  undelay_from-ListInv s w none v = record {
    on_list = λ q' w' h n. ground (arith, v.on_list q' w');
    listed = λ q' w' h at n. ground (arith, v.listed q' w');
    distinct = v.distinct;
    counted = v.counted;
    bounded = v.bounded;
  }
  undelay_from-ListInv s w (some q) v = record {
    on_list = λ q' w' h n. ground (arith, v.on_list q' w');
    listed = λ q' w' h at n. ground (arith, v.listed q' w');
    distinct = λ q'. ground (arith, v.distinct q');
    counted = λ q'. ground (arith, v.counted q');
    bounded = λ q'. ground (arith, v.bounded q');
  }

  pub undelay-ListInv : (s : Sys Sem) (w : ℕ) → ListInv s → ListInv (undelay s w)
  unfolding undelay
  undelay-ListInv s w v = elim (Bool-cases (s.works w).flags.delayed) [
    | inl delayed ↦ rw (delayed, undelay) (undelay_from-ListInv s w (s.works w).delay_queue v)
    | inr free ↦ rw (free, undelay) v
  ]

  pub placed-ListInv :
      (s : Sys Sem) (q w deadline : ℕ) → ListInv s → ListInv (placed s q w deadline)
  unfolding placed
  placed-ListInv s q w deadline v = record {
    on_list = λ q' w' h n. ground (arith, v.on_list q' w');
    listed = λ q' w' h at n. ground (arith, v.listed q' w');
    distinct = λ q'. ground (arith, v.distinct q');
    counted = λ q'. ground (arith, v.counted q');
    bounded = λ q'. ground (arith, v.bounded q');
  }
