-- ===== src/Work/Waits/Section.antt =====
-- What a critical section of another thread does to an item on which a call waits.
use hazel_osal.Prelude.{
  Option, ℕ, ◌<◌, ◌≡◌, ap, ◌∙◌, List, Bool, true, false, ◌==◌, if◌then◌else◌, arith,
}
use hazel_osal.Work.{Work, Sys, flags_value}
use hazel_osal.Work.Submit.{submit_link, linked}
use hazel_osal.Work.Cancel.{unlink_from, settled, cancel_unlink}
use hazel_osal.Work.Delay.{undelay, undelay_from, placed}
use hazel_osal.Work.Worker.{begin, begin_with, finish, promote_unlink}
use hazel_osal.Work.Control.{stop_undelay}
use hazel_osal.Work.Concurrent as Concurrent
use hazel_osal.Work.Concurrent.{
  submits, cancels, undelays, delays, begins, finishes, promotes, stops, stop_undelays, drains,
  drained, unplugs, inits, resets, signals_items, signals_sync,
}
use hazel_osal.Work.Waits.Steps.{owes, Fits}

module _ {Sem : Type 0} where
  -- `b` is the item `a` after a section that owes it `n` notifications: if a submission of `a`
  -- that had not completed has, or `a` was busy and is not, then it owes one.
  pub record Passes (delayable : Bool) (a b : Work Sem) (n : ℕ) : Type 0 where
    pub sync_kept : b.sync ≡ a.sync
    pub magic_kept : b.magic ≡ a.magic
    pub initialized_kept : b.sync_initialized ≡ a.sync_initialized
    pub immediate : delayable ≡ false → a.flags.delayed ≡ false → b.flags.delayed ≡ false
    pub completes :
        (target : ℕ)
        → (a.completion_id == target) ≡ false
        → (b.completion_id == target) ≡ true
        → 0 < n
    pub idles :
        a.flags.delayed ≡ false
        → (flags_value a.flags == 0) ≡ false
        → (flags_value b.flags == 0) ≡ true
        → 0 < n

  Passes-same : (d : Bool) (a : Work Sem) (n : ℕ) → Passes d a a n
  Passes-same d a n = ground arith

  submit_link-Passes :
      (d : Bool) (self : Option ℕ) (s : Sys Sem) (q w x n : ℕ)
      → Passes d (s.works x) ((submit_link self s q w).1.works x) n
  unfolding submit_link linked
  submit_link-Passes d self s q w x n = ground arith

  cancel_unlink-Passes :
      (d : Bool) (s : Sys Sem) (w x : ℕ)
      → Passes d (s.works x) ((cancel_unlink s w).works x) (if x == w then 1 else 0)
  unfolding cancel_unlink settled unlink_from
  cancel_unlink-Passes d s w x = ground arith

  undelay-Passes :
      (d : Bool) (s : Sys Sem) (w x : ℕ) → Passes d (s.works x) ((undelay s w).works x) 0
  unfolding undelay undelay_from
  undelay-Passes d s w x = ground arith

  delays-Passes :
      (d : Bool) (s : Sys Sem) (q w x deadline : ℕ)
      → (x ≡ w → d ≡ true)
      → Passes d (s.works x) ((placed (undelay s w) q w deadline).works x) 0
  unfolding placed undelay undelay_from
  delays-Passes d s q w x deadline h = ground (arith, h)

  begin-Passes : (d : Bool) (s : Sys Sem) (q x : ℕ) → Passes d (s.works x) ((begin s q).1.works x) 0
  unfolding begin begin_with
  begin-Passes d s q x = ground arith

  finish-Passes :
      (d : Bool) (s : Sys Sem) (q w x : ℕ)
      → Passes d (s.works x) ((finish s q w).works x) (if x == w then 1 else 0)
  unfolding finish
  finish-Passes d s q w x = ground arith

  promote_unlink-Passes :
      (d : Bool) (s : Sys Sem) (q w x n : ℕ)
      → Passes d (s.works x) ((promote_unlink s q w).works x) n
  unfolding promote_unlink
  promote_unlink-Passes d s q w x n = ground arith

  stop_undelay-Passes :
      (d : Bool) (s : Sys Sem) (q w x n : ℕ) (rest : List ℕ)
      → Passes d (s.works x) ((stop_undelay s q w rest).works x) (if x == w then 1 else 0)
  unfolding stop_undelay
  stop_undelay-Passes d s q w x n rest = ground arith

  pub section-Passes :
      (delayable : ℕ → Bool) {s s' : Sys Sem} (st : Concurrent.Step s s') (x : ℕ)
      → Fits delayable st
      → Passes (delayable x) (s.works x) (s'.works x) (owes st x)
  unfolding owes Fits
  section-Passes delayable {s} (submits self q w n) x f =
      submit_link-Passes (delayable x) self s q w x 0
  section-Passes delayable {s} (cancels w n) x f = cancel_unlink-Passes (delayable x) s w x
  section-Passes delayable {s} (undelays w) x f = undelay-Passes (delayable x) s w x
  section-Passes delayable {s} (delays q w deadline) x f =
      delays-Passes (delayable x) s q w x deadline (λ e. ap delayable e ∙ f)
  section-Passes delayable {s} (begins q idle) x f = begin-Passes (delayable x) s q x
  section-Passes delayable {s} (finishes q w e) x f = finish-Passes (delayable x) s q w x
  section-Passes delayable {s} (promotes q w there) x f =
      promote_unlink-Passes (delayable x) s q w x _
  section-Passes delayable {s} (stops self q) x f = Passes-same (delayable x) (s.works x) 0
  section-Passes delayable {s} (stop_undelays q w rest e) x f =
      stop_undelay-Passes (delayable x) s q w x 0 rest
  section-Passes delayable {s} (drains isr plug q) x f = Passes-same (delayable x) (s.works x) 0
  section-Passes delayable {s} (drained q) x f = Passes-same (delayable x) (s.works x) 0
  section-Passes delayable {s} (unplugs q) x f = Passes-same (delayable x) (s.works x) 0
  section-Passes delayable {s} (inits w work old new) x f = elim f [ ]
  section-Passes delayable {s} (resets q queue old new c) x f =
      Passes-same (delayable x) (s.works x) 0
  section-Passes delayable {s} (signals_items q items) x f = Passes-same (delayable x) (s.works x) 0
  section-Passes delayable {s} (signals_sync w sync) x f = elim f [ ]
