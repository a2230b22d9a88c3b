-- ===== src/Work/Waits/Parts.antt =====
-- The part of a call between two others, as Wake.antt sees it.
use hazel_osal.Prelude.{ℕ, suc, ◌≡◌, refl, Bool, true, false, Option, none, some, arith, ◌⊎◌}
use hazel_osal.Errno.{wait_forever}
use hazel_osal.Sem.{SemOps, IsSemaphore}
use hazel_osal.Work.{Sys, notify, give_items}
use hazel_osal.Work.Cancel.{
  is_ready, cancel_unlink, trytake_items, flush_begin, settled, unlink_from,
}
use hazel_osal.Work.Submit.{submit_to_queue, submit_to, submit_link, linked}
use hazel_osal.Work.Delay.{undelay, undelay_from, give_old}
use hazel_osal.Work.Waits.{
  Phase, returned, cancel_section, cancel_takes, cancel_notifies, cancel_checks, cancel_waits,
  flush_undelays, flush_gives, flush_submits, flush_enters, delay_undelays, delay_gives,
  spin_checks, flush_checks, flush_waits, on, awaits, advance, take_sync, flush_enter,
}
use hazel_osal.Work.Waits.Wake.{over, vouched, Move}

module _ {Sem : Type 0} (o : SemOps Sem) (delayable : ℕ → Bool) where
  pub advance-calls :
      (self : Option ℕ) (s : Sys Sem) (p : Phase) (x : ℕ)
      → (on (advance o self s p).0 x ≡ true → on p x ≡ true)
        × (on (advance o self s p).0 x ≡ true
            → vouched (advance o self s p).0 ≡ true
            → (vouched p ≡ true) ⊎ (is_ready (s.works x) ≡ true))
        × (awaits p ≡ none → over (advance o self s p).1 (advance o self s p).0 ≡ false)
  unfolding awaits on advance vouched over flush_enter flush_begin
  advance-calls self s (returned b) x = ground arith
  advance-calls self s (delay_undelays v b) x = ground arith
  advance-calls self s (delay_gives v q b) x = ground arith
  advance-calls self s (cancel_section v b) x = ground arith
  advance-calls self s (cancel_takes v q b) x = ground arith
  advance-calls self s (cancel_notifies v b) x = ground arith
  advance-calls self s (cancel_checks v b) x = ground arith
  advance-calls self s (spin_checks v b) x = ground arith
  advance-calls self s (flush_undelays v) x = ground arith
  advance-calls self s (flush_gives v q) x = ground arith
  advance-calls self s (flush_submits v q) x = ground arith
  advance-calls self s (flush_enters v b) x = ground arith
  advance-calls self s (flush_checks v target b) x = ground arith
  advance-calls self s (cancel_waits v b) x = ground arith
  advance-calls self s (flush_waits v target b) x = ground arith

  -- A call leaves every other item alone.
  pub advance-other :
      (self : Option ℕ) (s : Sys Sem) (p : Phase) (x : ℕ)
      → on p x ≡ false
      → (advance o self s p).1.works x ≡ s.works x
  unfolding on advance trytake_items notify cancel_unlink settled unlink_from undelay undelay_from
      give_old give_items submit_to_queue submit_to submit_link linked
  advance-other self s (returned b) x h = ground arith
  advance-other self s (delay_undelays v b) x h = ground arith
  advance-other self s (delay_gives v none b) x h = ground arith
  advance-other self s (delay_gives v (some q) b) x h = ground arith
  advance-other self s (cancel_section v b) x h = ground arith
  advance-other self s (cancel_takes v none b) x h = ground arith
  advance-other self s (cancel_takes v (some q) b) x h = ground arith
  advance-other self s (cancel_notifies v b) x h = ground arith
  advance-other self s (cancel_checks v b) x h = ground arith
  advance-other self s (spin_checks v b) x h = ground arith
  advance-other self s (flush_undelays v) x h = ground arith
  advance-other self s (flush_gives v none) x h = ground arith
  advance-other self s (flush_gives v (some q)) x h = ground arith
  advance-other self s (flush_submits v none) x h = ground arith
  advance-other self s (flush_submits v (some q)) x h = ground arith
  advance-other self s (flush_enters v b) x h = ground arith
  advance-other self s (flush_checks v target b) x h = ground arith
  advance-other self s (cancel_waits v b) x h = ground arith
  advance-other self s (flush_waits v target b) x h = ground arith

  module _ {bound : ℕ} (law : IsSemaphore o bound) where
    pub notify-Move :
        (d : Bool) (isr : Bool) (s : Sys Sem) (w x : ℕ)
        → Move o delayable d (s.works x) ((notify o isr s w).works x)
    unfolding notify
    notify-Move d isr s w x = ground (arith, law.give_live isr (s.works w).sync)

    pub advance-Move :
        (d : Bool) (self : Option ℕ) (s : Sys Sem) (p : Phase) (x : ℕ)
        → Move o delayable d (s.works x) ((advance o self s p).1.works x)
    unfolding advance trytake_items cancel_unlink settled unlink_from undelay undelay_from give_old
        give_items submit_to_queue submit_to submit_link linked
    advance-Move d self s (returned b) x = ground arith
    advance-Move d self s (delay_undelays v b) x = ground arith
    advance-Move d self s (delay_gives v none b) x = ground arith
    advance-Move d self s (delay_gives v (some q) b) x = ground arith
    advance-Move d self s (cancel_section v b) x = ground arith
    advance-Move d self s (cancel_takes v none b) x = ground arith
    advance-Move d self s (cancel_takes v (some q) b) x = ground arith
    advance-Move d self s (cancel_notifies v b) x = notify-Move d false s v x
    advance-Move d self s (cancel_checks v b) x = ground arith
    advance-Move d self s (spin_checks v b) x = ground arith
    advance-Move d self s (flush_undelays v) x = ground arith
    advance-Move d self s (flush_gives v none) x = ground arith
    advance-Move d self s (flush_gives v (some q)) x = ground arith
    advance-Move d self s (flush_submits v none) x = ground arith
    advance-Move d self s (flush_submits v (some q)) x = ground arith
    advance-Move d self s (flush_enters v b) x = ground arith
    advance-Move d self s (flush_checks v target b) x = ground arith
    advance-Move d self s (cancel_waits v b) x = ground arith
    advance-Move d self s (flush_waits v target b) x = ground arith

    pub take_sync-Move :
        (d : Bool) (s : Sys Sem) (w n x : ℕ)
        → o.live (s.works w).sync ≡ true
        → o.count (s.works w).sync ≡ suc n
        → Move o delayable d (s.works x) ((take_sync o s w).works x)
    unfolding take_sync
    take_sync-Move d s w n x v e =
        ground (arith, (law.take_some false (s.works w).sync wait_forever n v refl e).1)
