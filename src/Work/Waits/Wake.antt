-- ===== src/Work/Waits/Wake.antt =====
-- A call of `os_work_cancel_sync` or `os_work_flush` that is alone on its item is woken.
use hazel_osal.Prelude.{ℕ, ◌+◌, ◌<◌, ◌≡◌, refl, Bool, true, false, not, none, some, arith, ◌⊎◌}
use hazel_osal.Sem.{SemOps}
use hazel_osal.Work.{Work, Sys, busy_get}
use hazel_osal.Work.Cancel.{is_ready, cancel_sync_waits, flush_ends}
use hazel_osal.Work.Waits.{
  Phase, returned, cancel_takes, cancel_notifies, cancel_checks, cancel_waits, flush_checks,
  flush_waits, on, awaits, resume,
}
use hazel_osal.Work.Waits.Steps.{Waits}
use hazel_osal.Work.Waits.Section.{Passes}

-- The call waits in the loop of `os_work_cancel_sync` or `os_work_cancel_delayable_sync`.
abbrev pub is_cancel : Phase → Bool
is_cancel (cancel_waits w b) = true
is_cancel p = false

-- The call has found its item initialized.
unfoldable pub vouched : Phase → Bool
vouched (cancel_takes w q b) = true
vouched (cancel_notifies w b) = true
vouched (cancel_checks w b) = true
vouched (cancel_waits w b) = true
vouched (flush_checks w target b) = true
vouched (flush_waits w target b) = true
vouched p = false

module _ {Sem : Type 0} where
  -- What a waiting call waits for has come: its loop ends at the next test.
  unfoldable pub over : Sys Sem → Phase → Bool
  over s (cancel_waits w b) = not (cancel_sync_waits s w)
  over s (flush_waits w target b) = flush_ends s w target
  over s p = false

  pub over-same :
      (p : Phase) (s s' : Sys Sem) (w : ℕ)
      → awaits p ≡ some w
      → (s'.works w).magic ≡ (s.works w).magic
      → (s'.works w).flags ≡ (s.works w).flags
      → (s'.works w).completion_id ≡ (s.works w).completion_id
      → over s' p ≡ over s p
  unfolding over awaits cancel_sync_waits busy_get flush_ends
  over-same (cancel_waits v b) s s' w a m f c = ground arith
  over-same (flush_waits v target b) s s' w a m f c = ground arith
  over-same p s s' w a m f c = cc

module _ {Sem : Type 0} (o : SemOps Sem) (delayable : ℕ → Bool) where
  -- At most one call on each item; a call that has found its item initialized is on such an item;
  -- initialized items have a semaphore; immediate items are not delayed; and a waiting call whose
  -- loop would end, not one of os_work_cancel_delayable_sync, has a token or is owed a notification.
  pub record Inv (s : Waits Sem) : Type 0 where
    pub single : (c d w : ℕ) → on (s.callers c) w ≡ true → on (s.callers d) w ≡ true → c ≡ d
    pub ready :
        (c w : ℕ)
        → on (s.callers c) w ≡ true
        → vouched (s.callers c) ≡ true
        → is_ready (s.sys.works w) ≡ true
    pub live :
        (w : ℕ)
        → (s.sys.works w).sync_initialized ≡ true
        → (o.live (s.sys.works w).sync ≡ true) × (0 < o.limit (s.sys.works w).sync)
    pub immediate : (w : ℕ) → delayable w ≡ false → (s.sys.works w).flags.delayed ≡ false
    pub woken :
        (c w : ℕ)
        → awaits (s.callers c) ≡ some w
        → (is_cancel (s.callers c) ≡ true → delayable w ≡ false)
        → over s.sys (s.callers c) ≡ true
        → 0 < o.count (s.sys.works w).sync + s.owed w

  -- what every step does to an item
  pub record Move (d : Bool) (a b : Work Sem) : Type 0 where
    pub magic_kept : b.magic ≡ a.magic
    pub initialized_kept : b.sync_initialized ≡ a.sync_initialized
    pub delayed_kept : d ≡ false → a.flags.delayed ≡ false → b.flags.delayed ≡ false
    pub live_kept :
        (a.sync_initialized ≡ true → (o.live a.sync ≡ true) × (0 < o.limit a.sync))
        → a.sync_initialized ≡ true
        → (o.live b.sync ≡ true) × (0 < o.limit b.sync)

  pub Move-Inv :
      {s s' : Waits Sem}
      → Inv s
      → ((x : ℕ) → Move (delayable x) (s.sys.works x) (s'.sys.works x))
      → ((d x : ℕ) → on (s'.callers d) x ≡ true → on (s.callers d) x ≡ true)
      → ((d x : ℕ)
          → on (s'.callers d) x ≡ true
          → vouched (s'.callers d) ≡ true
          → (vouched (s.callers d) ≡ true) ⊎ (is_ready (s.sys.works x) ≡ true))
      → ((d w : ℕ)
          → awaits (s'.callers d) ≡ some w
          → (is_cancel (s'.callers d) ≡ true → delayable w ≡ false)
          → over s'.sys (s'.callers d) ≡ true
          → 0 < o.count (s'.sys.works w).sync + s'.owed w)
      → Inv s'
  unfolding is_ready
  Move-Inv {s} {s'} v m on' vouch woken' = record {
    single = λ c d w h k. v.single c d w (on' c w h) (on' d w k);
    ready = λ c w h k. ground (arith, v.ready c w (on' c w h), vouch c w h k, m w);
    live = λ w h. (m w).live_kept (v.live w) (ground (arith, m w));
    immediate = λ w h. (m w).delayed_kept h (v.immediate w h);
    woken = woken';
  }

  -- a section, in which `n` notifications are owed to `w`, as a call that waits on `w` sees it
  pub over-Passes :
      (p : Phase) (s s' : Sys Sem) (w n : ℕ)
      → awaits p ≡ some w
      → is_ready (s.works w) ≡ true
      → (is_cancel p ≡ true → (s.works w).flags.delayed ≡ false)
      → Passes (delayable w) (s.works w) (s'.works w) n
      → over s p ≡ false
      → over s' p ≡ true
      → 0 < n
  unfolding over awaits is_ready cancel_sync_waits busy_get flush_ends
  over-Passes (cancel_waits v b) s s' w n a r d m old new = ground (arith, m.idles)
  over-Passes (flush_waits v target b) s s' w n a r d m old new = ground (arith, m.completes target)
  over-Passes p s s' w n a r d m old new = cc

  pub awaits-on : (p : Phase) (w : ℕ) → awaits p ≡ some w → (on p w ≡ true) × (vouched p ≡ true)
  unfolding awaits on vouched
  awaits-on (cancel_waits v b) w h = ground arith
  awaits-on (flush_waits v target b) w h = ground arith
  awaits-on p w h = cc

  pub resume-calls :
      (p : Phase) (w x : ℕ)
      → awaits p ≡ some w
      → (on (resume p) x ≡ on p x) × (vouched p ≡ true) × (awaits (resume p) ≡ none)
  unfolding awaits on resume vouched
  resume-calls (cancel_waits v b) w x h = (refl, refl, refl)
  resume-calls (flush_waits v target b) w x h = (refl, refl, refl)
  resume-calls p w x h = cc

  -- Before any call the live and immediate items are enough.
  pub start-Inv :
      (s : Sys Sem)
      → ((w : ℕ)
          → (s.works w).sync_initialized ≡ true
          → (o.live (s.works w).sync ≡ true) × (0 < o.limit (s.works w).sync))
      → ((w : ℕ) → (s.works w).flags.delayed ≡ false)
      → Inv (record { sys = s; owed = λ w. 0; callers = λ c. returned false })
  unfolding on awaits
  start-Inv s l d = record {
    single = λ c d w h k. absurd (ground arith);
    ready = λ c w h k. absurd (ground arith);
    live = l;
    immediate = λ w h. d w;
    woken = λ c w a k new. absurd (ground arith);
  }
