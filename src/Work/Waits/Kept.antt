-- ===== src/Work/Waits/Kept.antt =====
-- The steps of the callers and of the others keep the waits of Wake.antt.
use hazel_osal.Prelude.{
  ℕ, suc, ◌+◌, ◌<◌, ◌≡◌, refl, Bool, true, false, Option, some, ◌==◌, arith, inl, inr, Bool-cases,
  Option-cases, ap, sym, ◌∙◌,
}
use hazel_osal.Prelude.Ids.{update}
use hazel_osal.Sem.{SemOps, IsSemaphore}
use hazel_osal.Work.{Work, Sys, notify}
use hazel_osal.Work.Cancel.{is_ready}
use hazel_osal.Work.Concurrent as Concurrent
use hazel_osal.Work.Waits.{Phase, cancel_waits, flush_waits, on, awaits, resume, advance, take_sync}
use hazel_osal.Work.Waits.Steps.{Waits, owes, Fits}
use hazel_osal.Work.Waits.Section.{section-Passes}
use hazel_osal.Work.Waits.Parts.{
  advance-calls, advance-other, notify-Move, advance-Move, take_sync-Move,
}
use hazel_osal.Work.Waits.Wake.{
  over, is_cancel, over-same, Inv, Move-Inv, over-Passes, awaits-on, resume-calls,
}

module _ {Sem : Type 0} {o : SemOps Sem} (delayable : ℕ → Bool) {bound : ℕ}
    (law : IsSemaphore o bound) where
  pub sections-Inv :
      {s : Waits Sem} (sys : Sys Sem) (st : Concurrent.Step s.sys sys)
      → Fits delayable st
      → Inv o delayable s
      → Inv o delayable (record s { sys = sys; owed = λ w. s.owed w + owes st w })
  sections-Inv {s} sys st f v =
      Move-Inv o delayable v (λ x. ground (arith, section-Passes delayable st x f)) (λ d x h. h)
        (λ d x h k. inl k)
        (λ d w a c new.
          let m = section-Passes delayable st w f in
          let at = awaits-on o delayable (s.callers d) w a in
          elim (Bool-cases (over s.sys (s.callers d))) [
            | inl old ↦ ground (arith, v.woken d w a c old, m.sync_kept)
            | inr old ↦ omega (
              arith,
              over-Passes o delayable (s.callers d) s.sys sys w (owes st w) a
                  (v.ready d w at.0 at.1) (λ k. v.immediate w (c k)) m old new,
            )
          ])

  notified :
      (isr : Bool) (s : Sys Sem) (w x : ℕ)
      → (s.works w).sync_initialized ≡ true
      → (o.live (s.works w).sync ≡ true) × (0 < o.limit (s.works w).sync)
      → (x == w) ≡ true
      → 0 < o.count ((notify o isr s w).works x).sync
  unfolding notify
  notified isr s w x i l e = ground (arith, law.give_live isr (s.works w).sync)

  pub notifies-Inv :
      {s : Waits Sem} (isr : Bool) (w n : ℕ)
      → s.owed w ≡ suc n
      → Inv o delayable s
      → Inv o delayable (record s { sys = notify o isr s.sys w; owed = update s.owed w n })
  unfolding notify is_ready
  notifies-Inv {s} isr w n e v =
      Move-Inv o delayable v (λ x. notify-Move o delayable law (delayable x) isr s.sys w x)
        (λ d x h. h) (λ d x h k. inl k)
        (λ d x a c new.
          let at = awaits-on o delayable (s.callers d) x a in
          let same =
            over-same (s.callers d) s.sys (notify o isr s.sys w) x a (ground arith) (ground arith)
              (ground arith) in
          let was = v.woken d x a c (sym same ∙ new) in
          let ready = v.ready d x at.0 at.1 in
          elim (Bool-cases (x == w)) [
            | inl e ↦
                let given = notified isr s.sys w x (ground arith) (v.live w (ground arith)) e in
                omega (arith, given)
            | inr ne ↦ ground (arith, was)
          ])

  advance-waiting :
      (self : Option ℕ) (s : Sys Sem) (p : Phase) (w : ℕ)
      → awaits p ≡ some w
      → advance o self s p ≡ (p, s)
  unfolding awaits advance
  advance-waiting self s (cancel_waits v b) w h = refl
  advance-waiting self s (flush_waits v target b) w h = refl
  advance-waiting self s p w h = cc

  -- The callers other than `c` are on other items.
  apart :
      {s : Waits Sem} (c d x : ℕ)
      → Inv o delayable s
      → (d == c) ≡ false
      → on (s.callers d) x ≡ true
      → on (s.callers c) x ≡ false
  apart {s} c d x v ne at = elim (Bool-cases (on (s.callers c) x)) [
    | inl h ↦ ground (arith, v.single d c x at h)
    | inr h ↦ h
  ]

  pub advances-Inv :
      {s : Waits Sem} (c : ℕ) (self : Option ℕ)
      → Inv o delayable s
      → Inv o delayable (record s {
        sys = (advance o self s.sys (s.callers c)).1;
        callers = update s.callers c (advance o self s.sys (s.callers c)).0;
      })
  advances-Inv {s} c self v =
      let after = advance o self s.sys (s.callers c) in
      Move-Inv o delayable v
        (λ x. advance-Move o delayable law (delayable x) self s.sys (s.callers c) x)
        (λ d x h. ground (arith, advance-calls o delayable self s.sys (s.callers c) x))
        (λ d x h k. ground (arith, advance-calls o delayable self s.sys (s.callers c) x))
        (λ d x a k new. elim (Bool-cases (d == c)) [
          | inl e ↦ elim (Option-cases (awaits (s.callers c))) [
            | inl n ↦ ground (arith, advance-calls o delayable self s.sys (s.callers c) x)
            | inr (w, h) ↦ ground (arith, advance-waiting self s.sys (s.callers c) w h, v.woken c x)
          ]
          | inr ne ↦
              let a' : awaits (s.callers d) ≡ some x = ground arith in
              let k' : is_cancel (s.callers d) ≡ true → delayable x ≡ false =
                λ h. ground (arith, k) in
              let new' : over after.1 (s.callers d) ≡ true = ground arith in
              let at = (awaits-on o delayable (s.callers d) x a').0 in
              let other =
                advance-other o delayable self s.sys (s.callers c) x (apart c d x v ne at) in
              let same =
                over-same (s.callers d) s.sys after.1 x a' (ap Work.magic other)
                  (ap Work.flags other) (ap Work.completion_id other) in
              let was = v.woken d x a' k' (sym same ∙ new') in ground (arith, was, other)
        ])

  take_sync-other :
      (s : Sys Sem) (w x : ℕ) → (x == w) ≡ false → (take_sync o s w).works x ≡ s.works x
  unfolding take_sync
  take_sync-other s w x h = ground arith

  pub wakes-Inv :
      {s : Waits Sem} (c w n : ℕ)
      → awaits (s.callers c) ≡ some w
      → o.count (s.sys.works w).sync ≡ suc n
      → Inv o delayable s
      → Inv o delayable (record s {
        sys = take_sync o s.sys w;
        callers = update s.callers c (resume (s.callers c));
      })
  unfolding is_ready
  wakes-Inv {s} c w n a e v =
      let on_w = awaits-on o delayable (s.callers c) w a in
      let ready = v.ready c w on_w.0 on_w.1 in
      let alive = v.live w (ground arith) in
      Move-Inv o delayable v
        (λ x. take_sync-Move o delayable law (delayable x) s.sys w n x alive.0 e)
        (λ d x h. ground (arith, resume-calls o delayable (s.callers c) w x a))
        (λ d x h k. ground (arith, resume-calls o delayable (s.callers c) w x a))
        (λ d x a' k new. elim (Bool-cases (d == c)) [
          | inl h ↦ ground (arith, resume-calls o delayable (s.callers c) w 0 a)
          | inr ne ↦
              let b : awaits (s.callers d) ≡ some x = ground arith in
              let k' : is_cancel (s.callers d) ≡ true → delayable x ≡ false =
                λ h. ground (arith, k) in
              let at = (awaits-on o delayable (s.callers d) x b).0 in
              let off = apart c d x v ne at in
              let differ : (x == w) ≡ false = elim (Bool-cases (x == w)) [
                | inl h ↦ ground (arith, on_w)
                | inr h ↦ h
              ] in
              let other = take_sync-other s.sys w x differ in
              let same =
                over-same (s.callers d) s.sys (take_sync o s.sys w) x b (ap Work.magic other)
                  (ap Work.flags other) (ap Work.completion_id other) in
              let new' : over (take_sync o s.sys w) (s.callers d) ≡ true = ground arith in
              let was = v.woken d x b k' (sym same ∙ new') in ground (arith, was, other)
        ])
