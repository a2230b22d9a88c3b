-- ===== src/Signal.antt =====
-- src/common/signal.c: one pending result behind a binary semaphore.
pub mod Concurrent
pub mod Reset
use hazel_osal.Prelude.{
  ℕ, zero, suc, Bool, true, false, ◌||◌, ◌&&◌, not, Option, none, some, if◌then◌else◌,
}
use hazel_osal.Errno.{Result, ok, err, einval, ebusy, enomem, is_zero}
use hazel_osal.Sem.{SemOps}

-- `struct os_signal`; an `int` result is only moved, so any number stands for it.
pub record Signal (Sem : Type 0) : Type 0 where
  pub notification : Sem
  pub result : ℕ
  pub raised : Bool
  pub initialized : Bool

module _ {Sem : Type 0} where
  -- the critical section of `os_signal_wait`: what is stored through `result`, and the signal
  pub wait_read : Signal Sem → ℕ × Signal Sem
  wait_read s = (s.result, record s { raised = false })

module _ {Sem : Type 0} (o : SemOps Sem) where
  abbrev pub zero_signal : Signal Sem
  zero_signal = record { notification = o.zero; result = 0; raised = false; initialized = false }

  unfoldable pub init : Signal Sem → Result × Signal Sem
  init s =
      let (r, notification) = o.init o.zero 0 1 in
      if not (is_zero r)
      then (err enomem, record zero_signal { notification = notification })
      else (ok 0, record zero_signal { notification = notification; initialized = true })

  pub deinit : Bool → Signal Sem → Result × Signal Sem
  deinit isr s =
      let (r, notification) = o.deinit isr s.notification in
      if not s.initialized
      then (err einval, s)
      else if is_zero r
      then (r, zero_signal)
      else (r, record s { notification = notification })

  -- The whole of it is one critical section.
  unfoldable pub raise : Bool → Signal Sem → ℕ → Result × Signal Sem
  raise isr s result =
      if not s.initialized then (err einval, s) else if s.raised then (err ebusy, s) else (
        ok 0,
        record s { result = result; raised = true; notification = o.give isr s.notification },
      )

  pub wait_take : Bool → Signal Sem → ℕ → Result × Signal Sem
  wait_take isr s timeout =
      let (r, notification) = o.take isr s.notification timeout in
      (r, record s { notification = notification })

  -- `out` says that the pointer for the result is not NULL; the option is what it receives.
  pub wait : Bool → Signal Sem → (out : Bool) → ℕ → Result × Option ℕ × Signal Sem
  unfolding wait_take wait_read
  wait isr s out timeout =
      let (r, s') = wait_take isr s timeout in
      let (result, s'') = wait_read s' in
      if not s.initialized || not out
      then (err einval, none, s)
      else if not (is_zero r)
      then (r, none, s')
      else (ok 0, some result, s'')

  -- `while (os_sem_trytake(&signal->notification) == 0) { }` on fuel; `none` is a loop that has
  -- not ended.
  unfoldable pub drain : ℕ → Bool → Sem → Option Sem
  drain zero isr s = none
  drain (suc fuel) isr s =
      let (r, s') = o.take isr s 0 in
      let rest = drain fuel isr s' in if is_zero r then rest else some s'

  -- The whole of it is one critical section.
  unfoldable pub reset : ℕ → Bool → Signal Sem → Option (Result × Signal Sem)
  reset fuel isr s =
      if not s.initialized then some (err einval, s) else elim (drain fuel isr s.notification) [
        | none ↦ none
        | some notification ↦
            some (ok 0, record s { notification = notification; raised = false; result = 0 })
      ]
