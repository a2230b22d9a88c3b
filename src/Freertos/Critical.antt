-- ===== src/Freertos/Critical.antt =====
-- src/osal_freertos/context.c over the interrupt masks of a port of FreeRTOS.
use hazel_osal.Prelude.{
  ℕ, zero, suc, ◌≡◌, refl, ap, ◌∙◌, inl, inr, Bool, true, false, if◌then◌else◌, Bool-cases,
}

pub record Port (State : Type 0) : Type 0 where
  pub inside_interrupt : State → Bool
  pub set_mask_from_isr : State → ℕ × State
  pub clear_mask_from_isr : State → ℕ → State
  pub enter_task : State → State
  pub exit_task : State → State

-- `os_critical_key_t`
pub record Key : Type 0 where
  pub value : ℕ
  pub from_isr : Bool

-- What FreeRTOS says of its masks: leaving undoes entering, and neither leaves an interrupt handler.
pub record Laws (State : Type 0) (k : Port State) : Type 0 where
  pub mask_inside :
      (s : State)
      → k.inside_interrupt s ≡ true
      → k.inside_interrupt (k.set_mask_from_isr s).1 ≡ true
  pub enter_outside :
      (s : State) → k.inside_interrupt s ≡ false → k.inside_interrupt (k.enter_task s) ≡ false
  pub unmask :
      (s : State) → k.clear_mask_from_isr (k.set_mask_from_isr s).1 (k.set_mask_from_isr s).0 ≡ s
  pub leave : (s : State) → k.exit_task (k.enter_task s) ≡ s

module _ {State : Type 0} (k : Port State) where
  -- `os_is_in_isr`
  abbrev pub is_in_isr : State → Bool
  is_in_isr s = k.inside_interrupt s

  -- `os_enter_critical`
  unfoldable pub enter_critical : State → Key × State
  enter_critical s =
      if is_in_isr s
      then (
        record { value = (k.set_mask_from_isr s).0; from_isr = true },
        (k.set_mask_from_isr s).1,
      )
      else (record { value = 0; from_isr = false }, k.enter_task s)

  -- `os_exit_critical`
  unfoldable pub exit_critical : State → Key → State
  exit_critical s key = if key.from_isr then k.clear_mask_from_isr s key.value else k.exit_task s

  -- Sections inside each other, entered in turn and left in the opposite order.
  abbrev pub nested : ℕ → State → State
  nested zero s = s
  nested (suc n) s = let (key, s') = enter_critical s in exit_critical (nested n s') key

-- Critical sections inside each other, however deep, leave the interrupts as they were.
pub nested_restores :
    {State : Type 0} (k : Port State) (laws : Laws State k) (n : ℕ) (s : State) → nested k n s ≡ s
unfolding enter_critical exit_critical
nested_restores k laws zero s = refl
nested_restores k laws (suc n) s = elim (Bool-cases (k.inside_interrupt s)) [
  | inl isr ↦
      rw (isr, enter_critical, exit_critical)
        (ap (λ x. k.clear_mask_from_isr x (k.set_mask_from_isr s).0)
            (nested_restores k laws n (k.set_mask_from_isr s).1)
          ∙ laws.unmask s)
  | inr task ↦
      rw (task, enter_critical, exit_critical)
        (ap k.exit_task (nested_restores k laws n (k.enter_task s)) ∙ laws.leave s)
]
