-- ===== src/Rtthread/Critical.antt =====
-- src/osal_rtthread/context.c over the interrupts of a port of RT-Thread.
use hazel_osal.Prelude.{ℕ, zero, suc, ◌≡◌, refl, ap, ◌∙◌, Bool, not, ◌==◌}

-- `interrupt_disable` gives the level to which `interrupt_enable` goes back.
pub record Port (State : Type 0) : Type 0 where
  pub interrupt_nest : State → ℕ
  pub interrupt_disable : State → ℕ × State
  pub interrupt_enable : State → ℕ → State

-- `os_critical_key_t`
pub record Key : Type 0 where
  pub value : ℕ
  pub from_isr : Bool

module _ {State : Type 0} (k : Port State) where
  -- `os_is_in_isr`
  unfoldable pub is_in_isr : State → Bool
  is_in_isr s = not (k.interrupt_nest s == 0)

  -- `os_enter_critical`
  unfoldable pub enter_critical : State → Key × State
  unfolding is_in_isr
  enter_critical s = (
    record { value = (k.interrupt_disable s).0; from_isr = is_in_isr s },
    (k.interrupt_disable s).1,
  )

  -- `os_exit_critical`
  unfoldable pub exit_critical : State → Key → State
  exit_critical s key = k.interrupt_enable s key.value

  -- Sections inside each other, entered in turn and left in the opposite order.
  abbrev pub nested : ℕ → State → State
  nested zero s = s
  nested (suc n) s = let (key, s') = enter_critical s in exit_critical (nested n s') key

-- If enabling undoes disabling, critical sections inside each other, however deep, leave the interrupts
-- as they were.
pub nested_restores_rtthread :
    {State : Type 0} (k : Port State)
    → ((s : State) → k.interrupt_enable (k.interrupt_disable s).1 (k.interrupt_disable s).0 ≡ s)
    → (n : ℕ) (s : State) → nested k n s ≡ s
unfolding enter_critical exit_critical
nested_restores_rtthread k restores zero s = refl
nested_restores_rtthread k restores (suc n) s =
    ap (λ x. k.interrupt_enable x (k.interrupt_disable s).0)
      (nested_restores_rtthread k restores n (k.interrupt_disable s).1)
    ∙ restores s
