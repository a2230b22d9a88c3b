-- ===== src/Freertos/Memory.antt =====
-- src/osal_freertos/memory.c over the heap of FreeRTOS.
use hazel_osal.Prelude.{ℕ, Bool, ◌||◌, not, Option, none, some, ◌==◌, if◌then◌else◌}

pub record Heap (State : Type 0) : Type 0 where
  pub allocate : State → ℕ → Option ℕ × State
  pub release : State → ℕ → State

module _ {State : Type 0} (k : Heap State) where
  -- `os_malloc`
  pub malloc : (isr : Bool) → State → (size : ℕ) → Option ℕ × State
  malloc isr s size = if (size == 0) || isr then (none, s) else k.allocate s size

  -- `os_free`
  pub free : (isr : Bool) → State → Option ℕ → State
  free isr s none = s
  free isr s (some p) = if not isr then k.release s p else s
