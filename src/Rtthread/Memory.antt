-- ===== src/Rtthread/Memory.antt =====
-- src/osal_rtthread/memory.c over the heap of RT-Thread. `heap` is `RT_USING_HEAP`.
use hazel_osal.Prelude.{ℕ, Bool, ◌&&◌, not, Option, none, some, ◌==◌, if◌then◌else◌}

pub record Heap (State : Type 0) : Type 0 where
  pub allocate : State → ℕ → Option ℕ × State
  pub release : State → ℕ → State

module _ {State : Type 0} (k : Heap State) where
  -- `os_malloc`
  pub malloc : (heap isr : Bool) → State → (size : ℕ) → Option ℕ × State
  malloc heap isr s size =
      if heap && (not (size == 0) && not isr) then k.allocate s size else (none, s)

  -- `os_free`
  pub free : (heap isr : Bool) → State → Option ℕ → State
  free heap isr s none = s
  free heap isr s (some p) = if heap && not isr then k.release s p else s
