-- ===== src/Queue.antt =====
-- The bounded queue that os_msgq_* and os_fifo_* promise in include/hazel_wireless/kernel.h. A
-- call that finds it full or empty ends when its time is over.
use hazel_osal.Prelude.{
  ℕ, ◌==◌, Option, none, some, List, [], ◌∷◌, ◌++◌, length, if◌then◌else◌, ltb,
}
use hazel_osal.Errno.{Result, ok, err, ebusy, etimedout}

abbrev pub give_up : ℕ → Result
give_up timeout = err (if timeout == 0 then ebusy else etimedout)

module _ {A : Type 0} where
  unfoldable pub push : ℕ → List A → A → ℕ → Result × List A
  push cap q x timeout = if ltb (length q) cap then (ok 0, q ++ (x ∷ [])) else (give_up timeout, q)

  unfoldable pub pop : List A → ℕ → Result × Option A × List A
  pop [] timeout = (give_up timeout, none, [])
  pop (x ∷ q) timeout = (ok 0, some x, q)
