-- ===== src/Lock.antt =====
-- What include/hazel_wireless/kernel.h promises of os_mutex_trylock and os_mutex_unlock: a mutex is
-- free, or owned by a thread that has locked it a number of times.
use hazel_osal.Prelude.{ℕ, ◌+◌, ◌-◌, not, Option, none, some, ◌==◌, if◌then◌else◌}
use hazel_osal.Errno.{Result, ok, err, ebusy, eperm}

pub record Lock : Type 0 where
  pub owner : Option ℕ
  pub count : ℕ

abbrev pub free : Lock
free = record { owner = none; count = 0 }

-- the owner locks it again, another thread finds it busy
abbrev pub try : Lock → (thread : ℕ) → Result × Lock
try l t = elim l.owner [
  | none ↦ (ok 0, record { owner = some t; count = 1 })
  | some o ↦ if o == t then (ok 0, record l { count = l.count + 1 }) else (err ebusy, l)
]

-- Only the owner unlocks it, and frees it by the last unlock.
abbrev pub unlock : Lock → (thread : ℕ) → Result × Lock
unlock l t = elim l.owner [
  | none ↦ (err eperm, l)
  | some o ↦
      if not (o == t)
      then (err eperm, l)
      else if l.count == 1
      then (ok 0, free)
      else (ok 0, record l { count = l.count - 1 })
]
