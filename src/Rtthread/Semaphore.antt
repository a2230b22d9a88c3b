-- ===== src/Rtthread/Semaphore.antt =====
-- src/osal_rtthread/semaphore.c and the timeout conversion of internal.h, over the semaphores of
-- RT-Thread (rtthread.h). The name that `os_sem_init` generates only labels the kernel object.
pub mod Contract
use hazel_osal.Prelude.{
  ℕ, Bool, true, false, ◌&&◌, ◌||◌, not, Option, none, some, ltb, ◌==◌, if◌then◌else◌,
}
use hazel_osal.Errno.{Result, ok, err, einval, ebusy, enomem, etimedout, ewouldblock, wait_forever}
use hazel_osal.Sem.{SemOps}

-- An `rt_int32_t` timeout is its bit pattern. The Booleans are `result == RT_EOK`. `value` is the
-- field of `struct rt_semaphore`, `waiters` says that its `suspend_thread` list is not empty, and
-- `vlimit` is the bound set by `RT_IPC_CMD_SET_VLIMIT`, a view.
pub record RtSem (Storage : Type 0) : Type 0 where
  pub sem_init : ℕ → Option Storage
  pub set_vlimit : Storage → ℕ → Option Storage
  pub sem_detach : Storage → Bool
  pub sem_take : Storage → ℕ → Bool × Storage
  pub sem_trytake : Storage → Bool × Storage
  pub sem_release : Storage → Bool × Storage
  pub value : Storage → ℕ
  pub waiters : Storage → Bool
  pub sem_value_max : ℕ
  pub vlimit : Storage → ℕ

-- `struct os_sem`, whose handle is NULL or the address of its storage
pub record Sem (Storage : Type 0) : Type 0 where
  pub handle : Option Storage
  pub limit : ℕ

-- `RT_WAITING_FOREVER` is -1
abbrev pub waiting_forever : ℕ
waiting_forever = 0xffff_ffff

unfoldable pub os_to_rt_timeout : ℕ → ℕ
os_to_rt_timeout timeout = if timeout == wait_forever then waiting_forever else timeout

module _ {Storage : Type 0} (k : RtSem Storage) where
  abbrev pub zero : Sem Storage
  zero = record { handle = none; limit = 0 }

  pub init : Sem Storage → ℕ → ℕ → Result × Sem Storage
  init s initial limit =
      if limit == 0 || (ltb limit initial || ltb k.sem_value_max limit)
      then (err einval, s)
      else elim (k.sem_init initial) [
        | none ↦ (err enomem, zero)
        | some q ↦ elim (k.set_vlimit q limit) [
          | none ↦ (err einval, zero)
          | some q' ↦ (ok 0, record { handle = some q'; limit = limit })
        ]
      ]

  pub deinit : Bool → Sem Storage → Result × Sem Storage
  deinit isr s = elim s.handle [
    | none ↦ (err einval, s)
    | some q ↦
        if isr
        then (err ewouldblock, s)
        else if k.waiters q
        then (err ebusy, s)
        else if k.sem_detach q
        then (ok 0, zero)
        else (err ebusy, s)
  ]

  abbrev take_result : Bool → ℕ → Result
  take_result true timeout = ok 0
  take_result false timeout = if timeout == 0 then err ebusy else err etimedout

  taken : Sem Storage → ℕ → Bool × Storage → Result × Sem Storage
  taken s timeout r = (take_result r.0 timeout, record s { handle = some r.1 })

  pub take : Bool → Sem Storage → ℕ → Result × Sem Storage
  unfolding taken
  take isr s timeout = elim s.handle [
    | none ↦ (err einval, s)
    | some q ↦
        if isr && not (timeout == 0)
        then (err ewouldblock, s)
        else if timeout == 0
        then taken s timeout (k.sem_trytake q)
        else taken s timeout
            (k.sem_take q (if timeout == wait_forever then waiting_forever else timeout))
  ]

  pub trytake : Bool → Sem Storage → Result × Sem Storage
  unfolding take
  trytake isr s = take isr s 0

  pub give : Bool → Sem Storage → Sem Storage
  give isr s = elim s.handle [ none ↦ s | some q ↦ record s { handle = some (k.sem_release q).1 } ]

  pub count_get : Bool → Sem Storage → ℕ
  count_get isr s = elim s.handle [ none ↦ 0 | some q ↦ k.value q ]

  pub live : Sem Storage → Bool
  live s = elim s.handle [ none ↦ false | some q ↦ true ]

  pub count : Sem Storage → ℕ
  count s = elim s.handle [ none ↦ 0 | some q ↦ k.value q ]

  pub max_of : Sem Storage → ℕ
  max_of s = elim s.handle [ none ↦ 0 | some q ↦ k.vlimit q ]

  abbrev pub ops : SemOps (Sem Storage)
  ops = record {
    zero = zero;
    init = init;
    deinit = deinit;
    take = take;
    give = give;
    count_get = count_get;
    live = live;
    count = count;
    limit = max_of;
  }
