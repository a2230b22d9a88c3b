-- ===== src/Zephyr/Semaphore.antt =====
-- src/zephyr/semaphore.c over the semaphores of Zephyr (zephyr/kernel.h).
pub mod Contract
use hazel_osal.Prelude.{
  ℕ, Bool, true, false, ◌&&◌, ◌||◌, not, Option, none, some, ltb, ◌==◌, if◌then◌else◌,
}
use hazel_osal.Errno.{Result, ok, err, einval, ebusy, etimedout, ewouldblock, wait_forever}
use hazel_osal.Sem.{SemOps}

-- `k_timeout_t`
pub data Timeout : Type 0 where
  forever no_wait : Timeout
  after_ticks : ℕ → Timeout

-- The Boolean is `result == 0`. `limit` is the bound given to `k_sem_init`, a view.
pub record KSem (Storage : Type 0) : Type 0 where
  pub sem_init : ℕ → ℕ → Option Storage
  pub sem_take : Storage → Timeout → Bool × Storage
  pub sem_give : Storage → Storage
  pub sem_count_get : Storage → ℕ
  pub limit : Storage → ℕ

-- `struct os_sem`, whose handle is NULL or the address of its storage
pub record Sem (Storage : Type 0) : Type 0 where
  pub handle : Option Storage
  pub limit : ℕ

abbrev pub to_timeout : ℕ → Timeout
to_timeout timeout =
    if timeout == wait_forever
    then Timeout.forever
    else if timeout == 0
    then Timeout.no_wait
    else Timeout.after_ticks timeout

module _ {Storage : Type 0} (k : KSem Storage) where
  abbrev pub zero : Sem Storage
  zero = record { handle = none; limit = 0 }

  pub init : Sem Storage → ℕ → ℕ → Result × Sem Storage
  init s initial limit =
      if limit == 0 || ltb limit initial then (err einval, s) else elim (k.sem_init initial limit) [
        | none ↦ (err einval, s)
        | some q ↦ (ok 0, record { handle = some q; limit = limit })
      ]

  pub deinit : Bool → Sem Storage → Result × Sem Storage
  deinit isr s = elim s.handle [
    | none ↦ (err einval, s)
    | some q ↦ if isr then (err ewouldblock, s) else (ok 0, zero)
  ]

  abbrev take_result : Bool → ℕ → Result
  take_result true timeout = ok 0
  take_result false timeout = if timeout == 0 then err ebusy else err etimedout

  pub take : Bool → Sem Storage → ℕ → Result × Sem Storage
  take isr s timeout = elim s.handle [
    | none ↦ (err einval, s)
    | some q ↦
        if isr && not (timeout == 0)
        then (err ewouldblock, s)
        else let r = k.sem_take q (to_timeout timeout) in
          (take_result r.0 timeout, record s { handle = some r.1 })
  ]

  pub trytake : Bool → Sem Storage → Result × Sem Storage
  unfolding take
  trytake isr s = take isr s 0

  pub give : Bool → Sem Storage → Sem Storage
  give isr s = elim s.handle [ none ↦ s | some q ↦ record s { handle = some (k.sem_give q) } ]

  pub count_get : Bool → Sem Storage → ℕ
  count_get isr s = elim s.handle [ none ↦ 0 | some q ↦ k.sem_count_get q ]

  pub live : Sem Storage → Bool
  live s = elim s.handle [ none ↦ false | some q ↦ true ]

  pub max_of : Sem Storage → ℕ
  max_of s = elim s.handle [ none ↦ 0 | some q ↦ k.limit q ]

  abbrev pub ops : SemOps (Sem Storage)
  ops = record {
    zero = zero;
    init = init;
    deinit = deinit;
    take = take;
    give = give;
    count_get = count_get;
    live = live;
    count = count_get false;
    limit = max_of;
  }
