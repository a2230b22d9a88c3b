-- ===== src/Freertos/Semaphore.antt =====
-- src/osal_freertos/semaphore.c over the counting semaphores of FreeRTOS (semphr.h).
pub mod Contract
use hazel_osal.Prelude.{
  ℕ, Bool, true, false, ◌&&◌, ◌||◌, not, Option, none, some, ltb, ◌==◌, if◌then◌else◌,
}
use hazel_osal.Errno.{Result, ok, err, einval, ebusy, enomem, etimedout, ewouldblock, wait_forever}
use hazel_osal.Sem.{SemOps}

-- semphr.h: the calls of the backend. The Boolean is `result == pdTRUE`. `max_count` is the
-- bound given at the creation, a view.
pub record Semphr (Queue : Type 0) : Type 0 where
  pub create_counting : ℕ → ℕ → Option Queue
  pub take : Queue → ℕ → Bool × Queue
  pub take_from_isr : Queue → Bool × Queue
  pub give : Queue → Bool × Queue
  pub give_from_isr : Queue → Bool × Queue
  pub get_count : Queue → ℕ
  pub get_count_from_isr : Queue → ℕ
  pub max_delay : ℕ
  pub max_count : Queue → ℕ

-- `struct os_sem`. The storage is the memory behind the handle.
pub record Sem (Queue : Type 0) : Type 0 where
  pub handle : Option Queue
  pub limit : ℕ

module _ {Queue : Type 0} (k : Semphr Queue) where
  abbrev pub zero : Sem Queue
  zero = record { handle = none; limit = 0 }

  unfoldable pub init : Sem Queue → ℕ → ℕ → Result × Sem Queue
  init s initial limit =
      if limit == 0 || ltb limit initial
      then (err einval, s)
      else elim (k.create_counting limit initial) [
        | none ↦ (err enomem, zero)
        | some q ↦ (ok 0, record { handle = some q; limit = limit })
      ]

  unfoldable pub deinit : Bool → Sem Queue → Result × Sem Queue
  deinit isr s = elim s.handle [
    | none ↦ (err einval, s)
    | some q ↦ if isr then (err ewouldblock, s) else (ok 0, zero)
  ]

  -- `portMAX_DELAY` or the timeout
  abbrev ticks : ℕ → ℕ
  ticks timeout = if timeout == wait_forever then k.max_delay else timeout

  -- the return value from `result == pdTRUE`
  abbrev take_result : Bool → ℕ → Result
  take_result true timeout = ok 0
  take_result false timeout = if timeout == 0 then err ebusy else err etimedout

  taken : Sem Queue → ℕ → Bool × Queue → Result × Sem Queue
  taken s timeout r = (take_result r.0 timeout, record s { handle = some r.1 })

  unfoldable pub take : Bool → Sem Queue → ℕ → Result × Sem Queue
  unfolding taken
  take isr s timeout = elim s.handle [
    | none ↦ (err einval, s)
    | some q ↦
        if isr
        then if not (timeout == 0)
          then (err ewouldblock, s)
          else taken s timeout (k.take_from_isr q)
        else taken s timeout (k.take q (ticks timeout))
  ]

  pub trytake : Bool → Sem Queue → Result × Sem Queue
  unfolding take
  trytake isr s = take isr s 0

  unfoldable pub give : Bool → Sem Queue → Sem Queue
  give isr s = elim s.handle [
    | none ↦ s
    | some q ↦ record s { handle = some (if isr then (k.give_from_isr q).1 else (k.give q).1) }
  ]

  pub count_get : Bool → Sem Queue → ℕ
  count_get isr s = elim s.handle [
    | none ↦ 0
    | some q ↦ if isr then k.get_count_from_isr q else k.get_count q
  ]

  unfoldable pub live : Sem Queue → Bool
  live s = elim s.handle [ none ↦ false | some q ↦ true ]

  unfoldable pub count : Sem Queue → ℕ
  count s = elim s.handle [ none ↦ 0 | some q ↦ k.get_count q ]

  unfoldable pub max_of : Sem Queue → ℕ
  max_of s = elim s.handle [ none ↦ 0 | some q ↦ k.max_count q ]

  abbrev pub ops : SemOps (Sem Queue)
  ops = record {
    zero = zero;
    init = init;
    deinit = deinit;
    take = take;
    give = give;
    count_get = count_get;
    live = live;
    count = count;
    limit = max_of;
  }
