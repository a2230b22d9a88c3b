-- ===== src/Rtthread/Event.antt =====
-- src/osal_rtthread/event.c over the events of RT-Thread (rtthread.h).
pub mod Contract
use hazel_osal.Prelude.{
  ℕ, ◌≡◌, ap, Bool, true, false, ◌||◌, ◌&&◌, not, Option, none, some, ◌==◌, if◌then◌else◌, arith,
}
use hazel_osal.Errno.{Result, ok, err, einval, enomem, ebusy, etimedout, ewouldblock, wait_forever}
use hazel_osal.Event.{bit_not, is_outside, matches, failure, Waits}
use Prim.Native.Nat.{bit_and, bit_or}
use hazel_osal.Rtthread.Semaphore.{os_to_rt_timeout}

-- rtthread.h: the calls of the backend. A Boolean result is `== RT_EOK`. `bits` is the member
-- `set`, which `with_bits` stores; `waiters` says that `parent.suspend_thread` is not empty.
pub record RtEvent (Storage : Type 0) : Type 0 where
  pub event_init : Option Storage
  pub event_detach : Storage → Bool
  pub event_send : Storage → ℕ → Bool × Storage
  pub event_recv : Storage → (set : ℕ) → (all clear : Bool) → (timeout : ℕ) → Bool × ℕ × Storage
  pub bits : Storage → ℕ
  pub with_bits : Storage → ℕ → Storage
  pub waiters : Storage → Bool

-- `struct os_event`. The storage is the memory behind the handle.
pub record Event (Storage : Type 0) : Type 0 where
  pub handle : Option Storage
  pub initialized : Bool

module _ {Storage : Type 0} (k : RtEvent Storage) where
  abbrev pub zero : Event Storage
  zero = record { handle = none; initialized = false }

  pub init : Event Storage → Result × Event Storage
  init event = elim k.event_init [
    | none ↦ (err enomem, zero)
    | some s ↦ (ok 0, record { handle = some s; initialized = true })
  ]

  pub deinit : Bool → Event Storage → Result × Event Storage
  deinit isr event = elim event.handle [
    | none ↦ (err einval, event)
    | some s ↦
        if not event.initialized
        then (err einval, event)
        else if isr
        then (err ewouldblock, event)
        else if k.waiters s || not (k.event_detach s)
        then (err ebusy, event)
        else (ok 0, zero)
  ]

  pub set : Bool → Event Storage → ℕ → Result × Event Storage
  set isr event bits = elim event.handle [
    | none ↦ (err einval, event)
    | some s ↦
        let (sent, s') = k.event_send s bits in
        if not event.initialized || (bits == 0 || is_outside bits)
        then (err einval, event)
        else if isr
        then (err ewouldblock, event)
        else (if sent then ok 0 else err einval, record event { handle = some s' })
  ]

  pub clear : Bool → Event Storage → ℕ → Result × Event Storage
  clear isr event bits = elim event.handle [
    | none ↦ (err einval, event)
    | some s ↦
        if not event.initialized || is_outside bits
        then (err einval, event)
        else if isr
        then (err ewouldblock, event)
        else (
          ok 0,
          record event { handle = some (k.with_bits s (bit_and (k.bits s) (bit_not bits))) },
        )
  ]

  -- `out` says that the pointer for the bits is not NULL; the option is what it receives. The
  -- option `RT_EVENT_FLAG_AND`, `_OR` or `_CLEAR` is two Booleans.
  unfoldable pub wait :
      Bool
      → Event Storage
      → (requested : ℕ) → (wait_all clear : Bool) → (timeout : ℕ) → (out : Bool)
      → Result × Option ℕ × Event Storage
  unfolding os_to_rt_timeout
  wait isr event requested wait_all clear timeout out = elim event.handle [
    | none ↦ (err einval, none, event)
    | some s ↦
        let (matched, result, s') =
          k.event_recv s requested wait_all clear (os_to_rt_timeout timeout) in
        if not event.initialized || (not out || (requested == 0 || is_outside requested))
        then (err einval, none, event)
        else if isr
        then (err ewouldblock, none, event)
        else (
          if matched then ok 0 else if timeout == 0 then err ebusy else err etimedout,
          some (bit_and result requested),
          record event { handle = some s' },
        )
  ]
