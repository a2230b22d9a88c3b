-- ===== src/Zephyr/Event.antt =====
-- src/zephyr/event.c over the events of Zephyr (kernel.h).
pub mod Contract
use hazel_osal.Prelude.{
  ℕ, ◌≡◌, ap, Bool, true, false, ◌||◌, ◌&&◌, not, Option, none, some, ◌==◌, if◌then◌else◌, arith,
}
use hazel_osal.Errno.{Result, ok, err, einval, enomem, ebusy, etimedout, ewouldblock, wait_forever}
use hazel_osal.Event.{bit_not, is_outside, matches, failure, Waits}
use Prim.Native.Nat.{bit_and, bit_or}

-- how long a call waits
pub data Timeout : Type 0 where
  forever no_wait : Timeout
  ticks : ℕ → Timeout

-- kernel.h: the calls of the backend. `bits` is the value of the event, a view.
pub record KEvent (Storage : Type 0) : Type 0 where
  pub event_init : Storage
  pub event_post : Storage → ℕ → Storage
  pub event_clear : Storage → ℕ → Storage
  pub event_wait : Storage → (events : ℕ) → (reset : Bool) → Timeout → ℕ × Storage
  pub event_wait_all : Storage → (events : ℕ) → (reset : Bool) → Timeout → ℕ × Storage
  pub bits : Storage → ℕ

-- `struct os_event`. The storage is the memory behind the handle.
pub record Event (Storage : Type 0) : Type 0 where
  pub handle : Option Storage
  pub initialized : Bool

abbrev pub timeout_of : ℕ → Timeout
timeout_of timeout =
    if timeout == wait_forever
    then Timeout.forever
    else if timeout == 0
    then Timeout.no_wait
    else Timeout.ticks timeout

module _ {Storage : Type 0} (k : KEvent Storage) where
  abbrev pub zero : Event Storage
  zero = record { handle = none; initialized = false }

  pub init : Event Storage → Result × Event Storage
  init event = (ok 0, record { handle = some k.event_init; initialized = true })

  pub deinit : Bool → Event Storage → Result × Event Storage
  deinit isr event = elim event.handle [
    | none ↦ (err einval, event)
    | some s ↦
        if not event.initialized
        then (err einval, event)
        else if isr
        then (err ewouldblock, event)
        else (ok 0, zero)
  ]

  pub set : Bool → Event Storage → ℕ → Result × Event Storage
  set isr event bits = elim event.handle [
    | none ↦ (err einval, event)
    | some s ↦
        if not event.initialized || (bits == 0 || is_outside bits)
        then (err einval, event)
        else if isr
        then (err ewouldblock, event)
        else (ok 0, record event { handle = some (k.event_post s bits) })
  ]

  pub clear : Bool → Event Storage → ℕ → Result × Event Storage
  clear isr event bits = elim event.handle [
    | none ↦ (err einval, event)
    | some s ↦
        if not event.initialized || is_outside bits
        then (err einval, event)
        else if isr
        then (err ewouldblock, event)
        else (ok 0, record event { handle = some (k.event_clear s bits) })
  ]

  -- `out` says that the pointer for the bits is not NULL; the option is what it receives.
  unfoldable pub wait :
      Bool
      → Event Storage
      → (requested : ℕ) → (wait_all clear : Bool) → (timeout : ℕ) → (out : Bool)
      → Result × Option ℕ × Event Storage
  wait isr event requested wait_all clear timeout out = elim event.handle [
    | none ↦ (err einval, none, event)
    | some s ↦
        let (result, s') =
          if wait_all
          then k.event_wait_all s requested clear (timeout_of timeout)
          else k.event_wait s requested clear (timeout_of timeout) in
        let received = bit_and result requested in
        if not event.initialized || (not out || (requested == 0 || is_outside requested))
        then (err einval, none, event)
        else if isr
        then (err ewouldblock, none, event)
        else (
          if (if wait_all then received == requested else not (received == 0))
              then ok 0
              else if timeout == 0
              then err ebusy
              else err etimedout,
          some received,
          record event { handle = some s' },
        )
  ]
