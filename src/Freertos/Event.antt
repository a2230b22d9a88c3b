-- ===== src/Freertos/Event.antt =====
-- src/osal_freertos/event.c over the event groups of FreeRTOS (event_groups.h).
pub mod Contract
use hazel_osal.Prelude.{
  ℕ, ◌≡◌, ap, Bool, true, false, ◌||◌, ◌&&◌, not, Option, none, some, ◌==◌, if◌then◌else◌, arith,
}
use hazel_osal.Errno.{Result, ok, err, einval, enomem, ebusy, etimedout, ewouldblock, wait_forever}
use hazel_osal.Event.{bit_not, is_outside, matches, failure, Waits}
use Prim.Native.Nat.{bit_and, bit_or}

-- event_groups.h: the calls of the backend. `bits` is the value of the group, a view.
pub record EventGroup (Group : Type 0) : Type 0 where
  pub create_static : Option Group
  pub set_bits : Group → ℕ → Group
  pub clear_bits : Group → ℕ → Group
  pub wait_bits : Group → (requested : ℕ) → (clear wait_all : Bool) → (ticks : ℕ) → ℕ × Group
  pub bits : Group → ℕ
  pub max_delay : ℕ

-- `struct os_event`. The storage is the memory behind the handle.
pub record Event (Group : Type 0) : Type 0 where
  pub handle : Option Group
  pub initialized : Bool

module _ {Group : Type 0} (k : EventGroup Group) where
  abbrev pub zero : Event Group
  zero = record { handle = none; initialized = false }

  pub init : Event Group → Result × Event Group
  init event = elim k.create_static [
    | none ↦ (err enomem, zero)
    | some g ↦ (ok 0, record { handle = some g; initialized = true })
  ]

  pub deinit : Bool → Event Group → Result × Event Group
  deinit isr event = elim event.handle [
    | none ↦ (err einval, event)
    | some g ↦
        if not event.initialized
        then (err einval, event)
        else if isr
        then (err ewouldblock, event)
        else (ok 0, zero)
  ]

  pub set : Bool → Event Group → ℕ → Result × Event Group
  set isr event bits = elim event.handle [
    | none ↦ (err einval, event)
    | some g ↦
        if not event.initialized || (bits == 0 || is_outside bits)
        then (err einval, event)
        else if isr
        then (err ewouldblock, event)
        else (ok 0, record event { handle = some (k.set_bits g bits) })
  ]

  pub clear : Bool → Event Group → ℕ → Result × Event Group
  clear isr event bits = elim event.handle [
    | none ↦ (err einval, event)
    | some g ↦
        if not event.initialized || is_outside bits
        then (err einval, event)
        else if isr
        then (err ewouldblock, event)
        else (ok 0, record event { handle = some (k.clear_bits g bits) })
  ]

  -- `out` says that the pointer for the bits is not NULL; the option is what it receives.
  unfoldable pub wait :
      Bool
      → Event Group
      → (requested : ℕ) → (wait_all clear : Bool) → (timeout : ℕ) → (out : Bool)
      → Result × Option ℕ × Event Group
  wait isr event requested wait_all clear timeout out = elim event.handle [
    | none ↦ (err einval, none, event)
    | some g ↦
        let (bits, g') =
          k.wait_bits g requested clear wait_all
            (if timeout == wait_forever then k.max_delay else timeout) in
        let received = bit_and bits requested in
        let matched = if wait_all then received == requested else not (received == 0) in
        if not event.initialized || (not out || (requested == 0 || is_outside requested))
        then (err einval, none, event)
        else if isr
        then (err ewouldblock, none, event)
        else (
          if matched then ok 0 else if timeout == 0 then err ebusy else err etimedout,
          some received,
          record event { handle = some g' },
        )
  ]
