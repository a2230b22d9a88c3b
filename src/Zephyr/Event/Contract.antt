-- ===== src/Zephyr/Event/Contract.antt =====
-- `os_event_wait` on Zephyr, with and without `clear`.
use hazel_osal.Prelude.{ℕ, ◌≡◌, Bool, true, false, none, some, ◌==◌, if◌then◌else◌, arith}
use hazel_osal.Errno.{err, ebusy}
use hazel_osal.Event.{is_outside, matches, Waits}
use Prim.Native.Nat.{bit_and, bit_and-bitwise}
use hazel_osal.Zephyr.Event.{KEvent, Event, Timeout, no_wait, timeout_of, wait}

-- The documented behaviour of `k_event_wait` and `k_event_wait_all`, where `s` is the event when
-- the call ends: without `reset` they return the bits asked for that are set if these match, and
-- zero if not, and leave the bits. With `reset` they clear all bits before they wait; a call that
-- does not wait then finds none.
pub record IsKEvent {Storage : Type 0} (k : KEvent Storage) : Type 0 where
  pub any_bits :
      (s : Storage) (events : ℕ) (t : Timeout)
      → bit_and (k.event_wait s events false t).0 events
        ≡ (if matches false events (k.bits s) then bit_and (k.bits s) events else 0)
  pub any_left :
      (s : Storage) (events : ℕ) (t : Timeout) → k.bits (k.event_wait s events false t).1 ≡ k.bits s
  pub all_bits :
      (s : Storage) (events : ℕ) (t : Timeout)
      → bit_and (k.event_wait_all s events false t).0 events
        ≡ (if matches true events (k.bits s) then bit_and (k.bits s) events else 0)
  pub all_left :
      (s : Storage) (events : ℕ) (t : Timeout)
      → k.bits (k.event_wait_all s events false t).1 ≡ k.bits s
  pub any_reset :
      (s : Storage) (events : ℕ)
      → ((k.event_wait s events true no_wait).0 ≡ 0)
        × (k.bits (k.event_wait s events true no_wait).1 ≡ 0)
  pub all_reset :
      (s : Storage) (events : ℕ)
      → ((k.event_wait_all s events true no_wait).0 ≡ 0)
        × (k.bits (k.event_wait_all s events true no_wait).1 ≡ 0)

-- the bits of an event; an event without a handle has none
abbrev pub bits_of : {Storage : Type 0} → KEvent Storage → Event Storage → ℕ
bits_of k event = elim event.handle [ none ↦ 0 | some s ↦ k.bits s ]

bit_and-zero : (n : ℕ) → bit_and 0 n ≡ 0
bit_and-zero n = bit_and-bitwise 0 n

module _ {Storage : Type 0} {k : KEvent Storage} (law : IsKEvent k) where
  -- Over events that behave as Zephyr documents, os_event_wait without clear, in a thread, on an
  -- initialized event and for requested bits within the mask, succeeds exactly if the bits match,
  -- stores the matching bits, and keeps the bits.
  pub wait-Waits_zephyr :
      (event : Event Storage) (s : Storage) (requested : ℕ) (wait_all : Bool) (timeout : ℕ)
      → event.handle ≡ some s
      → event.initialized ≡ true
      → (requested == 0) ≡ false
      → is_outside requested ≡ false
      → let (r, received, event') = wait k false event requested wait_all false timeout true in
        Waits wait_all false requested timeout (k.bits s) r received (bits_of k event')
  unfolding wait matches
  wait-Waits_zephyr event s requested true timeout h up some_bits inside =
      let t = timeout_of timeout in
      record {
        outcome = ground (arith, law.all_bits s requested t);
        bits_received = λ m. ground (arith, law.all_bits s requested t);
        bits_left = ground (arith, law.all_left s requested t);
      }
  wait-Waits_zephyr event s requested false timeout h up some_bits inside =
      let t = timeout_of timeout in
      record {
        outcome = ground (arith, law.any_bits s requested t);
        bits_received = λ m. ground (arith, law.any_bits s requested t);
        bits_left = ground (arith, law.any_left s requested t);
      }

  -- Over events that behave as Zephyr documents, os_event_wait with clear and timeout 0, in a
  -- thread, on an initialized event and for requested bits within the mask, returns -EBUSY and
  -- clears all bits of the event, also when the requested ones are set.
  pub wait-clear :
      (event : Event Storage) (s : Storage) (requested : ℕ) (wait_all : Bool)
      → event.handle ≡ some s
      → event.initialized ≡ true
      → (requested == 0) ≡ false
      → is_outside requested ≡ false
      → let (r, received, event') = wait k false event requested wait_all true 0 true in
        (r ≡ err ebusy) × (bits_of k event' ≡ 0)
  unfolding wait
  wait-clear event s requested true h up some_bits inside =
      ground (arith, law.all_reset s requested, bit_and-zero requested)
  wait-clear event s requested false h up some_bits inside =
      ground (arith, law.any_reset s requested, bit_and-zero requested)
