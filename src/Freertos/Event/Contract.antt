-- ===== src/Freertos/Event/Contract.antt =====
-- `os_event_wait` on FreeRTOS keeps its promise.
use hazel_osal.Prelude.{ℕ, ◌≡◌, Bool, true, false, ◌&&◌, none, some, ◌==◌, if◌then◌else◌, arith}
use hazel_osal.Errno.{wait_forever}
use hazel_osal.Event.{bit_not, is_outside, matches, Waits}
use Prim.Native.Nat.{bit_and}
use hazel_osal.Freertos.Event.{EventGroup, Event, wait}

-- The documented behaviour of `xEventGroupWaitBits`, where `g` is the group when the call ends: it
-- returns the value of the group before any bits are cleared, and clears the bits that were waited
-- for if they match and it was asked to.
pub record IsEventGroup {Group : Type 0} (k : EventGroup Group) : Type 0 where
  pub returned :
      (g : Group) (requested : ℕ) (clear all : Bool) (ticks : ℕ)
      → (k.wait_bits g requested clear all ticks).0 ≡ k.bits g
  pub left :
      (g : Group) (requested : ℕ) (clear all : Bool) (ticks : ℕ)
      → k.bits (k.wait_bits g requested clear all ticks).1 ≡ (
          if matches all requested (k.bits g) && clear
          then bit_and (k.bits g) (bit_not requested)
          else k.bits g)

-- the bits of an event; an event without a group has none
abbrev pub bits_of : {Group : Type 0} → EventGroup Group → Event Group → ℕ
bits_of k event = elim event.handle [ none ↦ 0 | some g ↦ k.bits g ]

module _ {Group : Type 0} {k : EventGroup Group} (law : IsEventGroup k) where
  -- Over event groups that behave as FreeRTOS documents, os_event_wait in a thread, on an
  -- initialized event and for requested bits within the mask, succeeds exactly if the bits match,
  -- stores the matching bits, and clears the requested bits exactly if they match and it was asked
  -- to.
  pub wait-Waits_freertos :
      (event : Event Group) (g : Group) (requested : ℕ) (wait_all clear : Bool) (timeout : ℕ)
      → event.handle ≡ some g
      → event.initialized ≡ true
      → (requested == 0) ≡ false
      → is_outside requested ≡ false
      → let (r, received, event') = wait k false event requested wait_all clear timeout true in
        Waits wait_all clear requested timeout (k.bits g) r received (bits_of k event')
  unfolding wait matches
  wait-Waits_freertos event g requested wait_all clear timeout h up some_bits inside = record {
    outcome = ground (
      arith,
      law.returned g requested clear wait_all
          (if timeout == wait_forever then k.max_delay else timeout),
    );
    bits_received = λ m. ground (
      arith,
      law.returned g requested clear wait_all
          (if timeout == wait_forever then k.max_delay else timeout),
    );
    bits_left = ground (
      arith,
      law.left g requested clear wait_all
          (if timeout == wait_forever then k.max_delay else timeout),
    );
  }
