-- ===== src/Rtthread/Event/Contract.antt =====
-- `os_event_wait` on RT-Thread keeps its promise.
use hazel_osal.Prelude.{ℕ, ◌≡◌, Bool, true, false, ◌&&◌, none, some, ◌==◌, if◌then◌else◌, arith}
use hazel_osal.Event.{bit_not, is_outside, matches, Waits}
use Prim.Native.Nat.{bit_and}
use hazel_osal.Rtthread.Semaphore.{os_to_rt_timeout}
use hazel_osal.Rtthread.Event.{RtEvent, Event, wait}

-- The documented behaviour of `rt_event_recv`, where `s` is the event when the call ends: it
-- succeeds if the bits match, stores those that it received, and clears them if it was asked to.
pub record IsRtEvent {Storage : Type 0} (k : RtEvent Storage) : Type 0 where
  pub matched :
      (s : Storage) (set : ℕ) (all clear : Bool) (timeout : ℕ)
      → (k.event_recv s set all clear timeout).0 ≡ matches all set (k.bits s)
  pub received :
      (s : Storage) (set : ℕ) (all clear : Bool) (timeout : ℕ)
      → matches all set (k.bits s) ≡ true
      → bit_and (k.event_recv s set all clear timeout).1 set ≡ bit_and (k.bits s) set
  pub left :
      (s : Storage) (set : ℕ) (all clear : Bool) (timeout : ℕ)
      → k.bits (k.event_recv s set all clear timeout).2 ≡ (
          if matches all set (k.bits s) && clear
          then bit_and (k.bits s) (bit_not set)
          else k.bits s)

-- the bits of an event; an event without a handle has none
abbrev pub bits_of : {Storage : Type 0} → RtEvent Storage → Event Storage → ℕ
bits_of k event = elim event.handle [ none ↦ 0 | some s ↦ k.bits s ]

module _ {Storage : Type 0} {k : RtEvent Storage} (law : IsRtEvent k) where
  -- Over events that behave as RT-Thread documents, os_event_wait in a thread, on an initialized
  -- event and for requested bits within the mask, succeeds exactly if the bits match, stores the
  -- matching bits, and clears the requested bits exactly if they match and it was asked to.
  pub wait-Waits_rtthread :
      (event : Event Storage) (s : Storage) (requested : ℕ) (wait_all clear : Bool) (timeout : ℕ)
      → event.handle ≡ some s
      → event.initialized ≡ true
      → (requested == 0) ≡ false
      → is_outside requested ≡ false
      → let (r, received, event') = wait k false event requested wait_all clear timeout true in
        Waits wait_all clear requested timeout (k.bits s) r received (bits_of k event')
  unfolding wait os_to_rt_timeout
  wait-Waits_rtthread event s requested wait_all clear timeout h up some_bits inside = record {
    outcome = ground (arith, law.matched s requested wait_all clear (os_to_rt_timeout timeout));
    bits_received =
        λ m. ground (arith, law.received s requested wait_all clear (os_to_rt_timeout timeout) m);
    bits_left = ground (arith, law.left s requested wait_all clear (os_to_rt_timeout timeout));
  }
