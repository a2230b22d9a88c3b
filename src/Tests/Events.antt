-- ===== src/Tests/Events.antt =====
-- The events over plain sets of bits.
use hazel_osal.Prelude.{
  ℕ, ◌≡◌, refl, Bool, false, true, ◌&&◌, some, if◌then◌else◌, Bool-cases, inl, inr,
}
use hazel_osal.Errno.{err, ebusy}
use hazel_osal.Event.{bit_not, matches, Waits}
use hazel_osal.Freertos.Event as FreertosEvent
use hazel_osal.Freertos.Event.Contract as FreertosContract
use hazel_osal.Zephyr.Event as ZephyrEvent
use hazel_osal.Zephyr.Event.Contract as ZephyrContract
use Prim.Native.Nat.{bit_and, bit_and-bitwise, bit_or}

abbrev left : (bits requested : ℕ) → (clear all : Bool) → ℕ
left bits requested clear all =
    if matches all requested bits && clear then bit_and bits (bit_not requested) else bits

abbrev group : FreertosEvent.EventGroup ℕ
group = record {
  create_static = some 0;
  set_bits = bit_or;
  clear_bits = λ g bits. bit_and g (bit_not bits);
  wait_bits = λ g requested clear all ticks. (g, left g requested clear all);
  bits = λ g. g;
  max_delay = 0xffff_ffff;
}

group-IsEventGroup : FreertosContract.IsEventGroup group
group-IsEventGroup = record { returned = λ g r c a t. refl; left = λ g r c a t. refl }

abbrev group_event : FreertosEvent.Event ℕ
group_event = record { handle = some 5; initialized = true }

wait-Waits_freertos_example :
    let (r, received, event') = FreertosEvent.wait group false group_event 4 true true 0 true in
    Waits true true 4 0 5 r received (FreertosContract.bits_of group event')
wait-Waits_freertos_example =
    FreertosContract.wait-Waits_freertos group-IsEventGroup group_event 5 4 true true 0 refl refl
      refl refl

abbrev found : (bits requested : ℕ) → (reset all : Bool) → ℕ
found bits requested reset all = if reset then 0 else if matches all requested bits then bits else 0

abbrev k_event : ZephyrEvent.KEvent ℕ
k_event = record {
  event_init = 0;
  event_post = bit_or;
  event_clear = λ s bits. bit_and s (bit_not bits);
  event_wait = λ s events reset t. (found s events reset false, if reset then 0 else s);
  event_wait_all = λ s events reset t. (found s events reset true, if reset then 0 else s);
  bits = λ s. s;
}

found-bits :
    (bits requested : ℕ) (all : Bool)
    → bit_and (found bits requested false all) requested
      ≡ (if matches all requested bits then bit_and bits requested else 0)
found-bits bits requested all = elim (Bool-cases (matches all requested bits)) [
  | inl match ↦ rw match refl
  | inr miss ↦ rw miss (bit_and-bitwise 0 requested)
]

k_event-IsKEvent : ZephyrContract.IsKEvent k_event
k_event-IsKEvent = record {
  any_bits = λ s e t. found-bits s e false;
  any_left = λ s e t. refl;
  all_bits = λ s e t. found-bits s e true;
  all_left = λ s e t. refl;
  any_reset = λ s e. (refl, refl);
  all_reset = λ s e. (refl, refl);
}

abbrev k_object : ZephyrEvent.Event ℕ
k_object = record { handle = some 5; initialized = true }

wait-clear_example :
    let (r, received, event') = ZephyrEvent.wait k_event false k_object 4 true true 0 true in
    (r ≡ err ebusy) × (ZephyrContract.bits_of k_event event' ≡ 0)
wait-clear_example =
    ZephyrContract.wait-clear k_event-IsKEvent k_object 5 4 true refl refl refl refl
