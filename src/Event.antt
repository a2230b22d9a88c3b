-- ===== src/Event.antt =====
-- What `os_event_wait` of include/hazel_wireless/kernel.h promises, over a set of bits.
use hazel_osal.Prelude.{ℕ, ◌-◌, ◌≡◌, Bool, true, ◌&&◌, not, Option, some, ◌==◌, if◌then◌else◌}
use hazel_osal.Errno.{Result, ok, err, ebusy, etimedout}
use Prim.Native.Nat.{bit_and}

-- `~bits` of a `uint32_t`
abbrev pub bit_not : ℕ → ℕ
bit_not bits = 0xffff_ffff - bits

-- `OS_EVENT_BITS_MASK`
abbrev pub event_bits_mask : ℕ
event_bits_mask = 0xff_ffff

-- `(bits & ~OS_EVENT_BITS_MASK) != 0U`
abbrev pub is_outside : ℕ → Bool
is_outside bits = not (bit_and bits (bit_not event_bits_mask) == 0)

-- whether the bits that are set satisfy a wait
unfoldable pub matches : (wait_all : Bool) → (requested bits : ℕ) → Bool
matches wait_all requested bits =
    if wait_all then bit_and bits requested == requested else not (bit_and bits requested == 0)

abbrev pub failure : ℕ → Result
failure timeout = err (if timeout == 0 then ebusy else etimedout)

-- A wait that ends while `bits` are set, and leaves `after`.
pub record Waits (wait_all clear : Bool) (requested timeout bits : ℕ) (r : Result)
    (received : Option ℕ) (after : ℕ) : Type 0 where
  pub outcome : r ≡ (if matches wait_all requested bits then ok 0 else failure timeout)
  pub bits_received :
      matches wait_all requested bits ≡ true → received ≡ some (bit_and bits requested)
  pub bits_left : after ≡ (
      if matches wait_all requested bits && clear then bit_and bits (bit_not requested) else bits)
