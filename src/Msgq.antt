-- ===== src/Msgq.antt =====
-- src/common/message_queue.c: a ring of fixed-size messages between two semaphores.
-- `put` and `get` are composed of their atomic parts, which other threads may separate.
pub mod Ring
pub mod Concurrent
pub mod Sequential
use hazel_osal.Prelude.{
  ℕ, ◌+◌, ◌-◌, ◌*◌, ◌/◌, ◌%◌, ◌^◌, Bool, true, false, ◌||◌, ◌&&◌, not, Option, none, some, List,
  ltb, ◌==◌, if◌then◌else◌,
}
use hazel_osal.Prelude.Bytes.{copy_in, copy_out}
use hazel_osal.Errno.{Result, ok, err, einval, enomem, is_zero}
use hazel_osal.Sem.{SemOps}

-- `struct os_msgq`; the buffer is a list of bytes, empty for NULL.
pub record Msgq (Sem : Type 0) : Type 0 where
  pub buffer : List ℕ
  pub message_size : ℕ
  pub capacity : ℕ
  pub read_index : ℕ
  pub write_index : ℕ
  pub count : ℕ
  pub items : Sem
  pub spaces : Sem
  pub initialized : Bool

-- `(index + 1U) % capacity` on `uint32_t`
abbrev pub next_index : ℕ → ℕ → ℕ
next_index index capacity = ((index + 1) % 2 ^ 32) % capacity

-- `--count` and `++count` on `uint32_t`
abbrev pub decrement : ℕ → ℕ
decrement n = (n + 2 ^ 32 - 1) % 2 ^ 32

abbrev pub increment : ℕ → ℕ
increment n = (n + 1) % 2 ^ 32

module _ {Sem : Type 0} where
  -- the critical section of `os_msgq_put`
  pub put_copy : Msgq Sem → List ℕ → Msgq Sem
  put_copy m message = record m {
    buffer = copy_in m.buffer (m.write_index * m.message_size) message;
    write_index = next_index m.write_index m.capacity;
    count = increment m.count;
  }

  -- the critical section of `os_msgq_get`: the bytes stored through `message`, and the new state
  pub get_copy : Msgq Sem → List ℕ × Msgq Sem
  get_copy m = (
    copy_out m.buffer (m.read_index * m.message_size) m.message_size,
    record m { read_index = next_index m.read_index m.capacity; count = decrement m.count },
  )

  pub count_get : Msgq Sem → ℕ
  count_get m = if not m.initialized then 0 else m.count

module _ {Sem : Type 0} (o : SemOps Sem) where
  -- `os_common_zero(msgq, sizeof(*msgq))`
  abbrev pub zero_msgq : Msgq Sem
  zero_msgq = record {
    buffer = List.[];
    message_size = 0;
    capacity = 0;
    read_index = 0;
    write_index = 0;
    count = 0;
    items = o.zero;
    spaces = o.zero;
    initialized = false;
  }

  -- `size_max` is SIZE_MAX; no buffer is a NULL pointer.
  unfoldable pub init : ℕ → Msgq Sem → Option (List ℕ) → ℕ → ℕ → Result × Msgq Sem
  init size_max m none message_size capacity = (err einval, m)
  init size_max m (some buffer) message_size capacity =
      if message_size == 0 || (capacity == 0 || ltb (size_max / capacity) message_size)
      then (err einval, m)
      else let (r, items) = o.init o.zero 0 capacity in
        let (r', spaces) = o.init o.zero capacity capacity in
        if not (is_zero r)
        then (err enomem, record zero_msgq { items = items })
        else if not (is_zero r')
        then (err enomem, record zero_msgq { items = (o.deinit false items).1; spaces = spaces })
        else (
          ok 0,
          record zero_msgq {
            buffer = buffer;
            message_size = message_size;
            capacity = capacity;
            items = items;
            spaces = spaces;
            initialized = true;
          },
        )

  pub deinit : Bool → Msgq Sem → Result × Msgq Sem
  deinit isr m =
      let (r, items) = o.deinit isr m.items in
      let (r', spaces) = o.deinit isr m.spaces in
      if not m.initialized
      then (err einval, m)
      else if not (is_zero r)
      then (r, record m { items = items })
      else if not (is_zero r')
      then (r', record m { items = items; spaces = spaces })
      else (ok 0, zero_msgq)

  -- `os_msgq_put` up to its critical section
  unfoldable pub put_take : Bool → Msgq Sem → ℕ → Result × Msgq Sem
  put_take isr m timeout =
      let (r, spaces) = o.take isr m.spaces timeout in (r, record m { spaces = spaces })

  pub put_give : Bool → Msgq Sem → Msgq Sem
  put_give isr m = record m { items = o.give isr m.items }

  pub put : Bool → Msgq Sem → Option (List ℕ) → ℕ → Result × Msgq Sem
  unfolding put_take put_copy put_give
  put isr m none timeout = (err einval, m)
  put isr m (some message) timeout =
      let (r, m') = put_take isr m timeout in
      if not m.initialized
      then (err einval, m)
      else if not (is_zero r)
      then (r, m')
      else (ok 0, put_give isr (put_copy m' message))

  pub get_take : Bool → Msgq Sem → ℕ → Result × Msgq Sem
  get_take isr m timeout =
      let (r, items) = o.take isr m.items timeout in (r, record m { items = items })

  pub get_give : Bool → Msgq Sem → Msgq Sem
  get_give isr m = record m { spaces = o.give isr m.spaces }

  -- `out` says that the pointer for the message is not NULL; the option is what it receives.
  pub get : Bool → Msgq Sem → (out : Bool) → ℕ → Result × Option (List ℕ) × Msgq Sem
  unfolding get_take get_copy get_give
  get isr m out timeout =
      let (r, m') = get_take isr m timeout in
      let (message, m'') = get_copy m' in
      if not m.initialized || not out
      then (err einval, none, m)
      else if not (is_zero r)
      then (r, none, m')
      else (ok 0, some message, get_give isr m'')
