-- ===== src/Msgq/Sequential.antt =====
-- One call of `os_msgq_put` or `os_msgq_get` while no other is under way, against a bounded queue.
use hazel_osal.Prelude.{ℕ, zero, suc, ◌<◌, ◌≡◌, refl, Bool, true, some, List, length, arith}
use hazel_osal.Queue
use hazel_osal.Sem.{SemOps, IsSemaphore, may_take}
use hazel_osal.Sem.Outcomes.{give-Holds}
use hazel_osal.Msgq.{Msgq, put, get, put_take, put_copy, put_give, get_take, get_copy, get_give}
use hazel_osal.Msgq.Ring.{IsRing, contents, length-queued, put_copy-IsRing, get_copy-IsRing}
use hazel_osal.Msgq.Concurrent.{Inv}
use hazel_osal.Msgq.Concurrent.Delivery.{idle}

module _ {Sem : Type 0} {o : SemOps Sem} {bound : ℕ} (law : IsSemaphore o bound) where
  -- os_msgq_put on an initialized queue that no other call uses, with a message of its size, a
  -- timeout below the bound and a context that may wait for it, is Queue.push on its contents: it
  -- returns what Queue.push returns, leaves what Queue.push leaves, and keeps the invariant.
  pub put-push :
      (isr : Bool) (m : Msgq Sem) (message : List ℕ) (timeout : ℕ)
      → Inv o (idle m)
      → m.initialized ≡ true
      → length message ≡ m.message_size
      → may_take isr timeout ≡ true
      → timeout < bound
      → let (r, m') = put o isr m (some message) timeout in
        ((r, contents m') ≡ Queue.push m.capacity (contents m) message timeout) × Inv o (idle m')
  unfolding put put_take put_copy put_give Queue.push
  put-push isr m message timeout v up len may ends = go (o.count m.spaces) refl
    where
      go :
          (n : ℕ)
          → o.count m.spaces ≡ n
          → let (r, m') = put o isr m (some message) timeout in
            ((r, contents m') ≡ Queue.push m.capacity (contents m) message timeout)
            × Inv o (idle m')
      go zero e = ground (
        arith,
        law.take_none isr m.spaces timeout v.spaces_live may ends e,
        length-queued m.buffer m.message_size m.capacity m.read_index 0 m.count,
      )
      go (suc n) e =
          let m' = record m { spaces = (o.take isr m.spaces timeout).1 } in
          let ring : IsRing m' = ground arith in
          ground (
            arith,
            law.take_some isr m.spaces timeout n v.spaces_live may e,
            put_copy-IsRing m' message ring (omega arith) len,
            give-Holds law isr m.items v.items_live (omega arith),
            length-queued m.buffer m.message_size m.capacity m.read_index 0 m.count,
          )

  -- os_msgq_get on an initialized queue that no other call uses, with a timeout below the bound
  -- and a context that may wait for it, is Queue.pop on its contents, and keeps the invariant.
  pub get-pop :
      (isr : Bool) (m : Msgq Sem) (timeout : ℕ)
      → Inv o (idle m)
      → m.initialized ≡ true
      → may_take isr timeout ≡ true
      → timeout < bound
      → let (r, message, m') = get o isr m true timeout in
        ((r, message, contents m') ≡ Queue.pop (contents m) timeout) × Inv o (idle m')
  unfolding get get_take get_copy get_give Queue.pop
  get-pop isr m timeout v up may ends = go (o.count m.items) refl
    where
      go :
          (n : ℕ)
          → o.count m.items ≡ n
          → let (r, message, m') = get o isr m true timeout in
            ((r, message, contents m') ≡ Queue.pop (contents m) timeout) × Inv o (idle m')
      go zero e = ground (
        arith,
        law.take_none isr m.items timeout v.items_live may ends e,
        length-queued m.buffer m.message_size m.capacity m.read_index 0 m.count,
      )
      go (suc n) e =
          let m' = record m { items = (o.take isr m.items timeout).1 } in
          let ring : IsRing m' = ground arith in
          ground (
            arith,
            law.take_some isr m.items timeout n v.items_live may e,
            get_copy-IsRing m' ring (omega arith),
            give-Holds law isr m.spaces v.spaces_live (omega arith),
          )
