-- ===== src/Msgq/Concurrent/Delivery.antt =====
-- What any number of senders and receivers see of a queue that `os_msgq_init` has made.
use hazel_osal.Prelude.{ℕ, ◌+◌, ◌*◌, ◌^◌, ◌≤◌, ◌<◌, ◌≡◌, some, List, [], ◌++◌, length, arith}
use hazel_osal.Errno.{ok}
use hazel_osal.Sem.{SemOps, IsSemaphore}
use hazel_osal.Msgq.{Msgq, init}
use hazel_osal.Msgq.Ring.{contents, length-queued}
use hazel_osal.Msgq.Concurrent.{Config, Reach, here, next, Inv, Step-Inv}

-- A queue that no call is using.
abbrev pub idle : {Sem : Type 0} → Msgq Sem → Config Sem
idle m = record {
  queue = m;
  putting = [];
  copied = 0;
  getting = 0;
  drained = 0;
  sent = contents m;
  received = [];
}

module _ {Sem : Type 0} {o : SemOps Sem} {bound : ℕ} (law : IsSemaphore o bound) where
  -- If os_msgq_init succeeds, on a buffer of the size of the messages and for fewer than 2^32 of
  -- them, it makes a queue that satisfies the invariant and is empty.
  pub init-Inv :
      (size_max : ℕ) (m : Msgq Sem) (buffer : List ℕ) (size cap : ℕ)
      → length buffer ≡ cap * size
      → cap < 2 ^ 32
      → (init o size_max m (some buffer) size cap).0 ≡ ok 0
      → Inv o (idle (init o size_max m (some buffer) size cap).1)
        × (contents (init o size_max m (some buffer) size cap).1 ≡ [])
  unfolding init
  init-Inv size_max m buffer size cap full small e =
      ground (arith, law.init_ok o.zero 0 cap, law.init_ok o.zero cap cap)

  pub Reach-Inv : {c d : Config Sem} → Reach o bound c d → Inv o c → Inv o d
  Reach-Inv here v = v
  Reach-Inv (next r s) v = Step-Inv law s (Reach-Inv r v)

  -- From any configuration that satisfies the invariant, and for every order of the steps of
  -- concurrent puts and gets, over semaphores that keep their contract: the messages that the
  -- receivers have got, followed by those in the ring, are the messages that were sent, in that
  -- order; the count is the number of messages in the ring; puts that hold a space have a free
  -- slot each, and gets that hold an item have a message each.
  pub Reach-fifo :
      {c d : Config Sem}
      → Inv o c
      → Reach o bound c d
      → (d.sent ≡ d.received ++ contents d.queue)
        × (length (contents d.queue) ≡ d.queue.count)
        × (length d.putting + d.queue.count ≤ d.queue.capacity)
        × (d.getting ≤ d.queue.count)
  Reach-fifo {d} v r =
      let w = Reach-Inv r v in
      (
        w.log,
        length-queued d.queue.buffer d.queue.message_size d.queue.capacity d.queue.read_index 0
            d.queue.count,
        omega arith,
        omega arith,
      )
