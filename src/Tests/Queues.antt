-- ===== src/Tests/Queues.antt =====
-- The message queue at a ring of two messages of two bytes.
use hazel_osal.Prelude.{
  ℕ, ◌+◌, ◌≤◌, ◌≡◌, refl, false, true, some, List, [], ◌∷◌, ◌++◌, length, arith,
}
use hazel_osal.Errno.{Result, ok}
use hazel_osal.Freertos.Semaphore
use hazel_osal.Freertos.Semaphore.{ops}
use hazel_osal.Msgq.{Msgq, init, put, get, put_take}
use hazel_osal.Queue
use hazel_osal.Msgq.Sequential.{put-push, get-pop}
use hazel_osal.Msgq.Ring.{contents}
use hazel_osal.Msgq.Concurrent.{Config, Inv, here, next, put_enters, put_entered}
use hazel_osal.Msgq.Concurrent.Delivery.{idle, init-Inv, Reach-fifo}
use hazel_osal.Tests.Kernels.{Counter, semphr, law}

abbrev blank : Msgq (Semaphore.Sem Counter)
blank = record {
  buffer = [];
  message_size = 0;
  capacity = 0;
  read_index = 0;
  write_index = 0;
  count = 0;
  items = Semaphore.zero semphr;
  spaces = Semaphore.zero semphr;
  initialized = false;
}

abbrev buffer : List ℕ
buffer = 0 ∷ 0 ∷ 0 ∷ 0 ∷ []

abbrev made : Result × Msgq (Semaphore.Sem Counter)
made = init (ops semphr) 0xffff_ffff blank (some buffer) 2 2

made-ok : made.0 ≡ ok 0
unfolding init Semaphore.init
made-ok = refl

abbrev message : List ℕ
message = 7 ∷ 8 ∷ []

abbrev entered : Config (Semaphore.Sem Counter)
entered = put_entered (idle made.1) message (put_take (ops semphr) false made.1 0)

Reach-fifo_example :
    (entered.sent ≡ entered.received ++ contents entered.queue)
    × (length (contents entered.queue) ≡ entered.queue.count)
    × (length entered.putting + entered.queue.count ≤ entered.queue.capacity)
    × (entered.getting ≤ entered.queue.count)
unfolding init Semaphore.init
Reach-fifo_example =
    Reach-fifo law (init-Inv law 0xffff_ffff blank buffer 2 2 refl (omega arith) made-ok).0
      (next here (put_enters false message 0 refl (λ e. omega arith)))

abbrev pushed : Result × Msgq (Semaphore.Sem Counter)
pushed = put (ops semphr) false made.1 (some message) 0

put-push_example :
    ((pushed.0, contents pushed.1) ≡ Queue.push 2 (contents made.1) message 0)
    × Inv (ops semphr) (idle pushed.1)
unfolding init Semaphore.init
put-push_example =
    put-push law false made.1 message 0
      (init-Inv law 0xffff_ffff blank buffer 2 2 refl (omega arith) made-ok).0 refl refl refl
      (omega arith)

get-pop_example :
    let (r, out, m) = get (ops semphr) false made.1 true 0 in
    ((r, out, contents m) ≡ Queue.pop (contents made.1) 0) × Inv (ops semphr) (idle m)
unfolding init Semaphore.init
get-pop_example =
    get-pop law false made.1 0
      (init-Inv law 0xffff_ffff blank buffer 2 2 refl (omega arith) made-ok).0 refl refl
      (omega arith)
