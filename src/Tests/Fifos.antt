-- ===== src/Tests/Fifos.antt =====
-- The FIFO with one node.
use hazel_osal.Prelude.{ℕ, ◌≡◌, refl, false, true, some, [], ◌++◌, length, arith}
use hazel_osal.Prelude.Ids.{Distinct, Every}
use hazel_osal.Errno.{Result}
use hazel_osal.Queue
use hazel_osal.Freertos.Semaphore
use hazel_osal.Freertos.Semaphore.{ops}
use hazel_osal.Fifo.{Fifo, Nodes, init, put_link, get}
use hazel_osal.Fifo.Concurrent.{Config, Inv, here, next, put_enters, put_entered}
use hazel_osal.Fifo.Delivery.{idle, init-Inv, Reach-nodes, get-pop_nodes}
use hazel_osal.Tests.Kernels.{Counter, semphr, law}

abbrev blank : Fifo (Semaphore.Sem Counter)
blank = record { list = []; items = Semaphore.zero semphr; count = 0; initialized = false }

abbrev nodes : Nodes
nodes a = false

abbrev made : Result × Fifo (Semaphore.Sem Counter)
made = init (ops semphr) blank

made-Inv : Inv (ops semphr) (idle made.1 nodes)
unfolding init Semaphore.init
made-Inv = (init-Inv law blank nodes refl).0

abbrev entered : Config (Semaphore.Sem Counter)
entered = put_entered (idle made.1 nodes) 5 (put_link made.1 nodes 5)

Reach-nodes_example :
    (entered.sent ≡ entered.received ++ entered.fifo.list)
    × Distinct entered.fifo.list
    × Every entered.nodes entered.fifo.list
    × (entered.fifo.count ≡ length entered.fifo.list)
    × (entered.missing ≡ 0)
Reach-nodes_example = Reach-nodes law made-Inv (next here (put_enters 5))

get-pop_nodes_example :
    let (r, out, f, nodes') = get (ops semphr) false made.1 nodes true 0 in
    ((r, out, f.list) ≡ Queue.pop made.1.list 0)
    × Inv (ops semphr) (idle f nodes')
    × ((x : ℕ) → out ≡ some x → nodes' x ≡ false)
unfolding init Semaphore.init
get-pop_nodes_example = get-pop_nodes law false made.1 nodes 0 made-Inv refl refl (omega arith)
