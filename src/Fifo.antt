-- ===== src/Fifo.antt =====
-- src/common/fifo.c: intrusive nodes on a list, counted by a semaphore. A node is its address;
-- the list is the sequence of the nodes on it, which the dlist operations maintain.
pub mod Concurrent
pub mod Delivery
use hazel_osal.Prelude.{
  ℕ, ◌+◌, ◌-◌, ◌%◌, ◌^◌, Bool, true, false, ◌||◌, ◌&&◌, not, Option, none, some, List, [], ◌∷◌,
  ◌++◌, ltb, leb, ◌==◌, if◌then◌else◌,
}
use hazel_osal.Prelude.Ids.{update}
use hazel_osal.Errno.{Result, ok, err, einval, eagain, ebusy, enomem, enospc, is_zero}
use hazel_osal.Sem.{SemOps}

-- `struct os_fifo`
pub record Fifo (Sem : Type 0) : Type 0 where
  pub list : List ℕ
  pub items : Sem
  pub count : ℕ
  pub initialized : Bool

-- the `queued` fields of the nodes, by address
abbrev pub Nodes : Type 0
Nodes = ℕ → Bool

abbrev pub uint16_max : ℕ
uint16_max = 0xffff

abbrev is_empty : List ℕ → Bool
is_empty [] = true
is_empty (x ∷ xs) = false

-- `os_fifo_node_init` clears the whole node.
pub node_init : Nodes → ℕ → Nodes
node_init nodes node = update nodes node false

module _ {Sem : Type 0} where
  -- the critical section of `os_fifo_put`
  unfoldable pub put_link : Fifo Sem → Nodes → ℕ → Result × Fifo Sem × Nodes
  put_link f nodes node =
      if nodes node
      then (err ebusy, f, nodes)
      else if leb uint16_max f.count
      then (err enospc, f, nodes)
      else (
        ok 0,
        record f { list = f.list ++ (node ∷ []); count = (f.count + 1) % 2 ^ 32 },
        update nodes node true,
      )

  unlink_head : Fifo Sem → Nodes → List ℕ → Result × Option ℕ × Fifo Sem × Nodes
  unlink_head f nodes [] = (err eagain, none, f, nodes)
  unlink_head f nodes (node ∷ rest) = (
    ok 0,
    some node,
    record f { list = rest; count = (f.count + 2 ^ 32 - 1) % 2 ^ 32 },
    update nodes node false,
  )

  -- the critical section of `os_fifo_get`
  pub get_unlink : Fifo Sem → Nodes → Result × Option ℕ × Fifo Sem × Nodes
  unfolding unlink_head
  get_unlink f nodes = unlink_head f nodes f.list

module _ {Sem : Type 0} (o : SemOps Sem) where
  abbrev pub zero_fifo : Fifo Sem
  zero_fifo = record { list = []; items = o.zero; count = 0; initialized = false }

  unfoldable pub init : Fifo Sem → Result × Fifo Sem
  init f =
      let (r, items) = o.init o.zero 0 uint16_max in
      if not (is_zero r)
      then (err enomem, record zero_fifo { items = items })
      else (ok 0, record zero_fifo { items = items; initialized = true })

  pub deinit : Bool → Fifo Sem → Result × Fifo Sem
  deinit isr f =
      let (r, items) = o.deinit isr f.items in
      if not f.initialized
      then (err einval, f)
      else if not (is_empty f.list)
      then (err ebusy, f)
      else if is_zero r
      then (r, zero_fifo)
      else (r, record f { items = items })

  pub put_give : Bool → Fifo Sem → Fifo Sem
  put_give isr f = record f { items = o.give isr f.items }

  -- no node is a NULL pointer
  pub put : Bool → Fifo Sem → Nodes → Option ℕ → Result × Fifo Sem × Nodes
  unfolding put_link put_give
  put isr f nodes none = (err einval, f, nodes)
  put isr f nodes (some node) =
      let (r, f', nodes') = put_link f nodes node in
      if not f.initialized
      then (err einval, f, nodes)
      else if is_zero r
      then (r, put_give isr f', nodes')
      else (r, f', nodes')

  pub get_take : Bool → Fifo Sem → ℕ → Result × Fifo Sem
  get_take isr f timeout =
      let (r, items) = o.take isr f.items timeout in (r, record f { items = items })

  -- `out` says that the pointer for the node is not NULL; the option is what it receives.
  pub get : Bool → Fifo Sem → Nodes → (out : Bool) → ℕ → Result × Option ℕ × Fifo Sem × Nodes
  unfolding get_take get_unlink
  get isr f nodes out timeout =
      let (r, f') = get_take isr f timeout in
      if not f.initialized || not out
      then (err einval, none, f, nodes)
      else if not (is_zero r)
      then (r, none, f', nodes)
      else get_unlink f' nodes
