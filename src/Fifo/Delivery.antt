-- ===== src/Fifo/Delivery.antt =====
-- What the users of a FIFO that `os_fifo_init` has made see of it.
use hazel_osal.Prelude.{
  ℕ, suc, ◌<◌, ◌≡◌, refl, ap, Bool, true, false, some, List, [], ◌∷◌, ◌++◌, length, arith,
}
use hazel_osal.Prelude.Ids.{Distinct, Every, Every-update}
use hazel_osal.Queue
use hazel_osal.Errno.{ok}
use hazel_osal.Sem.{SemOps, IsSemaphore, may_take}
use hazel_osal.Fifo.{Fifo, Nodes, init, get, get_take, get_unlink}
use hazel_osal.Fifo.Concurrent.{Config, Reach, here, next, Inv, Step-Inv}

-- A FIFO that no call is using.
abbrev pub idle : {Sem : Type 0} → Fifo Sem → Nodes → Config Sem
idle f nodes = record {
  fifo = f;
  nodes = nodes;
  linked = 0;
  getting = 0;
  sent = f.list;
  received = [];
  missing = 0;
}

module _ {Sem : Type 0} {o : SemOps Sem} {bound : ℕ} (law : IsSemaphore o bound) where
  -- A successful `os_fifo_init` makes an empty FIFO in which every token is in its place.
  pub init-Inv :
      (f : Fifo Sem) (nodes : Nodes)
      → (init o f).0 ≡ ok 0
      → Inv o (idle (init o f).1 nodes) × ((init o f).1.list ≡ [])
  unfolding init
  init-Inv f nodes e = ground (arith, law.init_ok o.zero 0 0xffff)

  pub Reach-Inv : {c d : Config Sem} → Reach o bound c d → Inv o c → Inv o d
  Reach-Inv here v = v
  Reach-Inv (next r s) v = Step-Inv law s (Reach-Inv r v)

  -- From any configuration that satisfies the invariant, and for every order of the steps of
  -- concurrent puts and gets: the nodes that were got, followed by those on the list, are the
  -- nodes that were put, in that order; no node is on the list twice, the nodes on it are marked
  -- as queued, the count is their number, and no get that holds an item finds the list empty.
  pub Reach-nodes :
      {c d : Config Sem}
      → Inv o c
      → Reach o bound c d
      → (d.sent ≡ d.received ++ d.fifo.list)
        × Distinct d.fifo.list
        × Every d.nodes d.fifo.list
        × (d.fifo.count ≡ length d.fifo.list)
        × (d.missing ≡ 0)
  Reach-nodes v r = let w = Reach-Inv r v in (w.log, w.distinct, w.marked, w.counted, w.found)

  -- os_fifo_get on an initialized FIFO that no other call uses, with a timeout below the bound and
  -- a context that may wait for it, is Queue.pop on its list, and keeps the invariant; a node that
  -- it returns is marked as not queued.
  pub get-pop_nodes :
      (isr : Bool) (f : Fifo Sem) (nodes : Nodes) (timeout : ℕ)
      → Inv o (idle f nodes)
      → f.initialized ≡ true
      → may_take isr timeout ≡ true
      → timeout < bound
      → let (r, out, f', nodes') = get o isr f nodes true timeout in
        ((r, out, f'.list) ≡ Queue.pop f.list timeout)
        × Inv o (idle f' nodes')
        × ((x : ℕ) → out ≡ some x → nodes' x ≡ false)
  unfolding get get_take get_unlink Queue.pop
  get-pop_nodes isr f nodes timeout v up may ends = go f.list refl
    where
      go :
          (l : List ℕ)
          → f.list ≡ l
          → let (r, out, f', nodes') = get o isr f nodes true timeout in
            ((r, out, f'.list) ≡ Queue.pop f.list timeout)
            × Inv o (idle f' nodes')
            × ((x : ℕ) → out ≡ some x → nodes' x ≡ false)
      go [] l =
          let none_in : o.count f.items ≡ 0 = omega (arith, ap length l) in
          ground (arith, law.take_none isr f.items timeout v.live may ends none_in)
      go (x ∷ xs) l =
          let n = length xs in
          let one_in : o.count f.items ≡ suc n = omega (arith, ap length l) in
          let marks : Every nodes (x ∷ xs) = rw l at (v.marked) in
          let apart : Distinct (x ∷ xs) = rw l at (v.distinct) in
          let kept = Every-update nodes xs x false apart.0 marks.1 in
          ground (arith, law.take_some isr f.items timeout n v.live may one_in)
