-- ===== src/Fifo/Concurrent.antt =====
-- fifo.c used by any number of threads and interrupt handlers at once. A put is its critical
-- section and then the semaphore that it gives; a get is the semaphore that it takes and then its
-- critical section. Steps of different calls come in any order.
use hazel_osal.Prelude.{
  ℕ, suc, ◌+◌, ◌≤◌, ◌<◌, ◌≡◌, refl, ap, inl, inr, Bool, true, false, Option, none, some, List, [],
  ◌∷◌, ◌++◌, length, length-append, arith, if◌then◌else◌, Bool-cases,
}
use mathlib.Core.List.{append_assoc}
use hazel_osal.Prelude.Ids.{
  Distinct, Every, update, Distinct-snoc, Every-snoc, Every-fresh, Every-update,
}
use hazel_osal.Errno.{Result, is_zero}
use hazel_osal.Sem.{SemOps, IsSemaphore}
use hazel_osal.Sem.Outcomes.{took, missed, take-Outcome, give-Holds}
use hazel_osal.Fifo.{Fifo, Nodes, uint16_max, put_link, put_give, get_take, get_unlink}

-- A FIFO, the flags of all nodes, the puts that have linked their node and not given, and the
-- gets that hold an item. `sent` and `received` record the nodes that were linked and unlinked;
-- `missing` counts the gets that have found the list empty.
pub record Config (Sem : Type 0) : Type 0 where
  pub fifo : Fifo Sem
  pub nodes : Nodes
  pub linked : ℕ
  pub getting : ℕ
  pub sent : List ℕ
  pub received : List ℕ
  pub missing : ℕ

module _ {Sem : Type 0} where
  pub put_entered : Config Sem → ℕ → Result × Fifo Sem × Nodes → Config Sem
  put_entered c node (r, f, nodes) =
      if is_zero r
      then record c { fifo = f; nodes = nodes; linked = c.linked + 1; sent = c.sent ++ (node ∷ []) }
      else record c { fifo = f; nodes = nodes }

  pub get_entered : Config Sem → Result × Fifo Sem → Config Sem
  get_entered c (r, f) =
      if is_zero r then record c { fifo = f; getting = c.getting + 1 } else record c { fifo = f }

  pub get_left : Config Sem → ℕ → Result × Option ℕ × Fifo Sem × Nodes → Config Sem
  get_left c n (r, none, f, nodes) = record c {
    fifo = f;
    nodes = nodes;
    getting = n;
    missing = c.missing + 1;
  }
  get_left c n (r, some node, f, nodes) = record c {
    fifo = f;
    nodes = nodes;
    getting = n;
    received = c.received ++ (node ∷ []);
  }

module _ {Sem : Type 0} (o : SemOps Sem) (bound : ℕ) where
  pub data Step (c : Config Sem) : Config Sem → Type 0 where
    put_enters : (node : ℕ) → Step c (put_entered c node (put_link c.fifo c.nodes node))
    put_gives :
        (isr : Bool) (n : ℕ)
        → c.linked ≡ suc n
        → Step c (record c { fifo = put_give o isr c.fifo; linked = n })
    get_enters :
        (isr : Bool) (t : ℕ)
        → (o.count c.fifo.items ≡ 0 → t < bound)
        → Step c (get_entered c (get_take o isr c.fifo t))
    get_leaves : (n : ℕ) → c.getting ≡ suc n → Step c (get_left c n (get_unlink c.fifo c.nodes))

  pub data Reach (c : Config Sem) : Config Sem → Type 0 where
    here : Reach c c
    next : {d e : Config Sem} → Reach c d → Step d e → Reach c e

module _ {Sem : Type 0} (o : SemOps Sem) where
  pub record Inv (c : Config Sem) : Type 0 where
    pub live : o.live c.fifo.items ≡ true
    pub limit : o.limit c.fifo.items ≡ uint16_max
    pub counted : c.fifo.count ≡ length c.fifo.list
    pub small : c.fifo.count ≤ uint16_max
    pub tokens : o.count c.fifo.items + c.getting + c.linked ≡ c.fifo.count
    pub distinct : Distinct c.fifo.list
    pub marked : Every c.nodes c.fifo.list
    pub log : c.sent ≡ c.received ++ c.fifo.list
    pub found : c.missing ≡ 0

module _ {Sem : Type 0} {o : SemOps Sem} {bound : ℕ} (law : IsSemaphore o bound) where
  put_enters-Inv :
      (c : Config Sem) (node : ℕ)
      → Inv o c
      → Inv o (put_entered c node (put_link c.fifo c.nodes node))
  unfolding put_link put_entered
  put_enters-Inv c node v = elim (Bool-cases (c.nodes node)) [
    | inl queued ↦ rw queued v
    | inr free ↦
        let fresh = Every-fresh c.nodes c.fifo.list node v.marked free in
        let kept = Every-update c.nodes c.fifo.list node true fresh v.marked in
        let marks = Every-snoc (update c.nodes node true) c.fifo.list node kept (ground arith) in
        let apart = Distinct-snoc c.fifo.list node v.distinct fresh in
        ground (
          arith,
          length-append c.fifo.list (node ∷ []),
          append_assoc c.received c.fifo.list (node ∷ []),
        )
  ]

  get_enters-Inv :
      (c : Config Sem) (isr : Bool) (t : ℕ)
      → (o.count c.fifo.items ≡ 0 → t < bound)
      → Inv o c
      → Inv o (get_entered c (get_take o isr c.fifo t))
  unfolding get_take get_entered
  get_enters-Inv c isr t ends v = elim (take-Outcome law isr c.fifo.items t v.live ends) [
    | took n e some_in h ↦ rw e (ground arith)
    | missed e h ↦ rw e (ground arith)
  ]

  get_leaves-Inv :
      (xs : List ℕ) (c : Config Sem) (n : ℕ)
      → c.fifo.list ≡ xs
      → c.getting ≡ suc n
      → Inv o c
      → Inv o (get_left c n (get_unlink c.fifo c.nodes))
  unfolding get_unlink get_left
  get_leaves-Inv [] c n l e v = absurd (omega (arith, ap length l))
  get_leaves-Inv (x ∷ xs) c n l e v =
      let marks : Every c.nodes (x ∷ xs) = rw l at (v.marked) in
      let apart : Distinct (x ∷ xs) = rw l at (v.distinct) in
      let kept = Every-update c.nodes xs x false apart.0 marks.1 in
      ground (arith, append_assoc c.received (x ∷ []) xs)

  pub Step-Inv : {c d : Config Sem} → Step o bound c d → Inv o c → Inv o d
  unfolding put_give
  Step-Inv {c} (put_enters node) v = put_enters-Inv c node v
  Step-Inv {c} (put_gives isr n e) v =
      let h = give-Holds law isr c.fifo.items v.live (omega arith) in ground arith
  Step-Inv {c} (get_enters isr t ends) v = get_enters-Inv c isr t ends v
  Step-Inv {c} (get_leaves n e) v = get_leaves-Inv c.fifo.list c n refl e v
