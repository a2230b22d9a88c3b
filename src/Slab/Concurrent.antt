-- ===== src/Slab/Concurrent.antt =====
-- mem_slab.c used by any number of threads and interrupt handlers at once. An allocation is the
-- semaphore that it takes and then its critical section; a release is its critical section and
-- then the semaphore that it gives. Steps of different calls come in any order, and the owners of
-- blocks write to them.
pub mod Delivery
use hazel_osal.Prelude.{
  ℕ, zero, suc, ◌+◌, ◌-◌, ◌*◌, ◌/◌, ◌%◌, ◌^◌, ◌≤◌, ◌<◌, ◌≡◌, refl, ap, sym, ◌∙◌, inl, inr, Bool,
  true, false, not, ◌||◌, ◌&&◌, Option, none, some, List, [], ◌∷◌, ◌++◌, length, length-append,
  arith, if◌then◌else◌, Bool-cases, leb, ltb, ◌==◌, ◌⊎◌, ◌≢◌,
}
use hazel_osal.Prelude.Ids.{
  has, Distinct, Every, update, remove, has-remove_le, has-remove_ne, has-remove_self,
  Distinct-remove, Every-remove, length-remove, Every-has,
}
use hazel_osal.Errno.{Result, ok, err, is_zero}
use hazel_osal.Sem.{SemOps, IsSemaphore, Holds}
use hazel_osal.Sem.Outcomes.{Outcome, took, missed, take-Outcome, give-Holds}
use hazel_osal.Slab.{Slab, Memory, Target, in_pool, alloc_take, alloc_pop, free_push, free_give}
use hazel_osal.Slab.Chain.{Chain, Chain-update, scan-has}
use hazel_osal.Slab.Pool.{in_pool_iff}
use hazel_osal.Slab.FreeList.{
  IsPool, free_blocks-le, free_blocks-lt, free_blocks-lt_num, pop-IsPool, push-IsPool, write-IsPool,
  free_push-owned, free_push-other,
}

-- A slab in memory; the blocks that are allocated, the allocations that hold a token, and the
-- releases that have linked their block and not given.
pub record Config (Sem : Type 0) : Type 0 where
  pub slab : Slab Sem
  pub mem : Memory
  pub owned : List ℕ
  pub allocating : ℕ
  pub freeing : ℕ

module _ {Sem : Type 0} where
  pub alloc_entered : Config Sem → Result × Slab Sem → Config Sem
  alloc_entered c (r, s) =
      if is_zero r
      then record c { slab = s; allocating = c.allocating + 1 }
      else record c { slab = s }

  pub free_entered : Config Sem → ℕ → Result × Slab Sem × Memory → Config Sem
  free_entered c a (r, s, mem) =
      if is_zero r
      then record c { slab = s; mem = mem; owned = remove a c.owned; freeing = c.freeing + 1 }
      else record c { slab = s; mem = mem }

module _ {Sem : Type 0} (o : SemOps Sem) (bound : ℕ) (target : Target) where
  pub data Step (c : Config Sem) : Config Sem → Type 0 where
    alloc_enters :
        (isr : Bool) (t : ℕ)
        → (o.count c.slab.available ≡ 0 → t < bound)
        → Step c (alloc_entered c (alloc_take o isr c.slab t))
    alloc_pops :
        (n : ℕ)
        → c.allocating ≡ suc n
        → Step c (record c {
          slab = (alloc_pop c.slab c.mem).1;
          owned = (alloc_pop c.slab c.mem).0 ∷ c.owned;
          allocating = n;
        })
    -- Any address that passes the address test may come in.
    free_enters :
        (a : ℕ)
        → a ≢ 0
        → in_pool target c.slab a ≡ true
        → Step c (free_entered c a (free_push c.slab c.mem a))
    free_gives :
        (isr : Bool) (n : ℕ)
        → c.freeing ≡ suc n
        → Step c (record c { slab = free_give o isr c.slab; freeing = n })
    owner_writes : (a v : ℕ) → has a c.owned ≡ true → Step c (record c { mem = update c.mem a v })

  pub data Reach (c : Config Sem) : Config Sem → Type 0 where
    here : Reach c c
    next : {d e : Config Sem} → Reach c d → Step d e → Reach c e

module _ {Sem : Type 0} (o : SemOps Sem) (target : Target) where
  -- Each free block has a token, but for those of the calls that are under way.
  pub record Inv (c : Config Sem) : Type 0 where
    pub pool :
        IsPool target c.slab.buffer c.slab.block_size c.slab.num_blocks c.slab.free_list
          c.slab.free_blocks c.mem c.owned
    pub live : o.live c.slab.available ≡ true
    pub limit : o.limit c.slab.available ≡ c.slab.num_blocks
    pub tokens : o.count c.slab.available + c.allocating + c.freeing ≡ c.slab.free_blocks

module _ {Sem : Type 0} {o : SemOps Sem} {bound : ℕ} {target : Target}
    (law : IsSemaphore o bound) where
  alloc_enters-Inv :
      (c : Config Sem) (isr : Bool) (t : ℕ)
      → (o.count c.slab.available ≡ 0 → t < bound)
      → Inv o target c
      → Inv o target (alloc_entered c (alloc_take o isr c.slab t))
  unfolding alloc_take alloc_entered
  alloc_enters-Inv c isr t ends v = elim (take-Outcome law isr c.slab.available t v.live ends) [
    | took n e some_in h ↦ rw e (record {
      pool = v.pool;
      live = h.alive;
      limit = h.same_limit ∙ v.limit;
      tokens = omega arith;
    })
    | missed e h ↦ rw e (record {
      pool = v.pool;
      live = h.alive;
      limit = h.same_limit ∙ v.limit;
      tokens = omega arith;
    })
  ]

  alloc_pops-Inv :
      (c : Config Sem) (n : ℕ)
      → c.allocating ≡ suc n
      → Inv o target c
      → Inv o target (record c {
        slab = (alloc_pop c.slab c.mem).1;
        owned = (alloc_pop c.slab c.mem).0 ∷ c.owned;
        allocating = n;
      })
  unfolding alloc_pop
  alloc_pops-Inv c n e v =
      let some_free : 0 < c.slab.free_blocks = omega arith in
      let fits = free_blocks-lt v.pool in
      let dec : (c.slab.free_blocks + 2 ^ 32 - 1) % 2 ^ 32 ≡ c.slab.free_blocks - 1 = omega arith in
      record {
        pool = rw dec (pop-IsPool v.pool some_free).2;
        live = v.live;
        limit = v.limit;
        tokens = rw dec (omega arith);
      }

  free_enters-Inv :
      (c : Config Sem) (a : ℕ)
      → in_pool target c.slab a ≡ true
      → Inv o target c
      → Inv o target (free_entered c a (free_push c.slab c.mem a))
  unfolding free_entered
  free_enters-Inv c a inside v =
      let block = (in_pool_iff target c.slab a v.pool.sized).0 inside in
      elim (Bool-cases (has a c.owned)) [
        | inl mine ↦ rw (free_push-owned c.slab c.mem a c.owned v.pool block mine) (record {
          pool = push-IsPool v.pool block mine;
          live = v.live;
          limit = v.limit;
          tokens =
              let room = free_blocks-lt_num a v.pool mine in
              let small = v.pool.small in omega arith;
        })
        | inr other ↦ rw (free_push-other c.slab c.mem a c.owned v.pool block other) v
      ]

  -- Every step keeps the invariant.
  pub Step-Inv : {c d : Config Sem} → Step o bound target c d → Inv o target c → Inv o target d
  unfolding free_give
  Step-Inv {c} (alloc_enters isr t ends) v = alloc_enters-Inv c isr t ends v
  Step-Inv {c} (alloc_pops n e) v = alloc_pops-Inv c n e v
  Step-Inv {c} (free_enters a some_a inside) v = free_enters-Inv c a inside v
  Step-Inv {c} (free_gives isr n e) v =
      let fits = free_blocks-le v.pool in
      let h = give-Holds law isr c.slab.available v.live (omega arith) in
      record { pool = v.pool; live = h.alive; limit = h.same_limit ∙ v.limit; tokens = omega arith }
  Step-Inv {c} (owner_writes a w mine) v = record {
    pool = write-IsPool a w v.pool mine;
    live = v.live;
    limit = v.limit;
    tokens = v.tokens;
  }
