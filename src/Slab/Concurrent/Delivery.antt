-- ===== src/Slab/Concurrent/Delivery.antt =====
-- What the users of a slab that `os_mem_slab_init` has made see of it.
use hazel_osal.Prelude.{length-zero}
use hazel_osal.Prelude.{
  ℕ, zero, suc, ◌+◌, ◌*◌, ◌/◌, ◌^◌, ◌≤◌, ◌<◌, ◌≡◌, refl, sym, ◌∙◌, inl, inr, Bool, true, false,
  List, [], length, arith, if◌then◌else◌, Bool-cases, ◌==◌, ◌≢◌,
}
use native.Mathlib.Nat.{mul-div-le}
use hazel_osal.Prelude.Ids.{has, Distinct}
use hazel_osal.Errno.{ok, err, einval}
use hazel_osal.Sem.{SemOps, IsSemaphore}
use hazel_osal.Slab.{link_blocks, Slab, Memory, Target, init, deinit, num_free_get, free, in_pool}
use hazel_osal.Slab.Chain.{
  Chain, blocks_from, length-blocks_from, has-blocks_from, blocks_from-Distinct, link_blocks-Chain,
}
use hazel_osal.Slab.Pool.{IsSized, in_pool_iff}
use hazel_osal.Slab.FreeList.{IsPool, pop-IsPool, free_push-owned, free_push-other}
use hazel_osal.Slab.Concurrent.{Config, Reach, here, next, Inv, Step-Inv}

-- A slab that no call is using, with its allocated blocks.
abbrev pub idle : {Sem : Type 0} → Slab Sem → Memory → List ℕ → Config Sem
idle s mem owned = record { slab = s; mem = mem; owned = owned; allocating = 0; freeing = 0 }

index_of :
    (start size n a : ℕ)
    → (i : ℕ) → has a (blocks_from start size i n) ≡ true
    → (j : ℕ) × (j < i + n) × (a ≡ start + j * size)
index_of start size zero a i h = absurd (ground arith)
index_of start size (suc n) a i h = elim (Bool-cases (a == start + i * size)) [
  | inl e ↦ (i, omega arith, ground arith)
  | inr e ↦ let (j, l, p) = index_of start size n a (i + 1) (ground arith) in (j, omega arith, p)
]

total_le : (size num m : ℕ) → 0 < num → size ≤ m / num → size * num ≤ m
total_le size num m h l = grind (arith, mul-div-le)

module _ {target : Target} where
  init-IsPool :
      (mem : Memory) (start size num : ℕ)
      → 0 < start
      → IsSized target size num
      → num < 2 ^ 32
      → Chain mem start (blocks_from start size 0 num)
      → IsPool target start size num start num mem []
  init-IsPool mem start size num hb sized small chain = record {
    free = blocks_from start size 0 num;
    sized = sized;
    start_pos = hb;
    small = small;
    chain = chain;
    free_distinct = blocks_from-Distinct start size 0 num sized.size_pos;
    owned_distinct = tt;
    apart = λ a h. refl;
    owned_block = λ a h. absurd (ground arith);
    free_block = λ a h. let (j, l, p) = index_of start size num a 0 h in (j, omega arith, p);
    cover =
        λ a b. rw (b.2, has-blocks_from start size 0 num b.0 sized.size_pos) (ground (arith, b.1));
    counted = sym (length-blocks_from start size 0 num);
    total = omega (arith, length-blocks_from start size 0 num);
  }

module _ {Sem : Type 0} {o : SemOps Sem} {bound : ℕ} (law : IsSemaphore o bound)
    (target : Target) where
  -- What a successful `os_mem_slab_init` has checked, and what it has made.
  init-ok :
      (s : Slab Sem) (mem : Memory) (start size num : ℕ)
      → 0 < target.pointer_size
      → (init o target s mem start size num).0 ≡ ok 0
      → let (r, s', mem') = init o target s mem start size num in
        (0 < start)
        × (0 < size)
        × (0 < num)
        × (size ≤ target.size_max / num)
        × (s'.buffer ≡ start)
        × (s'.block_size ≡ size)
        × (s'.num_blocks ≡ num)
        × (s'.free_list ≡ start)
        × (s'.free_blocks ≡ num)
        × (mem' ≡ link_blocks mem start size num 0 num)
        × (o.live s'.available ≡ true)
        × (o.limit s'.available ≡ num)
        × (o.count s'.available ≡ num)
  unfolding init
  init-ok s mem start size num hp e = ground (arith, law.init_ok o.zero num num)

  -- If os_mem_slab_init succeeds, on a target with pointers of some size and for fewer than 2^32
  -- blocks, it makes a slab that satisfies the invariant with no block allocated.
  pub init-Inv_slab :
      (s : Slab Sem) (mem : Memory) (start size num : ℕ)
      → 0 < target.pointer_size
      → num < 2 ^ 32
      → (init o target s mem start size num).0 ≡ ok 0
      → let (r, s', mem') = init o target s mem start size num in Inv o target (idle s' mem' [])
  init-Inv_slab s mem start size num hp small e =
      let (hb, hs, hn, fits, e₁, e₂, e₃, e₄, e₅, e₆, live, limit, count) =
        init-ok s mem start size num hp e in
      let sized : IsSized target size num = record {
        size_pos = hs;
        total_small = total_le size num target.size_max hn fits;
      } in
      let chain =
        link_blocks-Chain mem start start size num 0 num hs hb small (omega arith) (ground arith) in
      record {
        pool = rw (e₁, e₂, e₃, e₄, e₅, e₆) (init-IsPool _ start size num hb sized small chain);
        live = live;
        limit = limit ∙ sym e₃;
        tokens = omega arith;
      }

  pub Reach-Inv : {c d : Config Sem} → Reach o bound target c d → Inv o target c → Inv o target d
  Reach-Inv here v = v
  Reach-Inv (next r st) v = Step-Inv law st (Reach-Inv r v)

  -- From any configuration that satisfies the invariant, and for every order of the steps of
  -- concurrent allocations, releases of any address and writes to allocated blocks: the allocated
  -- blocks are distinct blocks of the slab, those and the free ones are all, and an allocation
  -- that holds a token finds a block that is not NULL and not allocated.
  pub Reach-blocks :
      {c d : Config Sem}
      → Inv o target c
      → Reach o bound target c d
      → Distinct d.owned
        × ((a : ℕ) → has a d.owned ≡ true → in_pool target d.slab a ≡ true)
        × (d.slab.free_blocks + length d.owned ≡ d.slab.num_blocks)
        × (0 < d.allocating → (d.slab.free_list ≢ 0) × (has d.slab.free_list d.owned ≡ false))
  Reach-blocks {d} v r =
      let w = Reach-Inv r v in
      (
        w.pool.owned_distinct,
        λ a h. (in_pool_iff target d.slab a w.pool.sized).1 (w.pool.owned_block a h),
        rw w.pool.counted w.pool.total,
        λ h. let (some_block, fresh, rest) = pop-IsPool w.pool (omega arith) in (some_block, fresh),
      )

  -- os_mem_slab_free on an initialized slab that no other call uses succeeds on the address of an
  -- allocated block and returns -EINVAL on any other, that of a block that is already free
  -- included.
  pub free-owned :
      (isr : Bool) (s : Slab Sem) (mem : Memory) (owned : List ℕ) (a : ℕ)
      → Inv o target (idle s mem owned)
      → s.initialized ≡ true
      → (free o target isr s mem a).0 ≡ (if has a owned then ok 0 else err einval)
  unfolding free
  free-owned isr s mem owned a v up = elim (Bool-cases (in_pool target s a)) [
    | inl inside ↦
        let block = (in_pool_iff target s a v.pool.sized).0 inside in
        let some_a : a ≢ 0 = omega (arith, block.2, v.pool.start_pos) in
        ground (
          arith,
          free_push-owned s mem a owned v.pool block,
          free_push-other s mem a owned v.pool block,
        )
    | inr outside ↦ elim (Bool-cases (has a owned)) [
      | inl mine ↦
          let inside = (in_pool_iff target s a v.pool.sized).1 (v.pool.owned_block a mine) in cc
      | inr other ↦ ground arith
    ]
  ]

  -- If os_mem_slab_deinit succeeds on a slab that no other call uses, no block of it is allocated.
  pub deinit-unused_slab :
      (isr : Bool) (s : Slab Sem) (mem : Memory) (owned : List ℕ)
      → Inv o target (idle s mem owned)
      → (deinit o isr s).0 ≡ ok 0
      → owned ≡ []
  unfolding deinit num_free_get
  deinit-unused_slab isr s mem owned v e =
      length-zero owned (ground (arith, v.pool.counted, v.pool.total))
