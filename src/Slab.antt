-- ===== src/Slab.antt =====
-- src/common/mem_slab.c: equal blocks of the caller's memory, the free ones chained through
-- their first words. Memory maps the address of a block to the pointer stored at its start; the
-- null pointer is 0.
pub mod Chain
pub mod Pool
pub mod FreeList
pub mod Concurrent
use hazel_osal.Prelude.{
  ℕ, zero, suc, ◌+◌, ◌-◌, ◌*◌, ◌/◌, ◌%◌, ◌^◌, Bool, true, false, ◌||◌, ◌&&◌, not, Option, none,
  some, ltb, leb, ◌==◌, if◌then◌else◌,
}
use hazel_osal.Prelude.Ids.{update}
use hazel_osal.Errno.{Result, ok, err, einval, ebusy, enomem, is_zero}
use hazel_osal.Sem.{SemOps}

-- `sizeof(void *)` and SIZE_MAX
pub record Target : Type 0 where
  pub pointer_size : ℕ
  pub size_max : ℕ

abbrev pub Memory : Type 0
Memory = ℕ → ℕ

-- `struct os_mem_slab`
pub record Slab (Sem : Type 0) : Type 0 where
  pub buffer : ℕ
  pub free_list : ℕ
  pub block_size : ℕ
  pub num_blocks : ℕ
  pub free_blocks : ℕ
  pub available : Sem
  pub initialized : Bool

-- The loop of `os_mem_slab_init` from round `i` on, with `left` rounds to go.
unfoldable pub link_blocks : Memory → (buffer block_size num_blocks i left : ℕ) → Memory
link_blocks mem buffer block_size num_blocks i zero = mem
link_blocks mem buffer block_size num_blocks i (suc left) =
    let block = buffer + i * block_size in
    let next = if ltb ((i + 1) % 2 ^ 32) num_blocks then block + block_size else 0 in
    link_blocks (update mem block next) buffer block_size num_blocks (i + 1) left

-- The loop of `os_mem_slab_free`: `left` is `free_blocks - scanned`.
pub scan : Memory → (free_block memory left : ℕ) → Bool
scan mem free_block memory zero = false
scan mem free_block memory (suc left) =
    let rest = scan mem (mem free_block) memory left in
    if free_block == 0 then false else if free_block == memory then true else rest

module _ {Sem : Type 0} where
  -- the address test of `os_mem_slab_free`
  unfoldable pub in_pool : Target → Slab Sem → ℕ → Bool
  in_pool target s address =
      let total = (s.block_size * s.num_blocks) % (target.size_max + 1) in
      not (
        ltb address s.buffer
        || (leb total (address - s.buffer) || not ((address - s.buffer) % s.block_size == 0)))

  -- the critical section of `os_mem_slab_alloc`: what is stored through `memory`, and the slab
  unfoldable pub alloc_pop : Slab Sem → Memory → ℕ × Slab Sem
  alloc_pop s mem = (
    s.free_list,
    record s { free_list = mem s.free_list; free_blocks = (s.free_blocks + 2 ^ 32 - 1) % 2 ^ 32 },
  )

  -- the critical section of `os_mem_slab_free`
  pub free_push : Slab Sem → Memory → ℕ → Result × Slab Sem × Memory
  unfolding scan
  free_push s mem memory =
      if leb s.num_blocks s.free_blocks
      then (err einval, s, mem)
      else if scan mem s.free_list memory s.free_blocks
      then (err einval, s, mem)
      else (
        ok 0,
        record s { free_list = memory; free_blocks = (s.free_blocks + 1) % 2 ^ 32 },
        update mem memory s.free_list,
      )

  unfoldable pub num_free_get : Slab Sem → ℕ
  num_free_get s = if not s.initialized then 0 else s.free_blocks

module _ {Sem : Type 0} (o : SemOps Sem) where
  abbrev pub zero_slab : Slab Sem
  zero_slab = record {
    buffer = 0;
    free_list = 0;
    block_size = 0;
    num_blocks = 0;
    free_blocks = 0;
    available = o.zero;
    initialized = false;
  }

  unfoldable pub init :
      Target → Slab Sem → Memory → (buffer block_size num_blocks : ℕ) → Result × Slab Sem × Memory
  unfolding link_blocks
  init target s mem buffer block_size num_blocks =
      let mem' = link_blocks mem buffer block_size num_blocks 0 num_blocks in
      let (r, available) = o.init o.zero num_blocks num_blocks in
      if buffer == 0
        || (ltb block_size target.pointer_size
            || (num_blocks == 0
                || (not (buffer % target.pointer_size == 0)
                    || (not (block_size % target.pointer_size == 0)
                        || ltb (target.size_max / num_blocks) block_size))))
      then (err einval, s, mem)
      else if not (is_zero r)
      then (err enomem, record zero_slab { available = available }, mem')
      else (
        ok 0,
        record {
          buffer = buffer;
          free_list = buffer;
          block_size = block_size;
          num_blocks = num_blocks;
          free_blocks = num_blocks;
          available = available;
          initialized = true;
        },
        mem',
      )

  unfoldable pub deinit : Bool → Slab Sem → Result × Slab Sem
  unfolding num_free_get
  deinit isr s =
      let (r, available) = o.deinit isr s.available in
      if not s.initialized
      then (err einval, s)
      else if not (num_free_get s == s.num_blocks)
      then (err ebusy, s)
      else if is_zero r
      then (r, zero_slab)
      else (r, record s { available = available })

  unfoldable pub alloc_take : Bool → Slab Sem → ℕ → Result × Slab Sem
  alloc_take isr s timeout =
      let (r, available) = o.take isr s.available timeout in (r, record s { available = available })

  -- `out` says that the pointer for the block is not NULL; the option is what it receives.
  pub alloc : Bool → Slab Sem → Memory → (out : Bool) → ℕ → Result × Option ℕ × Slab Sem
  unfolding alloc_take alloc_pop
  alloc isr s mem out timeout =
      let (r, s') = alloc_take isr s timeout in
      let (block, s'') = alloc_pop s' mem in
      if not s.initialized || not out
      then (err einval, none, s)
      else if not (is_zero r)
      then (r, none, s')
      else (ok 0, some block, s'')

  pub free_give : Bool → Slab Sem → Slab Sem
  free_give isr s = record s { available = o.give isr s.available }

  unfoldable pub free : Target → Bool → Slab Sem → Memory → ℕ → Result × Slab Sem × Memory
  free target isr s mem memory =
      let (r, s', mem') = free_push s mem memory in
      if not s.initialized || memory == 0
      then (err einval, s, mem)
      else if not (in_pool target s memory)
      then (err einval, s, mem)
      else if is_zero r
      then (ok 0, free_give isr s', mem')
      else (r, s', mem')
