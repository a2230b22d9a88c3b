-- ===== src/Tests/Slabs.antt =====
-- The memory slab with two blocks of eight bytes.
use hazel_osal.Prelude.{ℕ, ◌+◌, ◌<◌, ◌≡◌, ◌≢◌, refl, false, true, [], length, arith, if◌then◌else◌}
use hazel_osal.Prelude.Ids.{has, Distinct}
use hazel_osal.Errno.{Result, ok, err, einval}
use hazel_osal.Freertos.Semaphore
use hazel_osal.Freertos.Semaphore.{ops}
use hazel_osal.Slab.{Slab, Target, Memory, init, alloc_take, in_pool, free}
use hazel_osal.Slab.Concurrent.{Config, here, next, alloc_enters, alloc_entered}
use hazel_osal.Slab.Concurrent.Delivery.{idle, init-Inv_slab, Reach-blocks, free-owned}
use hazel_osal.Tests.Kernels.{Counter, semphr, law}

abbrev target : Target
target = record { pointer_size = 4; size_max = 0xffff_ffff }

abbrev memory : Memory
memory a = 0

abbrev blank : Slab (Semaphore.Sem Counter)
blank = record {
  buffer = 0;
  free_list = 0;
  block_size = 0;
  num_blocks = 0;
  free_blocks = 0;
  available = Semaphore.zero semphr;
  initialized = false;
}

abbrev made : Result × Slab (Semaphore.Sem Counter) × Memory
made = init (ops semphr) target blank memory 64 8 2

abbrev entered : Config (Semaphore.Sem Counter)
entered = alloc_entered (idle made.1 made.2 []) (alloc_take (ops semphr) false made.1 0)

Reach-blocks_example :
    Distinct entered.owned
    × ((a : ℕ) → has a entered.owned ≡ true → in_pool target entered.slab a ≡ true)
    × (entered.slab.free_blocks + length entered.owned ≡ entered.slab.num_blocks)
    × (0 < entered.allocating
        → (entered.slab.free_list ≢ 0) × (has entered.slab.free_list entered.owned ≡ false))
unfolding init Semaphore.init
Reach-blocks_example =
    Reach-blocks law target
      (init-Inv_slab law target blank memory 64 8 2 (omega arith) (omega arith) refl)
      (next here (alloc_enters false 0 (λ e. omega arith)))

free-owned_example :
    (free (ops semphr) target false made.1 made.2 72).0 ≡ (if has 72 [] then ok 0 else err einval)
unfolding init Semaphore.init
free-owned_example =
    free-owned law target false made.1 made.2 [] 72
      (init-Inv_slab law target blank memory 64 8 2 (omega arith) (omega arith) refl) refl
