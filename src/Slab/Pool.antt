-- ===== src/Slab/Pool.antt =====
-- The address test of `os_mem_slab_free` accepts exactly the blocks of the slab.
use hazel_osal.Prelude.{ℕ, ◌+◌, ◌-◌, ◌*◌, ◌/◌, ◌%◌, ◌≤◌, ◌<◌, ◌≡◌, ◌↔◌, true, arith}
use native.Mathlib.Nat.{mod-eq_of_lt, div-add-mod', div-lt_iff_lt-mul, mul-mod_left, mul_comm}
use hazel_osal.Slab.{Slab, Target, in_pool}

-- the addresses of the blocks
abbrev pub IsBlock : (start size num a : ℕ) → Type 0
IsBlock start size num a = (i : ℕ) × (i < num) × (a ≡ start + i * size)

-- what `os_mem_slab_init` has checked
pub record IsSized (target : Target) (size num : ℕ) : Type 0 where
  pub size_pos : 0 < size
  pub total_small : size * num ≤ target.size_max

pool-IsBlock :
    (start size num a : ℕ)
    → 0 < size
    → start ≤ a
    → a - start < size * num
    → (a - start) % size ≡ 0
    → IsBlock start size num a
pool-IsBlock start size num a pos h lt r = (
  (a - start) / size,
  (div-lt_iff_lt-mul {k = size} {x = a - start} {y = num} pos).1 (rw (mul_comm num size) lt),
  omega (arith, div-add-mod' (a - start) size),
)

block_in : (i size num : ℕ) → 0 < size → i < num → i * size < size * num
block_in i size num pos h = grind arith

module _ {Sem : Type 0} where
  -- If the sizes are those that os_mem_slab_init accepts, the address test of os_mem_slab_free
  -- holds exactly at the addresses of the blocks of the slab.
  pub in_pool_iff :
      (target : Target) (s : Slab Sem) (a : ℕ)
      → IsSized target s.block_size s.num_blocks
      → (in_pool target s a ≡ true) ↔ IsBlock s.buffer s.block_size s.num_blocks a
  unfolding in_pool
  in_pool_iff target s a v = (
    λ h.
        let total =
          mod-eq_of_lt {n = s.block_size * s.num_blocks} {m = target.size_max + 1} (omega arith) in
        pool-IsBlock s.buffer s.block_size s.num_blocks a v.size_pos (ground (arith, total))
          (ground (arith, total)) (ground (arith, total)),
    λ b.
        let total =
          mod-eq_of_lt {n = s.block_size * s.num_blocks} {m = target.size_max + 1} (omega arith) in
        let off : a - s.buffer ≡ b.0 * s.block_size = omega (arith, b.2) in
        ground (
          arith,
          total,
          off,
          b.2,
          block_in b.0 s.block_size s.num_blocks v.size_pos b.1,
          mul-mod_left b.0 s.block_size,
        ),
  )
