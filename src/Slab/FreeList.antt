-- ===== src/Slab/FreeList.antt =====
-- The free list of a slab and the blocks that are allocated.
use hazel_osal.Prelude.{
  ℕ, ◌+◌, ◌-◌, ◌%◌, ◌^◌, ◌≤◌, ◌<◌, ◌≡◌, refl, ap, inl, inr, true, false, ◌||◌, List, [], ◌∷◌,
  length, arith, ◌≢◌,
}
use hazel_osal.Prelude.Ids.{
  has, Distinct, update, remove, has-remove_le, has-remove_ne, has-remove_self, Distinct-remove,
  length-remove, has_cases,
}
use hazel_osal.Errno.{ok, err, einval}
use hazel_osal.Slab.{Slab, Memory, Target, free_push}
use hazel_osal.Slab.Chain.{Chain, Chain-update, scan-has}
use hazel_osal.Slab.Pool.{IsSized, IsBlock}

-- The free list is a chain of `free_blocks` distinct blocks, none of them allocated, and every
-- block is free or allocated.
pub record IsPool (target : Target) (start size num free_list free_blocks : ℕ) (mem : Memory)
    (owned : List ℕ) : Type 0 where
  pub free : List ℕ
  pub sized : IsSized target size num
  pub start_pos : 0 < start
  pub small : num < 2 ^ 32
  pub chain : Chain mem free_list free
  pub free_distinct : Distinct free
  pub owned_distinct : Distinct owned
  pub apart : (a : ℕ) → has a free ≡ true → has a owned ≡ false
  pub owned_block : (a : ℕ) → has a owned ≡ true → IsBlock start size num a
  pub free_block : (a : ℕ) → has a free ≡ true → IsBlock start size num a
  pub cover : (a : ℕ) → IsBlock start size num a → (has a free || has a owned) ≡ true
  pub counted : free_blocks ≡ length free
  pub total : length free + length owned ≡ num

module _ {target : Target} {start size num p n : ℕ} {mem : Memory} {owned : List ℕ} where
  pub free_blocks-le : IsPool target start size num p n mem owned → n ≤ num
  free_blocks-le v = omega arith

  pub free_blocks-lt : IsPool target start size num p n mem owned → n < 2 ^ 32
  free_blocks-lt v = omega arith

  -- While a block is allocated, `free_blocks` is below the number of blocks.
  pub free_blocks-lt_num :
      (a : ℕ) → IsPool target start size num p n mem owned → has a owned ≡ true → n < num
  free_blocks-lt_num a v mine = omega (arith, length-remove a owned mine)

  -- Where a block is free the head of the list is one, and taking it off leaves a free list.
  pub pop-IsPool :
      IsPool target start size num p n mem owned
      → 0 < n
      → (p ≢ 0)
        × (has p owned ≡ false)
        × IsPool target start size num (mem p) (n - 1) mem (p ∷ owned)
  pop-IsPool v some_free = go v.free refl
    where
      go :
          (l : List ℕ)
          → v.free ≡ l
          → (p ≢ 0)
            × (has p owned ≡ false)
            × IsPool target start size num (mem p) (n - 1) mem (p ∷ owned)
      go [] e = absurd (omega (arith, ap length e))
      go (b ∷ bs) e =
          let chain : Chain mem p (b ∷ bs) = rw e at (v.chain) in
          let distinct : Distinct (b ∷ bs) = rw e at (v.free_distinct) in
          let head : p ≡ b = chain.0 in
          let mine : has p owned ≡ false = v.apart p (rw (e, head) (ground arith)) in
          (
            rw head chain.1,
            mine,
            record {
              free = bs;
              sized = v.sized;
              start_pos = v.start_pos;
              small = v.small;
              chain = rw head chain.2;
              free_distinct = distinct.1;
              owned_distinct = (mine, v.owned_distinct);
              apart = λ a h. ground (arith, v.apart a);
              owned_block = λ a h. elim (has_cases a p owned h) [
                | inl q ↦ rw q (v.free_block p (rw (e, head) (ground arith)))
                | inr q ↦ v.owned_block a q
              ];
              free_block = λ a h. v.free_block a (ground arith);
              cover = λ a h. ground (arith, v.cover a h);
              counted = omega (arith, ap length e);
              total = omega (arith, ap length e);
            },
          )

  -- Putting an allocated block on the free list leaves one.
  pub push-IsPool :
      {a : ℕ}
      → IsPool target start size num p n mem owned
      → IsBlock start size num a
      → has a owned ≡ true
      → IsPool target start size num a ((n + 1) % 2 ^ 32) (update mem a p) (remove a owned)
  push-IsPool {a} v block mine =
      let fresh : has a v.free ≡ false = ground (arith, v.apart a) in
      let here : update mem a p a ≡ p = ground arith in
      let gone = length-remove a owned mine in
      let inc : (n + 1) % 2 ^ 32 ≡ n + 1 = omega arith in
      rw inc (record {
        free = a ∷ v.free;
        sized = v.sized;
        start_pos = v.start_pos;
        small = v.small;
        chain =
            (refl, omega (arith, block.2), rw here (Chain-update mem p a p v.free fresh v.chain));
        free_distinct = (fresh, v.free_distinct);
        owned_distinct = Distinct-remove a owned v.owned_distinct;
        apart = λ b h. elim (has_cases b a v.free h) [
          | inl q ↦ rw q (has-remove_self a owned v.owned_distinct)
          | inr q ↦ has-remove_le a b owned (v.apart b q)
        ];
        owned_block = λ b h. v.owned_block b (ground (arith, has-remove_le a b owned));
        free_block =
            λ b h. elim (has_cases b a v.free h) [ inl q ↦ rw q block | inr q ↦ v.free_block b q ];
        cover = λ b h. ground (arith, v.cover b h, has-remove_ne a b owned);
        counted = omega arith;
        total = omega arith;
      })

  -- The owner of a block may write to it.
  pub write-IsPool :
      (a w : ℕ)
      → IsPool target start size num p n mem owned
      → has a owned ≡ true
      → IsPool target start size num p n (update mem a w) owned
  write-IsPool a w v mine = record {
    free = v.free;
    sized = v.sized;
    start_pos = v.start_pos;
    small = v.small;
    chain = Chain-update mem p a w v.free (ground (arith, v.apart a)) v.chain;
    free_distinct = v.free_distinct;
    owned_distinct = v.owned_distinct;
    apart = v.apart;
    owned_block = v.owned_block;
    free_block = v.free_block;
    cover = v.cover;
    counted = v.counted;
    total = v.total;
  }

module _ {Sem : Type 0} {target : Target} (s : Slab Sem) (mem : Memory) (a : ℕ) (owned : List ℕ)
    (v : IsPool target s.buffer s.block_size s.num_blocks s.free_list s.free_blocks mem owned)
    (block : IsBlock s.buffer s.block_size s.num_blocks a) where
  -- The critical section of `os_mem_slab_free` takes an allocated block.
  pub free_push-owned :
      has a owned ≡ true
      → free_push s mem a ≡ (
        ok 0,
        record s { free_list = a; free_blocks = (s.free_blocks + 1) % 2 ^ 32 },
        update mem a s.free_list,
      )
  unfolding free_push
  free_push-owned mine = ground (
    arith,
    scan-has mem s.free_list a s.free_blocks v.free v.chain (omega arith),
    v.apart a,
    length-remove a owned mine,
  )

  -- It refuses a block that is free.
  pub free_push-other : has a owned ≡ false → free_push s mem a ≡ (err einval, s, mem)
  unfolding free_push
  free_push-other other = ground (
    arith,
    scan-has mem s.free_list a s.free_blocks v.free v.chain (omega arith),
    v.cover a block,
  )
