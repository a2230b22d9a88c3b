-- ===== src/Slab/Chain.antt =====
-- The free list as a chain of pointers through memory.
use hazel_osal.Prelude.{
  ℕ, zero, suc, ◌+◌, ◌*◌, ◌%◌, ◌^◌, ◌≤◌, ◌<◌, ◌≡◌, ◌≢◌, refl, ap, ◌∙◌, false, ◌&&◌, List, [], ◌∷◌,
  length, arith, if◌then◌else◌, ltb, leb,
}
use hazel_osal.Prelude.Ids.{has, Distinct, update}
use hazel_osal.Slab.{Memory, link_blocks, scan}

-- From `p` the pointers lead through the blocks of the list to NULL.
abbrev pub Chain : Memory → ℕ → List ℕ → Type 0
Chain mem p [] = p ≡ 0
Chain mem p (b ∷ bs) = (p ≡ b) × (b ≢ 0) × Chain mem (mem b) bs

-- A write off the chain leaves it.
pub Chain-update :
    (mem : Memory) (p a v : ℕ) (bs : List ℕ)
    → has a bs ≡ false
    → Chain mem p bs
    → Chain (update mem a v) p bs
Chain-update mem p a v [] n h = h
Chain-update mem p a v (b ∷ bs) n h =
    let same : update mem a v b ≡ mem b = ground arith in
    (h.0, h.1, rw same (Chain-update mem (mem b) a v bs (ground arith) h.2))

-- A scan of at least the chain's length finds exactly the blocks on it.
pub scan-has :
    (mem : Memory) (p a n : ℕ) (bs : List ℕ)
    → Chain mem p bs
    → length bs ≤ n
    → scan mem p a n ≡ has a bs
unfolding scan
scan-has mem p a zero [] h le = refl
scan-has mem p a zero (b ∷ bs) h le = absurd (omega arith)
scan-has mem p a (suc n) [] h le = ground arith
scan-has mem p a (suc n) (b ∷ bs) h le =
    ground (arith, scan-has mem (mem b) a n bs h.2 (omega arith))

-- the addresses of `n` blocks from round `i` on
abbrev pub blocks_from : ℕ → ℕ → ℕ → ℕ → List ℕ
blocks_from buffer size i zero = []
blocks_from buffer size i (suc n) = (buffer + i * size) ∷ blocks_from buffer size (i + 1) n

pub length-blocks_from : (buffer size i n : ℕ) → length (blocks_from buffer size i n) ≡ n
length-blocks_from buffer size i zero = refl
length-blocks_from buffer size i (suc n) = ap suc (length-blocks_from buffer size (i + 1) n)

block_lt : (size i j : ℕ) → 0 < size → i < j → i * size < j * size
block_lt size i j h l = grind arith

block_injective : (size i j : ℕ) → 0 < size → i * size ≡ j * size → i ≡ j
block_injective size i j h e = grind (arith, block_lt)

-- Block `j` is among them exactly when `i ≤ j < i + n`.
pub has-blocks_from :
    (buffer size i n j : ℕ)
    → 0 < size
    → has (buffer + j * size) (blocks_from buffer size i n) ≡ (leb i j && ltb j (i + n))
has-blocks_from buffer size i zero j h = ground arith
has-blocks_from buffer size i (suc n) j h =
    ground (arith, has-blocks_from buffer size (i + 1) n j h, block_injective size i j h)

pub blocks_from-Distinct : (buffer size i n : ℕ) → 0 < size → Distinct (blocks_from buffer size i n)
blocks_from-Distinct buffer size i zero h = tt
blocks_from-Distinct buffer size i (suc n) h = (
  ground (arith, has-blocks_from buffer size (i + 1) n i h),
  blocks_from-Distinct buffer size (i + 1) n h,
)

-- Rounds from `i` on leave the blocks before them.
link_blocks_below :
    (mem : Memory) (buffer size num i n j : ℕ)
    → 0 < size
    → j < i
    → link_blocks mem buffer size num i n (buffer + j * size) ≡ mem (buffer + j * size)
unfolding link_blocks
link_blocks_below mem buffer size num i zero j h l = refl
link_blocks_below mem buffer size num i (suc n) j h l =
    let next = if ltb ((i + 1) % 2 ^ 32) num then buffer + i * size + size else 0 in
    link_blocks_below (update mem (buffer + i * size) next) buffer size num (i + 1) n j h
      (omega arith)
    ∙ ground (arith, block_lt size j i h l)

block_after : (size i : ℕ) → (i + 1) * size ≡ i * size + size
block_after size i = grind arith

-- The loop of `os_mem_slab_init` chains the blocks from round `i` on, in the order of their
-- addresses, to the address of block `i`, or to NULL after the last round.
pub link_blocks-Chain :
    (mem : Memory) (p buffer size num i n : ℕ)
    → 0 < size
    → 0 < buffer
    → num < 2 ^ 32
    → i + n ≡ num
    → p ≡ (if ltb i num then buffer + i * size else 0)
    → Chain (link_blocks mem buffer size num i n) p (blocks_from buffer size i n)
unfolding link_blocks
link_blocks-Chain mem p buffer size num i zero hs hb hn e here = ground arith
link_blocks-Chain mem p buffer size num i (suc n) hs hb hn e here =
    let next = if ltb ((i + 1) % 2 ^ 32) num then buffer + i * size + size else 0 in
    let mem' = update mem (buffer + i * size) next in
    let stays = link_blocks_below mem' buffer size num (i + 1) n i hs (omega arith) in
    (
      ground arith,
      omega arith,
      link_blocks-Chain mem' _ buffer size num (i + 1) n hs hb hn (omega arith)
          (stays ∙ ground (arith, block_after size i)),
    )
