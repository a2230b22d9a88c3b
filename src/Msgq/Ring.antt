-- ===== src/Msgq/Ring.antt =====
-- The ring of message_queue.c as the list of the messages that it holds, oldest first.
use hazel_osal.Prelude.{
  ℕ, zero, suc, ◌+◌, ◌-◌, ◌*◌, ◌%◌, ◌^◌, ◌≤◌, ◌<◌, ◌≡◌, refl, ◌∙◌, ap, sym, ◌≢◌, inl, inr, List, [],
  ◌∷◌, ◌++◌, length, arith,
}
use mathlib.Core.Path.{ap₂}
use native.Mathlib.Nat.{mod-add-mod, mod-eq_of_lt, add-zero, add_assoc}
use native.Mathlib.Decide.{dec_lt}
use hazel_osal.Prelude.Bytes.{
  copy_in, copy_out, length-copy_in, copy_out-copy_in, copy_out-copy_in_disjoint,
}
use hazel_osal.Msgq.{Msgq, next_index, increment, decrement, put_copy, get_copy}

-- the message in slot `i`
abbrev pub slot : List ℕ → ℕ → ℕ → List ℕ
slot buffer size i = copy_out buffer (i * size) size

-- the `n` messages that stand `k` places and more after the first one, in the ring of `cap` slots
-- whose first message is in slot `first`
abbrev pub queued : (buffer : List ℕ) (size cap first k n : ℕ) → List (List ℕ)
queued buffer size cap first k zero = []
queued buffer size cap first k (suc n) =
    slot buffer size ((first + k) % cap) ∷ queued buffer size cap first (k + 1) n

pub length-queued :
    (buffer : List ℕ) (size cap first k n : ℕ) → length (queued buffer size cap first k n) ≡ n
length-queued buffer size cap first k zero = refl
length-queued buffer size cap first k (suc n) =
    ap suc (length-queued buffer size cap first (k + 1) n)

-- Counting from the second message on is counting one place further from the first.
queued_next :
    (buffer : List ℕ) (size cap first k n : ℕ)
    → queued buffer size cap first (k + 1) n ≡ queued buffer size cap ((first + 1) % cap) k n
queued_next buffer size cap first k zero = refl
queued_next buffer size cap first k (suc n) =
    ap₂ ◌∷◌
      (ap (slot buffer size)
        (ap (λ j. j % cap) (omega arith) ∙ sym (mod-add-mod (first + 1) cap k)))
      (queued_next buffer size cap first (k + 1) n)

queued_first :
    (buffer : List ℕ) (size cap first n : ℕ)
    → first < cap
    → 0 < n
    → queued buffer size cap first 0 n
      ≡ slot buffer size first ∷ queued buffer size cap ((first + 1) % cap) 0 (n - 1)
queued_first buffer size cap first zero h p = absurd (omega arith)
queued_first buffer size cap first (suc n) h p =
    ap₂ ◌∷◌ (ap (slot buffer size) (rw add-zero (mod-eq_of_lt h))) (
      queued_next buffer size cap first 0 n
      ∙ ap (queued buffer size cap ((first + 1) % cap) 0) (omega arith))

slot_below : (i j s : ℕ) → i < j → i * s + s ≤ j * s
slot_below i j s h = grind arith

slot_in : (i cap s n : ℕ) → i < cap → n ≡ cap * s → i * s + s ≤ n
slot_in i cap s n h e = grind arith

module _ (buffer : List ℕ) (size : ℕ) (message : List ℕ) (len : length message ≡ size) where
  slot-copy_in_self :
      (i : ℕ)
      → i * size + size ≤ length buffer
      → slot (copy_in buffer (i * size) message) size i ≡ message
  slot-copy_in_self i h =
      ap (copy_out (copy_in buffer (i * size) message) (i * size)) (sym len)
      ∙ copy_out-copy_in buffer (i * size) message (omega arith)

  slot-copy_in_ne :
      (i j : ℕ) → i ≢ j → slot (copy_in buffer (j * size) message) size i ≡ slot buffer size i
  slot-copy_in_ne i j ne = elim (dec_lt i j) [
    | yes p ↦
        copy_out-copy_in_disjoint buffer (j * size) message (i * size) size
          (inl (slot_below i j size p))
    | no p ↦
        copy_out-copy_in_disjoint buffer (j * size) message (i * size) size
          (inr (omega (arith, slot_below j i size (omega arith))))
  ]

-- Places less than `cap` apart are different slots.
places_apart :
    (cap first k j : ℕ) → first < cap → k < j → j < cap → (first + k) % cap ≢ (first + j) % cap
places_apart cap first k j hf hk hj e = grind arith

-- A message copied into the slot after the last one comes last.
queued-copy_in :
    (buffer : List ℕ) (size cap : ℕ) (message : List ℕ) (first i n k : ℕ)
    → length message ≡ size
    → length buffer ≡ cap * size
    → first < cap
    → k + n < cap
    → i ≡ (first + (k + n)) % cap
    → queued (copy_in buffer (i * size) message) size cap first k (suc n)
      ≡ queued buffer size cap first k n ++ (message ∷ [])
queued-copy_in buffer size cap message first i zero k len full hf hk e =
    let here : (first + k) % cap ≡ i = ap (λ j. j % cap) (omega arith) ∙ sym e in
    let inside : i < cap = rw e (omega arith) in
    ap (λ m. m ∷ [])
      (ap (slot (copy_in buffer (i * size) message) size) here
        ∙ slot-copy_in_self buffer size message len i (slot_in i cap size _ inside full))
queued-copy_in buffer size cap message first i (suc n) k len full hf hk e =
    ap₂ ◌∷◌
      (slot-copy_in_ne buffer size message len ((first + k) % cap) i
        (λ d. places_apart cap first k (k + suc n) hf (omega arith) hk (d ∙ e)))
      (queued-copy_in buffer size cap message first i n (k + 1) len full hf (omega arith)
        (e ∙ ap (λ j. j % cap) (omega arith)))

-- `(index + 1U) % capacity` does not wrap at 32 bits.
next_index-lt : (i c : ℕ) → c < 2 ^ 32 → i < c → next_index i c ≡ (i + 1) % c
next_index-lt i c s h = ap (λ k. k % c) (omega arith)

next_index-mod : (w n c : ℕ) → c < 2 ^ 32 → w < c → w ≡ n % c → next_index w c ≡ (n + 1) % c
next_index-mod w n c s h e = next_index-lt w c s h ∙ rw (e, mod-add-mod n c 1)

shift : (r n c : ℕ) → 0 < n → (r + n) % c ≡ ((r + 1) % c + (n - 1)) % c
shift r n c h = rw mod-add-mod (ap (λ k. k % c) (omega arith))

module _ {Sem : Type 0} where
  -- The representation invariant of the ring, whatever the semaphores hold.
  pub record IsRing (m : Msgq Sem) : Type 0 where
    pub storage : length m.buffer ≡ m.capacity * m.message_size
    pub small : m.capacity < 2 ^ 32
    pub read_in : m.read_index < m.capacity
    pub count_in : m.count ≤ m.capacity
    pub write_at : m.write_index ≡ (m.read_index + m.count) % m.capacity

  -- the messages in the ring, oldest first
  abbrev pub contents : Msgq Sem → List (List ℕ)
  contents m = queued m.buffer m.message_size m.capacity m.read_index 0 m.count

  -- In a ring with room `put_copy` adds its message at the end, and no index wraps.
  pub put_copy-IsRing :
      (m : Msgq Sem) (message : List ℕ)
      → IsRing m
      → m.count < m.capacity
      → length message ≡ m.message_size
      → IsRing (put_copy m message) × (contents (put_copy m message) ≡ contents m ++ (message ∷ []))
  unfolding put_copy
  put_copy-IsRing m message v room len =
      let at : m.write_index < m.capacity = ground arith in
      let sum : next_index m.write_index m.capacity ≡ (m.read_index + (m.count + 1)) % m.capacity =
        next_index-mod m.write_index (m.read_index + m.count) m.capacity v.small at v.write_at
        ∙ ap (λ k. k % m.capacity) (add_assoc m.read_index m.count 1) in
      let inc : increment m.count ≡ suc m.count = omega arith in
      let inc' : increment m.count ≡ m.count + 1 = omega arith in
      (
        record {
          storage = length-copy_in m.buffer (m.write_index * m.message_size) message ∙ v.storage;
          small = v.small;
          read_in = v.read_in;
          count_in = omega arith;
          write_at = rw inc' sum;
        },
        rw inc (
            queued-copy_in m.buffer m.message_size m.capacity message m.read_index m.write_index
              m.count 0 len v.storage v.read_in (omega arith)
              (v.write_at ∙ ap (λ j. j % m.capacity) (omega arith))),
      )

  -- From a ring that holds a message `get_copy` takes the oldest one.
  pub get_copy-IsRing :
      (m : Msgq Sem)
      → IsRing m
      → 0 < m.count
      → IsRing (get_copy m).1 × (contents m ≡ (get_copy m).0 ∷ contents (get_copy m).1)
  unfolding get_copy
  get_copy-IsRing m v some_in =
      let inc : next_index m.read_index m.capacity ≡ (m.read_index + 1) % m.capacity =
        next_index-lt m.read_index m.capacity v.small v.read_in in
      let dec : decrement m.count ≡ m.count - 1 = ground arith in
      (
        record {
          storage = v.storage;
          small = v.small;
          read_in = rw inc (omega arith);
          count_in = omega arith;
          write_at = rw (inc, dec) (v.write_at ∙ shift m.read_index m.count m.capacity some_in);
        },
        rw (inc, dec)
            (queued_first m.buffer m.message_size m.capacity m.read_index m.count v.read_in
              some_in),
      )
