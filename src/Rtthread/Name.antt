-- ===== src/Rtthread/Name.antt =====
-- src/osal_rtthread/name.c up to the text of the name. `address` is below 2^64, and a byte of `salt`
-- is an unsigned one. `rt_snprintf` prints the hash in the name, in eight digits of base 16.
pub mod Unique
pub mod Text
pub mod Printed
use hazel_osal.Prelude.{ℕ, ◌+◌, ◌*◌, ◌/◌, ◌%◌, ◌^◌, List, [], ◌∷◌}
use hazel_osal.Prelude.Bits.{bit_xor}

-- `os_rt_hash_mix`
unfoldable pub hash_mix : ℕ → ℕ
hash_mix value =
    let a = bit_xor value (value / 2 ^ 16) in
    let b = (a * 0x7feb_352d) % 2 ^ 32 in
    let c = bit_xor b (b / 2 ^ 15) in let d = (c * 0x846c_a68b) % 2 ^ 32 in bit_xor d (d / 2 ^ 16)

-- the loop over the salt
unfoldable pub absorb : (hash : ℕ) → (salt : List ℕ) → ℕ
absorb hash [] = hash
absorb hash (c ∷ salt) = absorb ((bit_xor hash c * 16777619) % 2 ^ 32) salt

-- The hash of `os_rt_name_generate`: `sequence` is `os_rt_name_sequence` before the call, and `tick`
-- what `rt_tick_get` returns.
unfoldable pub name_hash : (sequence address tick : ℕ) → (salt : List ℕ) → ℕ
unfolding hash_mix absorb
name_hash sequence address tick salt =
    let counted = bit_xor ((sequence + 1) % 2 ^ 32) (address % 2 ^ 32) in
    let hash = bit_xor (bit_xor counted (address / 2 ^ 32)) tick in hash_mix (absorb hash salt)
