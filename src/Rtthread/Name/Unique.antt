-- ===== src/Rtthread/Name/Unique.antt =====
-- The hash of a name tells the sequence numbers of two names apart.
use hazel_osal.Prelude.{
  ℕ, ◌+◌, ◌*◌, ◌/◌, ◌%◌, ◌^◌, ◌≤◌, ◌<◌, ◌≡◌, sym, ap, ◌∙◌, List, [], ◌∷◌, arith,
}
use hazel_osal.Prelude.Bits.{bit_xor, bit_xor-zero, bit_xor_twice, bit_xor_lt, shift, bit_xor-shift}
use hazel_osal.Rtthread.Name.{hash_mix, absorb, name_hash}

shift-sixteen : (a : ℕ) → a / 2 ^ 16 ≡ shift 16 a
shift-sixteen a = omega arith

shift-fifteen : (a : ℕ) → a / 2 ^ 15 ≡ shift 15 a
shift-fifteen a = omega arith

-- `x ^ (x >> 16)` is its own inverse on 32 bits.
unshift_sixteen :
    (a : ℕ) → a < 2 ^ 32 → let x = bit_xor a (a / 2 ^ 16) in bit_xor x (x / 2 ^ 16) ≡ a
unshift_sixteen a lt =
    let s = a / 2 ^ 16 in
    let x = bit_xor a s in
    let e : x / 2 ^ 16 ≡ bit_xor s (s / 2 ^ 16) =
      shift-sixteen x
      ∙ bit_xor-shift 16 a s
      ∙ ap (λ y. bit_xor y (shift 16 s)) (sym (shift-sixteen a))
      ∙ ap (bit_xor s) (sym (shift-sixteen s)) in
    let z : s / 2 ^ 16 ≡ 0 = omega arith in
    ap (bit_xor x) (e ∙ ap (bit_xor s) z ∙ bit_xor-zero s) ∙ bit_xor_twice a s

-- the inverse of `x ^ (x >> 15)`
abbrev unshift : ℕ → ℕ
unshift x = bit_xor x (bit_xor (x / 2 ^ 15) (x / 2 ^ 30))

unshift_fifteen : (a : ℕ) → a < 2 ^ 32 → unshift (bit_xor a (a / 2 ^ 15)) ≡ a
unshift_fifteen a lt =
    let s = a / 2 ^ 15 in
    let r = a / 2 ^ 30 in
    let x = bit_xor a s in
    let half : s / 2 ^ 15 ≡ r = omega arith in
    let e : x / 2 ^ 15 ≡ bit_xor s r =
      shift-fifteen x
      ∙ bit_xor-shift 15 a s
      ∙ ap (λ y. bit_xor y (shift 15 s)) (sym (shift-fifteen a))
      ∙ ap (bit_xor s) (sym (shift-fifteen s) ∙ half) in
    let z : r / 2 ^ 15 ≡ 0 = omega arith in
    let twice : x / 2 ^ 30 ≡ bit_xor s r / 2 ^ 15 = omega (arith, e) in
    let f : bit_xor s r / 2 ^ 15 ≡ r =
      shift-fifteen (bit_xor s r)
      ∙ bit_xor-shift 15 s r
      ∙ ap (λ y. bit_xor y (shift 15 r)) (sym (shift-fifteen s) ∙ half)
      ∙ ap (bit_xor r) (sym (shift-fifteen r) ∙ z)
      ∙ bit_xor-zero r in
    ap (λ y. bit_xor x (bit_xor y (x / 2 ^ 30))) e
    ∙ ap (λ y. bit_xor x (bit_xor (bit_xor s r) y)) (twice ∙ f)
    ∙ ap (bit_xor x) (bit_xor_twice s r)
    ∙ bit_xor_twice a s

unscale_first : (a : ℕ) → a < 2 ^ 32 → ((a * 0x7feb_352d) % 2 ^ 32 * 0x1d69_e2a5) % 2 ^ 32 ≡ a
unscale_first a lt = omega arith

unscale_second : (a : ℕ) → a < 2 ^ 32 → ((a * 0x846c_a68b) % 2 ^ 32 * 0x4302_1123) % 2 ^ 32 ≡ a
unscale_second a lt = omega arith

unscale_salt : (a : ℕ) → a < 2 ^ 32 → ((a * 16777619) % 2 ^ 32 * 899433627) % 2 ^ 32 ≡ a
unscale_salt a lt = omega arith

-- the steps of `os_rt_hash_mix`, taken back
unfoldable pub unmix : ℕ → ℕ
unmix hash =
    let d = bit_xor hash (hash / 2 ^ 16) in
    let c = (d * 0x4302_1123) % 2 ^ 32 in
    let b = unshift c in let a = (b * 0x1d69_e2a5) % 2 ^ 32 in bit_xor a (a / 2 ^ 16)

mixed_lt : (a s : ℕ) → a < 2 ^ 32 → s ≤ a → bit_xor a s < 2 ^ 32
mixed_lt a s lt le = bit_xor_lt 32 a s lt (omega arith)

-- `os_rt_hash_mix` can be taken back on 32 bits.
pub hash_mix-roundtrip : (value : ℕ) → value < 2 ^ 32 → unmix (hash_mix value) ≡ value
unfolding hash_mix unmix
hash_mix-roundtrip value lt =
    let a = bit_xor value (value / 2 ^ 16) in
    let b = (a * 0x7feb_352d) % 2 ^ 32 in
    let c = bit_xor b (b / 2 ^ 15) in
    let d = (c * 0x846c_a68b) % 2 ^ 32 in
    let first : (unshift c * 0x1d69_e2a5) % 2 ^ 32 ≡ a =
      ap (λ y. (y * 0x1d69_e2a5) % 2 ^ 32) (unshift_fifteen b (omega arith))
      ∙ unscale_first a (mixed_lt value (value / 2 ^ 16) lt (omega arith)) in
    let second : (bit_xor (bit_xor d (d / 2 ^ 16)) (bit_xor d (d / 2 ^ 16) / 2 ^ 16) * 0x4302_1123)
          % 2 ^ 32
        ≡ c =
      ap (λ y. (y * 0x4302_1123) % 2 ^ 32) (unshift_sixteen d (omega arith))
      ∙ unscale_second c (mixed_lt b (b / 2 ^ 15) (omega arith) (omega arith)) in
    let undo = λ (y : ℕ). bit_xor y (y / 2 ^ 16) in
    ap (λ y. undo ((unshift y * 0x1d69_e2a5) % 2 ^ 32)) second
    ∙ ap undo first
    ∙ unshift_sixteen value lt

hash_mix-injective : (v w : ℕ) → v < 2 ^ 32 → w < 2 ^ 32 → hash_mix v ≡ hash_mix w → v ≡ w
hash_mix-injective v w p q e = sym (hash_mix-roundtrip v p) ∙ ap unmix e ∙ hash_mix-roundtrip w q

bit_xor-injective : (a b c : ℕ) → bit_xor a c ≡ bit_xor b c → a ≡ b
bit_xor-injective a b c e = sym (bit_xor_twice a c) ∙ ap (λ x. bit_xor x c) e ∙ bit_xor_twice b c

-- The bytes of a salt.
abbrev pub AreBytes : List ℕ → Type 0
AreBytes [] = Unit {0}
AreBytes (c ∷ salt) = (c < 256) × AreBytes salt

absorb-lt : (h : ℕ) (salt : List ℕ) → h < 2 ^ 32 → absorb h salt < 2 ^ 32
unfolding absorb
absorb-lt h [] p = p
absorb-lt h (c ∷ salt) p = absorb-lt ((bit_xor h c * 16777619) % 2 ^ 32) salt (omega arith)

absorb-injective :
    (salt : List ℕ) (v w : ℕ)
    → AreBytes salt
    → v < 2 ^ 32
    → w < 2 ^ 32
    → absorb v salt ≡ absorb w salt
    → v ≡ w
unfolding absorb
absorb-injective [] v w b p q e = e
absorb-injective (c ∷ salt) v w b p q e =
    let c_lt : c < 2 ^ 32 = omega (arith, b.0) in
    let ih =
      absorb-injective salt ((bit_xor v c * 16777619) % 2 ^ 32) ((bit_xor w c * 16777619) % 2 ^ 32)
        b.1 (omega arith) (omega arith) e in
    bit_xor-injective v w c (
      sym (unscale_salt (bit_xor v c) (bit_xor_lt 32 v c p c_lt))
      ∙ ap (λ x. (x * 899433627) % 2 ^ 32) ih
      ∙ unscale_salt (bit_xor w c) (bit_xor_lt 32 w c q c_lt))

-- the hash before the salt: `counted` is the sequence number after the call
before_salt-lt :
    (counted address tick : ℕ)
    → counted < 2 ^ 32
    → address < 2 ^ 64
    → tick < 2 ^ 32
    → bit_xor (bit_xor (bit_xor counted (address % 2 ^ 32)) (address / 2 ^ 32)) tick < 2 ^ 32
before_salt-lt counted address tick cl al tl =
    let low = address % 2 ^ 32 in
    let high = address / 2 ^ 32 in
    bit_xor_lt 32 (bit_xor (bit_xor counted low) high) tick
      (bit_xor_lt 32 (bit_xor counted low) high (bit_xor_lt 32 counted low cl (omega arith))
        (omega arith))
      tl

hash_mix-lt : (value : ℕ) → value < 2 ^ 32 → hash_mix value < 2 ^ 32
unfolding hash_mix
hash_mix-lt value lt =
    let a = bit_xor value (value / 2 ^ 16) in
    let b = (a * 0x7feb_352d) % 2 ^ 32 in
    let c = bit_xor b (b / 2 ^ 15) in
    let d = (c * 0x846c_a68b) % 2 ^ 32 in mixed_lt d (d / 2 ^ 16) (omega arith) (omega arith)

-- A hash has 32 bits.
pub name_hash-lt :
    (n address tick : ℕ) (salt : List ℕ)
    → address < 2 ^ 64
    → tick < 2 ^ 32
    → name_hash n address tick salt < 2 ^ 32
unfolding name_hash
name_hash-lt n address tick salt al tl =
    hash_mix-lt _
      (absorb-lt _ salt (before_salt-lt ((n + 1) % 2 ^ 32) address tick (omega arith) al tl))

-- If os_rt_name_generate finds the same hash for two names with the same address, tick and salt,
-- where the address fits in 64 bits, the tick in 32 and each character in a byte, then the
-- sequence numbers are the same modulo 2^32.
pub name_hash-injective :
    (n m address tick : ℕ) (salt : List ℕ)
    → address < 2 ^ 64
    → tick < 2 ^ 32
    → AreBytes salt
    → name_hash n address tick salt ≡ name_hash m address tick salt
    → n % 2 ^ 32 ≡ m % 2 ^ 32
unfolding name_hash
name_hash-injective n m address tick salt al tl b e =
    let low = address % 2 ^ 32 in
    let high = address / 2 ^ 32 in
    let before = λ (k : ℕ). bit_xor (bit_xor (bit_xor ((k + 1) % 2 ^ 32) low) high) tick in
    let before_lt : (k : ℕ) → before k < 2 ^ 32 =
      λ k. before_salt-lt ((k + 1) % 2 ^ 32) address tick (omega arith) al tl in
    let mixed =
      hash_mix-injective (absorb (before n) salt) (absorb (before m) salt)
        (absorb-lt (before n) salt (before_lt n)) (absorb-lt (before m) salt (before_lt m)) e in
    let unsalted =
      absorb-injective salt (before n) (before m) b (before_lt n) (before_lt m) mixed in
    let counted =
      bit_xor-injective ((n + 1) % 2 ^ 32) ((m + 1) % 2 ^ 32) low
        (bit_xor-injective _ _ high (bit_xor-injective _ _ tick unsalted)) in
    omega (arith, counted)
