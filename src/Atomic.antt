-- ===== src/Atomic.antt =====
-- src/common/atomic.c. Each function is one builtin of the compiler, which is atomic: a call takes the
-- value of the target and gives what it returns and the new value. `bits` is the width of
-- `atomic_val_t`, a value is its bit pattern, and NULL is 0.
pub mod Tickets
use hazel_osal.Prelude.{ℕ, ◌+◌, ◌-◌, ◌%◌, ◌^◌, Bool, true, false, ◌==◌, if◌then◌else◌}
use hazel_osal.Prelude.Bits.{bit_xor}
use Prim.Native.Nat.{bit_and, bit_or}

unfoldable pub cas : (target old_value new_value : ℕ) → Bool × ℕ
cas target old_value new_value = if target == old_value then (true, new_value) else (false, target)

unfoldable pub ptr_cas : (target old_value new_value : ℕ) → Bool × ℕ
ptr_cas target old_value new_value =
    if target == old_value then (true, new_value) else (false, target)

unfoldable pub add : (bits target value : ℕ) → ℕ × ℕ
add bits target value = (target, (target + value) % 2 ^ bits)

unfoldable pub sub : (bits target value : ℕ) → ℕ × ℕ
sub bits target value = (target, (target + 2 ^ bits - value) % 2 ^ bits)

unfoldable pub inc : (bits target : ℕ) → ℕ × ℕ
unfolding add
inc bits target = add bits target 1

unfoldable pub dec : (bits target : ℕ) → ℕ × ℕ
unfolding sub
dec bits target = sub bits target 1

unfoldable pub get : (target : ℕ) → ℕ
get target = target

unfoldable pub ptr_get : (target : ℕ) → ℕ
ptr_get target = target

unfoldable pub set : (target value : ℕ) → ℕ × ℕ
set target value = (target, value)

unfoldable pub ptr_set : (target value : ℕ) → ℕ × ℕ
ptr_set target value = (target, value)

unfoldable pub clear : (target : ℕ) → ℕ × ℕ
unfolding set
clear target = set target 0

unfoldable pub ptr_clear : (target : ℕ) → ℕ × ℕ
unfolding ptr_set
ptr_clear target = ptr_set target 0

unfoldable pub or : (target value : ℕ) → ℕ × ℕ
or target value = (target, bit_or target value)

unfoldable pub xor : (target value : ℕ) → ℕ × ℕ
xor target value = (target, bit_xor target value)

unfoldable pub and : (target value : ℕ) → ℕ × ℕ
and target value = (target, bit_and target value)

unfoldable pub nand : (bits target value : ℕ) → ℕ × ℕ
nand bits target value = (target, 2 ^ bits - 1 - bit_and target value)
