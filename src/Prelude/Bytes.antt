-- ===== src/Prelude/Bytes.antt =====
-- The byte loops of src/common/internal.h, over a list of bytes with an offset.
use hazel_osal.Prelude.Lists.{length, set, get_or, length-set, get_or-set_self, get_or-set_ne}
use Prim.Native.Nat.{ℕ, zero, suc, ◌+◌, ◌≤◌, ◌<◌}
use mathlib.Core.Path.{◌≡◌, refl, ap, ap₂, ◌∙◌}
use mathlib.Core.Logic.{◌⊎◌, inl, inr}
use mathlib.Core.List.{List, [], ◌∷◌}
use native.Mathlib.Omega.{arith}

-- `os_common_copy` into a buffer: the bytes of `source`, one by one, from `offset` on.
pub copy_in : List ℕ → ℕ → List ℕ → List ℕ
copy_in buffer offset [] = buffer
copy_in buffer offset (byte ∷ source) = copy_in (set buffer offset byte) (offset + 1) source

-- `os_common_copy` out of a buffer: `size` bytes from `offset` on.
pub copy_out : List ℕ → ℕ → ℕ → List ℕ
copy_out buffer offset zero = []
copy_out buffer offset (suc size) = get_or buffer offset 0 ∷ copy_out buffer (offset + 1) size

pub length-copy_in : (b : List ℕ) (o : ℕ) (s : List ℕ) → length (copy_in b o s) ≡ length b
unfolding copy_in
length-copy_in b o [] = refl
length-copy_in b o (x ∷ s) = length-copy_in (set b o x) (o + 1) s ∙ length-set b o x

pub length-copy_out : (b : List ℕ) (o n : ℕ) → length (copy_out b o n) ≡ n
unfolding copy_out
length-copy_out b o zero = refl
length-copy_out b o (suc n) = ap suc (length-copy_out b (o + 1) n)

get_or-copy_in_below :
    (b : List ℕ) (o : ℕ) (s : List ℕ) (i : ℕ) → i < o → get_or (copy_in b o s) i 0 ≡ get_or b i 0
unfolding copy_in
get_or-copy_in_below b o [] i h = refl
get_or-copy_in_below b o (x ∷ s) i h =
    get_or-copy_in_below (set b o x) (o + 1) s i (omega arith)
    ∙ get_or-set_ne b o i x 0 (omega arith)

get_or-copy_in_above :
    (b : List ℕ) (o : ℕ) (s : List ℕ) (i : ℕ)
    → o + length s ≤ i
    → get_or (copy_in b o s) i 0 ≡ get_or b i 0
unfolding copy_in
get_or-copy_in_above b o [] i h = refl
get_or-copy_in_above b o (x ∷ s) i h =
    get_or-copy_in_above (set b o x) (o + 1) s i (omega arith)
    ∙ get_or-set_ne b o i x 0 (omega arith)

-- What was copied in is read back.
pub copy_out-copy_in :
    (b : List ℕ) (o : ℕ) (s : List ℕ)
    → o + length s ≤ length b
    → copy_out (copy_in b o s) o (length s) ≡ s
unfolding copy_in copy_out
copy_out-copy_in b o [] h = refl
copy_out-copy_in b o (x ∷ s) h =
    ap₂ ◌∷◌
      (get_or-copy_in_below (set b o x) (o + 1) s o (omega arith)
        ∙ get_or-set_self b o x 0 (omega arith))
      (copy_out-copy_in (set b o x) (o + 1) s (omega (arith, length-set b o x)))

-- Bytes outside the copied range stay.
pub copy_out-copy_in_disjoint :
    (b : List ℕ) (o : ℕ) (s : List ℕ) (p n : ℕ)
    → (p + n ≤ o) ⊎ (o + length s ≤ p)
    → copy_out (copy_in b o s) p n ≡ copy_out b p n
unfolding copy_out
copy_out-copy_in_disjoint b o s p zero h = refl
copy_out-copy_in_disjoint b o s p (suc n) (inl h) =
    ap₂ ◌∷◌ (get_or-copy_in_below b o s p (omega arith))
      (copy_out-copy_in_disjoint b o s (p + 1) n (inl (omega arith)))
copy_out-copy_in_disjoint b o s p (suc n) (inr h) =
    ap₂ ◌∷◌ (get_or-copy_in_above b o s p (omega arith))
      (copy_out-copy_in_disjoint b o s (p + 1) n (inr (omega arith)))
