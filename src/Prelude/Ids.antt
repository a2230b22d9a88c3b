-- ===== src/Prelude/Ids.antt =====
-- Lists of object addresses without repetition, and maps from addresses.
use hazel_osal.Prelude.Tests.{◌==◌, if◌then◌else◌}
use hazel_osal.Prelude.Lists.{length}
use Prim.Native.Nat.{ℕ, suc}
use mathlib.Core.Path.{◌≡◌, refl}
use mathlib.Core.Logic.{◌⊎◌}
use mathlib.Core.Bool.{Bool, true, false, not, ◌||◌, ◌&&◌}
use mathlib.Core.List.{List, [], ◌∷◌, ◌++◌}
use native.Mathlib.Omega.{arith}

abbrev pub has : ℕ → List ℕ → Bool
has a [] = false
has a (x ∷ xs) = (a == x) || has a xs

-- No address stands twice.
abbrev pub Distinct : List ℕ → Type 0
Distinct [] = Unit {0}
Distinct (x ∷ xs) = (has x xs ≡ false) × Distinct xs

-- a write to one place of a map
abbrev pub update {ℓ} : {A : Type ℓ} → (ℕ → A) → ℕ → A → ℕ → A
update f a v b = if b == a then v else f b

-- Every address of the list satisfies the test.
abbrev pub Every : (ℕ → Bool) → List ℕ → Type 0
Every p [] = Unit {0}
Every p (x ∷ xs) = (p x ≡ true) × Every p xs

pub has-append : (a : ℕ) (xs ys : List ℕ) → has a (xs ++ ys) ≡ (has a xs || has a ys)
has-append a [] ys = refl
has-append a (x ∷ xs) ys = ground (arith, has-append a xs ys)

pub Distinct-snoc :
    (xs : List ℕ) (a : ℕ) → Distinct xs → has a xs ≡ false → Distinct (xs ++ (a ∷ []))
Distinct-snoc [] a d h = (refl, tt)
Distinct-snoc (x ∷ xs) a d h =
    (ground (arith, has-append x xs (a ∷ [])), Distinct-snoc xs a d.1 (ground arith))

pub Every-snoc :
    (p : ℕ → Bool) (xs : List ℕ) (a : ℕ) → Every p xs → p a ≡ true → Every p (xs ++ (a ∷ []))
Every-snoc p [] a h e = (e, tt)
Every-snoc p (x ∷ xs) a h e = (h.0, Every-snoc p xs a h.1 e)

-- A test that fails at an address tells that the address is not in the list.
pub Every-fresh : (p : ℕ → Bool) (xs : List ℕ) (a : ℕ) → Every p xs → p a ≡ false → has a xs ≡ false
Every-fresh p [] a h e = refl
Every-fresh p (x ∷ xs) a h e = ground (arith, Every-fresh p xs a h.1)

pub Every-has : (p : ℕ → Bool) (xs : List ℕ) (a : ℕ) → Every p xs → has a xs ≡ true → p a ≡ true
Every-has p [] a h e = cc
Every-has p (x ∷ xs) a h e = ground (arith, Every-has p xs a h.1)

-- Changing a map away from the list changes nothing on it.
pub Every-update :
    (p : ℕ → Bool) (xs : List ℕ) (a : ℕ) (v : Bool)
    → has a xs ≡ false
    → Every p xs
    → Every (update p a v) xs
Every-update p [] a v n h = tt
Every-update p (x ∷ xs) a v n h = (ground arith, Every-update p xs a v (ground arith) h.1)

pub remove : ℕ → List ℕ → List ℕ
remove a [] = []
remove a (x ∷ xs) = if a == x then xs else x ∷ remove a xs

pub has-remove_le : (a b : ℕ) (xs : List ℕ) → has b xs ≡ false → has b (remove a xs) ≡ false
unfolding remove
has-remove_le a b [] h = refl
has-remove_le a b (x ∷ xs) h = ground (arith, has-remove_le a b xs)

pub has-remove_ne : (a b : ℕ) (xs : List ℕ) → (b == a) ≡ false → has b (remove a xs) ≡ has b xs
unfolding remove
has-remove_ne a b [] h = refl
has-remove_ne a b (x ∷ xs) h = ground (arith, has-remove_ne a b xs h)

pub has-remove_self : (a : ℕ) (xs : List ℕ) → Distinct xs → has a (remove a xs) ≡ false
unfolding remove
has-remove_self a [] d = refl
has-remove_self a (x ∷ xs) d = ground (arith, has-remove_self a xs d.1)

pub Distinct-remove : (a : ℕ) (xs : List ℕ) → Distinct xs → Distinct (remove a xs)
unfolding remove
Distinct-remove a [] d = tt
Distinct-remove a (x ∷ xs) d = ground (arith, Distinct-remove a xs d.1, has-remove_le a x xs d.0)

pub Every-remove : (p : ℕ → Bool) (a : ℕ) (xs : List ℕ) → Every p xs → Every p (remove a xs)
unfolding remove
Every-remove p a [] h = tt
Every-remove p a (x ∷ xs) h = ground (arith, Every-remove p a xs h.1)

pub length-remove : (a : ℕ) (xs : List ℕ) → has a xs ≡ true → length xs ≡ suc (length (remove a xs))
unfolding remove
length-remove a [] h = cc
length-remove a (x ∷ xs) h = ground (arith, length-remove a xs)

pub has_cases : (a x : ℕ) (xs : List ℕ) → has a (x ∷ xs) ≡ true → (a ≡ x) ⊎ (has a xs ≡ true)
has_cases a x xs h = ground arith

-- Removing an address from a list without repetition.
pub has-remove :
    (a b : ℕ) (xs : List ℕ) → Distinct xs → has b (remove a xs) ≡ (has b xs && not (b == a))
unfolding remove
has-remove a b [] d = refl
has-remove a b (x ∷ xs) d = ground (arith, has-remove a b xs d.1)

pub remove-head : (a : ℕ) (xs : List ℕ) → remove a (a ∷ xs) ≡ xs
unfolding remove
remove-head a xs = ground arith
