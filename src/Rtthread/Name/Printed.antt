-- ===== src/Rtthread/Name/Printed.antt =====
-- What the printed name of an object tells of its hash.
use hazel_osal.Prelude.{
  ℕ, zero, suc, ◌+◌, ◌-◌, ◌/◌, ◌%◌, ◌^◌, ◌≤◌, ◌<◌, ◌≡◌, refl, sym, ap, ◌∙◌, List, [], ◌∷◌, ◌++◌,
  length, length-append, arith, ◌↔◌,
}
use hazel_osal.Rtthread.Name.{name_hash}
use hazel_osal.Rtthread.Name.Unique.{AreBytes, name_hash-injective, name_hash-lt}
use hazel_osal.Rtthread.Name.Text.{
  hex, hex_digit, name_prefix, name_text, name_generate, take, IsSnprintf, high_digits,
  hex-injective, length-hex,
}

take-all : (n : ℕ) (xs : List ℕ) → length xs ≤ n → take n xs ≡ xs
take-all zero [] h = refl
take-all zero (x ∷ xs) h = absurd (omega arith)
take-all (suc n) [] h = refl
take-all (suc n) (x ∷ xs) h = ap (λ l. x ∷ l) (take-all n xs (omega arith))

take-append : (n : ℕ) (xs ys : List ℕ) → n ≤ length xs → take n (xs ++ ys) ≡ take n xs
take-append zero xs ys h = refl
take-append (suc n) [] ys h = absurd (omega arith)
take-append (suc n) (x ∷ xs) ys h = ap (λ l. x ∷ l) (take-append n xs ys (omega arith))

append_cancel : (xs : List ℕ) {ys zs : List ℕ} → xs ++ ys ≡ xs ++ zs → ys ≡ zs
append_cancel [] e = e
append_cancel (x ∷ xs) e = append_cancel xs (ground (arith, e))

-- The first digits are those of the number without its last ones.
take-hex : (j k d v : ℕ) → k + j ≡ d → take k (hex d v) ≡ hex k (high_digits j v)
unfolding hex high_digits
take-hex zero k d v e =
    let e' : k ≡ d = omega arith in rw e' (take-all d (hex d v) (omega (arith, length-hex d v)))
take-hex (suc j) k zero v e = absurd (omega arith)
take-hex (suc j) k (suc d) v e =
    take-append k (hex d (v / 16)) (hex_digit (v % 16) ∷ []) (omega (arith, length-hex d (v / 16)))
    ∙ take-hex j k d (v / 16) (omega arith)

high_digits-add : (b a v : ℕ) → high_digits a (high_digits b v) ≡ high_digits (b + a) v
unfolding high_digits
high_digits-add zero a v = let e : 0 + a ≡ a = omega arith in rw e refl
high_digits-add (suc b) a v =
    let e : suc b + a ≡ suc (b + a) = omega arith in rw e (high_digits-add b a (v / 16))

word-high_digits : (v : ℕ) → v < 2 ^ 32 → high_digits 8 v ≡ 0
unfolding high_digits
word-high_digits v h = omega arith

name_prefix-fits :
    (name_max : ℕ) (kind : List ℕ)
    → 9 ≤ name_max
    → length kind ≤ 5
    → length (name_prefix name_max kind) + 9 ≤ name_max
unfolding name_prefix
name_prefix-fits name_max kind m k = ground (arith, length-append kind (b'-' ∷ []))

-- The whole text is stored in a buffer for at least nine characters.
name_text-fits :
    (name_max : ℕ) (kind : List ℕ) (v : ℕ)
    → 9 ≤ name_max
    → length kind ≤ 5
    → take (name_max - 1) (name_text name_max kind v) ≡ name_prefix name_max kind ++ hex 8 v
unfolding name_text
name_text-fits name_max kind v m k =
    take-all (name_max - 1) (name_prefix name_max kind ++ hex 8 v) (
      omega (
        arith,
        name_prefix-fits name_max kind m k,
        length-append (name_prefix name_max kind) (hex 8 v),
        length-hex 8 v,
      ))

short-prefix : (name_max : ℕ) (kind : List ℕ) → name_max ≤ 9 → name_prefix name_max kind ≡ []
unfolding name_prefix
short-prefix name_max kind h = ground arith

module _ {snprintf : ℕ → List ℕ → List ℕ} (law : IsSnprintf snprintf) where
  -- If os_rt_name_generate makes the same name for two objects of the same kind, address, tick and
  -- salt, where RT_NAME_MAX is at least 9, the kind has at most five characters, the address fits
  -- in 64 bits, the tick in 32 and each character in a byte, then the sequence numbers are the
  -- same modulo 2^32.
  pub name_generate-distinct :
      (name_max : ℕ) (kind : List ℕ) (n m address tick : ℕ) (salt : List ℕ)
      → 9 ≤ name_max
      → length kind ≤ 5
      → address < 2 ^ 64
      → tick < 2 ^ 32
      → AreBytes salt
      → (name_generate snprintf name_max kind n address tick salt).1
        ≡ (name_generate snprintf name_max kind m address tick salt).1
      → n % 2 ^ 32 ≡ m % 2 ^ 32
  unfolding name_generate
  name_generate-distinct name_max kind n m address tick salt mx k al tl b e =
      let text = λ (h : ℕ). name_text name_max kind h in
      let h = name_hash n address tick salt in
      let h' = name_hash m address tick salt in
      let stored =
        sym (name_text-fits name_max kind h mx k)
        ∙ sym (law name_max (text h) (omega arith))
        ∙ e
        ∙ law name_max (text h') (omega arith)
        ∙ name_text-fits name_max kind h' mx k in
      name_hash-injective n m address tick salt al tl b (
        hex-injective 8 h h' (word-high_digits h (name_hash-lt n address tick salt al tl))
          (word-high_digits h' (name_hash-lt m address tick salt al tl))
          (append_cancel (name_prefix name_max kind) stored))

  short-stored :
      (name_max : ℕ) (kind : List ℕ) (v : ℕ)
      → 0 < name_max
      → name_max ≤ 9
      → snprintf name_max (name_text name_max kind v)
        ≡ hex (name_max - 1) (high_digits (9 - name_max) v)
  unfolding name_text
  short-stored name_max kind v p q =
      law name_max (name_text name_max kind v) p
      ∙ ap (λ l. take (name_max - 1) (l ++ hex 8 v)) (short-prefix name_max kind q)
      ∙ (take-hex (9 - name_max) (name_max - 1) 8 v (omega arith))

  short-clear :
      (name_max v : ℕ)
      → 0 < name_max
      → name_max ≤ 9
      → v < 2 ^ 32
      → high_digits (name_max - 1) (high_digits (9 - name_max) v) ≡ 0
  short-clear name_max v p q lt =
      let e : 9 - name_max + (name_max - 1) ≡ 8 = omega arith in
      high_digits-add (9 - name_max) (name_max - 1) v
      ∙ ap (λ d. high_digits d v) e
      ∙ word-high_digits v lt

  -- Where RT_NAME_MAX is at most 9, the names of two objects are the same exactly if their hashes
  -- are without the last 9 - RT_NAME_MAX digits in base 16; the addresses fit in 64 bits, the
  -- ticks in 32.
  pub name_generate-short :
      (name_max : ℕ) (kind kind' : List ℕ) (n n' address address' tick tick' : ℕ)
      (salt salt' : List ℕ)
      → 0 < name_max
      → name_max ≤ 9
      → (address < 2 ^ 64) × (address' < 2 ^ 64)
      → (tick < 2 ^ 32) × (tick' < 2 ^ 32)
      → ((name_generate snprintf name_max kind n address tick salt).1
          ≡ (name_generate snprintf name_max kind' n' address' tick' salt').1)
        ↔ (high_digits (9 - name_max) (name_hash n address tick salt)
            ≡ high_digits (9 - name_max) (name_hash n' address' tick' salt'))
  unfolding name_generate
  name_generate-short name_max kind kind' n n' address address' tick tick' salt salt' p q (al, al')
        (tl, tl') =
      let v = name_hash n address tick salt in
      let w = name_hash n' address' tick' salt' in
      let a = short-stored name_max kind v p q in
      let b = short-stored name_max kind' w p q in
      (
        λ e.
            hex-injective (name_max - 1) _ _
              (short-clear name_max v p q (name_hash-lt n address tick salt al tl))
              (short-clear name_max w p q (name_hash-lt n' address' tick' salt' al' tl'))
              (sym a ∙ e ∙ b),
        λ e. a ∙ ap (hex (name_max - 1)) e ∙ sym b,
      )
