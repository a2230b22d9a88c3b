-- ===== src/Rtthread/Name/Text.antt =====
-- The text that `os_rt_name_generate` prints. `rt_snprintf` is an argument: it gets the size of the
-- buffer and the formatted text, and returns what it stores before the final zero byte.
use hazel_osal.Prelude.{
  ℕ, zero, suc, ◌+◌, ◌-◌, ◌*◌, ◌/◌, ◌%◌, ◌^◌, ◌<◌, ◌≡◌, refl, sym, ap, ◌∙◌, List, [], ◌∷◌, ◌++◌,
  ltb, leb, if◌then◌else◌, length, length-append, arith,
}
use hazel_osal.Rtthread.Name.{name_hash}

-- a digit of `%x`
unfoldable pub hex_digit : ℕ → ℕ
hex_digit n = if ltb n 10 then b'0' + n else b'a' + (n - 10)

-- The last `digits` digits of `value` in base 16, the highest one first: `%08x` for eight of them.
unfoldable pub hex : (digits value : ℕ) → List ℕ
hex zero value = []
hex (suc digits) value = hex digits (value / 16) ++ (hex_digit (value % 16) ∷ [])

-- The format by `RT_NAME_MAX`: "osal-%s-%08x", "o%08x" or "%08x".
unfoldable pub name_prefix : (name_max : ℕ) → (kind : List ℕ) → List ℕ
name_prefix name_max kind =
    if leb 20 name_max
    then b'o' ∷ b's' ∷ b'a' ∷ b'l' ∷ b'-' ∷ (kind ++ (b'-' ∷ []))
    else if leb 10 name_max
    then b'o' ∷ []
    else []

unfoldable pub name_text : (name_max : ℕ) → (kind : List ℕ) → (hash : ℕ) → List ℕ
unfolding name_prefix
name_text name_max kind hash = name_prefix name_max kind ++ hex 8 hash

-- `os_rt_name_generate`: the sequence number after it, and the name.
unfoldable pub name_generate :
    (snprintf : ℕ → List ℕ → List ℕ)
    → (name_max : ℕ) → (kind : List ℕ) → (sequence address tick : ℕ) → (salt : List ℕ) → ℕ × List ℕ
unfolding name_text
name_generate snprintf name_max kind sequence address tick salt = (
  (sequence + 1) % 2 ^ 32,
  snprintf name_max (name_text name_max kind (name_hash sequence address tick salt)),
)

abbrev pub take : ℕ → List ℕ → List ℕ
take zero xs = []
take (suc n) [] = []
take (suc n) (x ∷ xs) = x ∷ take n xs

-- It stores the text up to the size of the buffer, with room for the zero byte.
abbrev pub IsSnprintf : (ℕ → List ℕ → List ℕ) → Type 0
IsSnprintf snprintf =
    (size : ℕ) (text : List ℕ) → 0 < size → snprintf size text ≡ take (size - 1) text

hex_value : ℕ → ℕ
hex_value c = if leb b'a' c then c - b'a' + 10 else c - b'0'

unhex : ℕ → List ℕ → ℕ
unhex acc [] = acc
unhex acc (c ∷ cs) = unhex (acc * 16 + hex_value c) cs

unhex-append : (acc : ℕ) (xs ys : List ℕ) → unhex acc (xs ++ ys) ≡ unhex (unhex acc xs) ys
unfolding unhex
unhex-append acc [] ys = refl
unhex-append acc (x ∷ xs) ys = unhex-append (acc * 16 + hex_value x) xs ys

hex_value-hex_digit : (n : ℕ) → n < 16 → hex_value (hex_digit n) ≡ n
unfolding hex_value hex_digit
hex_value-hex_digit n h = ground arith

pub length-hex : (d v : ℕ) → length (hex d v) ≡ d
unfolding hex
length-hex zero v = refl
length-hex (suc d) v =
    omega (arith, length-hex d (v / 16), length-append (hex d (v / 16)) (hex_digit (v % 16) ∷ []))

-- `value / 16 ^ digits`
unfoldable pub high_digits : (digits value : ℕ) → ℕ
high_digits zero value = value
high_digits (suc digits) value = high_digits digits (value / 16)

-- The digits give the value back.
unhex-hex : (d v : ℕ) → high_digits d v ≡ 0 → unhex 0 (hex d v) ≡ v
unfolding hex high_digits unhex
unhex-hex zero v h = sym h
unhex-hex (suc d) v h =
    unhex-append 0 (hex d (v / 16)) (hex_digit (v % 16) ∷ [])
    ∙ ap (λ n. n * 16 + hex_value (hex_digit (v % 16))) (unhex-hex d (v / 16) h)
    ∙ omega (arith, hex_value-hex_digit (v % 16) (omega arith))

pub hex-injective :
    (d v w : ℕ) → high_digits d v ≡ 0 → high_digits d w ≡ 0 → hex d v ≡ hex d w → v ≡ w
hex-injective d v w p q e = sym (unhex-hex d v p) ∙ ap (unhex 0) e ∙ unhex-hex d w q
