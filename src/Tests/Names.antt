-- ===== src/Tests/Names.antt =====
-- Names of RT-Thread objects in a buffer for 24 characters, and in one for 8.
use hazel_osal.Prelude.{ℕ, ◌+◌, ◌-◌, ◌%◌, ◌^◌, ◌≡◌, refl, [], ◌∷◌, List, arith, ◌↔◌}
use hazel_osal.Rtthread.Name.{name_hash}
use hazel_osal.Rtthread.Name.Text.{take, name_generate, high_digits, hex, hex_digit}
use hazel_osal.Rtthread.Name.Printed.{name_generate-distinct, name_generate-short}

abbrev print : ℕ → List ℕ → List ℕ
print size text = take (size - 1) text

-- The name of a semaphore.
abbrev sem_name : ℕ → ℕ → List ℕ
sem_name name_max n =
    (name_generate print name_max (b's' ∷ b'e' ∷ b'm' ∷ []) n 0x2000_1234 55 (b'h' ∷ b'i' ∷ [])).1

wraps : sem_name 24 7 ≡ sem_name 24 (7 + 2 ^ 32)
unfolding name_generate name_hash
wraps = refl

printed : hex 8 0xdead_beef ≡ b'd' ∷ b'e' ∷ b'a' ∷ b'd' ∷ b'b' ∷ b'e' ∷ b'e' ∷ b'f' ∷ []
unfolding hex hex_digit
printed = refl

name_generate-distinct_example : ◌≡◌ {A = ℕ} (7 % 2 ^ 32) ((7 + 2 ^ 32) % 2 ^ 32)
name_generate-distinct_example =
    name_generate-distinct {snprintf = print} (λ size text h. refl) 24 (b's' ∷ b'e' ∷ b'm' ∷ []) 7
      (7 + 2 ^ 32) 0x2000_1234 55 (b'h' ∷ b'i' ∷ []) (omega arith) (omega arith) (omega arith)
      (omega arith) (omega arith) wraps

name_generate-short_example :
    ((name_generate print 8 [] 1 0x2000_1234 55 []).1
      ≡ (name_generate print 8 [] 2 0x2000_5678 60 []).1)
    ↔ (high_digits 1 (name_hash 1 0x2000_1234 55 [])
        ≡ high_digits 1 (name_hash 2 0x2000_5678 60 []))
name_generate-short_example =
    name_generate-short {snprintf = print} (λ size text h. refl) 8 [] [] 1 2 0x2000_1234 0x2000_5678
      55 60 [] [] (omega arith) (omega arith) (omega arith) (omega arith)
