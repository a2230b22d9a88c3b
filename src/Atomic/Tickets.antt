-- ===== src/Atomic/Tickets.antt =====
-- A counter that several threads take tickets from by atomic_inc.
use hazel_osal.Prelude.{
  ℕ, zero, suc, ◌+◌, ◌-◌, ◌%◌, ◌^◌, ◌≤◌, ◌<◌, ◌≡◌, ap, ◌∙◌, true, false, List, [], ◌∷◌, ltb, ◌==◌,
  if◌then◌else◌, arith, inl, inr, Bool-cases,
}
use hazel_osal.Prelude.Ids.{has, Distinct, has_cases}
use hazel_osal.Atomic.{add, inc}
use native.Mathlib.Nat.{mod-eq_of_lt, mod-eq-sub-mod}

-- what a number of calls return, one after the other
abbrev pub tickets : (bits calls target : ℕ) → List ℕ
tickets bits zero target = []
tickets bits (suc calls) target = (inc bits target).0 ∷ tickets bits calls (inc bits target).1

next_lem : (bits v : ℕ) → v < 2 ^ bits → (inc bits v).1 ≡ (if v + 1 == 2 ^ bits then 0 else v + 1)
unfolding inc add
next_lem bits v lt = elim (Bool-cases (v + 1 == 2 ^ bits)) [
  | inl last ↦
      let e : v + 1 ≡ 2 ^ bits = ground (arith, last) in
      let wraps : (v + 1) % 2 ^ bits ≡ (v + 1 - 2 ^ bits) % 2 ^ bits =
        mod-eq-sub-mod (omega (arith, e)) in
      let none_left : v + 1 - 2 ^ bits ≡ 0 = omega (arith, e) in
      let rest : 0 % 2 ^ bits ≡ 0 = mod-eq_of_lt (omega (arith, lt)) in
      rw last (wraps ∙ ap (λ x. x % 2 ^ bits) none_left ∙ rest)
  | inr more ↦ rw more (mod-eq_of_lt (ground (arith, lt, more)))
]

-- how far a value is behind another one, counted upwards
abbrev ahead : (size v a : ℕ) → ℕ
ahead size v a = if ltb a v then a + size - v else a - v

next_lt : (bits v : ℕ) → v < 2 ^ bits → (inc bits v).1 < 2 ^ bits
next_lt bits v lt = ground (arith, next_lem bits v lt, lt)

nearer :
    (size k v v' a : ℕ)
    → v < size
    → a < size
    → v' ≡ (if v + 1 == size then 0 else v + 1)
    → suc k ≤ size
    → ahead size v' a < k
    → ahead size v a < suc k
nearer size k v v' a lt al e le h = ground (arith, e, le, h, lt, al)

tickets-ahead :
    (bits k v a : ℕ)
    → v < 2 ^ bits
    → has a (tickets bits k v) ≡ true
    → k ≤ 2 ^ bits
    → (a < 2 ^ bits) × (ahead (2 ^ bits) v a < k)
unfolding inc add
tickets-ahead bits zero v a lt h le = cc
tickets-ahead bits (suc k) v a lt h le =
    let v' = (inc bits v).1 in
    let rest = tickets bits k v' in
    let step = next_lem bits v lt in
    elim (has_cases a v rest h) [
      | inl e ↦ (ground (arith, e, lt), ground (arith, e, lt))
      | inr later ↦
          let ih = tickets-ahead bits k v' a (next_lt bits v lt) later (omega (arith, le)) in
          (ih.0, nearer (2 ^ bits) k v v' a lt ih.0 step le ih.1)
    ]

far :
    (size k v v' : ℕ)
    → v < size
    → v' ≡ (if v + 1 == size then 0 else v + 1)
    → suc k ≤ size
    → ahead size v' v < k
    → ⊥
far size k v v' lt e le h = ground (arith, e, le, h, lt)

-- As many calls of atomic_inc as the counter has values return different values.
pub tickets-Distinct :
    (bits calls target : ℕ)
    → target < 2 ^ bits
    → calls ≤ 2 ^ bits
    → Distinct (tickets bits calls target)
unfolding inc add
tickets-Distinct bits zero v lt le = tt
tickets-Distinct bits (suc k) v lt le =
    let v' = (inc bits v).1 in
    (apart, tickets-Distinct bits k v' (next_lt bits v lt) (omega (arith, le)))
  where
    apart : has v (tickets bits k (inc bits v).1) ≡ false
    apart = elim (Bool-cases (has v (tickets bits k (inc bits v).1))) [
      | inr fresh ↦ fresh
      | inl again ↦ absurd (
          far (2 ^ bits) k v (inc bits v).1 lt (next_lem bits v lt) le
            (tickets-ahead bits k (inc bits v).1 v (next_lt bits v lt) again (omega (arith, le))).1)
    ]
