-- ===== src/Freertos/Waitq/Order.antt =====
-- The order of a wait queue: by priority, and first come first served within a priority.
use hazel_osal.Prelude.{
  ℕ, ◌≡◌, refl, inl, inr, Bool, true, false, ◌||◌, List, [], ◌∷◌, ltb, leb, ◌==◌, if◌then◌else◌,
  arith, Bool-cases,
}
use hazel_osal.Prelude.Ids.{has, Distinct, Every}
use hazel_osal.Freertos.Objects.{Thread}
use hazel_osal.Freertos.Waitq.{insert_priority}

-- No thread stands before one of a higher priority.
abbrev pub IsOrdered : (ℕ → Thread) → List ℕ → Type 0
IsOrdered threads [] = Unit {0}
IsOrdered threads (t ∷ rest) =
    Every (λ u. leb (threads u).priority (threads t).priority) rest × IsOrdered threads rest

-- the threads of one priority, in their order
abbrev pub of_priority : (ℕ → Thread) → (p : ℕ) → List ℕ → List ℕ
of_priority threads p [] = []
of_priority threads p (t ∷ rest) =
    if (threads t).priority == p then t ∷ of_priority threads p rest else of_priority threads p rest

Every-insert :
    (threads : ℕ → Thread) (p : ℕ → Bool) (l : List ℕ) (t : ℕ)
    → Every p l
    → p t ≡ true
    → Every p (insert_priority threads l t)
unfolding insert_priority
Every-insert threads p [] t e h = (h, tt)
Every-insert threads p (x ∷ l) t e h = ground (arith, Every-insert threads p l t e.1 h)

Every-weaken :
    (threads : ℕ → Thread) (l : List ℕ) (a b : ℕ)
    → leb a b ≡ true
    → Every (λ u. leb (threads u).priority a) l
    → Every (λ u. leb (threads u).priority b) l
Every-weaken threads [] a b h e = tt
Every-weaken threads (x ∷ l) a b h e = (ground (arith, e.0), Every-weaken threads l a b h e.1)

-- os_waitq_insert_priority_locked keeps a list on which no thread stands before one of a higher
-- priority.
pub insert_priority-IsOrdered :
    (threads : ℕ → Thread) (l : List ℕ) (t : ℕ)
    → IsOrdered threads l
    → IsOrdered threads (insert_priority threads l t)
unfolding insert_priority
insert_priority-IsOrdered threads [] t o = (tt, tt)
insert_priority-IsOrdered threads (x ∷ l) t o =
    elim (Bool-cases (ltb (threads x).priority (threads t).priority)) [
      | inl higher ↦ rw higher (
        (
          ground arith,
          Every-weaken threads l (threads x).priority (threads t).priority (ground arith) o.0,
        ),
        o,
      )
      | inr lower ↦ rw lower (
        Every-insert threads (λ u. leb (threads u).priority (threads x).priority) l t o.0
            (ground arith),
        insert_priority-IsOrdered threads l t o.1,
      )
    ]

pub has-insert_priority :
    (threads : ℕ → Thread) (l : List ℕ) (t a : ℕ)
    → has a (insert_priority threads l t) ≡ (has a l || (a == t))
unfolding insert_priority
has-insert_priority threads [] t a = ground arith
has-insert_priority threads (x ∷ l) t a = ground (arith, has-insert_priority threads l t a)

pub insert_priority-Distinct :
    (threads : ℕ → Thread) (l : List ℕ) (t : ℕ)
    → Distinct l
    → has t l ≡ false
    → Distinct (insert_priority threads l t)
unfolding insert_priority
insert_priority-Distinct threads [] t d h = (refl, tt)
insert_priority-Distinct threads (x ∷ l) t d h =
    ground (arith, insert_priority-Distinct threads l t d.1, has-insert_priority threads l t x)
