-- ===== src/Freertos/Mutex/Inherit/Kept.antt =====
-- What raising priorities along a chain of owners keeps.
use hazel_osal.Prelude.{
  ℕ, zero, suc, ◌≡◌, refl, ap, sym, ◌∙◌, inl, inr, true, false, Option, none, some, List, [], ◌∷◌,
  ◌==◌, arith, Bool-cases, Option-cases,
}
use hazel_osal.Prelude.Ids.{has, Distinct, remove, has-remove, Distinct-remove}
use hazel_osal.Prelude.Int.{ℤ, pos, negsuc}
use hazel_osal.Freertos.Objects.{Thread, Sys}
use hazel_osal.Freertos.Waitq.Order.{has-insert_priority, insert_priority-Distinct}
use hazel_osal.Freertos.Mutex.Inherit.{
  compute_priority, set_priority, requeue, update_chain, update_pi_chain,
}

-- Each thread that waits for a mutex is on its queue, and no queue has a thread twice.
pub record Waits (s : Sys) : Type 0 where
  pub waiting_has : (t m : ℕ) → (s.threads t).waiting_mutex ≡ some m → has t (s.waiters m) ≡ true
  pub distinct : (q : ℕ) → Distinct (s.waiters q)

-- Only priorities and the order of the queues differ.
pub record Kept (s s' : Sys) : Type 0 where
  pub same_mutexes : (m : ℕ) → s'.mutexes m ≡ s.mutexes m
  pub same_thread :
      (t : ℕ) → record (s'.threads t) { priority = (s.threads t).priority } ≡ s.threads t
  pub same_waiters : (q t : ℕ) → has t (s'.waiters q) ≡ has t (s.waiters q)
  pub still_distinct : (q : ℕ) → Distinct (s'.waiters q)

pub Kept-refl : (s : Sys) → Waits s → Kept s s
Kept-refl s v = record {
  same_mutexes = λ m. refl;
  same_thread = λ t. refl;
  same_waiters = λ q t. refl;
  still_distinct = v.distinct;
}

pub Kept-Waits : (s s' : Sys) → Kept s s' → Waits s → Waits s'
Kept-Waits s s' k v = record {
  waiting_has = λ t m e.
      k.same_waiters m t
      ∙ v.waiting_has t m (sym (ap (λ u. u.waiting_mutex) (k.same_thread t)) ∙ e);
  distinct = k.still_distinct;
}

pub Kept-trans : (s s' s'' : Sys) → Kept s s' → Kept s' s'' → Kept s s''
Kept-trans s s' s'' k l = record {
  same_mutexes = λ m. l.same_mutexes m ∙ k.same_mutexes m;
  same_thread = λ t.
      ap {A = Thread} (λ u. record u { priority = (s.threads t).priority }) (l.same_thread t)
      ∙ k.same_thread t;
  same_waiters = λ q t. l.same_waiters q t ∙ k.same_waiters q t;
  still_distinct = l.still_distinct;
}

set_priority-Kept : (s : Sys) (t : ℕ) (p : ℤ) → Waits s → Kept s (set_priority s t p)
unfolding set_priority
set_priority-Kept s t (negsuc n) v = Kept-refl s v
set_priority-Kept s t (pos p) v = elim (Bool-cases ((s.threads t).priority == p)) [
  | inl same ↦ rw (same, set_priority) (Kept-refl s v)
  | inr other ↦
      rw (other, set_priority)
        (record {
          same_mutexes = λ m. refl;
          same_thread = λ u. ground arith;
          same_waiters = λ q u. refl;
          still_distinct = v.distinct;
        })
]

pub requeue-Kept :
    (s : Sys) (t m : ℕ) → has t (s.waiters m) ≡ true → Waits s → Kept s (requeue s t m)
unfolding requeue
requeue-Kept s t m h v =
    let without = remove t (s.waiters m) in
    let gone : has t without ≡ false =
      ground (arith, has-remove t t (s.waiters m) (v.distinct m)) in
    record {
      same_mutexes = λ m. refl;
      same_thread = λ u. refl;
      same_waiters = λ q u. ground (
        arith,
        has-insert_priority s.threads without t u,
        has-remove t u (s.waiters m) (v.distinct m),
        h,
      );
      still_distinct = λ q. ground (
        arith,
        v.distinct q,
        insert_priority-Distinct s.threads without t
            (Distinct-remove t (s.waiters m) (v.distinct m)) gone,
      );
    }

set_priority-mutexes : (s : Sys) (t : ℕ) (p : ℤ) → (set_priority s t p).mutexes ≡ s.mutexes
unfolding set_priority
set_priority-mutexes s t (negsuc n) = refl
set_priority-mutexes s t (pos p) = ground arith

pub update_chain-Kept :
    (d : ℕ) (visited : List ℕ) (s : Sys) (o : Option ℕ)
    → Waits s
    → Kept s (update_chain d visited s o)
unfolding update_chain
update_chain-Kept zero visited s o v = Kept-refl s v
update_chain-Kept (suc d) visited s none v = Kept-refl s v
update_chain-Kept (suc d) visited s (some t) v =
    let s' = set_priority s t (compute_priority s t) in
    let k = set_priority-Kept s t (compute_priority s t) v in
    elim (Bool-cases (has t visited)) [
      | inl seen ↦ rw (seen, update_chain) (Kept-refl s v)
      | inr new ↦ elim (Option-cases (s.threads t).waiting_mutex) [
        | inl last ↦ rw (new, last, update_chain) k
        | inr (m, e) ↦
            let v' = Kept-Waits s s' k v in
            let there = k.same_waiters m t ∙ v.waiting_has t m e in
            let r = requeue-Kept s' t m there v' in
            let step = Kept-trans s s' (requeue s' t m) k r in
            rw (new, e, update_chain)
              (Kept-trans s (requeue s' t m) _ step (
                update_chain-Kept d (t ∷ visited) (requeue s' t m) (s.mutexes m).owner
                  (Kept-Waits s (requeue s' t m) step v)))
      ]
    ]

pub update_pi_chain-Kept : (s : Sys) (o : Option ℕ) → Waits s → Kept s (update_pi_chain s o)
unfolding update_pi_chain
update_pi_chain-Kept s o v = update_chain-Kept 16 [] s o v
