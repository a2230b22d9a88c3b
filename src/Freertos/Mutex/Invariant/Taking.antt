-- ===== src/Freertos/Mutex/Invariant/Taking.antt =====
-- The invariant of mutex.c under the critical sections of `os_mutex_lock`.
use hazel_osal.Prelude.{
  ℕ, ◌+◌, ◌^◌, ◌<◌, ◌≡◌, ◌⊎◌, refl, sym, subst, inl, inr, true, false, not, Option, none, some, [],
  ◌∷◌, leb, ◌==◌, ◌&&◌, if◌then◌else◌, arith, Bool-cases, Option-cases,
}
use hazel_osal.Prelude.Ids.{has-append, Distinct-snoc}
use hazel_osal.Errno.{wait_forever}
use hazel_osal.Freertos.Objects.{Sys, is_at}
use hazel_osal.Freertos.Waitq.Order.{has-insert_priority, insert_priority-Distinct}
use hazel_osal.Freertos.Mutex.{acquire, lock_again, enqueue, lock_try}
use hazel_osal.Freertos.Mutex.Inherit.{update_pi_chain, pi_max_chain_depth}
use hazel_osal.Freertos.Mutex.Inherit.Kept.{update_pi_chain-Kept}
use hazel_osal.Freertos.Mutex.Deadlock.{next_owner, ends, Ends, would_deadlock, meets-Ends}
use hazel_osal.Freertos.Mutex.Invariant.{Inv, next-acyclic, Inv-Waits, Kept-Inv}

pub pi-Inv : (s : Sys) (o : Option ℕ) → Inv s → Inv (update_pi_chain s o)
pi-Inv s o v = Kept-Inv s (update_pi_chain s o) (update_pi_chain-Kept s o (Inv-Waits s v)) v

one : (f : ℕ → Option ℕ) (o : Option ℕ) (t : ℕ) → o ≡ some t → f t ≡ none → ends 1 f o ≡ true
unfolding ends
one f o t e l = rw (e, l, ends) refl

next-acquire :
    (s : Sys) (m curr u : ℕ)
    → next_owner (acquire s m curr) u
      ≡ (if is_at (s.threads u).waiting_mutex m then some curr else next_owner s u)
unfolding acquire
next-acquire s m curr u = ground arith

-- The thread that takes a mutex waits for none, so a chain that reaches it ends.
acquire-next :
    (s : Sys) (m curr : ℕ)
    → (s.threads curr).waiting_mutex ≡ none
    → (u : ℕ)
    → (next_owner (acquire s m curr) u ≡ next_owner s u)
      ⊎ Ends (next_owner (acquire s m curr)) (next_owner (acquire s m curr) u)
acquire-next s m curr free u = elim (Bool-cases (is_at (s.threads u).waiting_mutex m)) [
  | inl waits ↦ inr (1, taken waits)
  | inr other ↦ inl (ground (arith, other, next-acquire s m curr u))
]
  where
    last : next_owner (acquire s m curr) curr ≡ none
    last = ground (arith, free, next-acquire s m curr curr)

    taken :
        is_at (s.threads u).waiting_mutex m ≡ true
        → ends 1 (next_owner (acquire s m curr)) (next_owner (acquire s m curr) u) ≡ true
    taken w =
        one (next_owner (acquire s m curr)) (next_owner (acquire s m curr) u) curr
          (ground (arith, w, next-acquire s m curr u)) last

acquire-Inv :
    (s : Sys) (m curr : ℕ)
    → (s.mutexes m).initialized ≡ true
    → (s.mutexes m).owner ≡ none
    → (s.threads curr).wait_q ≡ none
    → Inv s
    → Inv (acquire s m curr)
unfolding acquire
acquire-Inv s m curr i o w v = record {
  queues = record {
    on_list = λ q t. ground (arith, v.queues.on_list q t);
    distinct = v.queues.distinct;
  };
  owned = λ m' t.
      ground (
        arith,
        o,
        v.owned m' t,
        v.owned m t,
        has-append m' (s.threads curr).owned_mutexes (m ∷ []),
      );
  owned_distinct = λ t. ground (
    arith,
    o,
    v.owned_distinct t,
    v.owned m t,
    Distinct-snoc (s.threads curr).owned_mutexes m (v.owned_distinct curr),
  );
  counted = λ m'. ground (arith, v.counted m');
  counted_lt = λ m'. ground (arith, v.counted_lt m');
  unused = λ m'. ground (arith, i, v.unused m');
  waiting = λ t. ground (arith, v.waiting t);
  acyclic =
      next-acyclic s (acquire s m curr) (acquire-next s m curr (ground (arith, w, v.waiting curr)))
        v.acyclic;
}

next-again : (s : Sys) (m u : ℕ) → next_owner (lock_again s m) u ≡ next_owner s u
unfolding lock_again
next-again s m u = ground arith

again-Inv :
    (s : Sys) (m curr : ℕ)
    → is_at (s.mutexes m).owner curr ≡ true
    → (s.mutexes m).lock_count + 1 < 2 ^ 32
    → Inv s
    → Inv (lock_again s m)
unfolding lock_again
again-Inv s m curr o c v = record {
  queues = record { on_list = v.queues.on_list; distinct = v.queues.distinct };
  owned = λ m' t. ground (arith, v.owned m' t);
  owned_distinct = v.owned_distinct;
  counted = λ m'. ground (arith, v.counted m');
  counted_lt = λ m'. ground (arith, v.counted_lt m');
  unused = λ m'. ground (arith, v.unused m');
  waiting = λ t. ground (arith, v.waiting t);
  acyclic = next-acyclic s (lock_again s m) (λ u. inl (next-again s m u)) v.acyclic;
}

next-enqueue :
    (s : Sys) (m curr u : ℕ)
    → next_owner (enqueue s m curr) u ≡ (if u == curr then (s.mutexes m).owner else next_owner s u)
unfolding enqueue
next-enqueue s m curr u = ground arith

-- The thread that is put on a queue gets a next one from which the search has reached the end.
enqueue-next :
    (s : Sys) (m curr : ℕ)
    → would_deadlock s curr m ≡ false
    → (u : ℕ)
    → (next_owner (enqueue s m curr) u ≡ next_owner s u)
      ⊎ Ends (next_owner (enqueue s m curr)) (next_owner (enqueue s m curr) u)
unfolding would_deadlock
enqueue-next s m curr d u = elim (Bool-cases (u == curr)) [
  | inl here ↦ inr (
      subst (Ends (next_owner (enqueue s m curr))) (sym (at here)) (
        meets-Ends s curr (next_owner (enqueue s m curr))
          (λ x o. ground (arith, o, next-enqueue s m curr x)) pi_max_chain_depth (s.mutexes m).owner
          d))
  | inr other ↦ inl (ground (arith, other, next-enqueue s m curr u))
]
  where
    at : (u == curr) ≡ true → next_owner (enqueue s m curr) u ≡ (s.mutexes m).owner
    at h = ground (arith, h, next-enqueue s m curr u)

enqueue-Inv :
    (s : Sys) (m curr : ℕ)
    → (s.mutexes m).initialized ≡ true
    → (s.threads curr).wait_q ≡ none
    → would_deadlock s curr m ≡ false
    → Inv s
    → Inv (enqueue s m curr)
unfolding enqueue
enqueue-Inv s m curr i w d v = record {
  queues = record {
    on_list = λ q t. ground (
      arith,
      v.queues.on_list q t,
      v.queues.on_list m t,
      has-insert_priority s.threads (s.waiters m) curr t,
    );
    distinct = λ q. ground (
      arith,
      v.queues.distinct q,
      v.queues.on_list m curr,
      insert_priority-Distinct s.threads (s.waiters m) curr,
    );
  };
  owned = λ m' t. ground (arith, v.owned m' t);
  owned_distinct = λ t. ground (arith, v.owned_distinct t);
  counted = v.counted;
  counted_lt = v.counted_lt;
  unused = v.unused;
  waiting = λ t. ground (arith, i, v.waiting t);
  acyclic = next-acyclic s (enqueue s m curr) (enqueue-next s m curr d) v.acyclic;
}

pub try-Inv :
    (s : Sys) (m curr timeout elapsed : ℕ)
    → (s.mutexes m).initialized ≡ true
    → (s.threads curr).wait_q ≡ none
    → (s.mutexes m).lock_count + 1 < 2 ^ 32
    → Inv s
    → Inv (lock_try s m curr timeout elapsed).1
unfolding lock_try
try-Inv s m curr timeout elapsed i w c v = elim (Option-cases (s.mutexes m).owner) [
  | inl free ↦ rw (free, lock_try) (acquire-Inv s m curr i free w v)
  | inr (o, e) ↦ elim (Bool-cases (o == curr)) [
    | inl own ↦ subst Inv (own_try e own) (again-Inv s m curr (rw e own) c v)
    | inr other ↦ elim (Bool-cases (timeout == 0)) [
      | inl now ↦ rw (e, other, now, lock_try) v
      | inr later ↦ elim (Bool-cases (would_deadlock s curr m)) [
        | inl dead ↦ rw (e, other, later, dead, lock_try) v
        | inr live ↦ elim (Bool-cases (not (timeout == wait_forever) && leb timeout elapsed)) [
          | inl late ↦ rw (e, other, later, live, late, lock_try) v
          | inr early ↦
              subst Inv (wait_try e other later live early)
                (pi-Inv (enqueue s m curr) (s.mutexes m).owner (enqueue-Inv s m curr i w live v))
        ]
      ]
    ]
  ]
]
  where
    own_try :
        {o : ℕ}
        → (s.mutexes m).owner ≡ some o
        → (o == curr) ≡ true
        → lock_again s m ≡ (lock_try s m curr timeout elapsed).1
    own_try e own = rw (e, own, lock_try) refl

    wait_try :
        {o : ℕ}
        → (s.mutexes m).owner ≡ some o
        → (o == curr) ≡ false
        → (timeout == 0) ≡ false
        → would_deadlock s curr m ≡ false
        → (not (timeout == wait_forever) && leb timeout elapsed) ≡ false
        → update_pi_chain (enqueue s m curr) (s.mutexes m).owner
          ≡ (lock_try s m curr timeout elapsed).1
    wait_try e other later live early = rw (e, other, later, live, early, lock_try) refl
