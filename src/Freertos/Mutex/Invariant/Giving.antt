-- ===== src/Freertos/Mutex/Invariant/Giving.antt =====
-- The invariant of mutex.c under `os_mutex_unlock`, `os_mutex_init` and `os_mutex_deinit`.
use hazel_osal.Prelude.{
  ℕ, ◌-◌, ◌≡◌, refl, inl, inr, Bool, true, false, not, ◌||◌, Option, none, some, List, [], ◌∷◌,
  ◌==◌, if◌then◌else◌, arith, Bool-cases,
}
use hazel_osal.Prelude.Ids.{Distinct, update, has-remove, Distinct-remove}
use hazel_osal.Freertos.Objects.{Sys, is_on, is_at}
use hazel_osal.Freertos.Waitq.{notify_thread}
use hazel_osal.Freertos.Mutex.{is_empty, init, deinit, wake_head, disown, release, unlock_locked}
use hazel_osal.Freertos.Mutex.Deadlock.{next_owner}
use hazel_osal.Freertos.Mutex.Invariant.{Inv, next-acyclic, cut-next}
use hazel_osal.Freertos.Mutex.Invariant.Taking.{pi-Inv}

next-disown :
    (s : Sys) (m curr u : ℕ)
    → next_owner (disown s m curr) u
      ≡ (if is_at (s.threads u).waiting_mutex m then none else next_owner s u)
unfolding disown
next-disown s m curr u = ground arith

disown-Inv :
    (s : Sys) (m curr : ℕ) → (s.mutexes m).owner ≡ some curr → Inv s → Inv (disown s m curr)
unfolding disown
disown-Inv s m curr o v = record {
  queues = record {
    on_list = λ q t. ground (arith, v.queues.on_list q t);
    distinct = v.queues.distinct;
  };
  owned = λ m' t. ground (
    arith,
    o,
    v.owned m' t,
    v.owned m t,
    has-remove m m' (s.threads curr).owned_mutexes (v.owned_distinct curr),
  );
  owned_distinct = λ t. ground (
    arith,
    v.owned_distinct t,
    Distinct-remove m (s.threads curr).owned_mutexes (v.owned_distinct curr),
  );
  counted = λ m'. ground (arith, v.counted m');
  counted_lt = λ m'. ground (arith, v.counted_lt m');
  unused = λ m'. ground (arith, v.unused m');
  waiting = λ t. ground (arith, v.waiting t);
  acyclic =
      next-acyclic s (disown s m curr)
        (λ u.
          cut-next (next_owner s) (next_owner (disown s m curr))
            (is_at (s.threads u).waiting_mutex m) u (next-disown s m curr u))
        v.acyclic;
}

next-wake :
    (s : Sys) (m t : ℕ) (rest : List ℕ) (u : ℕ)
    → next_owner (wake_head s m (t ∷ rest)) u ≡ (if u == t then none else next_owner s u)
unfolding wake_head notify_thread
next-wake s m t rest u = ground arith

wake-Inv : (s : Sys) (m : ℕ) (l : List ℕ) → s.waiters m ≡ l → Inv s → Inv (wake_head s m l)
unfolding wake_head notify_thread
wake-Inv s m [] e v = v
wake-Inv s m (t ∷ rest) e v =
    let d : Distinct (t ∷ rest) = rw e at (v.queues.distinct m) in
    record {
      queues = record {
        on_list = λ q u. ground (
          arith,
          v.queues.on_list q u,
          v.queues.on_list m t,
          v.queues.on_list m u,
          v.queues.on_list q t,
          e,
          d,
        );
        distinct = λ q. ground (arith, v.queues.distinct q, d);
      };
      owned = λ m' u. ground (arith, v.owned m' u);
      owned_distinct = λ u. ground (arith, v.owned_distinct u);
      counted = v.counted;
      counted_lt = v.counted_lt;
      unused = v.unused;
      waiting = λ u. ground (arith, v.waiting u);
      acyclic =
          next-acyclic s (wake_head s m (t ∷ rest))
            (λ u.
              cut-next (next_owner s) (next_owner (wake_head s m (t ∷ rest))) (u == t) u
                (next-wake s m t rest u))
            v.acyclic;
    }

release-Inv :
    (s : Sys) (m curr : ℕ) → (s.mutexes m).owner ≡ some curr → Inv s → Inv (release s m curr)
unfolding release disown
release-Inv s m curr o v =
    pi-Inv (wake_head (disown s m curr) m (s.waiters m)) (some curr)
      (wake-Inv (disown s m curr) m (s.waiters m) refl (disown-Inv s m curr o v))

-- The count goes down and stays above 0.
lower : Sys → ℕ → Sys
lower s m = record s {
  mutexes = update s.mutexes m (record (s.mutexes m) { lock_count = (s.mutexes m).lock_count - 1 });
}

next-lower : (s : Sys) (m u : ℕ) → next_owner (lower s m) u ≡ next_owner s u
unfolding lower
next-lower s m u = ground arith

lower-Inv :
    (s : Sys) (m : ℕ)
    → ((s.mutexes m).lock_count == 0) ≡ false
    → ((s.mutexes m).lock_count - 1 == 0) ≡ false
    → Inv s
    → Inv (lower s m)
unfolding lower
lower-Inv s m some_left more v = record {
  queues = record { on_list = v.queues.on_list; distinct = v.queues.distinct };
  owned = λ m' t. ground (arith, v.owned m' t);
  owned_distinct = v.owned_distinct;
  counted = λ m'. ground (arith, v.counted m');
  counted_lt = λ m'. ground (arith, v.counted_lt m');
  unused = λ m'. ground (arith, v.unused m');
  waiting = λ t. ground (arith, v.waiting t);
  acyclic = next-acyclic s (lower s m) (λ u. inl (next-lower s m u)) v.acyclic;
}

at_some : (o : Option ℕ) (t : ℕ) → is_at o t ≡ true → o ≡ some t
at_some none t e = cc
at_some (some x) t e = ground arith

pub unlock-Inv : (s : Sys) (m curr : ℕ) → Inv s → Inv (unlock_locked s m curr).1
unfolding unlock_locked lower
unlock-Inv s m curr v = elim (Bool-cases (is_at (s.mutexes m).owner curr)) [
  | inr foreign ↦ rw (foreign, unlock_locked) v
  | inl own ↦ elim (Bool-cases ((s.mutexes m).lock_count == 0)) [
    | inl zero_left ↦ rw (own, zero_left, unlock_locked) v
    | inr some_left ↦ elim (Bool-cases ((s.mutexes m).lock_count - 1 == 0)) [
      | inl last ↦
          rw (own, some_left, last, unlock_locked)
            (release-Inv s m curr (at_some (s.mutexes m).owner curr own) v)
      | inr more ↦ rw (own, some_left, more, unlock_locked) (lower-Inv s m some_left more v)
    ]
  ]
]

next-init :
    (s : Sys) (m u : ℕ) → (s.mutexes m).owner ≡ none → next_owner (init s m) u ≡ next_owner s u
unfolding init
next-init s m u o = ground arith

pub init-Inv_mutex :
    (s : Sys) (m : ℕ)
    → (s.mutexes m).initialized ≡ false
    → s.waiters m ≡ []
    → Inv s
    → Inv (init s m)
unfolding init
init-Inv_mutex s m i e v = record {
  queues = record {
    on_list = λ q t. ground (arith, v.queues.on_list q t, e);
    distinct = λ q. ground (arith, v.queues.distinct q);
  };
  owned = λ m' t. ground (arith, v.owned m' t, v.unused m i);
  owned_distinct = v.owned_distinct;
  counted = λ m'. ground (arith, v.counted m');
  counted_lt = λ m'. ground (arith, v.counted_lt m');
  unused = λ m'. ground (arith, v.unused m');
  waiting = λ t. ground (arith, v.waiting t, v.queues.on_list m t, e);
  acyclic = next-acyclic s (init s m) (λ u. inl (next-init s m u (v.unused m i))) v.acyclic;
}

-- A mutex that `os_mutex_deinit` gives back.
dropped : Sys → ℕ → Sys
dropped s m = record s {
  mutexes = update s.mutexes m (record { owner = none; lock_count = 0; initialized = false });
}

next-dropped :
    (s : Sys) (m u : ℕ) → (s.mutexes m).owner ≡ none → next_owner (dropped s m) u ≡ next_owner s u
unfolding dropped
next-dropped s m u o = ground arith

dropped-Inv :
    (s : Sys) (m : ℕ) → (s.mutexes m).owner ≡ none → s.waiters m ≡ [] → Inv s → Inv (dropped s m)
unfolding dropped
dropped-Inv s m o e v = record {
  queues = record { on_list = v.queues.on_list; distinct = v.queues.distinct };
  owned = λ m' t. ground (arith, v.owned m' t, o);
  owned_distinct = v.owned_distinct;
  counted = λ m'. ground (arith, v.counted m');
  counted_lt = λ m'. ground (arith, v.counted_lt m');
  unused = λ m'. ground (arith, v.unused m');
  waiting = λ t. ground (arith, v.waiting t, v.queues.on_list m t, e);
  acyclic = next-acyclic s (dropped s m) (λ u. inl (next-dropped s m u o)) v.acyclic;
}

empty_nil : (l : List ℕ) → is_empty l ≡ true → l ≡ []
empty_nil [] e = refl
empty_nil (x ∷ xs) e = cc

owner_cases : (o : Option ℕ) → is_on o ≡ false → o ≡ none
owner_cases none e = refl
owner_cases (some t) e = cc

pub deinit-Inv : (isr : Bool) (s : Sys) (m : ℕ) → Inv s → Inv (deinit isr s m).1
unfolding deinit dropped
deinit-Inv isr s m v = elim (Bool-cases (not (s.mutexes m).initialized)) [
  | inl bare ↦ rw (bare, deinit) v
  | inr made ↦ elim (Bool-cases isr) [
    | inl in_isr ↦ rw (made, in_isr, deinit) v
    | inr task ↦ elim (Bool-cases (is_on (s.mutexes m).owner || not (is_empty (s.waiters m)))) [
      | inl busy ↦ rw (made, task, busy, deinit) v
      | inr idle ↦
          rw (made, task, idle, deinit)
            (dropped-Inv s m (owner_cases (s.mutexes m).owner (ground (arith, idle)))
              (empty_nil (s.waiters m) (ground (arith, idle))) v)
    ]
  ]
]
