-- ===== src/Msgq/Concurrent.antt =====
-- message_queue.c used by any number of threads and interrupt handlers at once. A call of
-- `os_msgq_put` or `os_msgq_get` is three steps: the semaphore that it takes, its critical
-- section, and the semaphore that it gives. Steps of different calls come in any order.
pub mod Delivery
use hazel_osal.Prelude.{
  ℕ, zero, suc, ◌+◌, ◌*◌, ◌^◌, ◌≤◌, ◌<◌, ◌≡◌, refl, ap, sym, ◌∙◌, inl, inr, Bool, true, false,
  Option, none, some, List, [], ◌∷◌, ◌++◌, length, length-append, arith, if◌then◌else◌, Bool-cases,
}
use mathlib.Core.List.{append_assoc}
use hazel_osal.Errno.{Result, ok, err, is_zero}
use hazel_osal.Sem.{SemOps, IsSemaphore, Holds}
use hazel_osal.Sem.Outcomes.{Outcome, took, missed, take-Outcome, give-Holds}
use hazel_osal.Msgq.{Msgq, init, put_take, put_copy, put_give, get_take, get_copy, get_give}
use hazel_osal.Msgq.Ring.{IsRing, contents, put_copy-IsRing, get_copy-IsRing}

-- A queue and the calls that are under way: the messages of the puts that hold a space, the puts
-- that have copied but not given, the gets that hold an item, and the gets that have copied but
-- not given. `sent` and `received` record what the critical sections have copied so far.
pub record Config (Sem : Type 0) : Type 0 where
  pub queue : Msgq Sem
  pub putting : List (List ℕ)
  pub copied : ℕ
  pub getting : ℕ
  pub drained : ℕ
  pub sent : List (List ℕ)
  pub received : List (List ℕ)

module _ {Sem : Type 0} where
  -- A put whose take succeeds goes on with its message; one whose take fails returns.
  pub put_entered : Config Sem → List ℕ → Result × Msgq Sem → Config Sem
  put_entered c message (r, m) =
      if is_zero r
      then record c { queue = m; putting = message ∷ c.putting }
      else record c { queue = m }

  pub get_entered : Config Sem → Result × Msgq Sem → Config Sem
  get_entered c (r, m) =
      if is_zero r then record c { queue = m; getting = c.getting + 1 } else record c { queue = m }

module _ {Sem : Type 0} (o : SemOps Sem) (bound : ℕ) where
  pub data Step (c : Config Sem) : Config Sem → Type 0 where
    put_enters :
        (isr : Bool) (message : List ℕ) (t : ℕ)
        → length message ≡ c.queue.message_size
        → (o.count c.queue.spaces ≡ 0 → t < bound)
        → Step c (put_entered c message (put_take o isr c.queue t))
    put_copies :
        (before : List (List ℕ)) (message : List ℕ) (after : List (List ℕ))
        → c.putting ≡ before ++ (message ∷ after)
        → Step c (record c {
          queue = put_copy c.queue message;
          putting = before ++ after;
          copied = c.copied + 1;
          sent = c.sent ++ (message ∷ []);
        })
    put_gives :
        (isr : Bool) (n : ℕ)
        → c.copied ≡ suc n
        → Step c (record c { queue = put_give o isr c.queue; copied = n })
    get_enters :
        (isr : Bool) (t : ℕ)
        → (o.count c.queue.items ≡ 0 → t < bound)
        → Step c (get_entered c (get_take o isr c.queue t))
    get_copies :
        (n : ℕ)
        → c.getting ≡ suc n
        → Step c (record c {
          queue = (get_copy c.queue).1;
          getting = n;
          drained = c.drained + 1;
          received = c.received ++ ((get_copy c.queue).0 ∷ []);
        })
    get_gives :
        (isr : Bool) (n : ℕ)
        → c.drained ≡ suc n
        → Step c (record c { queue = get_give o isr c.queue; drained = n })

  pub data Reach (c : Config Sem) : Config Sem → Type 0 where
    here : Reach c c
    next : {d e : Config Sem} → Reach c d → Step d e → Reach c e

abbrev pub Sized : ℕ → List (List ℕ) → Type 0
Sized n [] = Unit {0}
Sized n (m ∷ ms) = (length m ≡ n) × Sized n ms

Sized-remove :
    (n : ℕ) (before : List (List ℕ)) (m : List ℕ) (after : List (List ℕ))
    → Sized n (before ++ (m ∷ after))
    → (length m ≡ n) × Sized n (before ++ after)
Sized-remove n [] m after h = h
Sized-remove n (b ∷ before) m after h =
    let (e, s) = Sized-remove n before m after h.1 in (e, (h.0, s))

module _ {Sem : Type 0} (o : SemOps Sem) where
  -- Each token stands for a message in the ring or a free slot, but for those of the calls that
  -- are under way.
  pub record Inv (c : Config Sem) : Type 0 where
    pub ring : IsRing c.queue
    pub sized : Sized c.queue.message_size c.putting
    pub items_live : o.live c.queue.items ≡ true
    pub spaces_live : o.live c.queue.spaces ≡ true
    pub items_limit : o.limit c.queue.items ≡ c.queue.capacity
    pub spaces_limit : o.limit c.queue.spaces ≡ c.queue.capacity
    pub items_tokens : o.count c.queue.items + c.getting + c.copied ≡ c.queue.count
    pub spaces_tokens :
        o.count c.queue.spaces + length c.putting + c.queue.count + c.drained ≡ c.queue.capacity
    pub log : c.sent ≡ c.received ++ contents c.queue

module _ {Sem : Type 0} {o : SemOps Sem} {bound : ℕ} (law : IsSemaphore o bound) where
  put_enters-Inv :
      (c : Config Sem) (isr : Bool) (message : List ℕ) (t : ℕ)
      → length message ≡ c.queue.message_size
      → (o.count c.queue.spaces ≡ 0 → t < bound)
      → Inv o c
      → Inv o (put_entered c message (put_take o isr c.queue t))
  unfolding put_take put_entered
  put_enters-Inv c isr message t len ends v =
      elim (take-Outcome law isr c.queue.spaces t v.spaces_live ends) [
        | took n e some_in h ↦ rw e (ground arith)
        | missed e h ↦ rw e (ground arith)
      ]

  get_enters-Inv :
      (c : Config Sem) (isr : Bool) (t : ℕ)
      → (o.count c.queue.items ≡ 0 → t < bound)
      → Inv o c
      → Inv o (get_entered c (get_take o isr c.queue t))
  unfolding get_take get_entered
  get_enters-Inv c isr t ends v = elim (take-Outcome law isr c.queue.items t v.items_live ends) [
    | took n e some_in h ↦ rw e (ground arith)
    | missed e h ↦ rw e (ground arith)
  ]

  put_copies-Inv :
      (c : Config Sem) (before : List (List ℕ)) (message : List ℕ) (after : List (List ℕ))
      → c.putting ≡ before ++ (message ∷ after)
      → Inv o c
      → Inv o (record c {
        queue = put_copy c.queue message;
        putting = before ++ after;
        copied = c.copied + 1;
        sent = c.sent ++ (message ∷ []);
      })
  unfolding put_copy
  put_copies-Inv c before message after e v =
      let (len, rest) =
        Sized-remove c.queue.message_size before message after (rw e at (v.sized)) in
      let there : length c.putting ≡ suc (length (before ++ after)) =
        omega (
          arith,
          ap length e,
          length-append before (message ∷ after),
          length-append before after,
        ) in
      let (ring, added) = put_copy-IsRing c.queue message v.ring (omega arith) len in
      record {
        ring = ring;
        sized = rest;
        items_live = v.items_live;
        spaces_live = v.spaces_live;
        items_limit = v.items_limit;
        spaces_limit = v.spaces_limit;
        items_tokens = omega arith;
        spaces_tokens = omega arith;
        log = rw (added, v.log) (append_assoc c.received (contents c.queue) (message ∷ []));
      }

  get_copies-Inv :
      (c : Config Sem) (n : ℕ)
      → c.getting ≡ suc n
      → Inv o c
      → Inv o (record c {
        queue = (get_copy c.queue).1;
        getting = n;
        drained = c.drained + 1;
        received = c.received ++ ((get_copy c.queue).0 ∷ []);
      })
  unfolding get_copy
  get_copies-Inv c n e v =
      let (ring, taken) = get_copy-IsRing c.queue v.ring (omega arith) in
      record {
        ring = ring;
        sized = v.sized;
        items_live = v.items_live;
        spaces_live = v.spaces_live;
        items_limit = v.items_limit;
        spaces_limit = v.spaces_limit;
        items_tokens = omega arith;
        spaces_tokens = omega arith;
        log =
            v.log
            ∙ ap (◌++◌ c.received) taken
            ∙ sym (
                append_assoc c.received ((get_copy c.queue).0 ∷ [])
                  (contents (get_copy c.queue).1));
      }

  -- Every step keeps the invariant.
  pub Step-Inv : {c d : Config Sem} → Step o bound c d → Inv o c → Inv o d
  unfolding put_give get_give
  Step-Inv {c} (put_enters isr message t len ends) v = put_enters-Inv c isr message t len ends v
  Step-Inv {c} (put_copies before message after e) v = put_copies-Inv c before message after e v
  Step-Inv {c} (put_gives isr n e) v =
      let h = give-Holds law isr c.queue.items v.items_live (omega arith) in ground arith
  Step-Inv {c} (get_enters isr t ends) v = get_enters-Inv c isr t ends v
  Step-Inv {c} (get_copies n e) v = get_copies-Inv c n e v
  Step-Inv {c} (get_gives isr n e) v =
      let h = give-Holds law isr c.queue.spaces v.spaces_live (omega arith) in ground arith
