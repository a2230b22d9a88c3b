-- ===== src/Signal/Concurrent.antt =====
-- signal.c used by any number of threads and interrupt handlers that raise and wait. A wait is
-- the semaphore that it takes and then its critical section. Steps of different calls come in any
-- order.
use hazel_osal.Prelude.{
  ℕ, suc, ◌+◌, ◌≤◌, ◌<◌, ◌≡◌, inl, inr, Bool, true, List, [], ◌∷◌, ◌++◌, arith, if◌then◌else◌,
  Bool-cases,
}
use mathlib.Core.List.{append-nil}
use hazel_osal.Errno.{Result, ok, is_zero}
use hazel_osal.Sem.{SemOps, IsSemaphore}
use hazel_osal.Sem.Outcomes.{took, missed, take-Outcome, give-Holds}
use hazel_osal.Signal.{Signal, init, raise, wait_take, wait_read}

-- A signal and the waits that hold the token. `sent` and `received` record the results that were
-- raised with success and those that waits have read.
pub record Config (Sem : Type 0) : Type 0 where
  pub signal : Signal Sem
  pub waiting : ℕ
  pub sent : List ℕ
  pub received : List ℕ

module _ {Sem : Type 0} where
  pub raised_by : Config Sem → ℕ → Result × Signal Sem → Config Sem
  raised_by c result (r, s) =
      if is_zero r
      then record c { signal = s; sent = c.sent ++ (result ∷ []) }
      else record c { signal = s }

  pub wait_entered : Config Sem → Result × Signal Sem → Config Sem
  wait_entered c (r, s) =
      if is_zero r
      then record c { signal = s; waiting = c.waiting + 1 }
      else record c { signal = s }

  -- the result that is raised and not read
  abbrev pub pending : Signal Sem → List ℕ
  pending s = if s.raised then s.result ∷ [] else []

module _ {Sem : Type 0} (o : SemOps Sem) (bound : ℕ) where
  pub data Step (c : Config Sem) : Config Sem → Type 0 where
    raises : (isr : Bool) (result : ℕ) → Step c (raised_by c result (raise o isr c.signal result))
    wait_enters :
        (isr : Bool) (t : ℕ)
        → (o.count c.signal.notification ≡ 0 → t < bound)
        → Step c (wait_entered c (wait_take o isr c.signal t))
    wait_reads :
        (n : ℕ)
        → c.waiting ≡ suc n
        → Step c (record c {
          signal = (wait_read c.signal).1;
          waiting = n;
          received = c.received ++ ((wait_read c.signal).0 ∷ []);
        })

  pub data Reach (c : Config Sem) : Config Sem → Type 0 where
    here : Reach c c
    next : {d e : Config Sem} → Reach c d → Step d e → Reach c e

module _ {Sem : Type 0} (o : SemOps Sem) where
  pub record Inv (c : Config Sem) : Type 0 where
    pub live : o.live c.signal.notification ≡ true
    pub limit : o.limit c.signal.notification ≡ 1
    pub tokens : o.count c.signal.notification + c.waiting ≡ (if c.signal.raised then 1 else 0)
    pub log : c.sent ≡ c.received ++ pending c.signal

-- A signal that no call is using.
abbrev pub idle : {Sem : Type 0} → Signal Sem → Config Sem
idle s = record { signal = s; waiting = 0; sent = pending s; received = [] }

module _ {Sem : Type 0} {o : SemOps Sem} {bound : ℕ} (law : IsSemaphore o bound) where
  raises-Inv :
      (c : Config Sem) (isr : Bool) (result : ℕ)
      → Inv o c
      → Inv o (raised_by c result (raise o isr c.signal result))
  unfolding raise raised_by
  raises-Inv c isr result v = elim (Bool-cases c.signal.raised) [
    | inl up ↦ ground arith
    | inr down ↦
        let none_in : o.count c.signal.notification < o.limit c.signal.notification =
          ground arith in
        ground
          (arith, give-Holds law isr c.signal.notification v.live none_in, append-nil c.received)
  ]

  wait_enters-Inv :
      (c : Config Sem) (isr : Bool) (t : ℕ)
      → (o.count c.signal.notification ≡ 0 → t < bound)
      → Inv o c
      → Inv o (wait_entered c (wait_take o isr c.signal t))
  unfolding wait_take wait_entered
  wait_enters-Inv c isr t ends v = elim (take-Outcome law isr c.signal.notification t v.live ends) [
    | took n e some_in h ↦ rw e (ground arith)
    | missed e h ↦ rw e (ground arith)
  ]

  -- Every step keeps the invariant.
  pub Step-Inv : {c d : Config Sem} → Step o bound c d → Inv o c → Inv o d
  unfolding wait_read
  Step-Inv {c} (raises isr result) v = raises-Inv c isr result v
  Step-Inv {c} (wait_enters isr t ends) v = wait_enters-Inv c isr t ends v
  Step-Inv {c} (wait_reads n e) v =
      ground (arith, append-nil (c.received ++ (c.signal.result ∷ [])))

  pub init-Inv : (s : Signal Sem) → (init o s).0 ≡ ok 0 → Inv o (idle (init o s).1)
  unfolding init
  init-Inv s e = ground (arith, law.init_ok o.zero 0 1)

  pub Reach-Inv : {c d : Config Sem} → Reach o bound c d → Inv o c → Inv o d
  Reach-Inv here v = v
  Reach-Inv (next r s) v = Step-Inv s (Reach-Inv r v)

  -- From any configuration that satisfies the invariant, and for every order of the steps of
  -- concurrent raises and waits: the results that waits have read, followed by the pending one,
  -- are those that were raised with success, in that order; and at most one wait holds the token.
  pub Reach-once :
      {c d : Config Sem}
      → Inv o c
      → Reach o bound c d
      → (d.sent ≡ d.received ++ pending d.signal) × (d.waiting ≤ 1)
  Reach-once {d} v r = let w = Reach-Inv r v in (w.log, ground arith)
