-- ===== src/Life/Machine/Safety.antt =====
-- What the steps of a thread and its clients keep.
pub mod Own
pub mod Joins
pub mod Aborts
use hazel_osal.Prelude.{
  ℕ, ◌≡◌, ◌⊎◌, refl, ap, sym, subst, ◌∙◌, inl, inr, Bool, true, false, ◌==◌, if◌then◌else◌, ◌||◌,
  ◌&&◌, not, arith, Bool-cases,
}
use hazel_osal.Prelude.Ids.{update}
use hazel_osal.Life.{Life}
use hazel_osal.Life.Machine.{
  Body, Phase, Machine, is_given, is_running, is_active, is_reaping, is_aborting, is_telling,
  set_life, set_body, set_client, abort_life, reap_life, begun, Step, Reach, completes, gives,
  signals, aborts_itself, joins, takes, gives_up, deletes, reaps, cancels, aborts, kills, tells,
  rests, here, next,
}

-- At most one client is in a join or a deletion, which `join_active` shows, and then the thread has
-- not been reaped. Only a thread whose completion semaphore has been released is reaped, so that a
-- release by the thread itself finds the semaphore. After it, the semaphore is there for a join
-- until the thread is being reaped.
pub record Safe (m : Machine) : Type 0 where
  pub alone : (c d : ℕ) → is_active (m.clients c) ≡ true → is_active (m.clients d) ≡ true → c ≡ d
  pub shown : (c : ℕ) → is_active (m.clients c) ≡ true → m.life.join_active ≡ true
  pub holder : m.life.join_active ≡ true → (c : ℕ) × (is_active (m.clients c) ≡ true)
  pub unreaped : (c : ℕ) → is_active (m.clients c) ≡ true → m.life.completion_reaped ≡ false
  pub present : m.life.completion_handle ≡ not m.life.completion_reaped
  pub token_given : m.token ≡ true → is_given m.body ≡ true
  pub signaled_given : m.life.completion_signaled ≡ true → is_given m.body ≡ true
  pub reaping_given : (c : ℕ) → is_reaping (m.clients c) ≡ true → is_given m.body ≡ true
  pub reaped_given : m.life.completion_reaped ≡ true → is_given m.body ≡ true
  pub telling_given : (c : ℕ) → is_telling (m.clients c) ≡ true → is_given m.body ≡ true
  pub left_completed : is_running m.body ≡ false → m.life.completed ≡ true
  pub aborting_completed : (c : ℕ) → is_aborting (m.clients c) ≡ true → m.life.completed ≡ true
  pub takable :
      is_given m.body ≡ true
      → m.life.completion_reaped ≡ false
      → (m.token ≡ true) ⊎ ((c : ℕ) × (is_reaping (m.clients c) ≡ true))

pub begun-Safe :
    (l : Life)
    → l.completion_handle ≡ true
    → l.completion_signaled ≡ false
    → l.completion_reaped ≡ false
    → l.join_active ≡ false
    → Safe (begun l)
begun-Safe l h s r j = record {
  holder = λ x. cc;
  alone = λ c d a b. cc;
  shown = λ c a. cc;
  unreaped = λ c a. cc;
  present = ground (arith, h, r);
  token_given = λ e. cc;
  signaled_given = λ e. cc;
  reaping_given = λ c a. cc;
  reaped_given = λ e. cc;
  telling_given = λ c a. cc;
  left_completed = λ e. cc;
  aborting_completed = λ c a. cc;
  takable = λ e n. cc;
}

pub keep_active :
    (clients : ℕ → Phase) (c : ℕ) (p : Phase)
    → is_active (clients c) ≡ false
    → (d : ℕ) × (is_active (clients d) ≡ true)
    → (d : ℕ) × (is_active (update clients c p d) ≡ true)
keep_active clients c p n (d, e) = (d, ground (arith, n, e))

pub holding :
    (clients : ℕ → Phase) (c : ℕ) (p : Phase)
    → is_active p ≡ true
    → is_active (update clients c p c) ≡ true
holding clients c p a = ground (arith, a)

-- A client that is not reaping takes no part in what a join needs.
pub keep :
    (clients : ℕ → Phase) (c : ℕ) (p : Phase) (token : Bool)
    → is_reaping (clients c) ≡ false
    → (token ≡ true) ⊎ ((d : ℕ) × (is_reaping (clients d) ≡ true))
    → (token ≡ true) ⊎ ((d : ℕ) × (is_reaping (update clients c p d) ≡ true))
keep clients c p token n (inl t) = inl t
keep clients c p token n (inr (d, e)) = inr (d, ground (arith, n, e))

-- The client that reaps.
pub reaper : (clients : ℕ → Phase) (c : ℕ) → is_reaping (update clients c Phase.reaping c) ≡ true
reaper clients c = ground arith
