-- ===== src/Life/Calls.antt =====
-- The interface between a thread.c and the machine of Life/Machine.antt: the critical sections of the
-- calls, and what each of them does to the members about the end of the thread. Each backend's
-- thread.c fills it.
pub mod Refines
pub mod Forms
use hazel_osal.Prelude.{ℕ, ◌≡◌, ◌⊎◌, Bool, true, false}
use hazel_osal.Errno.{Result}
use hazel_osal.Life.{Life, Begin}
use hazel_osal.Life.Machine.{abort_life, reap_life}

-- `self` says that the caller is the thread.
pub record Calls (S : Type 0) : Type 0 where
  pub life_of : S → Life
  pub entry_complete : S → S
  pub entry_signal : S → S
  pub join_enter : (isr self : Bool) → S → Begin × S
  pub join_timeout : (timeout : ℕ) → S → Result × S
  pub reap : S → S
  pub delete_enter : (isr : Bool) → S → Begin × S
  pub cancel : (isr : Bool) → S → Result × S
  pub abort_enter : (isr self : Bool) → S → Begin × S
  pub abort_signal : S → S

pub record Laws (S : Type 0) (calls : Calls S) : Type 0 where
  pub entry_complete_lem :
      (s : S)
      → calls.life_of (calls.entry_complete s) ≡ record (calls.life_of s) { completed = true }
  pub entry_signal_lem :
      (s : S)
      → calls.life_of (calls.entry_signal s)
        ≡ record (calls.life_of s) { completion_signaled = true }
  pub join_enter_lem :
      (isr self : Bool) (s : S)
      → ((r : Result) × (calls.join_enter isr self s ≡ (Begin.returns r, s)))
        ⊎ (((calls.join_enter isr self s).0 ≡ Begin.goes_on)
            × ((calls.life_of s).completion_reaped ≡ false)
            × ((calls.life_of s).join_active ≡ false)
            × (calls.life_of (calls.join_enter isr self s).1
                ≡ record (calls.life_of s) { join_active = true }))
  pub join_timeout_lem :
      (timeout : ℕ) (s : S)
      → calls.life_of (calls.join_timeout timeout s).1
        ≡ record (calls.life_of s) { join_active = false }
  pub reap_lem : (s : S) → calls.life_of (calls.reap s) ≡ reap_life (calls.life_of s)
  pub delete_enter_lem :
      (isr : Bool) (s : S)
      → ((r : Result) × (calls.delete_enter isr s ≡ (Begin.returns r, s)))
        ⊎ (((calls.delete_enter isr s).0 ≡ Begin.goes_on)
            × ((calls.life_of s).completion_reaped ≡ false)
            × ((calls.life_of s).completed ≡ true)
            × ((calls.life_of s).completion_signaled ≡ true)
            × ((calls.life_of s).join_active ≡ false)
            × (calls.life_of (calls.delete_enter isr s).1
                ≡ record (calls.life_of s) { join_active = true }))
  pub cancel_lem :
      (isr : Bool) (s : S)
      → ((calls.cancel isr s).1 ≡ s)
        ⊎ (((calls.life_of s).completed ≡ false)
            × (calls.life_of (calls.cancel isr s).1
                ≡ record (calls.life_of s) { cancel_requested = true }))
  pub abort_enter_lem :
      (isr self : Bool) (s : S)
      → ((r : Result) × (calls.abort_enter isr self s ≡ (Begin.returns r, s)))
        ⊎ (((calls.abort_enter isr self s).0 ≡ Begin.goes_on)
            × ((calls.life_of s).completed ≡ false)
            × (calls.life_of (calls.abort_enter isr self s).1 ≡ abort_life (calls.life_of s)))
  pub abort_signal_lem :
      (s : S)
      → calls.life_of (calls.abort_signal s)
        ≡ record (calls.life_of s) { completion_signaled = true }
