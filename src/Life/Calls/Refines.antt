-- ===== src/Life/Calls/Refines.antt =====
-- A thread and its clients that execute the calls of a thread.c, and the steps of the machine that
-- they make.
use hazel_osal.Prelude.{ℕ, ◌≡◌, refl, sym, subst, inl, inr, Bool, true, false}
use hazel_osal.Prelude.Ids.{update}
use hazel_osal.Life.{Life, Begin}
use hazel_osal.Life.Calls.{Calls, Laws}
use hazel_osal.Life.Machine.{
  Body, Phase, Machine, set_life, set_body, set_client, abort_life, reap_life, Step, Reach,
}
use hazel_osal.Life.Machine.Safety.{Safe}
use hazel_osal.Life.Machine.Reached.{Reach-Safe}

-- the objects, the completion semaphore of the thread, where its code is and where the clients are
pub record Run (S : Type 0) : Type 0 where
  pub state : S
  pub token : Bool
  pub body : Body
  pub clients : ℕ → Phase

abbrev pub set_state : {S : Type 0} → Run S → S → Run S
set_state r s = record r { state = s }

-- what a client does after its first critical section
abbrev pub after : {S : Type 0} → Run S → ℕ → Phase → Begin × S → Run S
after r c phase (Begin.returns result, s) = record r { state = s }
after r c phase (Begin.goes_on, s) = record r { state = s; clients = update r.clients c phase }

-- what the thread does after the first critical section of its own abort
abbrev pub after_own : {S : Type 0} → Run S → Begin × S → Run S
after_own r (Begin.returns result, s) = record r { state = s }
after_own r (Begin.goes_on, s) = record r { state = s; body = Body.completing }

-- a thread that has begun to run
abbrev pub started : {S : Type 0} → S → Run S
started s = record { state = s; token = false; body = Body.running; clients = λ c. Phase.idle }

-- The thread or a client `c` executes its next critical section, or the call of the kernel between
-- two: the release of the completion semaphore (`gives`; in an abort after the task is deleted,
-- `kills`) or its taking. A client that deletes the task stops its code.
pub data RunStep {S : Type 0} (calls : Calls S) (r : Run S) : Run S → Type 0 where
  completes :
      r.body ≡ Body.running
      → RunStep calls r (record r { state = calls.entry_complete r.state; body = Body.completing })
  gives :
      r.body ≡ Body.completing → RunStep calls r (record r { token = true; body = Body.signaling })
  signals :
      r.body ≡ Body.signaling
      → RunStep calls r (record r { state = calls.entry_signal r.state; body = Body.ended })
  aborts_itself :
      r.body ≡ Body.running → RunStep calls r (after_own r (calls.abort_enter false true r.state))
  joins :
      (c : ℕ) (isr self : Bool)
      → r.clients c ≡ Phase.idle
      → RunStep calls r (after r c Phase.joining (calls.join_enter isr self r.state))
  takes :
      (c : ℕ)
      → r.clients c ≡ Phase.joining
      → r.token ≡ true
      → RunStep calls r (record r { token = false; clients = update r.clients c Phase.reaping })
  gives_up :
      (c timeout : ℕ)
      → r.clients c ≡ Phase.joining
      → RunStep calls r (record r {
        state = (calls.join_timeout timeout r.state).1;
        clients = update r.clients c Phase.idle;
      })
  deletes :
      (c : ℕ) (isr : Bool)
      → r.clients c ≡ Phase.idle
      → RunStep calls r (after r c Phase.reaping (calls.delete_enter isr r.state))
  reaps :
      (c : ℕ)
      → r.clients c ≡ Phase.reaping
      → RunStep calls r
          (record r { state = calls.reap r.state; clients = update r.clients c Phase.idle })
  cancels : (isr : Bool) → RunStep calls r (set_state r (calls.cancel isr r.state).1)
  aborts :
      (c : ℕ) (isr : Bool)
      → r.clients c ≡ Phase.idle
      → RunStep calls r (after r c Phase.killing (calls.abort_enter isr false r.state))
  kills :
      (c : ℕ)
      → r.clients c ≡ Phase.killing
      → RunStep calls r
          (record r { token = true; body = Body.ended; clients = update r.clients c Phase.telling })
  tells :
      (c : ℕ)
      → r.clients c ≡ Phase.telling
      → RunStep calls r
          (record r { state = calls.abort_signal r.state; clients = update r.clients c Phase.idle })

-- steps, the last one first
pub data RunReach {S : Type 0} (calls : Calls S) (r : Run S) : Run S → Type 0 where
  here : RunReach calls r r
  next : {r' r'' : Run S} → RunReach calls r r' → RunStep calls r' r'' → RunReach calls r r''

abbrev pub view : {S : Type 0} → Calls S → Run S → Machine
view calls r = record {
  life = calls.life_of r.state;
  token = r.token;
  body = r.body;
  clients = r.clients;
}

-- A step of the machine, up to the members that a call leaves.
along :
    (m m' : Machine) (l : Life)
    → Step m (set_life m' l)
    → (k : Life) → k ≡ l
    → Step m (set_life m' k)
along m m' l step k e = subst (λ x. Step m (set_life m' x)) (sym e) step

pub after-goes :
    {S : Type 0} (r : Run S) (c : ℕ) (phase : Phase) (b : Begin × S)
    → b.0 ≡ Begin.goes_on
    → after r c phase b ≡ record r { state = b.1; clients = update r.clients c phase }
after-goes r c phase (Begin.returns result, s) e = cc
after-goes r c phase (Begin.goes_on, s) e = refl

after_own-goes :
    {S : Type 0} (r : Run S) (b : Begin × S)
    → b.0 ≡ Begin.goes_on
    → after_own r b ≡ record r { state = b.1; body = Body.completing }
after_own-goes r (Begin.returns result, s) e = cc
after_own-goes r (Begin.goes_on, s) e = refl

-- A step of a call is a step of the machine.
refines :
    {S : Type 0} (calls : Calls S) (laws : Laws S calls) (r r' : Run S)
    → RunStep calls r r'
    → Step (view calls r) (view calls r')
refines calls laws r _ (RunStep.completes b) =
    let m = view calls r in
    along m (set_body m Body.completing) (record m.life { completed = true }) (Step.completes b)
      (calls.life_of (calls.entry_complete r.state)) (laws.entry_complete_lem r.state)
refines calls laws r _ (RunStep.gives b) = Step.gives b
refines calls laws r _ (RunStep.signals b) =
    let m = view calls r in
    along m (set_body m Body.ended) (record m.life { completion_signaled = true }) (Step.signals b)
      (calls.life_of (calls.entry_signal r.state)) (laws.entry_signal_lem r.state)
refines calls laws r _ (RunStep.takes c i t) = Step.takes c i t
refines calls laws r _ (RunStep.kills c i) = Step.kills c i
refines calls laws r _ (RunStep.gives_up c timeout i) =
    let m = view calls r in
    along m (set_client m c Phase.idle) (record m.life { join_active = false }) (Step.gives_up c i)
      (calls.life_of (calls.join_timeout timeout r.state).1) (laws.join_timeout_lem timeout r.state)
refines calls laws r _ (RunStep.reaps c i) =
    let m = view calls r in
    along m (set_client m c Phase.idle) (reap_life m.life) (Step.reaps c i)
      (calls.life_of (calls.reap r.state)) (laws.reap_lem r.state)
refines calls laws r _ (RunStep.tells c i) =
    let m = view calls r in
    along m (set_client m c Phase.idle) (record m.life { completion_signaled = true })
      (Step.tells c i) (calls.life_of (calls.abort_signal r.state)) (laws.abort_signal_lem r.state)
refines calls laws r _ (RunStep.aborts_itself b) =
    let m = view calls r in
    let call = calls.abort_enter false true r.state in
    elim (laws.abort_enter_lem false true r.state) [
      | inl (result, e) ↦ subst (λ x. Step m (view calls (after_own r x))) (sym e) Step.rests
      | inr (go, n, e) ↦
          subst (λ x. Step m (view calls x)) (sym (after_own-goes r call go))
            (along m (set_body m Body.completing) (abort_life m.life) (Step.aborts_itself b n)
              (calls.life_of call.1) e)
    ]
refines calls laws r _ (RunStep.joins c isr self i) =
    let m = view calls r in
    let call = calls.join_enter isr self r.state in
    elim (laws.join_enter_lem isr self r.state) [
      | inl (result, e) ↦
          subst (λ x. Step m (view calls (after r c Phase.joining x))) (sym e) Step.rests
      | inr (go, n, j, e) ↦
          subst (λ x. Step m (view calls x)) (sym (after-goes r c Phase.joining call go))
            (along m (set_client m c Phase.joining) (record m.life { join_active = true })
              (Step.joins c i n j) (calls.life_of call.1) e)
    ]
refines calls laws r _ (RunStep.deletes c isr i) =
    let m = view calls r in
    let call = calls.delete_enter isr r.state in
    elim (laws.delete_enter_lem isr r.state) [
      | inl (result, e) ↦
          subst (λ x. Step m (view calls (after r c Phase.reaping x))) (sym e) Step.rests
      | inr (go, n, k, g, j, e) ↦
          subst (λ x. Step m (view calls x)) (sym (after-goes r c Phase.reaping call go))
            (along m (set_client m c Phase.reaping) (record m.life { join_active = true })
              (Step.deletes c i n k g j) (calls.life_of call.1) e)
    ]
refines calls laws r _ (RunStep.cancels isr) =
    let m = view calls r in
    elim (laws.cancel_lem isr r.state) [
      | inl e ↦ subst (λ x. Step m (view calls (set_state r x))) (sym e) Step.rests
      | inr (n, e) ↦
          along m m (record m.life { cancel_requested = true }) (Step.cancels n)
            (calls.life_of (calls.cancel isr r.state).1) e
    ]
refines calls laws r _ (RunStep.aborts c isr i) =
    let m = view calls r in
    let call = calls.abort_enter isr false r.state in
    elim (laws.abort_enter_lem isr false r.state) [
      | inl (result, e) ↦
          subst (λ x. Step m (view calls (after r c Phase.killing x))) (sym e) Step.rests
      | inr (go, n, e) ↦
          subst (λ x. Step m (view calls x)) (sym (after-goes r c Phase.killing call go))
            (along m (set_client m c Phase.killing) (abort_life m.life) (Step.aborts c i n)
              (calls.life_of call.1) e)
    ]

reaches :
    {S : Type 0} (calls : Calls S) (laws : Laws S calls) (r r' : Run S)
    → RunReach calls r r'
    → Reach (view calls r) (view calls r')
reaches calls laws r r' RunReach.here = Reach.here
reaches calls laws r r' (RunReach.next {r' = r1} reach step) =
    Reach.next (reaches calls laws r r1 reach) (refines calls laws r1 r' step)

-- Every sequence of the calls of a thread.c that keeps the laws is safe.
pub calls-Safe :
    {S : Type 0} (calls : Calls S) (laws : Laws S calls) (r r' : Run S)
    → Safe (view calls r)
    → RunReach calls r r'
    → Safe (view calls r')
calls-Safe calls laws r r' v reach = Reach-Safe v (reaches calls laws r r' reach)
