-- ===== src/Freertos/Kernel/Stopping.antt =====
-- A start of the kernel, with the calls of `os_kernel_stop` that come before it returns.
use hazel_osal.Prelude.{
  ◌≡◌, refl, inl, inr, Bool, true, false, ◌||◌, ◌&&◌, not, Option, none, some, List, [], ◌∷◌,
  if◌then◌else◌, arith, Bool-cases,
}
use hazel_osal.Errno.{ok, err, enomem}
use hazel_osal.Life.{goes_on}
use hazel_osal.Freertos.Kernel.{Kernel, scheduler_running, start_enter, start_leave, stop}

-- A call of `os_kernel_stop` while the scheduler runs: in an interrupt handler or not, and with what
-- `xTaskGetSchedulerState` tells, if the kernel has it.
abbrev pub stops : (supported told : Bool) → List Bool → Kernel → Kernel
stops supported told [] k = k
stops supported told (isr ∷ calls) k =
    stops supported told calls (stop supported isr k (if told then some true else none)).1

-- one of the calls is made by a task
abbrev pub any_task : List Bool → Bool
any_task [] = false
any_task (isr ∷ calls) = not isr || any_task calls

stops-any_task :
    (supported told : Bool) (calls : List Bool) (k : Kernel)
    → k.started_by_osal ≡ true
    → ((stops supported told calls k).started_by_osal ≡ true)
      × ((stops supported told calls k).stop_requested
          ≡ (k.stop_requested || (supported && any_task calls)))
unfolding stop scheduler_running
stops-any_task supported told [] k b = (b, ground arith)
stops-any_task supported told (isr ∷ calls) k b =
    let k' = (stop supported isr k (if told then some true else none)).1 in
    let b' : k'.started_by_osal ≡ true = ground (arith, b) in
    let r : k'.stop_requested ≡ (k.stop_requested || (supported && not isr)) = ground (arith, b) in
    let (c, e) = stops-any_task supported told calls k' b' in (c, ground (arith, e, r))

abbrev cleared : Kernel
cleared = record { started_by_osal = false; stop_requested = false }

abbrev fresh : Kernel
fresh = record { started_by_osal = true; stop_requested = false }

start_enter-fresh :
    (k : Kernel) (state : Option Bool)
    → (start_enter false k state).0 ≡ goes_on
    → (start_enter false k state).1 ≡ fresh
unfolding start_enter
start_enter-fresh k state go = elim (Bool-cases (scheduler_running k state)) [
  | inl runs ↦ let go' = rw (runs, start_enter) at go in cc
  | inr rests ↦ rw (rests, start_enter) refl
]

start_leave-cleared :
    (k : Kernel) (r : Bool)
    → k.stop_requested ≡ r
    → start_leave k ≡ (if r then ok 0 else err enomem, cleared)
unfolding start_leave
start_leave-cleared k true e = rw (e, start_leave) refl
start_leave-cleared k false e = rw (e, start_leave) refl

-- If os_kernel_start goes on to start the scheduler of FreeRTOS, then whatever calls of
-- os_kernel_stop come before the scheduler returns, it returns 0 if stopping is supported and one
-- of them is made outside an interrupt handler, and -ENOMEM otherwise, and leaves both static
-- variables false.
pub start-stops :
    (supported told : Bool) (calls : List Bool) (k : Kernel)
    → (start_enter false k (if told then some false else none)).0 ≡ goes_on
    → let begun = (start_enter false k (if told then some false else none)).1 in
      start_leave (stops supported told calls begun) ≡ (
        if supported && any_task calls then ok 0 else err enomem,
        record { started_by_osal = false; stop_requested = false },
      )
start-stops supported told calls k go =
    rw (start_enter-fresh k (if told then some false else none) go) (
      start_leave-cleared (stops supported told calls fresh) (supported && any_task calls)
        (stops-any_task supported told calls fresh refl).1)
