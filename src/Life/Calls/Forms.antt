-- ===== src/Life/Calls/Forms.antt =====
-- The first critical sections of the calls of a thread.c that both backends write alike: which
-- tests they have passed where they go on.
use hazel_osal.Prelude.{
  ◌≡◌, ◌⊎◌, refl, inl, inr, Bool, true, false, ◌||◌, not, if◌then◌else◌, arith, Bool-cases,
}
use hazel_osal.Errno.{Result, ok, err, einval, ebusy, edeadlk, ealready, ewouldblock}
use hazel_osal.Life.{Life, Begin, returns, goes_on}

-- The call returns and changes nothing, or it goes on with the state `s'`.
abbrev pub Outcome : {S : Type 0} → Begin × S → S → S → Type 0 → Type 0
Outcome b s s' passed = ((r : Result) × (b ≡ (returns r, s))) ⊎ (passed × (b ≡ (goes_on, s')))

pub join-Outcome :
    {S : Type 0} (isr self : Bool) (life : Life) (s s' : S)
    → Outcome
        (if isr
          then (returns (err ewouldblock), s)
          else if self
          then (returns (err edeadlk), s)
          else if life.completion_reaped
          then (returns (ok 0), s)
          else if not life.completion_handle
          then (returns (err einval), s)
          else if life.join_active
          then (returns (err ebusy), s)
          else (goes_on, s'))
        s
        s'
        ((life.completion_reaped ≡ false) × (life.join_active ≡ false))
join-Outcome isr self life s s' = elim (Bool-cases isr) [
  | inl in_isr ↦ inl (err ewouldblock, rw in_isr refl)
  | inr task ↦ elim (Bool-cases self) [
    | inl own ↦ inl (err edeadlk, rw (task, own) refl)
    | inr other ↦ elim (Bool-cases life.completion_reaped) [
      | inl reaped ↦ inl (ok 0, rw (task, other, reaped) refl)
      | inr there ↦ elim (Bool-cases life.completion_handle) [
        | inr bare ↦ inl (err einval, rw (task, other, there, bare) refl)
        | inl made ↦ elim (Bool-cases life.join_active) [
          | inl busy ↦ inl (err ebusy, rw (task, other, there, made, busy) refl)
          | inr free ↦ inr ((there, free), rw (task, other, there, made, free) refl)
        ]
      ]
    ]
  ]
]

pub delete-Outcome :
    {S : Type 0} (isr : Bool) (life : Life) (s s' : S)
    → Outcome
        (if isr
          then (returns (err ewouldblock), s)
          else if life.completion_reaped
          then (returns (ok 0), s)
          else if not life.completion_handle
          then (returns (err einval), s)
          else if not life.completed || not life.completion_signaled || life.join_active
          then (returns (err ebusy), s)
          else (goes_on, s'))
        s
        s'
        ((life.completion_reaped ≡ false)
          × (life.completed ≡ true)
          × (life.completion_signaled ≡ true)
          × (life.join_active ≡ false))
delete-Outcome isr life s s' = elim (Bool-cases isr) [
  | inl in_isr ↦ inl (err ewouldblock, rw in_isr refl)
  | inr task ↦ elim (Bool-cases life.completion_reaped) [
    | inl reaped ↦ inl (ok 0, rw (task, reaped) refl)
    | inr there ↦ elim (Bool-cases life.completion_handle) [
      | inr bare ↦ inl (err einval, rw (task, there, bare) refl)
      | inl made ↦
          elim (Bool-cases
            (not life.completed || not life.completion_signaled || life.join_active)) [
              | inl busy ↦ inl (err ebusy, rw (task, there, made, busy) refl)
              | inr done ↦ inr (
                (there, ground (arith, done), ground (arith, done), ground (arith, done)),
                rw (task, there, made, done) refl,
              )
            ]
    ]
  ]
]

-- The call changes nothing, or it has passed the tests and ends with the state `s'`.
pub cancel-Outcome :
    {S : Type 0} (handle isr completed : Bool) (s s' : S)
    → let b : Result × S =
        if not handle
        then (err einval, s)
        else if isr
        then (err ewouldblock, s)
        else if completed
        then (err ealready, s)
        else (ok 0, s') in
      ((r : Result) × (b ≡ (r, s))) ⊎ ((completed ≡ false) × (b ≡ (ok 0, s')))
cancel-Outcome handle isr completed s s' = elim (Bool-cases handle) [
  | inr bare ↦ inl (err einval, rw bare refl)
  | inl made ↦ elim (Bool-cases isr) [
    | inl in_isr ↦ inl (err ewouldblock, rw (made, in_isr) refl)
    | inr task ↦ elim (Bool-cases completed) [
      | inl done ↦ inl (err ealready, rw (made, task, done) refl)
      | inr runs ↦ inr (runs, rw (made, task, runs) refl)
    ]
  ]
]
