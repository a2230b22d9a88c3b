-- ===== src/Life/Machine/Reached.antt =====
-- What every sequence of steps of a thread and its clients keeps.
use hazel_osal.Prelude.{ℕ, ◌≡◌, inl, inr, true, false, arith, Bool-cases}
use hazel_osal.Life.Machine.{
  Machine, is_given, is_active, is_reaping, Step, Reach, completes, gives, signals, aborts_itself,
  joins, takes, gives_up, deletes, reaps, cancels, aborts, kills, tells, rests, here, next,
}
use hazel_osal.Life.Machine.Safety.{Safe}
use hazel_osal.Life.Machine.Safety.Own.{
  completes-Safe, gives-Safe, signals-Safe, aborts_itself-Safe, cancels-Safe,
}
use hazel_osal.Life.Machine.Safety.Joins.{
  joins-Safe, takes-Safe, gives_up-Safe, deletes-Safe, reaps-Safe,
}
use hazel_osal.Life.Machine.Safety.Aborts.{aborts-Safe, kills-Safe, tells-Safe}

Step-Safe : {m m' : Machine} → Safe m → Step m m' → Safe m'
Step-Safe {m = m} v (completes b) = completes-Safe m b v
Step-Safe {m = m} v (gives b) = gives-Safe m b v
Step-Safe {m = m} v (signals b) = signals-Safe m b v
Step-Safe {m = m} v (aborts_itself b n) = aborts_itself-Safe m b n v
Step-Safe {m = m} v (joins c i r j) = joins-Safe m c i r j v
Step-Safe {m = m} v (takes c i t) = takes-Safe m c i t v
Step-Safe {m = m} v (gives_up c i) = gives_up-Safe m c i v
Step-Safe {m = m} v (deletes c i r k s j) = deletes-Safe m c i r k s j v
Step-Safe {m = m} v (reaps c i) = reaps-Safe m c i v
Step-Safe {m = m} v (aborts c i k) = aborts-Safe m c i k v
Step-Safe {m = m} v (kills c i) = kills-Safe m c i v
Step-Safe {m = m} v (tells c i) = tells-Safe m c i v
Step-Safe {m = m} v (cancels k) = cancels-Safe m v
Step-Safe {m = m} v rests = v

pub Reach-Safe : {m m' : Machine} → Safe m → Reach m m' → Safe m'
Reach-Safe v here = v
Reach-Safe v (next r step) = Step-Safe (Reach-Safe v r) step

-- Behind the release of the semaphore, a thread that nobody joins or deletes can be joined.
pub joinable :
    (m : Machine)
    → Safe m
    → is_given m.body ≡ true
    → m.life.completion_reaped ≡ false
    → ((c : ℕ) → is_active (m.clients c) ≡ false)
    → (m.token ≡ true) × (m.life.completion_handle ≡ true) × (m.life.join_active ≡ false)
joinable m v g r idle = (
  elim (v.takable g r) [ inl t ↦ t | inr (c, e) ↦ absurd (busy c e) ],
  ground (arith, v.present, r),
  elim (Bool-cases m.life.join_active) [
    | inl held ↦ let (c, e) = v.holder held in absurd (clash c e)
    | inr free ↦ free
  ],
)
  where
    clash : (c : ℕ) → is_active (m.clients c) ≡ true → ⊥
    clash c e = ground (arith, idle c, e)

    busy : (c : ℕ) → is_reaping (m.clients c) ≡ true → ⊥
    busy c e = ground (arith, idle c, e)
