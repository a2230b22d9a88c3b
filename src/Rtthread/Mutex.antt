-- ===== src/Rtthread/Mutex.antt =====
-- src/osal_rtthread/mutex.c over the mutexes of RT-Thread (rtthread.h). The name that `os_mutex_init`
-- generates only labels the kernel object.
pub mod Closed
use hazel_osal.Prelude.{ℕ, Bool, true, false, ◌||◌, not, Option, none, some, ◌==◌, if◌then◌else◌}
use hazel_osal.Errno.{Result, ok, err, einval, ebusy, eperm, etimedout, ewouldblock}
use hazel_osal.Prelude.Int.{ℤ}
use hazel_osal.Rtthread.Priority.{os_to_rt_timeout}

-- The Booleans are `result == RT_EOK`. `owned` says that the `owner` of `struct rt_mutex` is not NULL,
-- and `waiters` that its `suspend_thread` list is not empty; `self` is the thread that calls.
pub record RtMutex (Storage : Type 0) : Type 0 where
  pub mutex_init : Option Storage
  pub mutex_detach : Storage → Bool
  pub mutex_take : Storage → (self : ℕ) → (timeout : ℤ) → Bool × Storage
  pub mutex_trytake : Storage → (self : ℕ) → Bool × Storage
  pub mutex_release : Storage → (self : ℕ) → Bool × Storage
  pub owned : Storage → Bool
  pub waiters : Storage → Bool

-- `struct os_mutex`, whose handle is NULL or the address of its storage
pub record Mutex (Storage : Type 0) : Type 0 where
  pub handle : Option Storage
  pub initialized : Bool

module _ {Storage : Type 0} (k : RtMutex Storage) where
  abbrev pub zero : Mutex Storage
  zero = record { handle = none; initialized = false }

  pub init : Mutex Storage → Mutex Storage
  init m = elim k.mutex_init [
    | none ↦ zero
    | some q ↦ record { handle = some q; initialized = true }
  ]

  -- the tests that each call makes first: the kernel object, or what the call returns
  abbrev pub live : Bool → Mutex Storage → Result × Option Storage
  live isr m = elim m.handle [
    | none ↦ (err einval, none)
    | some q ↦
        if not m.initialized
        then (err einval, none)
        else if isr
        then (err ewouldblock, none)
        else (ok 0, some q)
  ]

  unfoldable pub deinit : Bool → Mutex Storage → Result × Mutex Storage
  deinit isr m =
      let (result, checked) = live isr m in
      elim checked [
        | none ↦ (result, m)
        | some q ↦
            if k.owned q || k.waiters q
            then (err ebusy, m)
            else if k.mutex_detach q
            then (ok 0, zero)
            else (err ebusy, m)
      ]

  abbrev pub put_back : Mutex Storage → Result → Bool × Storage → Result × Mutex Storage
  put_back m failure (done, q) = (if done then ok 0 else failure, record m { handle = some q })

  unfoldable pub lock : Bool → Mutex Storage → (self timeout : ℕ) → Result × Mutex Storage
  unfolding os_to_rt_timeout
  lock isr m self timeout =
      let (result, checked) = live isr m in
      elim checked [
        | none ↦ (result, m)
        | some q ↦
            put_back m (if timeout == 0 then err ebusy else err etimedout)
              (k.mutex_take q self (os_to_rt_timeout timeout))
      ]

  unfoldable pub trylock : Bool → Mutex Storage → (self : ℕ) → Result × Mutex Storage
  trylock isr m self =
      let (result, checked) = live isr m in
      elim checked [ none ↦ (result, m) | some q ↦ put_back m (err ebusy) (k.mutex_trytake q self) ]

  unfoldable pub unlock : Bool → Mutex Storage → (self : ℕ) → Result × Mutex Storage
  unlock isr m self =
      let (result, checked) = live isr m in
      elim checked [ none ↦ (result, m) | some q ↦ put_back m (err eperm) (k.mutex_release q self) ]
