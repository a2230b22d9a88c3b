-- ===== src/Rtthread/Mutex/Closed.antt =====
-- A mutex of RT-Thread that os_mutex_deinit has given back.
use hazel_osal.Prelude.{
  ℕ, ◌≡◌, refl, sym, subst, inl, inr, Bool, false, ◌||◌, some, arith, Bool-cases,
}
use hazel_osal.Errno.{ok, err, einval}
use hazel_osal.Rtthread.Mutex.{RtMutex, Mutex, zero, deinit, lock, trylock, unlock}

deinit-ok :
    {Storage : Type 0} (k : RtMutex Storage) (m : Mutex Storage) (q : Storage)
    → m.handle ≡ some q
    → (deinit k false m).0 ≡ ok 0
    → (k.owned q ≡ false) × (k.waiters q ≡ false) × ((deinit k false m).1 ≡ zero k)
unfolding deinit
deinit-ok k m q e h = elim (Bool-cases m.initialized) [
  | inr bare ↦ let h' = rw (e, bare, deinit) at h in cc
  | inl made ↦ elim (Bool-cases (k.owned q || k.waiters q)) [
    | inl busy ↦ let h' = rw (e, made, busy, deinit) at h in cc
    | inr idle ↦ elim (Bool-cases (k.mutex_detach q)) [
      | inr kept ↦ let h' = rw (e, made, idle, kept, deinit) at h in cc
      | inl gone ↦
          (ground (arith, idle), ground (arith, idle), rw (e, made, idle, gone, deinit) refl)
    ]
  ]
]

-- If os_mutex_deinit succeeds, then nobody owned the kernel object or waited for it, and each later
-- call returns -EINVAL.
pub deinit-closed :
    {Storage : Type 0} (k : RtMutex Storage) (m : Mutex Storage) (q : Storage)
    → m.handle ≡ some q
    → (deinit k false m).0 ≡ ok 0
    → let closed = (deinit k false m).1 in
      (k.owned q ≡ false)
      × (k.waiters q ≡ false)
      × ((isr : Bool) (self timeout : ℕ)
          → ((lock k isr closed self timeout).0 ≡ err einval)
            × ((trylock k isr closed self).0 ≡ err einval)
            × ((unlock k isr closed self).0 ≡ err einval)
            × ((deinit k isr closed).0 ≡ err einval))
unfolding lock trylock unlock deinit
deinit-closed k m q e h =
    let (free, alone, z) = deinit-ok k m q e h in
    (
      free,
      alone,
      λ isr self timeout.
          subst
            (λ closed.
              ((lock k isr closed self timeout).0 ≡ err einval)
              × ((trylock k isr closed self).0 ≡ err einval)
              × ((unlock k isr closed self).0 ≡ err einval)
              × ((deinit k isr closed).0 ≡ err einval))
            (sym z) (refl, refl, refl, refl),
    )
