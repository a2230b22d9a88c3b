-- ===== src/Work/Waits/Missed.antt =====
-- Calls of `os_work_flush` that are not woken: a later submission that completes before the call
-- looks, and a second call on the same item.
use hazel_osal.Prelude.{ℕ, ◌^◌, ◌<◌, ◌≡◌, refl, Bool, true, false, Option, [], ◌==◌, arith}
use hazel_osal.Errno.{ok, wait_forever}
use hazel_osal.Sem.{SemOps, IsSemaphore}
use hazel_osal.Work.{Sys, notify}
use hazel_osal.Work.Submit.{submit_link, is_closed, linked}
use hazel_osal.Work.Cancel.{flush_ends}
use hazel_osal.Work.Worker.{begin, begin_with, finish, finish_notify}
use hazel_osal.Work.Waits.{flush_waits, returned, advance, resume, take_sync}

module _ {Sem : Type 0} {o : SemOps Sem} {bound : ℕ} (law : IsSemaphore o bound) where
  -- The semaphore of an item that is notified once, or twice, and then taken.
  give-take-one :
      (sem : Sem)
      → o.live sem ≡ true
      → o.limit sem ≡ 1
      → o.count sem ≡ 0
      → o.count (o.take false (o.give false sem) wait_forever).1 ≡ 0
  give-take-one sem v l e =
      let g = law.give_live false sem v in
      (law.take_some false (o.give false sem) wait_forever 0 g.alive refl (ground arith)).1.tokens

  give-give-take :
      (sem : Sem)
      → o.live sem ≡ true
      → o.limit sem ≡ 1
      → o.count sem ≡ 0
      → o.count (o.take false (o.give false (o.give false sem)) wait_forever).1 ≡ 0
  give-give-take sem v l e =
      let g = law.give_live false sem v in
      let h = law.give_live false (o.give false sem) g.alive in
      (law.take_some false (o.give false (o.give false sem)) wait_forever 0 h.alive refl
        (ground arith)).1.tokens

  -- Let an item run as the current one of a queue with an empty list, and let a call of
  -- os_work_flush wait for the submission that runs. If the item is submitted again, and the
  -- worker ends both runs before the call goes on, then the item is neither running nor queued nor
  -- being canceled, the call finds another submission completed, and the semaphore of the item has
  -- no token once the call has taken the one of the notifications.
  pub flush-misses :
      (self : Option ℕ) (s : Sys Sem) (q w target : ℕ)
      → (w == 0) ≡ false
      → (s.works w).sync_initialized ≡ true
      → o.live (s.works w).sync ≡ true
      → o.limit (s.works w).sync ≡ 1
      → o.count (s.works w).sync ≡ 0
      → (s.queues q).list ≡ []
      → (s.works w).running_id ≡ target
      → (s.works w).submission_id ≡ target
      → target < 2 ^ 32
      → (submit_link self s q w).0 ≡ ok 2
      → let first = finish_notify o (submit_link self s q w).1 q w in
        let second = finish_notify o (begin first q).1 q w in
        ((second.works w).flags.running ≡ false)
        × ((second.works w).flags.queued ≡ false)
        × ((second.works w).flags.canceling ≡ false)
        × (flush_ends second w target ≡ false)
        × (o.count ((take_sync o second w).works w).sync ≡ 0)
  unfolding finish_notify notify finish begin begin_with submit_link linked is_closed flush_ends
      take_sync
  flush-misses self s q w target n i v l e empty run sub lt done =
      ground (arith, give-give-take (s.works w).sync v l e, empty)

  -- Let two calls of os_work_flush wait for the submission of an item that runs, with no token in
  -- the semaphore of the item. Once the handler has returned and the item has been notified, the
  -- first call takes the token and returns; then what the second one waits for has come too, and the
  -- semaphore has no token for it.
  pub second-stuck :
      (self : Option ℕ) (s : Sys Sem) (q w target : ℕ) (waited : Bool)
      → (s.works w).sync_initialized ≡ true
      → o.live (s.works w).sync ≡ true
      → o.limit (s.works w).sync ≡ 1
      → o.count (s.works w).sync ≡ 0
      → (s.works w).running_id ≡ target
      → let (p, s') =
          advance o self
            (take_sync o (finish_notify o s q w) w)
            (resume (flush_waits w target waited)) in
        (p ≡ returned waited) × (flush_ends s' w target ≡ true) × (o.count (s'.works w).sync ≡ 0)
  unfolding finish_notify notify finish flush_ends take_sync advance resume
  second-stuck self s q w target waited i v l e run =
      ground (arith, give-take-one (s.works w).sync v l e)
