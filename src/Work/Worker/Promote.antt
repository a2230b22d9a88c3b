-- ===== src/Work/Worker/Promote.antt =====
-- The loop of `os_work_promote_delayed`.
use hazel_osal.Prelude.{
  ℕ, zero, suc, ◌+◌, ◌-◌, ◌%◌, ◌^◌, ◌≤◌, ◌<◌, ◌≡◌, ◌⊎◌, refl, ap, sym, subst, ◌∙◌, inl, inr, Bool,
  true, false, ◌||◌, ◌&&◌, not, Option, none, some, List, [], ◌∷◌, ltb, leb, ◌==◌, if◌then◌else◌,
  length, arith, Bool-cases, Option-cases,
}
use hazel_osal.Prelude.Ids.{has, Every, length-remove}
use hazel_osal.Errno.{wait_forever}
use hazel_osal.Sem.{SemOps}
use hazel_osal.Work.{Sys, deadline_remaining, notify, give_items}
use hazel_osal.Work.Submit.{submit_link, submit_to, submit_to_queue, linked}
use hazel_osal.Work.Submit.Link.{refuses, submit_link-refuses, submit_link-takes}
use hazel_osal.Work.Worker.{scan, promote_unlink, promote_submit, promote_delayed}

-- For a delay of at most INT32_MAX ticks, the remaining time to the deadline is the delay less the
-- ticks that have passed, or zero when as many have passed, also when the tick counter wraps
-- around; this holds until 2^31 ticks after the deadline.
pub deadline_remaining-elapsed :
    (now delay e : ℕ)
    → delay ≤ 0x7fff_ffff
    → e ≤ delay + 0x8000_0000
    → deadline_remaining ((now + delay) % 2 ^ 32) ((now + e) % 2 ^ 32) ≡ delay - e
unfolding deadline_remaining
deadline_remaining-elapsed now delay e d h = ground arith

deadline_remaining_le : (deadline now : ℕ) → deadline_remaining deadline now ≤ 0x7fff_ffff
unfolding deadline_remaining
deadline_remaining_le deadline now = ground arith

module _ {Sem : Type 0} where
  unfoldable pub remaining : Sys Sem → ℕ → ℕ → ℕ
  remaining s now w = deadline_remaining (s.works w).deadline now

  -- The timeout after the item `w`.
  unfoldable sooner : Sys Sem → (now w timeout : ℕ) → ℕ
  unfolding remaining
  sooner s now w timeout =
      if timeout == wait_forever || ltb (remaining s now w) timeout
      then remaining s now w
      else timeout

  sooner_le :
      (s : Sys Sem) (now w t : ℕ)
      → t ≤ 0xffff_ffff
      → (sooner s now w t ≤ t)
        × (sooner s now w t ≤ remaining s now w)
        × ((sooner s now w t ≡ t) ⊎ (sooner s now w t ≡ remaining s now w))
  unfolding sooner remaining
  sooner_le s now w t b = ground (arith, deadline_remaining_le (s.works w).deadline now)

  -- The item that the loop stops at is on the list and due.
  scan-due :
      (s : Sys Sem) (now : ℕ) (l : List ℕ) (t w : ℕ)
      → (scan s now l t).0 ≡ some w
      → (has w l ≡ true) × (remaining s now w ≡ 0)
  unfolding scan remaining sooner
  scan-due s now [] t w e = cc
  scan-due s now (x ∷ l) t w e = elim (Bool-cases (remaining s now x == 0)) [
    | inl due ↦ ground arith
    | inr later ↦ ground (arith, scan-due s now l (sooner s now x t) w)
  ]

  -- The timeout is the least time to a deadline, of those on the list and the one before it.
  abbrev pub IsLeast : Sys Sem → ℕ → List ℕ → ℕ → ℕ → Type 0
  IsLeast s now l t timeout =
      Every (λ w. leb timeout (remaining s now w) && not (remaining s now w == 0)) l
      × (timeout ≤ t)
      × ((timeout ≡ t) ⊎ ((w : ℕ) × (has w l ≡ true) × (timeout ≡ remaining s now w)))

  scan-later :
      (s : Sys Sem) (now x : ℕ) (l : List ℕ) (t : ℕ)
      → (remaining s now x == 0) ≡ false
      → scan s now (x ∷ l) t ≡ scan s now l (sooner s now x t)
  unfolding scan remaining sooner
  scan-later s now x l t later = rw later refl

  IsLeast-cons :
      (s : Sys Sem) (now x : ℕ) (l : List ℕ) (t timeout : ℕ)
      → t ≤ 0xffff_ffff
      → (remaining s now x == 0) ≡ false
      → IsLeast s now l (sooner s now x t) timeout
      → IsLeast s now (x ∷ l) t timeout
  IsLeast-cons s now x l t timeout b later (every, le, from) =
      let (le_t, le_x, is) = sooner_le s now x t b in
      (
        (ground arith, every),
        omega (arith, le, le_t),
        elim from [
          | inl e ↦ elim is [ inl e' ↦ inl (e ∙ e') | inr e' ↦ inr (x, ground arith, e ∙ e') ]
          | inr (w, h, e) ↦ inr (w, ground arith, e)
        ],
      )

  scan-IsLeast :
      (s : Sys Sem) (now : ℕ) (l : List ℕ) (t : ℕ)
      → t ≤ 0xffff_ffff
      → (scan s now l t).0 ≡ none
      → IsLeast s now l t (scan s now l t).1
  unfolding scan remaining
  scan-IsLeast s now [] t b e = (tt, omega arith, inl refl)
  scan-IsLeast s now (x ∷ l) t b e = elim (Bool-cases (remaining s now x == 0)) [
    | inl due ↦ ground arith
    | inr later ↦
        subst (λ r. IsLeast s now (x ∷ l) t r.1) (sym (scan-later s now x l t later))
          (IsLeast-cons s now x l t _ b later (
            scan-IsLeast s now l (sooner s now x t) (omega (arith, b, (sooner_le s now x t b).0))
              (rw (scan-later s now x l t later) at e)))
  ]

module _ {Sem : Type 0} (o : SemOps Sem) where
  submit_link-delayed :
      (self : Option ℕ) (s : Sys Sem) (q w q' : ℕ)
      → ((submit_link self s q w).1.queues q').delayed ≡ (s.queues q').delayed
  unfolding linked
  submit_link-delayed self s q w q' = elim (Bool-cases (refuses self s q w)) [
    | inl refused ↦ rw (submit_link-refuses self s q w refused) refl
    | inr free ↦ rw (ap (λ r. r.1) (submit_link-takes self s q w free)) (ground arith)
  ]

  submit_to-delayed :
      (isr : Bool) (self queue : Option ℕ) (s : Sys Sem) (w q' : ℕ)
      → ((submit_to o isr self s w queue).1.queues q').delayed ≡ (s.queues q').delayed
  unfolding submit_to give_items
  submit_to-delayed isr self none s w q' = refl
  submit_to-delayed isr self (some q) s w q' = ground (arith, submit_link-delayed self s q w q')

  promote_submit-delayed :
      (s : Sys Sem) (q w : ℕ) (blocked : Bool)
      → ((promote_submit o s q w blocked).queues q).delayed ≡ (s.queues q).delayed
  unfolding promote_submit submit_to_queue notify
  promote_submit-delayed s q w blocked =
      ground (arith, submit_to-delayed false (some q) (some q) s w q)

  promote_unlink-length :
      (s : Sys Sem) (q w : ℕ)
      → has w (s.queues q).delayed ≡ true
      → length (s.queues q).delayed ≡ suc (length ((promote_unlink s q w).queues q).delayed)
  unfolding promote_unlink
  promote_unlink-length s q w h = ground (arith, length-remove w (s.queues q).delayed h)

  promote_round-length :
      (s : Sys Sem) (q w : ℕ) (blocked : Bool)
      → has w (s.queues q).delayed ≡ true
      → length (s.queues q).delayed
        ≡ suc (length ((promote_submit o (promote_unlink s q w) q w blocked).queues q).delayed)
  promote_round-length s q w blocked h =
      promote_unlink-length s q w h
      ∙ ap (λ l. suc (length l)) (sym (promote_submit-delayed (promote_unlink s q w) q w blocked))

  -- What the loop leaves, if it starts with `n` delayed items at the round `round`: as many rounds
  -- have gone on as items have left the list, and in the round `last` after them no delayed item is
  -- due, with the timeout for it.
  abbrev pub IsPromoted : ℕ → (ℕ → ℕ) → (round n : ℕ) → ℕ × Sys Sem → Type 0
  IsPromoted q clock round n (timeout, s) =
      (last : ℕ) × (last + length (s.queues q).delayed ≡ round + n)
      × IsLeast s (clock last) (s.queues q).delayed wait_forever timeout

  -- os_work_promote_delayed ends within one round for each delayed item and one more, whatever the
  -- tick counter does, and each of its rounds but the last takes one item off the list of delayed
  -- ones. What it leaves: at the tick of that last round, no delayed item of the queue is due, and
  -- the timeout is at most the time to each deadline and either the time to one of them or
  -- OS_WAIT_FOREVER.
  pub promote_delayed-total :
      (fuel : ℕ) (s : Sys Sem) (q : ℕ) (clock : ℕ → ℕ) (round : ℕ)
      → length (s.queues q).delayed < fuel
      → (r : ℕ × Sys Sem) × (promote_delayed o fuel s q clock round ≡ some r)
        × IsPromoted q clock round (length (s.queues q).delayed) r
  unfolding promote_delayed
  promote_delayed-total zero s q clock round h = absurd (omega arith)
  promote_delayed-total (suc fuel) s q clock round h =
      let found = scan s (clock round) (s.queues q).delayed wait_forever in
      elim (Option-cases found.0) [
        | inl e ↦ (
          (found.1, s),
          rw (e, promote_delayed) refl,
          (
            round,
            refl,
            scan-IsLeast s (clock round) (s.queues q).delayed wait_forever (omega arith) e,
          ),
        )
        | inr (w, e) ↦
            let there = (scan-due s (clock round) (s.queues q).delayed wait_forever w e).0 in
            let blocked = (s.queues q).plugged || (s.queues q).stopping in
            let s' = promote_submit o (promote_unlink s q w) q w blocked in
            let less = promote_round-length s q w blocked there in
            let (r, p, (last, rounds, least)) =
              promote_delayed-total fuel s' q clock (round + 1) (omega (arith, h, less)) in
            (r, rw (e, promote_delayed) p, (last, omega (arith, rounds, less), least))
      ]
