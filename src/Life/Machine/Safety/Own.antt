-- ===== src/Life/Machine/Safety/Own.antt =====
-- The steps of the thread itself, and its cancellation.
use hazel_osal.Prelude.{◌≡◌, refl, inl, true, false, arith}
use hazel_osal.Life.Machine.{Body, Machine, set_life, set_body, abort_life}
use hazel_osal.Life.Machine.Safety.{Safe}

pub completes-Safe :
    (m : Machine)
    → m.body ≡ Body.running
    → Safe m
    → Safe (set_body (set_life m (record m.life { completed = true })) Body.completing)
completes-Safe m b v = record {
  alone = v.alone;
  shown = v.shown;
  unreaped = v.unreaped;
  present = ground (arith, v.present, b);
  token_given = λ x. ground (arith, v.token_given, b);
  signaled_given = λ x. ground (arith, v.signaled_given, b);
  reaping_given = λ d x. ground (arith, v.reaping_given d, b);
  reaped_given = λ x. ground (arith, v.reaped_given, b);
  telling_given = λ d x. ground (arith, v.telling_given d, b);
  left_completed = λ x. ground (arith, v.left_completed, b);
  aborting_completed = λ d x. ground (arith, v.aborting_completed d, b);
  holder = λ x. v.holder x;
  takable = λ x y. cc;
}

pub gives-Safe :
    (m : Machine)
    → m.body ≡ Body.completing
    → Safe m
    → Safe (record m { token = true; body = Body.signaling })
gives-Safe m b v = record {
  alone = v.alone;
  shown = v.shown;
  unreaped = v.unreaped;
  present = ground (arith, v.present, b);
  token_given = λ x. ground (arith, v.token_given, b);
  signaled_given = λ x. ground (arith, v.signaled_given, b);
  reaping_given = λ d x. ground (arith, v.reaping_given d, b);
  reaped_given = λ x. ground (arith, v.reaped_given, b);
  telling_given = λ d x. ground (arith, v.telling_given d, b);
  left_completed = λ x. ground (arith, v.left_completed, b);
  aborting_completed = λ d x. ground (arith, v.aborting_completed d, b);
  holder = λ x. v.holder x;
  takable = λ x y. inl refl;
}

pub signals-Safe :
    (m : Machine)
    → m.body ≡ Body.signaling
    → Safe m
    → Safe (set_body (set_life m (record m.life { completion_signaled = true })) Body.ended)
signals-Safe m b v = record {
  alone = v.alone;
  shown = v.shown;
  unreaped = v.unreaped;
  present = ground (arith, v.present, b);
  token_given = λ x. ground (arith, v.token_given, b);
  signaled_given = λ x. ground (arith, v.signaled_given, b);
  reaping_given = λ d x. ground (arith, v.reaping_given d, b);
  reaped_given = λ x. ground (arith, v.reaped_given, b);
  telling_given = λ d x. ground (arith, v.telling_given d, b);
  left_completed = λ x. ground (arith, v.left_completed, b);
  aborting_completed = λ d x. ground (arith, v.aborting_completed d, b);
  holder = λ x. v.holder x;
  takable = λ x y. v.takable (rw b refl) y;
}

pub aborts_itself-Safe :
    (m : Machine)
    → m.body ≡ Body.running
    → m.life.completed ≡ false
    → Safe m
    → Safe (set_body (set_life m (abort_life m.life)) Body.completing)
aborts_itself-Safe m b n v = record {
  alone = v.alone;
  shown = v.shown;
  unreaped = v.unreaped;
  present = ground (arith, v.present, b, n);
  token_given = λ x. ground (arith, v.token_given, b, n);
  signaled_given = λ x. ground (arith, v.signaled_given, b, n);
  reaping_given = λ d x. ground (arith, v.reaping_given d, b, n);
  reaped_given = λ x. ground (arith, v.reaped_given, b, n);
  telling_given = λ d x. ground (arith, v.telling_given d, b, n);
  left_completed = λ x. ground (arith, v.left_completed, b, n);
  aborting_completed = λ d x. ground (arith, v.aborting_completed d, b, n);
  holder = λ x. v.holder x;
  takable = λ x y. cc;
}

pub cancels-Safe :
    (m : Machine) → Safe m → Safe (set_life m (record m.life { cancel_requested = true }))
cancels-Safe m v = record {
  alone = v.alone;
  shown = v.shown;
  holder = v.holder;
  unreaped = v.unreaped;
  present = v.present;
  token_given = v.token_given;
  signaled_given = v.signaled_given;
  reaping_given = v.reaping_given;
  reaped_given = v.reaped_given;
  telling_given = v.telling_given;
  left_completed = v.left_completed;
  aborting_completed = v.aborting_completed;
  takable = v.takable;
}
