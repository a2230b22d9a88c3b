-- ===== src/Life/Machine/Safety/Aborts.antt =====
-- The steps of an abort by a client.
use hazel_osal.Prelude.{ℕ, ◌≡◌, refl, inl, true, false, arith}
use hazel_osal.Life.Machine.{Body, Phase, Machine, set_life, set_client, abort_life}
use hazel_osal.Life.Machine.Safety.{Safe, keep, keep_active}

pub aborts-Safe :
    (m : Machine) (c : ℕ)
    → m.clients c ≡ Phase.idle
    → m.life.completed ≡ false
    → Safe m
    → Safe (set_client (set_life m (abort_life m.life)) c Phase.killing)
aborts-Safe m c i k v = record {
  alone = λ d e x y. ground (
    arith,
    v.alone d e,
    v.shown d,
    v.shown e,
    v.alone c d,
    v.alone c e,
    v.alone d c,
    v.shown c,
    i,
    k,
  );
  shown = λ d x. ground (arith, v.shown d, v.alone d c, v.shown c, i, k);
  unreaped = λ d x. ground (arith, v.unreaped d, v.alone d c, v.unreaped c, i, k);
  present = ground (arith, v.present, i, k);
  token_given = λ x. ground (arith, v.token_given, i, k);
  signaled_given = λ x. ground (arith, v.signaled_given, v.telling_given c, i, k);
  reaping_given = λ d x. ground (arith, v.reaping_given d, v.token_given, v.signaled_given, i, k);
  reaped_given = λ x. ground (arith, v.reaped_given, v.reaping_given c, i, k);
  telling_given = λ d x. ground (arith, v.telling_given d, i, k);
  left_completed = λ x. ground (arith, v.left_completed, v.aborting_completed c, i, k);
  aborting_completed = λ d x. ground (arith, v.aborting_completed d, i, k);
  holder = λ x. keep_active m.clients c Phase.killing (rw i refl) (v.holder x);
  takable = λ x y. keep m.clients c Phase.killing m.token (rw i refl) (v.takable x y);
}

pub kills-Safe :
    (m : Machine) (c : ℕ)
    → m.clients c ≡ Phase.killing
    → Safe m
    → Safe (set_client (record m { token = true; body = Body.ended }) c Phase.telling)
kills-Safe m c i v = record {
  alone = λ d e x y. ground (
    arith,
    v.alone d e,
    v.shown d,
    v.shown e,
    v.alone c d,
    v.alone c e,
    v.alone d c,
    v.shown c,
    i,
  );
  shown = λ d x. ground (arith, v.shown d, v.alone d c, v.shown c, i);
  unreaped = λ d x. ground (arith, v.unreaped d, v.alone d c, v.unreaped c, i);
  present = ground (arith, v.present, i);
  token_given = λ x. ground (arith, v.token_given, i);
  signaled_given = λ x. ground (arith, v.signaled_given, v.telling_given c, i);
  reaping_given = λ d x. ground (arith, v.reaping_given d, v.token_given, v.signaled_given, i);
  reaped_given = λ x. ground (arith, v.reaped_given, v.reaping_given c, i);
  telling_given = λ d x. ground (arith, v.telling_given d, i);
  left_completed = λ x. ground (arith, v.left_completed, v.aborting_completed c, i);
  aborting_completed = λ d x. ground (arith, v.aborting_completed d, i);
  holder = λ x. keep_active m.clients c Phase.telling (rw i refl) (v.holder x);
  takable = λ x y. inl refl;
}

pub tells-Safe :
    (m : Machine) (c : ℕ)
    → m.clients c ≡ Phase.telling
    → Safe m
    → Safe (set_client (set_life m (record m.life { completion_signaled = true })) c Phase.idle)
tells-Safe m c i v = record {
  alone = λ d e x y. ground (
    arith,
    v.alone d e,
    v.shown d,
    v.shown e,
    v.alone c d,
    v.alone c e,
    v.alone d c,
    v.shown c,
    i,
  );
  shown = λ d x. ground (arith, v.shown d, v.alone d c, v.shown c, i);
  unreaped = λ d x. ground (arith, v.unreaped d, v.alone d c, v.unreaped c, i);
  present = ground (arith, v.present, i);
  token_given = λ x. ground (arith, v.token_given, i);
  signaled_given = λ x. ground (arith, v.signaled_given, v.telling_given c, i);
  reaping_given = λ d x. ground (arith, v.reaping_given d, v.token_given, v.signaled_given, i);
  reaped_given = λ x. ground (arith, v.reaped_given, v.reaping_given c, i);
  telling_given = λ d x. ground (arith, v.telling_given d, i);
  left_completed = λ x. ground (arith, v.left_completed, v.aborting_completed c, i);
  aborting_completed = λ d x. ground (arith, v.aborting_completed d, i);
  holder = λ x. keep_active m.clients c Phase.idle (rw i refl) (v.holder x);
  takable = λ x y. keep m.clients c Phase.idle m.token (rw i refl) (v.takable x y);
}
