-- ===== src/Life/Machine/Safety/Joins.antt =====
-- The steps of a join and of a deletion.
use hazel_osal.Prelude.{ℕ, ◌≡◌, refl, inr, true, false, arith}
use hazel_osal.Life.Machine.{Phase, Machine, set_life, set_client, reap_life}
use hazel_osal.Life.Machine.Safety.{Safe, keep, holding, reaper}

pub joins-Safe :
    (m : Machine) (c : ℕ)
    → m.clients c ≡ Phase.idle
    → m.life.completion_reaped ≡ false
    → m.life.join_active ≡ false
    → Safe m
    → Safe (set_client (set_life m (record m.life { join_active = true })) c Phase.joining)
joins-Safe m c i r j v = record {
  alone = λ d e x y. ground (
    arith,
    v.alone d e,
    v.shown d,
    v.shown e,
    v.alone c d,
    v.alone c e,
    v.alone d c,
    v.shown c,
    i,
    r,
    j,
  );
  shown = λ d x. ground (arith, v.shown d, v.alone d c, v.shown c, i, r, j);
  unreaped = λ d x. ground (arith, v.unreaped d, v.alone d c, v.unreaped c, i, r, j);
  present = ground (arith, v.present, i, r, j);
  token_given = λ x. ground (arith, v.token_given, i, r, j);
  signaled_given = λ x. ground (arith, v.signaled_given, v.telling_given c, i, r, j);
  reaping_given =
      λ d x. ground (arith, v.reaping_given d, v.token_given, v.signaled_given, i, r, j);
  reaped_given = λ x. ground (arith, v.reaped_given, v.reaping_given c, i, r, j);
  telling_given = λ d x. ground (arith, v.telling_given d, i, r, j);
  left_completed = λ x. ground (arith, v.left_completed, v.aborting_completed c, i, r, j);
  aborting_completed = λ d x. ground (arith, v.aborting_completed d, i, r, j);
  holder = λ x. (c, holding m.clients c Phase.joining refl);
  takable = λ x y. keep m.clients c Phase.joining m.token (rw i refl) (v.takable x y);
}

pub takes-Safe :
    (m : Machine) (c : ℕ)
    → m.clients c ≡ Phase.joining
    → m.token ≡ true
    → Safe m
    → Safe (set_client (record m { token = false }) c Phase.reaping)
takes-Safe m c i t v = record {
  alone = λ d e x y. ground (
    arith,
    v.alone d e,
    v.shown d,
    v.shown e,
    v.alone c d,
    v.alone c e,
    v.alone d c,
    v.shown c,
    i,
    t,
  );
  shown = λ d x. ground (arith, v.shown d, v.alone d c, v.shown c, i, t);
  unreaped = λ d x. ground (arith, v.unreaped d, v.alone d c, v.unreaped c, i, t);
  present = ground (arith, v.present, i, t);
  token_given = λ x. ground (arith, v.token_given, i, t);
  signaled_given = λ x. ground (arith, v.signaled_given, v.telling_given c, i, t);
  reaping_given = λ d x. ground (arith, v.reaping_given d, v.token_given, v.signaled_given, i, t);
  reaped_given = λ x. ground (arith, v.reaped_given, v.reaping_given c, i, t);
  telling_given = λ d x. ground (arith, v.telling_given d, i, t);
  left_completed = λ x. ground (arith, v.left_completed, v.aborting_completed c, i, t);
  aborting_completed = λ d x. ground (arith, v.aborting_completed d, i, t);
  holder = λ x. (c, holding m.clients c Phase.reaping refl);
  takable = λ x y. inr (c, reaper m.clients c);
}

pub gives_up-Safe :
    (m : Machine) (c : ℕ)
    → m.clients c ≡ Phase.joining
    → Safe m
    → Safe (set_client (set_life m (record m.life { join_active = false })) c Phase.idle)
gives_up-Safe m c i v = record {
  alone = λ d e x y. ground (
    arith,
    v.alone d e,
    v.shown d,
    v.shown e,
    v.alone c d,
    v.alone c e,
    v.alone d c,
    v.shown c,
    i,
  );
  shown = λ d x. ground (arith, v.shown d, v.alone d c, v.shown c, i);
  unreaped = λ d x. ground (arith, v.unreaped d, v.alone d c, v.unreaped c, i);
  present = ground (arith, v.present, i);
  token_given = λ x. ground (arith, v.token_given, i);
  signaled_given = λ x. ground (arith, v.signaled_given, v.telling_given c, i);
  reaping_given = λ d x. ground (arith, v.reaping_given d, v.token_given, v.signaled_given, i);
  reaped_given = λ x. ground (arith, v.reaped_given, v.reaping_given c, i);
  telling_given = λ d x. ground (arith, v.telling_given d, i);
  left_completed = λ x. ground (arith, v.left_completed, v.aborting_completed c, i);
  aborting_completed = λ d x. ground (arith, v.aborting_completed d, i);
  holder = λ x. cc;
  takable = λ x y. keep m.clients c Phase.idle m.token (rw i refl) (v.takable x y);
}

pub deletes-Safe :
    (m : Machine) (c : ℕ)
    → m.clients c ≡ Phase.idle
    → m.life.completion_reaped ≡ false
    → m.life.completed ≡ true
    → m.life.completion_signaled ≡ true
    → m.life.join_active ≡ false
    → Safe m
    → Safe (set_client (set_life m (record m.life { join_active = true })) c Phase.reaping)
deletes-Safe m c i r k s j v = record {
  alone = λ d e x y. ground (
    arith,
    v.alone d e,
    v.shown d,
    v.shown e,
    v.alone c d,
    v.alone c e,
    v.alone d c,
    v.shown c,
    i,
    r,
    k,
    s,
    j,
  );
  shown = λ d x. ground (arith, v.shown d, v.alone d c, v.shown c, i, r, k, s, j);
  unreaped = λ d x. ground (arith, v.unreaped d, v.alone d c, v.unreaped c, i, r, k, s, j);
  present = ground (arith, v.present, i, r, k, s, j);
  token_given = λ x. ground (arith, v.token_given, i, r, k, s, j);
  signaled_given = λ x. ground (arith, v.signaled_given, v.telling_given c, i, r, k, s, j);
  reaping_given =
      λ d x. ground (arith, v.reaping_given d, v.token_given, v.signaled_given, i, r, k, s, j);
  reaped_given = λ x. ground (arith, v.reaped_given, v.reaping_given c, i, r, k, s, j);
  telling_given = λ d x. ground (arith, v.telling_given d, i, r, k, s, j);
  left_completed = λ x. ground (arith, v.left_completed, v.aborting_completed c, i, r, k, s, j);
  aborting_completed = λ d x. ground (arith, v.aborting_completed d, i, r, k, s, j);
  holder = λ x. (c, holding m.clients c Phase.reaping refl);
  takable = λ x y. inr (c, reaper m.clients c);
}

pub reaps-Safe :
    (m : Machine) (c : ℕ)
    → m.clients c ≡ Phase.reaping
    → Safe m
    → Safe (set_client (set_life m (reap_life m.life)) c Phase.idle)
reaps-Safe m c i v = record {
  alone = λ d e x y. ground (
    arith,
    v.alone d e,
    v.shown d,
    v.shown e,
    v.alone c d,
    v.alone c e,
    v.alone d c,
    v.shown c,
    i,
  );
  shown = λ d x. ground (arith, v.shown d, v.alone d c, v.shown c, i);
  unreaped = λ d x. ground (arith, v.unreaped d, v.alone d c, v.unreaped c, i);
  present = ground (arith, v.present, i);
  token_given = λ x. ground (arith, v.token_given, i);
  signaled_given = λ x. ground (arith, v.signaled_given, v.telling_given c, i);
  reaping_given = λ d x. ground (arith, v.reaping_given d, v.token_given, v.signaled_given, i);
  reaped_given = λ x. ground (arith, v.reaped_given, v.reaping_given c, i);
  telling_given = λ d x. ground (arith, v.telling_given d, i);
  left_completed = λ x. ground (arith, v.left_completed, v.aborting_completed c, i);
  aborting_completed = λ d x. ground (arith, v.aborting_completed d, i);
  holder = λ x. cc;
  takable = λ x y. cc;
}
