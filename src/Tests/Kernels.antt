-- ===== src/Tests/Kernels.antt =====
-- Plain counting semaphores for the three kernels, which do what their documentation says.
use hazel_osal.Prelude.{ℕ, ◌+◌, ◌-◌, refl, Bool, true, false, some, ltb, ◌==◌, if◌then◌else◌, arith}
use hazel_osal.Errno.{wait_forever}
use hazel_osal.Sem.{IsSemaphore}
use hazel_osal.Freertos.Semaphore.{Semphr, ops}
use hazel_osal.Freertos.Semaphore.Contract.{IsSemphr, ops-IsSemaphore_freertos}
use hazel_osal.Rtthread.Semaphore.{RtSem}
use hazel_osal.Rtthread.Semaphore.Contract.{IsRtSem}
use hazel_osal.Zephyr.Semaphore.{KSem}
use hazel_osal.Zephyr.Semaphore.Contract.{IsKSem}

pub record Counter : Type 0 where
  pub tokens : ℕ
  pub bound : ℕ

abbrev pub down : Counter → Bool × Counter
down c = if c.tokens == 0 then (false, c) else (true, record c { tokens = c.tokens - 1 })

abbrev pub up : Counter → Counter
up c = if ltb c.tokens c.bound then record c { tokens = c.tokens + 1 } else c

abbrev pub semphr : Semphr Counter
semphr = record {
  create_counting = λ limit initial. some (record { tokens = initial; bound = limit });
  take = λ c t. down c;
  take_from_isr = down;
  give = λ c. (true, up c);
  give_from_isr = λ c. (true, up c);
  get_count = λ c. c.tokens;
  get_count_from_isr = λ c. c.tokens;
  max_delay = 0xffff_ffff;
  max_count = λ c. c.bound;
}

pub semphr-IsSemphr : IsSemphr semphr
semphr-IsSemphr = record {
  created = λ l i q e. ground arith;
  take_token = λ q t n e. ground arith;
  take_timeout = λ q t h e. ground arith;
  take_token_isr = λ q n e. ground arith;
  take_none_isr = λ q e. ground arith;
  given = λ q. ground arith;
  given_isr = λ q. ground arith;
  count_isr = λ q. refl;
}

abbrev pub rt_sem : RtSem Counter
rt_sem = record {
  sem_init = λ value. some (record { tokens = value; bound = 0xffff });
  set_vlimit = λ c limit. some (record c { bound = limit });
  sem_detach = λ c. true;
  sem_take = λ c t. down c;
  sem_trytake = down;
  sem_release = λ c. (ltb c.tokens c.bound, up c);
  value = λ c. c.tokens;
  waiters = λ c. false;
  sem_value_max = 0xffff;
  vlimit = λ c. c.bound;
}

pub rt_sem-IsRtSem : IsRtSem rt_sem
rt_sem-IsRtSem = record {
  created = λ l i q r e d. ground arith;
  take_token = λ q t n e. ground arith;
  take_timeout = λ q t p h e. ground arith;
  trytake_token = λ q n e. ground arith;
  trytake_none = λ q e. ground arith;
  released = λ q. ground arith;
}

abbrev pub k_sem : KSem Counter
k_sem = record {
  sem_init = λ initial limit. some (record { tokens = initial; bound = limit });
  sem_take = λ c t. down c;
  sem_give = up;
  sem_count_get = λ c. c.tokens;
  limit = λ c. c.bound;
}

pub k_sem-IsKSem : IsKSem k_sem
k_sem-IsKSem = record {
  created = λ l i q e. ground arith;
  take_token = λ q t n e. ground arith;
  take_timeout = λ q t h e. ground arith;
  given = λ q. ground arith;
}

pub law : IsSemaphore (ops semphr) wait_forever
law = ops-IsSemaphore_freertos semphr-IsSemphr
