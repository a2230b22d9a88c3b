-- ===== src/Errno.antt =====
-- The status codes of include/hazel_wireless/kernel.h and the `int` that most calls return.
use hazel_osal.Prelude.{ℕ, zero, Bool, true, false}

pub data Errno : Type 0 where
  einval eagain enomem ebusy eperm etimedout edeadlk : Errno
  enospc enodev ecanceled ealready enotsup eio : Errno

-- `#define EWOULDBLOCK EAGAIN`
abbrev pub ewouldblock : Errno
ewouldblock = eagain

-- `ok n` is the return value n, `err e` is -e.
pub data Result : Type 0 where
  ok : ℕ → Result
  err : Errno → Result

-- `result == 0`
abbrev pub is_zero : Result → Bool
is_zero (ok zero) = true
is_zero _ = false

-- `OS_WAIT_FOREVER`, which is `UINT32_MAX`
abbrev pub wait_forever : ℕ
wait_forever = 0xffff_ffff
