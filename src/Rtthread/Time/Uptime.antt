-- ===== src/Rtthread/Time/Uptime.antt =====
-- `os_uptime_get` extends the 32-bit tick counter to 64 bits.
use hazel_osal.Prelude.{ℕ, ◌+◌, ◌%◌, ◌^◌, ◌≤◌, ◌<◌, ◌≡◌, arith}
use hazel_osal.Rtthread.Time.{Clock, uptime_ticks}

-- The variables stand for the time `t`, counted in ticks from the start.
abbrev pub Tracks : Clock → ℕ → Type 0
Tracks c t = (c.epoch + c.previous ≡ t) × (c.epoch % 2 ^ 32 ≡ 0) × (c.previous < 2 ^ 32)

-- On RT-Thread, if the static variables of os_uptime_get stand for a time, a call at a later time,
-- less than 2^32 ticks after and below 2^64, finds that time from the 32-bit counter, and leaves
-- variables that stand for it.
pub uptime_ticks-Tracks :
    (c : Clock) (t t' : ℕ)
    → Tracks c t
    → t ≤ t'
    → t' < t + 0x1_0000_0000
    → t' < 0x1_0000_0000_0000_0000
    → ((uptime_ticks c (t' % 2 ^ 32)).0 ≡ t') × Tracks (uptime_ticks c (t' % 2 ^ 32)).1 t'
unfolding uptime_ticks
uptime_ticks-Tracks c t t' v after soon small = ground arith

-- On RT-Thread, if a call of os_uptime_get has read the tick counter, and another call that reads
-- a later tick, not before the last one that is stored, is done before the first one enters its
-- critical section, then the first call finds a time that is 2^32 ticks too late, as long as the
-- sums stay below 2^64.
pub uptime_ticks-stale :
    (c : Clock) (early late : ℕ)
    → c.previous ≤ late
    → early < late
    → late < 2 ^ 32
    → c.epoch + 2 ^ 33 < 2 ^ 64
    → ((uptime_ticks c late).0 ≡ c.epoch + late)
      × ((uptime_ticks (uptime_ticks c late).1 early).0 ≡ c.epoch + 2 ^ 32 + early)
unfolding uptime_ticks
uptime_ticks-stale c early late p lt small room = (ground arith, ground arith)
