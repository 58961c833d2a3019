-- ===== src/Hlc/Ticks.antt =====
-- The clock: what it issues grows, and passes what it has observed.
use redgeo.Base.{ℤ, ◌≤ℤ◌, ◌+◌, ◌<◌, ◌≡◌, true, arith, u32_mod}
use redgeo.Hlc.{Stamp, Clock, compare_stamp, less, now, observe}

-- Now issues a stamp after the last one, whatever the wall clock reads, unless the logical counter
-- is at the last value of its type; and never one whose wall clock is behind the reading.
pub now-less :
    (pt : ℤ) (c : Clock)
    → c.last.logical + 1 < u32_mod
    → (less c.last (now pt c).last ≡ true) × (pt ≤ℤ (now pt c).last.wall_ms)
unfolding now less compare_stamp
now-less pt c h = (ground arith, ground arith)

-- At the last value of the counter, with a wall clock that has not moved on, Now goes back.
pub now_wraps :
    (pt : ℤ) (c : Clock)
    → c.last.logical + 1 ≡ u32_mod
    → pt ≤ℤ c.last.wall_ms
    → less (now pt c).last c.last ≡ true
unfolding now less compare_stamp
now_wraps pt c h p = ground arith

-- After Observe the clock is past the remote stamp and past its own last one, unless one of their
-- logical counters is at the last value of its type.
pub observe-less :
    (pt : ℤ) (remote : Stamp) (c : Clock)
    → c.last.logical + 1 < u32_mod
    → remote.logical + 1 < u32_mod
    → (less c.last (observe pt remote c).last ≡ true)
      × (less remote (observe pt remote c).last ≡ true)
unfolding observe less compare_stamp
observe-less pt remote c h k = (ground arith, ground arith)
