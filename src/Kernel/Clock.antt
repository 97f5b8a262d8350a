-- ===== src/Kernel/Clock.antt =====
-- xv6/kernel/trap.c: `clockintr`, and what `usertrap` and `kerneltrap` do after a timer interrupt, for
-- each of the three schedulers that a build selects. The next timer interrupt is asked for in a
-- register of the device, which is not modelled.
pub mod Boost
use mp.Prelude.{
  ℕ, zero, suc, ◌+◌, ◌%◌, Bool, true, false, ◌&&◌, Option, none, some, ◌==◌, if◌then◌else◌,
}
use mp.Kernel.Proc.{Machine, u32}
use mp.Kernel.Mlfq.{yield, mlfq_tick, mlfq_boost, update_time}
use mp.Kernel.Sleep.{wakeup}

pub data Policy : Type 0 where
  round_robin fifo mlfq : Policy

abbrev pub is_mlfq : Policy → Bool
is_mlfq Policy.mlfq = true
is_mlfq _ = false

-- `ticks++; wakeup(&ticks);` under `tickslock`; `ticks_chan` is the address of `ticks`.
unfoldable pub advance : ℕ → Machine → Machine
unfolding wakeup
advance ticks_chan m = record m { ticks = u32 (m.ticks + 1); procs = wakeup ticks_chan m.procs }

unfoldable pub boost_due : Policy → Machine → Machine
unfolding mlfq_boost
boost_due policy m = if is_mlfq policy && m.ticks % 48 == 0 then mlfq_boost m else m

unfoldable pub clockintr : Policy → ℕ → ℕ → Machine → Machine
unfolding advance update_time boost_due
clockintr policy ticks_chan cpu m =
    if cpu == 0 then boost_due policy (update_time (advance ticks_chan m)) else m

-- After a timer interrupt on a CPU that runs the process of slot `me`, if any. The flag says that
-- the CPU is given up.
unfoldable pub timer_preempt : Policy → Option ℕ → Machine → Option (Machine × Bool)
unfolding mlfq_tick yield
timer_preempt Policy.fifo me m = some (m, false)
timer_preempt Policy.mlfq me m = mlfq_tick me m
timer_preempt Policy.round_robin none m = some (m, false)
timer_preempt Policy.round_robin (some me) m = some (record m { procs = yield me m.procs }, true)
