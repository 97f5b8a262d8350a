-- ===== src/Kernel/Mlfq.antt =====
-- xv6/kernel/proc.c: the time slices, `mlfq_higher_runnable`, `mlfq_tick` and `mlfq_boost`, and
-- `update_time` and `yield`, which they share with the other schedulers. A loop over the table takes
-- each slot's lock for one slot at a time; a function here runs the whole loop as one step.
pub mod Slice
pub mod Tick
use mathlib.Core.Option
use mp.Prelude.{
  ℕ, zero, suc, ◌+◌, Bool, true, false, not, ◌&&◌, ◌||◌, Option, none, some, List, [], ◌∷◌, map,
  ltb, leb, ◌==◌, if◌then◌else◌, get_elem?, modify,
}
use mp.Kernel.Proc.{State, Proc, Table, Machine, u32, is_unused, is_runnable, is_running}

-- The body of `yield` before `sched()` hands the CPU to the scheduler.
unfoldable pub yield_proc : Proc → Proc
yield_proc p = record p { state = State.runnable }

unfoldable pub yield : ℕ → Table → Table
yield me procs = modify procs me yield_proc

unfoldable pub mlfq_slice : List ℕ
mlfq_slice = 1 ∷ 4 ∷ 8 ∷ 16 ∷ []

-- A RUNNABLE process in another slot than `self`, in a queue above `pri`. The count `i` is the slot
-- of the first process of the list.
unfoldable pub higher_from : ℕ → ℕ → ℕ → Table → Bool
higher_from pri self i [] = false
higher_from pri self i (q ∷ qs) =
    if not (i == self) && (is_runnable q.state && ltb q.priority pri)
    then true
    else higher_from pri self (i + 1) qs

unfoldable pub mlfq_higher_runnable : ℕ → ℕ → Table → Bool
unfolding higher_from
mlfq_higher_runnable pri self procs = higher_from pri self 0 procs

-- The part of `mlfq_tick` under `p->lock`: charges one tick, with the slice of the queue that the
-- process is in, and says whether the slice has expired.
unfoldable pub charge_slice : ℕ → Proc → ℕ → Proc × Bool
charge_slice now p slice =
    if leb slice (p.slice_used + 1)
    then (
      record p {
        priority = if ltb p.priority 3 then p.priority + 1 else p.priority;
        slice_used = 0;
        enq_time = now;
      },
      true,
    )
    else (record p { slice_used = p.slice_used + 1 }, false)

-- `none` is a read of `mlfq_slice` outside its four entries.
unfoldable pub charge : ℕ → Proc → Option (Proc × Bool)
unfolding charge_slice mlfq_slice
charge now p = Option.map (charge_slice now p) (get_elem? mlfq_slice p.priority)

-- `if (expired || mlfq_higher_runnable(pri, p)) yield();`, on the table in which the tick has been
-- charged. The flag says that the CPU is given up.
unfoldable pub preempt : ℕ → Machine → Proc × Bool → Machine × Bool
unfolding mlfq_higher_runnable yield
preempt me m (p, expired) =
    let procs = modify m.procs me (λ _. p) in
    let gives_up = expired || mlfq_higher_runnable p.priority me procs in
    (record m { procs = if gives_up then yield me procs else procs }, gives_up)

-- `myproc()` is null where the CPU runs no process.
unfoldable pub mlfq_tick : Option ℕ → Machine → Option (Machine × Bool)
unfolding charge preempt
mlfq_tick none m = some (m, false)
mlfq_tick (some me) m =
    Option.map (preempt me m) (Option.bind (get_elem? m.procs me) (charge m.ticks))

unfoldable pub boost_proc : Proc → Proc
boost_proc p = if not (is_unused p.state) then record p { priority = 0; slice_used = 0 } else p

unfoldable pub mlfq_boost : Machine → Machine
unfolding boost_proc
mlfq_boost m = record m { procs = map boost_proc m.procs; mlfq_last_boost = m.ticks }

unfoldable pub time_proc : Proc → Proc
time_proc p = if is_running p.state then record p { rtime = u32 (p.rtime + 1) } else p

unfoldable pub update_time : Machine → Machine
unfolding time_proc
update_time m = record m { procs = map time_proc m.procs }
