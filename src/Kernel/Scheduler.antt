-- ===== src/Kernel/Scheduler.antt =====
-- xv6/kernel/proc.c: the choice that `scheduler` makes. The FIFO and the MLFQ loop differ in their
-- test and in what they do to a RUNNABLE process that they pass; the scan of the table is one
-- function over both. The lock of the best process so far is held, so no other CPU changes it; the
-- scan is one step here, at one value of `ticks`.
pub mod Scan
pub mod Choice
pub mod Mlfq
pub mod Fifo
use mp.Prelude.{
  ℕ, zero, suc, ◌+◌, Bool, true, false, not, ◌&&◌, ◌||◌, Option, none, some, [], ◌∷◌, ltb, ◌==◌,
  if◌then◌else◌, modify,
}
use mp.Kernel.Proc.{State, Proc, Table, Machine, is_neg, is_runnable}

-- `best == 0 || …`
abbrev pub beats : (Proc → Proc → Bool) → Proc → Option (ℕ × Proc) → Bool
beats before p none = true
beats before p (some (j, b)) = before p b

-- The loop over the table from slot `i`: what it leaves in the table, and the slot that it chose.
unfoldable pub scan :
    (Proc → Proc) → (Proc → Proc → Bool) → ℕ → Option (ℕ × Proc) → Table → Table × Option (ℕ × Proc)
scan pass before i best [] = ([], best)
scan pass before i best (p ∷ ps) =
    let q = if is_runnable p.state then pass p else p in
    let chosen = if is_runnable p.state && beats before q best then some (i, q) else best in
    let (qs, last) = scan pass before (i + 1) chosen ps in (q ∷ qs, last)

-- FIFO: the earliest `ctime`.
abbrev pub fifo_before : Proc → Proc → Bool
fifo_before p b = ltb p.ctime b.ctime

unfoldable pub fifo_pick : Table → Table × Option (ℕ × Proc)
unfolding scan
fifo_pick = scan (λ p. p) fifo_before 0 none

-- MLFQ: the highest queue, and in it the earliest `enq_time`.
abbrev pub mlfq_before : Proc → Proc → Bool
mlfq_before p b =
    ltb p.priority b.priority || (p.priority == b.priority && ltb p.enq_time b.enq_time)

-- A process that is not in the queuing network yet goes to the tail of its queue.
unfoldable pub enqueue : ℕ → Proc → Proc
enqueue now p = if not p.queued then record p { enq_time = now; queued = true } else p

unfoldable pub mlfq_pick : ℕ → Table → Table × Option (ℕ × Proc)
unfolding scan enqueue
mlfq_pick now = scan (enqueue now) mlfq_before 0 none

-- The chosen process is set RUNNING, and the tick of its first run is recorded.
unfoldable pub run_proc : ℕ → Proc → Proc
run_proc now p = record p {
  first_run = if is_neg p.first_run then now else p.first_run;
  state = State.running;
}

-- One round of the loop of `scheduler` up to `swtch`: the new table, and `c->proc`.
unfoldable pub dispatch : Machine → Table × Option (ℕ × Proc) → Machine × Option ℕ
unfolding run_proc
dispatch m (procs, none) = (record m { procs = procs }, none)
dispatch m (procs, some (i, p)) = (record m { procs = modify procs i (run_proc m.ticks) }, some i)

unfoldable pub schedule_fifo : Machine → Machine × Option ℕ
unfolding fifo_pick dispatch
schedule_fifo m = dispatch m (fifo_pick m.procs)

unfoldable pub schedule_mlfq : Machine → Machine × Option ℕ
unfolding mlfq_pick dispatch
schedule_mlfq m = dispatch m (mlfq_pick m.ticks m.procs)
