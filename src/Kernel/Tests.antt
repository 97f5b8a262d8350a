-- ===== src/Kernel/Tests.antt =====
-- The theorems of the kernel's parts at concrete inputs, and runs of the definitions.
use mathlib.Core.Option
use mp.Prelude.{
  ℕ, zero, suc, ◌+◌, ◌++◌, List, ◌<◌, Bool, true, false, none, some, [], ◌∷◌, ◌≡◌, refl, arith,
  get_elem?, modify, not, ◌||◌, AllAt,
}
use mp.Kernel.Proc.{State, Proc, Table, Machine, is_sleeping, minus_one}
use mp.Kernel.Mlfq.{mlfq_boost}
use mp.Kernel.Mlfq.Slice.{InSlice, charges, charges-level, level, used}
use mp.Kernel.Mlfq.Tick.{Ticked, mlfq_tick-Ticked}
use mp.Kernel.Scheduler.{schedule_mlfq, schedule_fifo}
use mp.Kernel.Scheduler.Mlfq.{MlfqRound, schedule_mlfq-first}
use mp.Kernel.Scheduler.Fifo.{FifoRound, schedule_fifo-first}
use mp.Kernel.Clock.Boost.{
  BoostedAt, BoostRound, clock_run, clockintr-boost_within, mlfq_boost-schedule,
}
use mp.Kernel.Sleep.{sleep, sleep_prepare}
use mp.Kernel.Life.{kexit}
use mp.Kernel.Life.Wait.{Waited, wait_round}
use mp.Kernel.Life.Reaping.{WaitRound, wait_round-WaitRound}
use mp.Kernel.Life.Pids.{Distinct, pids}
use mp.Kernel.Life.Pids.Run.{Op, op, ops, DistinctIf, ops-DistinctIf}
use mp.Kernel.Life.Orphans.{Exited, kexit-Exited}
use mp.Kernel.Pipe.{Pipe, pipewrite, piperead}
use mp.Kernel.Pipe.Fifo.{Queue, piperead-pipewrite}
use mp.Kernel.Sleep.Wakeup.{Other, happens, woken, no_lost_wakeup}

abbrev blank : Proc
blank = record {
  state = State.unused;
  chan = 0;
  killed = false;
  xstate = 0;
  pid = 0;
  parent = none;
  sz = 0;
  pagetable = 0;
  trapframe = 0;
  ofile = [];
  cwd = 0;
  name = [];
  ctime = 0;
  etime = 0;
  rtime = 0;
  first_run = 0;
  priority = 0;
  slice_used = 0;
  queued = false;
  enq_time = 0;
}

-- A process that has been queued at tick `entered`.
abbrev ready_at : ℕ → ℕ → ℕ → Proc
ready_at pid queue entered = record blank {
  state = State.runnable;
  pid = pid;
  ctime = pid;
  priority = queue;
  first_run = minus_one;
  queued = true;
  enq_time = entered;
}

abbrev busy : Proc
busy = record (ready_at 4 2 30) { state = State.running; slice_used = 7 }

abbrev machine : Machine
machine = record {
  procs = ready_at 1 2 10 ∷ blank ∷ ready_at 2 1 25 ∷ busy ∷ ready_at 3 1 20 ∷ [];
  ticks = 40;
  nextpid = 5;
  initproc = 0;
  mlfq_last_boost = 0;
}

picks : ((schedule_mlfq machine).1 ≡ some 4) × ((schedule_fifo machine).1 ≡ some 0)
unfolding schedule_mlfq schedule_fifo
picks = (refl, refl)

schedule_mlfq-first_example : (p : Proc) × MlfqRound machine 4 p
schedule_mlfq-first_example = schedule_mlfq-first machine 4 picks.0

schedule_fifo-first_example : (p : Proc) × FifoRound machine 0 p
schedule_fifo-first_example = schedule_fifo-first machine 0 picks.1

busy-InSlice : InSlice busy
busy-InSlice = record { queue = omega arith; within = omega arith }

charges-level_example :
    (q : Proc) × (charges (41 ∷ 42 ∷ 43 ∷ []) (ready_at 2 0 25) ≡ some q)
    × (q.priority ≡ level 3)
    × (q.slice_used ≡ used 3)
charges-level_example = charges-level (41 ∷ 42 ∷ 43 ∷ []) (ready_at 2 0 25) refl refl

mlfq_tick-Ticked_example :
    (q : Proc) × (m' : Machine) × (gives_up : Bool) × Ticked machine 3 busy q m' gives_up
mlfq_tick-Ticked_example = mlfq_tick-Ticked machine 3 busy refl busy-InSlice

boosted_pick : (schedule_mlfq (mlfq_boost machine)).1 ≡ some 0
unfolding schedule_mlfq mlfq_boost
boosted_pick = refl

mlfq_boost-schedule_example : (p : Proc) × BoostRound machine 0 p
mlfq_boost-schedule_example = mlfq_boost-schedule machine 0 boosted_pick

clockintr-boost_within_example :
    (k : ℕ) × (k < 48)
    × AllAt BoostedAt (clock_run (λ i m. m) 9 (suc k) machine).procs
    × ((clock_run (λ i m. m) 9 (suc k) machine).mlfq_last_boost
        ≡ (clock_run (λ i m. m) 9 (suc k) machine).ticks)
clockintr-boost_within_example =
    clockintr-boost_within (λ i m. m) (λ i m. refl) 9 machine (omega arith)

-- Slot 3 registers on channel 7, the channel is woken up, and then it calls `sleep`.
abbrev registered : Table
registered = modify machine.procs 3 (λ p. record p { chan = 7 })

registers : sleep_prepare 3 7 machine.procs ≡ some registered
unfolding sleep_prepare
registers = refl

no_lost_wakeup_example :
    ((sleep 3 (happens (Other.wakes 7 ∷ []) registered)).1 ≡ not (woken 7 (Other.wakes 7 ∷ [])))
    × ((woken 7 (Other.wakes 7 ∷ []) || woken 7 (Other.times ∷ [])) ≡ true
        → (q : Proc) × (get_elem?
              (happens (Other.times ∷ []) (sleep 3 (happens (Other.wakes 7 ∷ []) registered)).0)
              3
            ≡ some q)
          × (is_sleeping q.state ≡ false))
no_lost_wakeup_example =
    no_lost_wakeup 3 7 machine.procs registered busy (Other.wakes 7 ∷ []) (Other.times ∷ []) refl
      refl registers

-- The first process alone, with two slots free.
abbrev young : Machine
young = record machine { procs = ready_at 1 0 0 ∷ blank ∷ blank ∷ []; nextpid = 2; initproc = 0 }

-- The first process forks; its child forks and exits; the first process reaps it and forks again.
abbrev life : List Op
life =
    Op.forks 0 4096 8192 true
    ∷ Op.schedules
    ∷ Op.forks 1 4096 8192 true
    ∷ Op.exits 1 3
    ∷ Op.waits (λ s. true) 0
    ∷ Op.forks 0 4096 8192 true
    ∷ Op.forks 0 4096 8192 true
    ∷ []

abbrev at_slot : ℕ → ℕ
at_slot i = 1000 + i

lives : Option.map (λ m. pids m.procs) (ops at_slot life young) ≡ some (1 ∷ 4 ∷ 3 ∷ [])
unfolding ops Option.bind op
lives = refl

get-below : (i x : ℕ) → get_elem? (1 ∷ 0 ∷ 0 ∷ []) i ≡ some x → x < 2
get-below zero x e = let same : 1 ≡ x = cc in omega arith
get-below (suc zero) x e = let same : 0 ≡ x = cc in omega arith
get-below (suc (suc zero)) x e = let same : 0 ≡ x = cc in omega arith
get-below (suc (suc (suc i))) x e = cc

first_only : (i x : ℕ) → get_elem? (1 ∷ 0 ∷ 0 ∷ []) i ≡ some x → 0 < x → i ≡ 0
first_only zero x e h = refl
first_only (suc zero) x e h = let same : 0 ≡ x = cc in absurd (omega arith)
first_only (suc (suc zero)) x e h = let same : 0 ≡ x = cc in absurd (omega arith)
first_only (suc (suc (suc i))) x e h = cc

young-Distinct : Distinct 2 (1 ∷ 0 ∷ 0 ∷ [])
young-Distinct = record {
  positive = omega arith;
  below = get-below;
  unique = λ i j x e f h. omega (arith, first_only i x e h, first_only j x f h);
}

ops-DistinctIf_example : DistinctIf at_slot (ops at_slot life young)
ops-DistinctIf_example = ops-DistinctIf at_slot life young young-Distinct (omega arith)

kexit-Exited_example : (m' : Machine) × (kexit at_slot 1 3 young ≡ some m') × Exited 1 3 young m'
kexit-Exited_example = kexit-Exited at_slot 1 3 young (λ e. omega arith)

-- A child of the first process that has exited with the status 3.
abbrev with_zombie : Machine
with_zombie = record young {
  procs =
      ready_at 1 0 0
      ∷ record (ready_at 2 0 0) { state = State.zombie; parent = some 0; xstate = 3 }
      ∷ [];
}

reaps_child :
    Option.map (λ x. x.1) (wait_round (λ p. p.xstate) (λ s. true) at_slot 0 with_zombie)
    ≡ some (Waited.reaped 2 3)
unfolding wait_round
reaps_child = refl

wait_round-WaitRound_example :
    (m' : Machine) × (r : Waited ℕ) × (wait_round (λ p. p.xstate) (λ s. true) at_slot 0 with_zombie
      ≡ some (m', r))
    × WaitRound (λ p. p.xstate) (λ s. true) at_slot 0 with_zombie (ready_at 1 0 0) m' r
wait_round-WaitRound_example =
    wait_round-WaitRound (λ p. p.xstate) (λ s. true) at_slot 0 with_zombie (ready_at 1 0 0) refl
      (λ e. omega arith)

abbrev zeros : ℕ → List ℕ
zeros zero = []
zeros (suc n) = 0 ∷ zeros n

-- An empty pipe whose counters wrap at the next byte.
abbrev fresh_pipe : Pipe
fresh_pipe = record {
  data_bytes = zeros 512;
  nread = 4294967295;
  nwrite = 4294967295;
  readopen = true;
  writeopen = true;
}

fresh_pipe-Queue : Queue fresh_pipe []
fresh_pipe-Queue = record {
  ring = tt;
  size = refl;
  fits = omega arith;
  counter = omega arith;
  ahead = refl;
}

piperead-pipewrite_example :
    (left : List ℕ) × ([] ++ (pipewrite false (some 7 ∷ some 8 ∷ []) fresh_pipe).1
      ≡ (piperead false (true ∷ []) (pipewrite false (some 7 ∷ some 8 ∷ []) fresh_pipe).0).1
        ++ left)
    × Queue
        (piperead false (true ∷ []) (pipewrite false (some 7 ∷ some 8 ∷ []) fresh_pipe).0).0
        left
piperead-pipewrite_example =
    piperead-pipewrite fresh_pipe [] (some 7 ∷ some 8 ∷ []) (true ∷ []) false false fresh_pipe-Queue
