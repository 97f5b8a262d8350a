-- ===== src/Kernel/Proc.antt =====
-- The process table of xv6/kernel/proc.h and proc.c: `struct proc` with the fields that the
-- scheduler, sleep and wakeup, and the process life cycle read or write. The table `proc[NPROC]` is
-- a list; a `struct proc *` is an index into it; a channel or another address is a number, 0 for the
-- null pointer. A `uint` field wraps at 2 ^ 32; `first_run` is an `int` kept as its bit pattern.
-- `priority` and `slice_used` are `int`s that never go below 0 and stay under 16 (Kernel/Mlfq).
use mp.Prelude.{ℕ, ◌%◌, Bool, true, false, Option, List, leb}

pub data State : Type 0 where
  unused used sleeping runnable running zombie : State

pub record Proc : Type 0 where
  pub state : State
  pub chan : ℕ
  pub killed : Bool
  pub xstate : ℕ
  pub pid : ℕ
  pub parent : Option ℕ
  pub sz : ℕ
  pub pagetable : ℕ
  pub trapframe : ℕ
  pub ofile : List ℕ
  pub cwd : ℕ
  pub name : List ℕ
  pub ctime : ℕ
  pub etime : ℕ
  pub rtime : ℕ
  pub first_run : ℕ
  pub priority : ℕ
  pub slice_used : ℕ
  pub queued : Bool
  pub enq_time : ℕ

abbrev pub Table : Type 0
Table = List Proc

-- Arithmetic of `uint`.
abbrev pub u32 : ℕ → ℕ
u32 n = n % 4294967296

-- -1 as an `int`, and the test `x < 0` of an `int`, both on bit patterns.
abbrev pub minus_one : ℕ
minus_one = 4294967295

abbrev pub is_neg : ℕ → Bool
is_neg x = leb 2147483648 x

abbrev pub is_unused : State → Bool
is_unused State.unused = true
is_unused _ = false

abbrev pub is_sleeping : State → Bool
is_sleeping State.sleeping = true
is_sleeping _ = false

abbrev pub is_runnable : State → Bool
is_runnable State.runnable = true
is_runnable _ = false

abbrev pub is_running : State → Bool
is_running State.running = true
is_running _ = false

abbrev pub is_zombie : State → Bool
is_zombie State.zombie = true
is_zombie _ = false

-- The globals of proc.c and trap.c that the scheduler and the life cycle use. `initproc` is the slot
-- of the first process.
pub record Machine : Type 0 where
  pub procs : Table
  pub ticks : ℕ
  pub nextpid : ℕ
  pub initproc : ℕ
  pub mlfq_last_boost : ℕ
