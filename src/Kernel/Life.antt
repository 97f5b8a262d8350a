-- ===== src/Kernel/Life.antt =====
-- xv6/kernel/proc.c: the life of a process: `allocproc`, `kfork`, `reparent`, `kexit`, and in Life/Wait
-- the `kwait` or `kwaitx` that reaps it. The pages and page tables that the allocator gives, 0 where it fails, and whether `uvmcopy` and
-- `copyout` succeed, are arguments; the files and the directory of a process are what its slot holds,
-- their reference counts are not modelled. A loop over the table, under `wait_lock`, is one step.
pub mod Wait
pub mod Pids
pub mod Orphans
pub mod Reaping
use mathlib.Core.Option
use mp.Prelude.{
  ℕ, zero, suc, ◌+◌, ◌-◌, Bool, true, false, not, ◌&&◌, ◌||◌, Option, none, some, List, [], ◌∷◌,
  map, ltb, leb, ◌==◌, if◌then◌else◌, length, get_elem?, modify,
}
use mp.Kernel.Proc.{State, Proc, Table, Machine, u32, minus_one, is_neg, is_unused, is_zombie}
use mp.Kernel.Sleep.{sleep_prepare, wakeup, killed}

-- The first UNUSED slot, from slot `i` on.
unfoldable pub find_unused : ℕ → Table → Option ℕ
find_unused i [] = none
find_unused i (p ∷ ps) = if is_unused p.state then some i else find_unused (i + 1) ps

unfoldable pub free_proc : Proc → Proc
free_proc p = record p {
  trapframe = 0;
  pagetable = 0;
  sz = 0;
  pid = 0;
  name = [];
  chan = 0;
  killed = false;
  xstate = 0;
  state = State.unused;
}

-- What `allocproc` writes before it asks for memory.
unfoldable pub born : ℕ → ℕ → Proc → Proc
born now pid p = record p {
  pid = pid;
  state = State.used;
  ctime = now;
  etime = 0;
  rtime = 0;
  first_run = minus_one;
  priority = 0;
  slice_used = 0;
  queued = false;
  enq_time = now;
}

-- `allocproc` at the slot it found; the page table is asked for where there is a trapframe.
unfoldable pub set_up : ℕ → ℕ → ℕ → ℕ → Proc → Proc
unfolding free_proc born
set_up now pid trapframe pagetable p =
    if trapframe == 0 || pagetable == 0
    then free_proc (record (born now pid p) { trapframe = trapframe })
    else record (born now pid p) { trapframe = trapframe; pagetable = pagetable }

abbrev pub alloc_at : ℕ → ℕ → Machine → Option ℕ → Machine × Option ℕ
alloc_at trapframe pagetable m none = (m, none)
alloc_at trapframe pagetable m (some i) = (
  record m {
    nextpid = u32 (m.nextpid + 1);
    procs = modify m.procs i (set_up m.ticks m.nextpid trapframe pagetable);
  },
  if trapframe == 0 || pagetable == 0 then none else some i,
)

-- The slot of the new process.
unfoldable pub allocproc : ℕ → ℕ → Machine → Machine × Option ℕ
unfolding find_unused set_up
allocproc trapframe pagetable m = alloc_at trapframe pagetable m (find_unused 0 m.procs)

-- `filedup` returns the file that it is given, and no slot is written where there is none.
abbrev pub copy_files : List ℕ → List ℕ → List ℕ
copy_files [] olds = olds
copy_files (f ∷ fs) [] = []
copy_files (f ∷ fs) (o ∷ olds) = (if f == 0 then o else f) ∷ copy_files fs olds

-- What a child takes from the process `me`, in the slot that `allocproc` gave.
unfoldable pub fork_proc : ℕ → Proc → Proc → Proc
fork_proc me p np = record np {
  sz = p.sz;
  ofile = copy_files p.ofile np.ofile;
  cwd = p.cwd;
  name = p.name;
  parent = some me;
  state = State.runnable;
}

abbrev pub fork_at : ℕ → Proc → Bool → Machine × Option ℕ → Machine × Option ℕ
fork_at me p copied (m, none) = (m, none)
fork_at me p copied (m, some i) =
    if copied
    then (
      record m { procs = modify m.procs i (fork_proc me p) },
      Option.map (λ np. np.pid) (get_elem? m.procs i),
    )
    else (record m { procs = modify m.procs i free_proc }, none)

abbrev pub fork_of : ℕ → ℕ → ℕ → Bool → Machine → Option Proc → Machine × Option ℕ
fork_of me trapframe pagetable copied m none = (m, none)
fork_of me trapframe pagetable copied m (some p) =
    fork_at me p copied (allocproc trapframe pagetable m)

-- The pid of the child, `none` for -1.
unfoldable pub kfork : ℕ → ℕ → ℕ → Bool → Machine → Machine × Option ℕ
unfolding allocproc fork_proc free_proc
kfork me trapframe pagetable copied m =
    fork_of me trapframe pagetable copied m (get_elem? m.procs me)

abbrev pub is_slot : ℕ → Option ℕ → Bool
is_slot i none = false
is_slot i (some j) = j == i

abbrev pub has_parent : ℕ → Option Proc → Bool
has_parent me none = false
has_parent me (some p) = is_slot me p.parent

-- `exit_proc` with the state ZOMBIE is what the parent finds.
unfoldable pub exit_proc : ℕ → ℕ → Proc → Proc
exit_proc now status p = record p { xstate = status; etime = now; state = State.zombie }

unfoldable pub close_proc : Proc → Proc
close_proc p = record p { ofile = map (λ f. 0) p.ofile; cwd = 0 }

-- `address i` is the address of slot `i`, on which its process waits for its children.
module _ (address : ℕ → ℕ) where
  unfoldable pub reparent_slot : ℕ → ℕ → ℕ → Table → Table
  unfolding wakeup
  reparent_slot me initproc i t =
      if has_parent me (get_elem? t i)
      then wakeup (address initproc) (modify t i (λ p. record p { parent = some initproc }))
      else t

  -- The loop from slot `i` on, of which `left` are left.
  unfoldable pub reparent_from : ℕ → ℕ → ℕ → ℕ → Table → Table
  unfolding reparent_slot
  reparent_from me initproc zero i t = t
  reparent_from me initproc (suc left) i t =
      reparent_from me initproc left (i + 1) (reparent_slot me initproc i t)

  unfoldable pub reparent : ℕ → ℕ → Table → Table
  unfolding reparent_from
  reparent me initproc t = reparent_from me initproc (length t) 0 t

  abbrev pub address_of : Option ℕ → ℕ
  address_of none = 0
  address_of (some i) = address i

  abbrev pub parent_address : Option Proc → ℕ
  parent_address none = 0
  parent_address (some p) = address_of p.parent

  -- What is under `wait_lock`: the parent's slot is read after the children have been given away.
  unfoldable pub exit_of : ℕ → ℕ → Machine → Table → Machine
  unfolding wakeup exit_proc
  exit_of me status m t =
      let woken = wakeup (parent_address (get_elem? t me)) t in
      record m { procs = modify woken me (exit_proc m.ticks status) }

  -- `none` is the panic on the exit of the first process.
  unfoldable pub kexit : ℕ → ℕ → Machine → Option Machine
  unfolding close_proc reparent exit_of
  kexit me status m =
      if me == m.initproc
      then none
      else some (exit_of me status m (reparent me m.initproc (modify m.procs me close_proc)))
