-- ===== src/Kernel/Life/Pids/Run.antt =====
-- Any sequence of these operations keeps the pids distinct.
use mathlib.Core.Option
use mp.Prelude.{
  ℕ, ◌+◌, ◌<◌, Bool, Option, none, some, List, [], ◌∷◌, inl, inr, refl, arith, length, get_elem?,
  Option-cases,
}
use mp.Kernel.Proc.{Machine}
use mp.Kernel.Scheduler.{schedule_mlfq}
use mp.Kernel.Sleep.{sleep, sleep_proc}
use mp.Kernel.Sleep.Wakeup.{Other, happen}
use mp.Kernel.Life.{kfork, kexit}
use mp.Kernel.Life.Wait.{find_child, wait_round, kwait, kwaitx}
use mp.Kernel.Life.Pids.{Distinct, KeepsPids, pids, pids-modify, same_pids, KeepsPids-all}
use mp.Kernel.Life.Pids.Calls.{fork_of-KeepsPids, Keeps, kexit-Keeps, machine, wait_at-Keeps}
use mp.Kernel.Life.Pids.Others.{happen-pids, schedule_mlfq-KeepsAll}

-- What may happen to the table: the system calls of a life, a round of the MLFQ scheduler, and what
-- interrupts and other processes do.
pub data Op : Type 0 where
  forks : ℕ → ℕ → ℕ → Bool → Op
  exits : ℕ → ℕ → Op
  waits : (ℕ → Bool) → ℕ → Op
  waitxs : (ℕ × ℕ × ℕ × ℕ → Bool) → ℕ → Op
  sleeps : ℕ → Op
  schedules : Op
  other : Other → Op

module _ (address : ℕ → ℕ) where
  -- `none` is a panic.
  unfoldable pub op : Op → Machine → Option Machine
  unfolding kfork kexit kwait kwaitx sleep schedule_mlfq happen
  op (Op.forks me trapframe pagetable copied) m = some (kfork me trapframe pagetable copied m).0
  op (Op.exits me status) m = kexit address me status m
  op (Op.waits copied me) m = machine (kwait copied address me m)
  op (Op.waitxs copied me) m = machine (kwaitx copied address me m)
  op (Op.sleeps me) m = some (record m { procs = (sleep me m.procs).0 })
  op Op.schedules m = some (schedule_mlfq m).0
  op (Op.other o) m = some (record m { procs = happen o m.procs })

  unfoldable pub ops : List Op → Machine → Option Machine
  ops [] m = some m
  ops (o ∷ os) m = Option.bind (op o m) (ops os)

  abbrev KeepsPidsIf : Machine → Option Machine → Type 0
  KeepsPidsIf m none = Unit {0}
  KeepsPidsIf m (some m') = KeepsPids m m'

  Keeps-If : (m : Machine) (r : Option Machine) → Keeps m r → KeepsPidsIf m r
  Keeps-If m none k = tt
  Keeps-If m (some m') k = KeepsPids-all m m' k

  op-KeepsPidsIf : (o : Op) (m : Machine) → m.nextpid + 1 < 2147483648 → KeepsPidsIf m (op o m)
  unfolding op kwait kwaitx wait_round kfork sleep
  op-KeepsPidsIf (Op.forks me trapframe pagetable copied) m h =
      fork_of-KeepsPids me trapframe pagetable copied m (get_elem? m.procs me) h
  op-KeepsPidsIf (Op.exits me status) m h = Keeps-If m _ (kexit-Keeps address me status m)
  op-KeepsPidsIf (Op.waits copied me) m h =
      Keeps-If m _ (wait_at-Keeps _ _ copied address me m (find_child me 0 m.procs))
  op-KeepsPidsIf (Op.waitxs copied me) m h =
      Keeps-If m _ (wait_at-Keeps _ _ copied address me m (find_child me 0 m.procs))
  op-KeepsPidsIf (Op.sleeps me) m h =
      same_pids m _ refl
        (pids-modify sleep_proc (λ p. unfold sleep_proc in ground arith) m.procs me)
  op-KeepsPidsIf Op.schedules m h = KeepsPids-all m _ (schedule_mlfq-KeepsAll m)
  op-KeepsPidsIf (Op.other o) m h = same_pids m _ refl (happen-pids o m.procs)

  abbrev pub DistinctIf : Option Machine → Type 0
  DistinctIf none = Unit {0}
  DistinctIf (some m) = Distinct m.nextpid (pids m.procs)

  -- From a table in which the pids are distinct and below the next one, whatever forks, exits, waits,
  -- sleeps, rounds of the scheduler and other events follow, no two slots ever hold the same pid (0
  -- aside) and each pid is below the next one, as long as the next pid cannot reach 2 ^ 31.
  pub ops-DistinctIf :
      (os : List Op) (m : Machine)
      → Distinct m.nextpid (pids m.procs)
      → m.nextpid + length os < 2147483648
      → DistinctIf (ops os m)
  unfolding ops Option.bind
  ops-DistinctIf [] m d h = d
  ops-DistinctIf (o ∷ os) m d h = elim (Option-cases (op o m)) [
    | inl e ↦ rw e tt
    | inr (m', e) ↦
        let k : KeepsPids m m' = (let k = op-KeepsPidsIf o m (omega arith) in rw e at k) in
        rw e (ops-DistinctIf os m' (k.distinct d) (omega (arith, h, k.slowly)))
  ]
