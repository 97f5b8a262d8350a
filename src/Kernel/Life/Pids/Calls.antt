-- ===== src/Kernel/Life/Pids/Calls.antt =====
-- allocproc, kfork, kexit, kwait and kwaitx keep the pids distinct.
use mathlib.Core.Option
use mp.Prelude.{
  ℕ, zero, suc, ◌+◌, ◌<◌, Bool, true, false, not, ◌||◌, Option, none, some, ◌==◌, ◌≡◌, ◌∙◌, inl,
  inr, refl, ap, sym, arith, if◌then◌else◌, length, get_elem?, modify, Bool-cases, Option-cases,
}
use mp.Kernel.Proc.{Proc, Table, Machine, u32}
use mp.Kernel.Sleep.{sleep_prepare, prepare_proc, wake_proc, wakeup, killed}
use mp.Kernel.Life.{
  free_proc, born, set_up, alloc_at, allocproc, find_unused, fork_proc, fork_at, fork_of, exit_proc,
  close_proc, has_parent, reparent_slot, reparent_from, reparent, parent_address, exit_of, kexit,
}
use mp.Kernel.Life.Wait.{reap_proc, no_zombie, wait_at}
use mp.Kernel.Life.Pids.{
  Distinct-modify, KeepsPids, KeepsAll, pids, pids-map, pids-modify, pids-modify_const, same_pids,
  all_same, KeepsPids-then, freed,
}

pub free_proc-pid : (p : Proc) → (free_proc p).pid ≡ 0
unfolding free_proc
free_proc-pid p = refl

pub set_up-pid :
    (now pid trapframe pagetable : ℕ) (p : Proc)
    → (set_up now pid trapframe pagetable p).pid
      ≡ (if trapframe == 0 || pagetable == 0 then 0 else pid)
unfolding set_up free_proc born
set_up-pid now pid trapframe pagetable p = ground arith

pub alloc_at-KeepsPids :
    (trapframe pagetable : ℕ) (m : Machine) (found : Option ℕ)
    → m.nextpid + 1 < 2147483648
    → KeepsPids m (alloc_at trapframe pagetable m found).0
alloc_at-KeepsPids trapframe pagetable m none h = same_pids m m refl refl
alloc_at-KeepsPids trapframe pagetable m (some i) h =
    let v : ℕ = if trapframe == 0 || pagetable == 0 then 0 else m.nextpid in
    let wrap : u32 (m.nextpid + 1) ≡ m.nextpid + 1 = omega arith in
    let ids =
      pids-modify_const (set_up m.ticks m.nextpid trapframe pagetable) v
        (set_up-pid m.ticks m.nextpid trapframe pagetable) m.procs i in
    record {
      distinct = λ d.
          rw (wrap, ids)
            (Distinct-modify m.nextpid (pids m.procs) i v d (ground arith) (m.nextpid + 1)
              (omega arith) (ground arith));
      grows = omega arith;
      slowly = omega arith;
    }

pub fork_at-KeepsPids :
    (me : ℕ) (p : Proc) (copied : Bool) (m m1 : Machine) (found : Option ℕ)
    → KeepsPids m m1
    → KeepsPids m (fork_at me p copied (m1, found)).0
fork_at-KeepsPids me p copied m m1 none k = k
fork_at-KeepsPids me p true m m1 (some i) k =
    KeepsPids-then m m1 _ k (
      all_same m1 _ refl (pids-modify (fork_proc me p) (λ np. unfold fork_proc in refl) m1.procs i))
fork_at-KeepsPids me p false m m1 (some i) k =
    KeepsPids-then m m1 _ k (freed m1 i free_proc free_proc-pid)

pub fork_of-KeepsPids :
    (me trapframe pagetable : ℕ) (copied : Bool) (m : Machine) (found : Option Proc)
    → m.nextpid + 1 < 2147483648
    → KeepsPids m (fork_of me trapframe pagetable copied m found).0
fork_of-KeepsPids me trapframe pagetable copied m none h = same_pids m m refl refl
fork_of-KeepsPids me trapframe pagetable copied m (some p) h =
    unfold allocproc in
    fork_at-KeepsPids me p copied m (alloc_at trapframe pagetable m (find_unused 0 m.procs)).0
      (alloc_at trapframe pagetable m (find_unused 0 m.procs)).1
      (alloc_at-KeepsPids trapframe pagetable m (find_unused 0 m.procs) h)

pub wakeup-pids : (chan : ℕ) (t : Table) → pids (wakeup chan t) ≡ pids t
unfolding wakeup
wakeup-pids chan t = pids-map (wake_proc chan) (λ p. unfold wake_proc in ground arith) t

pub reparent_slot-pids :
    (address : ℕ → ℕ) (me initproc i : ℕ) (t : Table)
    → pids (reparent_slot address me initproc i t) ≡ pids t
unfolding reparent_slot
reparent_slot-pids address me initproc i t = elim (Bool-cases (has_parent me (get_elem? t i))) [
  | inl e ↦ rw e (
      wakeup-pids (address initproc) _
      ∙ pids-modify (λ p. record p { parent = some initproc }) (λ p. refl) t i)
  | inr e ↦ rw e refl
]

pub reparent_from-pids :
    (address : ℕ → ℕ) (me initproc left i : ℕ) (t : Table)
    → pids (reparent_from address me initproc left i t) ≡ pids t
unfolding reparent_from
reparent_from-pids address me initproc zero i t = refl
reparent_from-pids address me initproc (suc left) i t =
    reparent_from-pids address me initproc left (i + 1) (reparent_slot address me initproc i t)
    ∙ reparent_slot-pids address me initproc i t

-- Where there is a next machine, the pids stay distinct.
abbrev pub Keeps : Machine → Option Machine → Type 0
Keeps m none = Unit {0}
Keeps m (some m') = KeepsAll m m'

pub exit_of-KeepsAll :
    (address : ℕ → ℕ) (me status : ℕ) (m : Machine) (t : Table)
    → pids t ≡ pids m.procs
    → KeepsAll m (exit_of address me status m t)
unfolding exit_of
exit_of-KeepsAll address me status m t e = all_same m _ refl (
    pids-modify (exit_proc m.ticks status) (λ p. unfold exit_proc in refl) _ me
    ∙ wakeup-pids (parent_address address (get_elem? t me)) t
    ∙ e)

pub kexit-Keeps :
    (address : ℕ → ℕ) (me status : ℕ) (m : Machine) → Keeps m (kexit address me status m)
unfolding kexit reparent
kexit-Keeps address me status m = elim (Bool-cases (me == m.initproc)) [
  | inl h ↦ rw h tt
  | inr h ↦
      let t = modify m.procs me close_proc in
      rw h (
        exit_of-KeepsAll address me status m _ (
          reparent_from-pids address me m.initproc (length t) 0 t
          ∙ pids-modify close_proc (λ p. unfold close_proc in refl) m.procs me))
]

abbrev pub machine : {A : Type 0} → Option (Machine × A) → Option Machine
machine r = Option.map (λ x. x.0) r

pub sleep_prepare-pids :
    (me chan : ℕ) (t t' : Table) → sleep_prepare me chan t ≡ some t' → pids t' ≡ pids t
unfolding sleep_prepare
sleep_prepare-pids me chan t t' e = elim (Bool-cases (chan == 0)) [
  | inl h ↦ absurd (let g = rw (h, sleep_prepare) at e in cc)
  | inr h ↦
      let g : modify t me (prepare_proc chan) ≡ t' = (let g = rw (h, sleep_prepare) at e in cc) in
      ap pids (sym g) ∙ pids-modify (prepare_proc chan) (λ p. unfold prepare_proc in refl) t me
]

pub reap_proc-pid : (p : Proc) → (reap_proc p).pid ≡ 0
unfolding reap_proc free_proc
reap_proc-pid p = refl

pub no_zombie-Keeps :
    (A : Type 0) (m : Machine) (gives_up : Bool) (t : Option Table)
    → ((t' : Table) → t ≡ some t' → pids t' ≡ pids m.procs)
    → Keeps m (machine (no_zombie {A = A} m gives_up t))
no_zombie-Keeps A m true t h = all_same m m refl refl
no_zombie-Keeps A m false none h = tt
no_zombie-Keeps A m false (some t) h = all_same m _ refl (h t refl)

pub wait_at-Keeps :
    (A : Type 0) (out : Proc → A) (copied : A → Bool) (address : ℕ → ℕ) (me : ℕ) (m : Machine)
    (found : Bool × Option (ℕ × Proc))
    → Keeps m (machine (wait_at out copied address me m found))
unfolding wait_at Option.bind
wait_at-Keeps A out copied address me m (any, some (i, p)) = elim (Bool-cases (copied (out p))) [
  | inl e ↦ rw e (freed m i reap_proc reap_proc-pid)
  | inr e ↦ rw e (all_same m m refl refl)
]
wait_at-Keeps A out copied address me m (any, none) = elim (Option-cases (killed me m.procs)) [
  | inl e ↦ rw e tt
  | inr (dead, e) ↦ rw e (
      no_zombie-Keeps A m (not any || dead) (sleep_prepare me (address me) m.procs)
        (sleep_prepare-pids me (address me) m.procs))
]
