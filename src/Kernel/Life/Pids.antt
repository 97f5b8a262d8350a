-- ===== src/Kernel/Life/Pids.antt =====
-- Process ids: no two slots hold the same one. Here are the invariant and what keeps it; the modules
-- below apply it to the code.
pub mod Calls
pub mod Others
pub mod Run
use mathlib.Core.Option
use native.Mathlib.Decide.{ℕ_discrete}
use mp.Prelude.{
  ℕ, zero, suc, ◌+◌, ◌%◌, ◌<◌, ◌≤◌, Bool, true, false, not, ◌&&◌, ◌||◌, Option, none, some, List,
  [], ◌∷◌, map, ◌==◌, ◌≡◌, ◌≢◌, ◌∙◌, ◌⊎◌, inl, inr, refl, ap, sym, arith, if◌then◌else◌, length,
  get_elem?, modify, AllAt, get_elem?-map, get_elem?-modify_self, get_elem?-modify_ne, Bool-cases,
  Option-cases, subst,
}
use mp.Kernel.Proc.{State, Proc, Table, Machine, u32, is_runnable}
use mp.Kernel.Mlfq.{
  boost_proc, time_proc, mlfq_tick, yield, yield_proc, preempt, charge, charge_slice,
}
use mp.Kernel.Scheduler.{
  beats, mlfq_before, scan, enqueue, mlfq_pick, run_proc, dispatch, schedule_mlfq,
}
use mp.Kernel.Sleep.{
  sleep_prepare, prepare_proc, sleep, sleep_proc, wake_proc, wakeup, kill_proc, kill_at, kkill,
  find_pid, setkilled, killed,
}
use mp.Kernel.Sleep.Wakeup.{Other, happen}
use mp.Kernel.Life.{
  free_proc, born, set_up, alloc_at, allocproc, find_unused, fork_proc, fork_at, fork_of, kfork,
  exit_proc, close_proc, has_parent, reparent_slot, reparent_from, reparent, address_of,
  parent_address, exit_of, kexit,
}
use mp.Kernel.Life.Wait.{
  find_child, Waited, reap_proc, no_zombie, wait_at, wait_round, kwait, kwaitx,
}

abbrev pub pids : Table → List ℕ
pids t = map (λ p. p.pid) t

-- Each pid is below the bound, and no two slots hold the same one, 0 aside.
pub record Distinct (n : ℕ) (ids : List ℕ) : Type 0 where
  pub positive : 0 < n
  pub below : AllAt (λ i x. x < n) ids
  pub unique : (i j x : ℕ) → get_elem? ids i ≡ some x → get_elem? ids j ≡ some x → 0 < x → i ≡ j

pub pids-map :
    (f : Proc → Proc) → ((p : Proc) → (f p).pid ≡ p.pid) → (t : Table) → pids (map f t) ≡ pids t
pids-map f h [] = refl
pids-map f h (p ∷ t) = rw (h p, pids-map f h t) refl

pub pids-modify :
    (f : Proc → Proc)
    → ((p : Proc) → (f p).pid ≡ p.pid)
    → (t : Table) (i : ℕ) → pids (modify t i f) ≡ pids t
pids-modify f h [] i = refl
pids-modify f h (p ∷ t) zero = rw (h p) refl
pids-modify f h (p ∷ t) (suc i) = rw (pids-modify f h t i) refl

pub pids-modify_const :
    (f : Proc → Proc) (v : ℕ)
    → ((p : Proc) → (f p).pid ≡ v)
    → (t : Table) (i : ℕ) → pids (modify t i f) ≡ modify (pids t) i (λ _. v)
pids-modify_const f v h [] i = refl
pids-modify_const f v h (p ∷ t) zero = rw (h p) refl
pids-modify_const f v h (p ∷ t) (suc i) = rw (pids-modify_const f v h t i) refl

-- What is read after one slot was overwritten.
pub modify-get :
    (ids : List ℕ) (k v i x : ℕ)
    → get_elem? (modify ids k (λ _. v)) i ≡ some x
    → ((i ≡ k) × (x ≡ v)) ⊎ ((i ≢ k) × (get_elem? ids i ≡ some x))
modify-get [] k v i x e = cc
modify-get (y ∷ ids) zero v zero x e = inl (refl, cc)
modify-get (y ∷ ids) zero v (suc i) x e = inr ((λ h. omega arith), e)
modify-get (y ∷ ids) (suc k) v zero x e = inr ((λ h. omega arith), e)
modify-get (y ∷ ids) (suc k) v (suc i) x e = elim (modify-get ids k v i x e) [
  | inl (a, b) ↦ inl (ap suc a, b)
  | inr (a, b) ↦ inr ((λ h. a (omega arith)), b)
]

-- A slot may take a pid that no slot holds yet, or 0.
module _ (n : ℕ) (ids : List ℕ) (k v : ℕ) (d : Distinct n ids) (fresh : (v ≡ 0) ⊎ (n ≤ v)) where
  unique-modify :
      (i j x : ℕ)
      → ((i ≡ k) × (x ≡ v)) ⊎ ((i ≢ k) × (get_elem? ids i ≡ some x))
      → ((j ≡ k) × (x ≡ v)) ⊎ ((j ≢ k) × (get_elem? ids j ≡ some x))
      → 0 < x
      → i ≡ j
  unique-modify i j x (inl (a, b)) (inl (a', b')) pos = omega arith
  unique-modify i j x (inl (a, b)) (inr (a', b')) pos =
      let lt = d.below j x b' in absurd (ground arith)
  unique-modify i j x (inr (a, b)) (inl (a', b')) pos =
      let lt = d.below i x b in absurd (ground arith)
  unique-modify i j x (inr (a, b)) (inr (a', b')) pos = d.unique i j x b b' pos

  pub Distinct-modify : (m : ℕ) → n ≤ m → v < m → Distinct m (modify ids k (λ _. v))
  Distinct-modify m le lt = record {
    positive = omega arith;
    below = λ i x e. elim (modify-get ids k v i x e) [
      | inl (a, b) ↦ omega arith
      | inr (a, b) ↦ omega (arith, d.below i x b)
    ];
    unique = λ i j x e f pos.
        unique-modify i j x (modify-get ids k v i x e) (modify-get ids k v j x f) pos;
  }

pub Distinct-le : (n m : ℕ) (ids : List ℕ) → Distinct n ids → n ≤ m → Distinct m ids
Distinct-le n m ids d le = record {
  positive = let h = d.positive in omega arith;
  below = λ i x e. omega (arith, d.below i x e);
  unique = d.unique;
}

-- Between two machines: the pids stay distinct, and the next pid grows by one at most.
pub record KeepsPids (m m' : Machine) : Type 0 where
  pub distinct : Distinct m.nextpid (pids m.procs) → Distinct m'.nextpid (pids m'.procs)
  pub grows : m.nextpid ≤ m'.nextpid
  pub slowly : m'.nextpid ≤ m.nextpid + 1

pub same_pids :
    (m m' : Machine) → m'.nextpid ≡ m.nextpid → pids m'.procs ≡ pids m.procs → KeepsPids m m'
same_pids m m' e f = record {
  distinct = λ d. rw (e, f) d;
  grows = omega arith;
  slowly = omega arith;
}

-- The same, where the next pid does not change.
pub record KeepsAll (m m' : Machine) : Type 0 where
  pub same : m'.nextpid ≡ m.nextpid
  pub still : Distinct m.nextpid (pids m.procs) → Distinct m'.nextpid (pids m'.procs)

pub all_same :
    (m m' : Machine) → m'.nextpid ≡ m.nextpid → pids m'.procs ≡ pids m.procs → KeepsAll m m'
all_same m m' e f = record { same = e; still = λ d. rw (e, f) d }

pub KeepsPids-then : (m m1 m2 : Machine) → KeepsPids m m1 → KeepsAll m1 m2 → KeepsPids m m2
KeepsPids-then m m1 m2 a b = record {
  distinct = λ d. b.still (a.distinct d);
  grows = omega (arith, a.grows, b.same);
  slowly = omega (arith, a.slowly, b.same);
}

pub KeepsPids-all : (m m' : Machine) → KeepsAll m m' → KeepsPids m m'
KeepsPids-all m m' k = KeepsPids-then m m m' (same_pids m m refl refl) k

-- A slot is freed.
pub freed :
    (m : Machine) (i : ℕ) (f : Proc → Proc)
    → ((p : Proc) → (f p).pid ≡ 0)
    → KeepsAll m (record m { procs = modify m.procs i f })
freed m i f h = record {
  same = refl;
  still = λ d. rw (pids-modify_const f 0 h m.procs i) (
      Distinct-modify m.nextpid (pids m.procs) i 0 d (inl refl) m.nextpid (omega arith) d.positive);
}
