-- ===== src/Kernel/Scheduler/Fifo.antt =====
-- What the FIFO scheduler chooses.
use mp.Prelude.{
  ℕ, ◌≤◌, ◌<◌, true, false, some, ◌≡◌, ◌≢◌, ◌⊎◌, refl, ◌∙◌, none, Option, Bool-cases, inl, inr,
  arith, get_elem?,
}
use mathlib.Core.Option
use mp.Kernel.Proc.{Proc, Machine, is_runnable}
use mp.Kernel.Scheduler.{fifo_before, fifo_pick, run_proc, schedule_fifo}
use mp.Kernel.Scheduler.Scan.{Leads, pass_runnable}
use mp.Kernel.Scheduler.Choice.{Choice, round-Choice, SetRunning, run_proc-SetRunning}

asym : (a b : Proc) → fifo_before a b ≡ true → fifo_before b a ≡ false
asym a b h = ground arith

negtrans :
    (a b c : Proc) → fifo_before a b ≡ false → fifo_before b c ≡ false → fifo_before a c ≡ false
negtrans a b c h k = ground arith

-- The earlier creation; at one tick, the lower slot.
abbrev pub FifoOrder : ℕ → Proc → ℕ → Proc → Type 0
FifoOrder f p j q = (p.ctime < q.ctime) ⊎ ((p.ctime ≡ q.ctime) × (f ≤ j))

Leads-FifoOrder :
    (f : ℕ) (p : Proc) (j : ℕ) (q : Proc) → Leads fifo_before f p j q → FifoOrder f p j q
Leads-FifoOrder f p j q (l, k) = ground arith

-- FIFO writes nothing to the processes that it passes.
unpassed : (o : Option Proc) → Option.map (pass_runnable (λ p. p)) o ≡ o
unpassed none = refl
unpassed (some p) = elim (Bool-cases (is_runnable p.state)) [ inl r ↦ rw r | inr r ↦ rw r ]

schedule_fifo-Choice :
    (m : Machine) (f : ℕ)
    → (schedule_fifo m).1 ≡ some f
    → (p : Proc) × Choice (λ p. p) fifo_before m f p
unfolding schedule_fifo fifo_pick
schedule_fifo-Choice m f e = round-Choice (λ p. p) fifo_before m (λ p. refl) asym negtrans f e

-- A round of FIFO that gives the CPU to slot `f`, in which `p` stood.
pub record FifoRound (m : Machine) (f : ℕ) (p : Proc) : Type 0 where
  pub at : get_elem? m.procs f ≡ some p
  pub ready : is_runnable p.state ≡ true
  pub first :
      (j : ℕ) (q : Proc)
      → get_elem? m.procs j ≡ some q
      → is_runnable q.state ≡ true
      → FifoOrder f p j q
  pub runs : get_elem? (schedule_fifo m).0.procs f ≡ some (run_proc m.ticks p)
  pub is_set : SetRunning m.ticks p (run_proc m.ticks p)
  pub others : (j : ℕ) → f ≢ j → get_elem? (schedule_fifo m).0.procs j ≡ get_elem? m.procs j

-- The process that FIFO gives the CPU to stood RUNNABLE in its slot and is set RUNNING, with the
-- tick recorded where it never ran before, and nothing else of it changes; every RUNNABLE process was
-- created later, or at the same tick and stands in the same or a higher slot.
-- Every other slot keeps its process.
pub schedule_fifo-first :
    (m : Machine) (f : ℕ) → (schedule_fifo m).1 ≡ some f → (p : Proc) × FifoRound m f p
unfolding schedule_fifo fifo_pick
schedule_fifo-first m f e =
    let (p, c) = schedule_fifo-Choice m f e in
    (
      p,
      record {
        at = c.at;
        ready = c.ready;
        first = λ j q at r. Leads-FifoOrder f p j q (c.leads j q at r);
        runs = c.runs;
        is_set = run_proc-SetRunning m.ticks p;
        others = λ j ne. c.others j ne ∙ unpassed (get_elem? m.procs j);
      },
    )
