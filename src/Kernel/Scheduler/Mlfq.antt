-- ===== src/Kernel/Scheduler/Mlfq.antt =====
-- What the MLFQ scheduler chooses.
use mp.Prelude.{
  ℕ, ◌≤◌, ◌<◌, true, false, none, some, ◌≡◌, ◌↔◌, ◌⊎◌, arith, AllFrom-get, get-AllFrom, get_elem?,
  ◌≢◌, ◌∙◌, ap, if◌then◌else◌,
}
use mathlib.Core.Option
use mp.Kernel.Proc.{Proc, Machine, is_runnable}
use mp.Kernel.Scheduler.{mlfq_before, mlfq_pick, enqueue, run_proc, schedule_mlfq}
use mp.Kernel.Scheduler.Scan.{Leads, IsIdle, pass_runnable}
use mp.Kernel.Scheduler.Choice.{Choice, round-Choice, round-none, SetRunning, run_proc-SetRunning}

asym : (a b : Proc) → mlfq_before a b ≡ true → mlfq_before b a ≡ false
asym a b h = ground arith

negtrans :
    (a b c : Proc) → mlfq_before a b ≡ false → mlfq_before b c ≡ false → mlfq_before a c ≡ false
negtrans a b c h k = ground arith

enqueue-runnable : (now : ℕ) (p : Proc) → is_runnable (enqueue now p).state ≡ is_runnable p.state
unfolding enqueue
enqueue-runnable now p = ground arith

-- A higher queue; in one queue, the earlier entry; at one entry tick, the lower slot.
abbrev pub MlfqOrder : ℕ → Proc → ℕ → Proc → Type 0
MlfqOrder f p j q =
    (p.priority < q.priority)
    ⊎ ((p.priority ≡ q.priority)
        × ((p.enq_time < q.enq_time) ⊎ ((p.enq_time ≡ q.enq_time) × (f ≤ j))))

Leads-MlfqOrder :
    (f : ℕ) (p : Proc) (j : ℕ) (q : Proc) → Leads mlfq_before f p j q → MlfqOrder f p j q
Leads-MlfqOrder f p j q (l, k) = ground arith

abbrev pub MlfqFirst : Machine → ℕ → Proc → Type 0
MlfqFirst m f p =
    (j : ℕ) (q : Proc)
    → get_elem? m.procs j ≡ some q
    → is_runnable q.state ≡ true
    → MlfqOrder f (enqueue m.ticks p) j (enqueue m.ticks q)

pub schedule_mlfq-Choice :
    (m : Machine) (f : ℕ)
    → (schedule_mlfq m).1 ≡ some f
    → (p : Proc) × Choice (enqueue m.ticks) mlfq_before m f p
unfolding schedule_mlfq mlfq_pick
schedule_mlfq-Choice m f e =
    round-Choice (enqueue m.ticks) mlfq_before m (enqueue-runnable m.ticks) asym negtrans f e

-- A process that enters its queue, unless it is queued: its entry is now.
pub record Entered (now : ℕ) (p q : Proc) : Type 0 where
  pub enters : p.queued ≡ false → q ≡ record p { enq_time = now; queued = true }
  pub stays : p.queued ≡ true → q ≡ p

pub enqueue-Entered : (now : ℕ) (p : Proc) → Entered now p (enqueue now p)
unfolding enqueue
enqueue-Entered now p = record { enters = λ e. ground (arith, e); stays = λ e. ground (arith, e) }

-- A round of MLFQ that gives the CPU to slot `f`, in which `p` stood.
pub record MlfqRound (m : Machine) (f : ℕ) (p : Proc) : Type 0 where
  pub at : get_elem? m.procs f ≡ some p
  pub ready : is_runnable p.state ≡ true
  pub first : MlfqFirst m f p
  pub entered : (q : Proc) → Entered m.ticks q (enqueue m.ticks q)
  pub is_set : SetRunning m.ticks (enqueue m.ticks p) (run_proc m.ticks (enqueue m.ticks p))
  pub runs : get_elem? (schedule_mlfq m).0.procs f ≡ some (run_proc m.ticks (enqueue m.ticks p))
  pub others :
      (j : ℕ) (q : Proc)
      → f ≢ j
      → get_elem? m.procs j ≡ some q
      → get_elem? (schedule_mlfq m).0.procs j
        ≡ some (if is_runnable q.state then enqueue m.ticks q else q)

-- The process that MLFQ gives the CPU to stood RUNNABLE in its slot, and every RUNNABLE process of
-- the table comes at or after it in the order of queue, entry tick and slot, in which a process that
-- was not queued yet has its entry now. It is set RUNNING, the tick is recorded where it never ran
-- before, and where it was not queued it has entered its queue; in the other slots the RUNNABLE
-- processes that were not queued yet are entered into their queues at this tick, and nothing else
-- changes.
pub schedule_mlfq-first :
    (m : Machine) (f : ℕ) → (schedule_mlfq m).1 ≡ some f → (p : Proc) × MlfqRound m f p
unfolding schedule_mlfq mlfq_pick
schedule_mlfq-first m f e =
    let (p, c) = schedule_mlfq-Choice m f e in
    (
      p,
      record {
        at = c.at;
        ready = c.ready;
        first = λ j q at r.
            Leads-MlfqOrder f (enqueue m.ticks p) j (enqueue m.ticks q) (c.leads j q at r);
        entered = enqueue-Entered m.ticks;
        is_set = run_proc-SetRunning m.ticks (enqueue m.ticks p);
        runs = c.runs;
        others = λ j q ne at. c.others j ne ∙ ap (Option.map (pass_runnable (enqueue m.ticks))) at;
      },
    )

-- MLFQ leaves the CPU idle exactly where no process is RUNNABLE.
pub schedule_mlfq-none :
    (m : Machine)
    → ((schedule_mlfq m).1 ≡ none) ↔ ((j : ℕ) (q : Proc) → get_elem? m.procs j ≡ some q → IsIdle q)
unfolding schedule_mlfq mlfq_pick
schedule_mlfq-none m =
    let (a, b) = round-none (enqueue m.ticks) mlfq_before m in
    (
      (λ e. AllFrom-get (λ _ q. IsIdle q) 0 m.procs (a e)),
      λ h. b (get-AllFrom (λ _ q. IsIdle q) 0 m.procs h),
    )
