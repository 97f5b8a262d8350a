-- ===== src/Kernel/Clock/Boost.antt =====
-- The priority boost: what it does, and how often it comes.
use mathlib.Core.Option
use mp.Prelude.{
  ℕ, zero, suc, ◌+◌, ◌-◌, ◌%◌, ◌≤◌, ◌<◌, true, some, ◌≡◌, ◌≢◌, ◌∙◌, refl, arith, ltb, if◌then◌else◌,
  get_elem?, get_elem?-map, AllAt, Option-cases, inl, inr, ap, subst, ◌⊎◌,
}
use mp.Kernel.Proc.{State, Proc, Machine, u32, is_runnable}
use mp.Kernel.Mlfq.{boost_proc, mlfq_boost, update_time}
use mp.Kernel.Clock.{Policy, advance, clockintr}
use mp.Kernel.Scheduler.{enqueue, schedule_mlfq}
use mp.Kernel.Scheduler.Mlfq.{MlfqOrder, Entered, enqueue-Entered, schedule_mlfq-first}

-- In queue 0 with a fresh slice.
pub record AtTop (p : Proc) : Type 0 where
  pub queue : p.priority ≡ 0
  pub fresh : p.slice_used ≡ 0

abbrev pub BoostedAt : ℕ → Proc → Type 0
BoostedAt i p = p.state ≢ State.unused → AtTop p

boost_proc-AtTop : (p : Proc) → (boost_proc p).state ≢ State.unused → AtTop (boost_proc p)
unfolding boost_proc
boost_proc-AtTop p h = ground arith

mlfq_boost-AllAtTop : (m : Machine) → AllAt BoostedAt (mlfq_boost m).procs
unfolding mlfq_boost
mlfq_boost-AllAtTop m i p at = elim (Option-cases (get_elem? m.procs i)) [
  | inl e ↦ cc (get_elem?-map boost_proc m.procs i, at, e)
  | inr (q, e) ↦
      let same : boost_proc q ≡ p = cc (get_elem?-map boost_proc m.procs i, at, e) in
      rw (← same) (boost_proc-AtTop q)
]

mlfq_boost-last : (m : Machine) → (mlfq_boost m).mlfq_last_boost ≡ (mlfq_boost m).ticks
unfolding mlfq_boost
mlfq_boost-last m = refl

clockintr-ticks :
    (policy : Policy) (ticks_chan : ℕ) (m : Machine)
    → (clockintr policy ticks_chan 0 m).ticks ≡ u32 (m.ticks + 1)
unfolding clockintr
clockintr-ticks policy ticks_chan m = ground arith

clockintr-boost :
    (ticks_chan : ℕ) (m : Machine)
    → u32 (m.ticks + 1) % 48 ≡ 0
    → (n : Machine) × (clockintr Policy.mlfq ticks_chan 0 m ≡ mlfq_boost n)
      × (n.ticks ≡ u32 (m.ticks + 1))
unfolding clockintr
clockintr-boost ticks_chan m h = (update_time (advance ticks_chan m), ground arith, refl)

-- `n` clock interrupts on CPU 0, with anything that does not write `ticks` before each of them.
abbrev pub clock_run : (ℕ → Machine → Machine) → ℕ → ℕ → Machine → Machine
clock_run between ticks_chan zero m = m
clock_run between ticks_chan (suc n) m =
    clockintr Policy.mlfq ticks_chan 0 (between n (clock_run between ticks_chan n m))

-- The interrupts from tick `t` until the next boost, less one.
abbrev pub until_boost : ℕ → ℕ
until_boost t = if ltb (t + (48 - t % 48)) 4294967296 then 47 - t % 48 else 4294967295 - t

until_boost-due :
    (t : ℕ) → t < 4294967296 → (until_boost t < 48) × (u32 (u32 (t + until_boost t) + 1) % 48 ≡ 0)
until_boost-due t h = ground arith

module _ (between : ℕ → Machine → Machine)
    (keeps : (i : ℕ) (m : Machine) → (between i m).ticks ≡ m.ticks) (ticks_chan : ℕ) where
  clock_run-ticks :
      (n : ℕ) (m : Machine)
      → m.ticks < 4294967296
      → (clock_run between ticks_chan n m).ticks ≡ u32 (m.ticks + n)
  clock_run-ticks zero m h = omega arith
  clock_run-ticks (suc n) m h =
      clockintr-ticks Policy.mlfq ticks_chan (between n (clock_run between ticks_chan n m))
      ∙ omega (arith, keeps n (clock_run between ticks_chan n m), clock_run-ticks n m h)

  -- Whatever the tick counter is, and whatever else happens that does not write it, one of the next
  -- 48 clock interrupts boosts: right after it every process in use is in queue 0 with a fresh slice,
  -- and the boost is noted at the current tick. The wrap of the counter at 2 ^ 32 is no exception.
  pub clockintr-boost_within :
      (m : Machine)
      → m.ticks < 4294967296
      → (k : ℕ) × (k < 48)
        × AllAt BoostedAt (clock_run between ticks_chan (suc k) m).procs
        × ((clock_run between ticks_chan (suc k) m).mlfq_last_boost
            ≡ (clock_run between ticks_chan (suc k) m).ticks)
  clockintr-boost_within m h =
      let (small, due) = until_boost-due m.ticks h in
      let last : Machine =
        between (until_boost m.ticks) (clock_run between ticks_chan (until_boost m.ticks) m) in
      let t : last.ticks ≡ u32 (m.ticks + until_boost m.ticks) =
        keeps (until_boost m.ticks) (clock_run between ticks_chan (until_boost m.ticks) m)
        ∙ clock_run-ticks (until_boost m.ticks) m h in
      let (n, e, _) = clockintr-boost ticks_chan last (rw t due) in
      (until_boost m.ticks, small, rw e (mlfq_boost-AllAtTop n), rw e (mlfq_boost-last n))

-- The earlier entry tick; at one tick, the lower slot.
abbrev pub EntryOrder : ℕ → Proc → ℕ → Proc → Type 0
EntryOrder f p j q = (p.enq_time < q.enq_time) ⊎ ((p.enq_time ≡ q.enq_time) × (f ≤ j))

top-EntryOrder :
    (now f : ℕ) (p : Proc) (j : ℕ) (q : Proc)
    → AtTop p
    → AtTop q
    → MlfqOrder f (enqueue now p) j (enqueue now q)
    → EntryOrder f (enqueue now p) j (enqueue now q)
unfolding enqueue
top-EntryOrder now f p j q a b h = ground arith

ready-used : (p : Proc) → is_runnable p.state ≡ true → p.state ≢ State.unused
ready-used p r = ground arith

-- A round of MLFQ right after a boost that gives the CPU to slot `f`, in which `p` stood.
pub record BoostRound (m : Machine) (f : ℕ) (p : Proc) : Type 0 where
  pub at : get_elem? m.procs f ≡ some p
  pub ready : is_runnable p.state ≡ true
  pub entered : (q : Proc) → Entered m.ticks q (enqueue m.ticks q)
  pub first :
      (j : ℕ) (q : Proc)
      → get_elem? m.procs j ≡ some q
      → is_runnable q.state ≡ true
      → EntryOrder f (enqueue m.ticks p) j (enqueue m.ticks q)

boost_proc-back :
    (m : Machine) (i : ℕ) (b : Proc)
    → get_elem? (mlfq_boost m).procs i ≡ some b
    → (p : Proc) × (get_elem? m.procs i ≡ some p) × (b ≡ boost_proc p)
unfolding mlfq_boost
boost_proc-back m i b at = elim (Option-cases (get_elem? m.procs i)) [
  | inl e ↦ cc (get_elem?-map boost_proc m.procs i, at, e)
  | inr (p, e) ↦ (p, e, cc (get_elem?-map boost_proc m.procs i, at, e))
]

boost-EntryOrder :
    (now f : ℕ) (p : Proc) (j : ℕ) (q : Proc)
    → EntryOrder f (enqueue now (boost_proc p)) j (enqueue now (boost_proc q))
    → EntryOrder f (enqueue now p) j (enqueue now q)
unfolding enqueue boost_proc
boost-EntryOrder now f p j q h = ground arith

boost-ready : (p : Proc) → is_runnable (boost_proc p).state ≡ is_runnable p.state
unfolding boost_proc
boost-ready p = ground arith

-- Right after a boost the scheduler takes, of all RUNNABLE processes, whatever queue each was in, one
-- that entered its queue first, and the lowest slot of these. The entries are those before the
-- boost; a process that was not queued yet enters now.
pub mlfq_boost-schedule :
    (m : Machine) (f : ℕ)
    → (schedule_mlfq (mlfq_boost m)).1 ≡ some f
    → (p : Proc) × BoostRound m f p
mlfq_boost-schedule m f e =
    let (b, c) = schedule_mlfq-first (mlfq_boost m) f e in
    let (p, at, same) = boost_proc-back m f b c.at in
    let top = mlfq_boost-AllAtTop m in
    (
      p,
      record {
        at = at;
        ready = cc (boost-ready p, c.ready, same);
        entered = enqueue-Entered m.ticks;
        first = λ j q there r.
            let there' : get_elem? (mlfq_boost m).procs j ≡ some (boost_proc q) =
              unfold mlfq_boost in
              get_elem?-map boost_proc m.procs j ∙ ap (Option.map boost_proc) there in
            let r' : is_runnable (boost_proc q).state ≡ true = boost-ready q ∙ r in
            let order : EntryOrder f (enqueue m.ticks b) j (enqueue m.ticks (boost_proc q)) =
              unfold mlfq_boost in
              top-EntryOrder (mlfq_boost m).ticks f b j (boost_proc q)
                (top f b c.at (ready-used b c.ready))
                (top j (boost_proc q) there' (ready-used (boost_proc q) r'))
                (c.first j (boost_proc q) there' r') in
            boost-EntryOrder m.ticks f p j q (
              subst (λ x. EntryOrder f (enqueue m.ticks x) j (enqueue m.ticks (boost_proc q))) same
                order);
      },
    )
