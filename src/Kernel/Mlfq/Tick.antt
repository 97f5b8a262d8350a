-- ===== src/Kernel/Mlfq/Tick.antt =====
-- The timer tick of MLFQ: when the running process loses the CPU, and what the tick leaves.
use mathlib.Core.Option
use mp.Prelude.{
  ℕ, suc, ◌+◌, ◌<◌, Bool, true, false, not, ◌&&◌, ◌||◌, some, [], ◌∷◌, ◌≡◌, ◌≢◌, ◌⊎◌, ◌↔◌, ==_iff,
  inl, inr, refl, ◌∙◌, sym, ap, subst, arith, ltb, ◌==◌, if◌then◌else◌, get_elem?, modify,
  Bool-cases, get_elem?-modify_self, get_elem?-modify_ne, AllFrom, AllFrom-get,
}
use mp.Kernel.Proc.{State, Proc, Table, Machine, is_runnable}
use mp.Kernel.Mlfq.{
  higher_from, mlfq_higher_runnable, yield_proc, yield, charge, preempt, mlfq_tick,
}
use mp.Kernel.Mlfq.Slice.{quantum, InSlice, charged, charge-InSlice}

-- A RUNNABLE process of another slot, in a queue above `pri`.
abbrev pub IsHigher : ℕ → ℕ → ℕ → Proc → Type 0
IsHigher pri self j q = (self ≢ j) × (is_runnable q.state ≡ true) × (q.priority < pri)

abbrev is_higher : ℕ → ℕ → ℕ → Proc → Bool
is_higher pri self i q = not (i == self) && (is_runnable q.state && ltb q.priority pri)

is_higher-IsHigher :
    (pri self i : ℕ) (q : Proc) → is_higher pri self i q ≡ true → IsHigher pri self i q
is_higher-IsHigher pri self i q h = ground arith

not-IsHigher :
    (pri self i : ℕ) (q : Proc) → is_higher pri self i q ≡ false → ¬ IsHigher pri self i q
not-IsHigher pri self i q h k = ground arith

higher_from-some :
    (pri self i : ℕ) (t : Table)
    → higher_from pri self i t ≡ true
    → (j : ℕ) × (q : Proc) × (get_elem? t j ≡ some q) × IsHigher pri self (i + j) q
unfolding higher_from
higher_from-some pri self i [] h = cc
higher_from-some pri self i (q ∷ qs) h = elim (Bool-cases (is_higher pri self i q)) [
  | inl e ↦ (
    0,
    q,
    refl,
    subst (λ k. IsHigher pri self k q) (omega arith) (is_higher-IsHigher pri self i q e),
  )
  | inr e ↦
      let (j, r, at, hr) = higher_from-some pri self (i + 1) qs (rw e at h) in
      (suc j, r, at, subst (λ k. IsHigher pri self k r) (omega arith) hr)
]

higher_from-none :
    (pri self i : ℕ) (t : Table)
    → higher_from pri self i t ≡ false
    → AllFrom (λ j q. ¬ IsHigher pri self j q) i t
unfolding higher_from
higher_from-none pri self i [] h = tt
higher_from-none pri self i (q ∷ qs) h = elim (Bool-cases (is_higher pri self i q)) [
  | inl e ↦ cc (rw e at h)
  | inr e ↦ (not-IsHigher pri self i q e, higher_from-none pri self (i + 1) qs (rw e at h))
]

-- What `mlfq_higher_runnable` answers: there is such a process, or there is none.
pub mlfq_higher_runnable-cases :
    (pri self : ℕ) (t : Table)
    → ((mlfq_higher_runnable pri self t ≡ true)
        × ((j : ℕ) × (q : Proc) × (get_elem? t j ≡ some q) × IsHigher pri self j q))
      ⊎ ((mlfq_higher_runnable pri self t ≡ false)
          × ((j : ℕ) (q : Proc) → get_elem? t j ≡ some q → ¬ IsHigher pri self j q))
unfolding mlfq_higher_runnable
mlfq_higher_runnable-cases pri self t = elim (Bool-cases (higher_from pri self 0 t)) [
  | inl e ↦
      let (j, q, at, h) = higher_from-some pri self 0 t e in
      inl (e, (j, q, at, subst (λ k. IsHigher pri self k q) (omega arith) h))
  | inr e ↦ inr (
    e,
    λ j q at.
        subst (λ k. ¬ IsHigher pri self k q) (omega arith)
          (AllFrom-get (λ k r. ¬ IsHigher pri self k r) 0 t (higher_from-none pri self 0 t e) j q
            at),
  )
]

-- A timer tick on the CPU that runs the process `p` of slot `me`, with the machine `m'` and the flag
-- `gives_up` that it returns; `q` is `p` with the tick charged.
pub record Ticked (m : Machine) (me : ℕ) (p q : Proc) (m' : Machine) (gives_up : Bool)
    : Type 0 where
  pub returns : mlfq_tick (some me) m ≡ some (m', gives_up)
  pub charged : charge m.ticks p ≡ some (q, p.slice_used + 1 == quantum p.priority)
  pub in_slice : InSlice q
  pub spends :
      p.slice_used + 1 ≢ quantum p.priority → q ≡ record p { slice_used = p.slice_used + 1 }
  pub falls :
      p.slice_used + 1 ≡ quantum p.priority
      → q ≡ record p {
        priority = if ltb p.priority 3 then p.priority + 1 else p.priority;
        slice_used = 0;
        enq_time = m.ticks;
      }
  pub yields : yield_proc q ≡ record q { state = State.runnable }
  pub slot : get_elem? m'.procs me ≡ some (if gives_up then yield_proc q else q)
  pub others : (j : ℕ) → me ≢ j → get_elem? m'.procs j ≡ get_elem? m.procs j
  pub keeps :
      gives_up ≡ false
      → (p.slice_used + 1 ≢ quantum p.priority)
        × ((j : ℕ) (r : Proc) → get_elem? m.procs j ≡ some r → ¬ IsHigher p.priority me j r)
  pub loses :
      gives_up ≡ true
      → (p.slice_used + 1 ≡ quantum p.priority)
        ⊎ ((j : ℕ) × (r : Proc) × (get_elem? m.procs j ≡ some r) × IsHigher p.priority me j r)

module _ (m : Machine) (me : ℕ) (p q : Proc) (expired : Bool)
    (at : get_elem? m.procs me ≡ some p) where
  abbrev after : Table
  after = modify m.procs me (λ _. q)

  after-slot : get_elem? after me ≡ some q
  after-slot = get_elem?-modify_self m.procs me (λ _. q) ∙ ap (Option.map (λ _. q)) at

  after-others : (j : ℕ) → me ≢ j → get_elem? after j ≡ get_elem? m.procs j
  after-others j ne = get_elem?-modify_ne m.procs me j (λ _. q) ne

  abbrev gives_up : Bool
  gives_up = (preempt me m (q, expired)).1

  preempt-slot :
      get_elem? (preempt me m (q, expired)).0.procs me ≡ some (if gives_up then yield_proc q else q)
  unfolding preempt yield
  preempt-slot = elim (Bool-cases (expired || mlfq_higher_runnable q.priority me after)) [
    | inl e ↦ rw (e, get_elem?-modify_self, after-slot)
    | inr e ↦ rw (e, after-slot)
  ]

  preempt-others :
      (j : ℕ) → me ≢ j → get_elem? (preempt me m (q, expired)).0.procs j ≡ get_elem? m.procs j
  unfolding preempt yield
  preempt-others j ne = elim (Bool-cases (expired || mlfq_higher_runnable q.priority me after)) [
    | inl e ↦ rw e (get_elem?-modify_ne after me j yield_proc ne ∙ after-others j ne)
    | inr e ↦ rw e (after-others j ne)
  ]

  -- A process above, seen in the table with the tick charged, was there before the tick.
  abbrev Above : ℕ → Type 0
  Above pri = (j : ℕ) × (r : Proc) × (get_elem? m.procs j ≡ some r) × IsHigher pri me j r

  preempt-flag :
      (gives_up ≡ true × ((expired ≡ true) ⊎ ((expired ≡ false) × Above q.priority)))
      ⊎ (gives_up ≡ false
          × (expired ≡ false)
          × ((j : ℕ) (r : Proc) → get_elem? m.procs j ≡ some r → ¬ IsHigher q.priority me j r))
  unfolding preempt
  preempt-flag = elim (Bool-cases expired) [
    | inl e ↦ rw e (inl (refl, inl refl))
    | inr e ↦ elim (mlfq_higher_runnable-cases q.priority me after) [
      | inl (h, (j, r, there, above)) ↦
          rw (e, h) (inl (refl, inr (refl, (j, r, (sym (after-others j above.0) ∙ there), above))))
      | inr (h, none_above) ↦
          rw (e, h)
            (inr (
              refl,
              refl,
              λ j r there above. none_above j r (after-others j above.0 ∙ there) above,
            ))
    ]
  ]

same_queue :
    (now : ℕ) (p : Proc)
    → (p.slice_used + 1 == quantum p.priority) ≡ false
    → (charged now p).priority ≡ p.priority
same_queue now p e = rw e

module _ (m : Machine) (me : ℕ) (p q : Proc) (at : get_elem? m.procs me ≡ some p)
    (shape : q ≡ charged m.ticks p) where
  abbrev expired : Bool
  expired = p.slice_used + 1 == quantum p.priority

  abbrev flag : Bool
  flag = (preempt me m (q, expired)).1

  above_before :
      expired ≡ false → (j : ℕ) (r : Proc) → IsHigher q.priority me j r ↔ IsHigher p.priority me j r
  above_before e j r =
      let same : q.priority ≡ p.priority =
        ap (λ (x : Proc). x.priority) shape ∙ same_queue m.ticks p e in
      rw same ((λ h. h), (λ h. h))

  tick-keeps :
      flag ≡ false
      → (p.slice_used + 1 ≢ quantum p.priority)
        × ((j : ℕ) (r : Proc) → get_elem? m.procs j ≡ some r → ¬ IsHigher p.priority me j r)
  tick-keeps f = elim (preempt-flag m me p q expired at) [
    | inl (f', _) ↦ cc
    | inr (_, e, none_above) ↦
        (ground arith, λ j r there h. none_above j r there ((above_before e j r).1 h))
  ]

  tick-loses :
      flag ≡ true
      → (p.slice_used + 1 ≡ quantum p.priority)
        ⊎ ((j : ℕ) × (r : Proc) × (get_elem? m.procs j ≡ some r) × IsHigher p.priority me j r)
  tick-loses f = elim (preempt-flag m me p q expired at) [
    | inr (f', _, _) ↦ cc
    | inl (_, inl e) ↦ inl ((==_iff _ _).0 e)
    | inl (_, inr (e, (j, r, there, h))) ↦ inr (j, r, there, (above_before e j r).0 h)
  ]

-- A timer tick on a CPU that runs a process within its slice returns, and charges it one tick: where
-- the slice is used up by it, the process falls by one queue, but not below 3, with a fresh slice, and
-- enters it now, else only its ticks used grow by one. The process keeps the CPU only if its slice has not expired and no RUNNABLE process of another slot is
-- in a queue above its own; it loses the CPU only if its slice has expired or there is such a
-- process, and it is then RUNNABLE. It is within its slice again, and every other slot is unchanged.
pub mlfq_tick-Ticked :
    (m : Machine) (me : ℕ) (p : Proc)
    → get_elem? m.procs me ≡ some p
    → InSlice p
    → (q : Proc) × (m' : Machine) × (gives_up : Bool) × Ticked m me p q m' gives_up
unfolding mlfq_tick Option.bind
mlfq_tick-Ticked m me p at h =
    let (q, e, hq, shape) = charge-InSlice m.ticks p h in
    let expired = p.slice_used + 1 == quantum p.priority in
    (
      q,
      (preempt me m (q, expired)).0,
      (preempt me m (q, expired)).1,
      record {
        returns = rw (at, e);
        charged = e;
        in_slice = hq;
        spends = λ h. ground (arith, shape);
        falls = λ h. ground (arith, shape);
        yields = unfold yield_proc in refl;
        slot = preempt-slot m me p q expired at;
        others = preempt-others m me p q expired at;
        keeps = tick-keeps m me p q at shape;
        loses = tick-loses m me p q at shape;
      },
    )
