-- ===== src/Kernel/Scheduler/Choice.antt =====
-- One round of a scheduler that scans the table, for any order: what the process that gets the CPU
-- was before the round, and what the round leaves in the table.
use mathlib.Core.Option
use mp.Prelude.{
  ℕ, suc, ◌+◌, Bool, true, false, Option, none, some, [], ◌∷◌, ◌≡◌, ◌≢◌, ◌↔◌, refl, ◌∙◌, inl, inr,
  arith, AllFrom, AllFrom-get, Bool-cases, Option-cases, get_elem?, get_elem?-map, modify,
  get_elem?-modify_self, get_elem?-modify_ne, subst,
}
use mp.Kernel.Proc.{State, Proc, Table, Machine, is_runnable, is_neg}
use mp.Kernel.Scheduler.{scan, run_proc, dispatch}
use mp.Kernel.Scheduler.Scan.{
  Leads, LeadsRunnable, Holds, Chosen, scan-Chosen, scan-table, scan-none, pass_runnable, IsIdle,
}

Holds-get :
    (f : ℕ) (p : Proc) (i : ℕ) (qs : Table)
    → Holds f p i qs
    → (j : ℕ) × (f ≡ i + j) × (get_elem? qs j ≡ some p) × (is_runnable p.state ≡ true)
Holds-get f p i [] h = absurd h
Holds-get f p i (q ∷ qs) (inl (e, same, ready)) = (0, omega arith, cc, ready)
Holds-get f p i (q ∷ qs) (inr h) =
    let (j, e, at, ready) = Holds-get f p (i + 1) qs h in (suc j, omega arith, at, ready)

-- The process that a scan of a whole table chose, and the table it left.
record IsFirst (before : Proc → Proc → Bool) (f : ℕ) (p : Proc) (t : Table) : Type 0 where
  at : get_elem? t f ≡ some p
  ready : is_runnable p.state ≡ true
  leads :
      (j : ℕ) (q : Proc)
      → get_elem? t j ≡ some q
      → is_runnable q.state ≡ true
      → Leads before f p j q

Chosen-IsFirst :
    (before : Proc → Proc → Bool) (f : ℕ) (p : Proc) (t : Table)
    → Chosen before f p 0 none t
    → IsFirst before f p t
Chosen-IsFirst before f p t (_, all, inl e) = cc e
Chosen-IsFirst before f p t (_, all, inr h) =
    let (k, e, at, ready) = Holds-get f p 0 t h in
    let same : k ≡ f = omega arith in
    record {
      at = rw (← same) at;
      ready = ready;
      leads = λ j q here r.
          subst (λ n. Leads before f p n q) (omega arith)
            (AllFrom-get (LeadsRunnable before f p) 0 t all j q here r);
    }

-- The round up to `swtch`.
abbrev pub round : (Proc → Proc) → (Proc → Proc → Bool) → Machine → Machine × Option ℕ
round pass before m = dispatch m (scan pass before 0 none m.procs)

-- What a round does where it gives the CPU to slot `f`, with `p` in that slot before the round.
pub record Choice (pass : Proc → Proc) (before : Proc → Proc → Bool) (m : Machine) (f : ℕ)
    (p : Proc) : Type 0 where
  pub at : get_elem? m.procs f ≡ some p
  pub ready : is_runnable p.state ≡ true
  pub leads :
      (j : ℕ) (q : Proc)
      → get_elem? m.procs j ≡ some q
      → is_runnable q.state ≡ true
      → Leads before f (pass p) j (pass q)
  pub runs : get_elem? (round pass before m).0.procs f ≡ some (run_proc m.ticks (pass p))
  pub others :
      (j : ℕ)
      → f ≢ j
      → get_elem? (round pass before m).0.procs j
        ≡ Option.map (pass_runnable pass) (get_elem? m.procs j)

-- A process that is set RUNNING: the tick of its first run is recorded, and nothing else of it changes.
pub record SetRunning (now : ℕ) (p r : Proc) : Type 0 where
  pub running : r.state ≡ State.running
  pub first_run : is_neg p.first_run ≡ true → r.first_run ≡ now
  pub ran_before : is_neg p.first_run ≡ false → r.first_run ≡ p.first_run
  pub rest : r ≡ record p { state = r.state; first_run = r.first_run }

pub run_proc-SetRunning : (now : ℕ) (p : Proc) → SetRunning now p (run_proc now p)
unfolding run_proc
run_proc-SetRunning now p = record {
  running = refl;
  first_run = λ e. rw e refl;
  ran_before = λ e. rw e refl;
  rest = refl;
}

dispatch-some :
    (m : Machine) (t : Table) (o : Option (ℕ × Proc)) (f : ℕ)
    → (dispatch m (t, o)).1 ≡ some f
    → (p : Proc) × (o ≡ some (f, p)) × ((dispatch m (t, o)).0.procs ≡ modify t f (run_proc m.ticks))
unfolding dispatch
dispatch-some m t none f e = cc
dispatch-some m t (some (i, p)) f e = let same : i ≡ f = cc in (p, cc, rw same)

dispatch-none :
    (m : Machine) (t : Table) (o : Option (ℕ × Proc)) → ((dispatch m (t, o)).1 ≡ none) ↔ (o ≡ none)
unfolding dispatch
dispatch-none m t none = ((λ _. refl), (λ _. refl))
dispatch-none m t (some (i, p)) = ((λ e. cc), (λ e. cc))

passed-ready :
    (pass : Proc → Proc) (q : Proc) → is_runnable q.state ≡ true → pass_runnable pass q ≡ pass q
passed-ready pass q r = rw r

module _ (pass : Proc → Proc) (before : Proc → Proc → Bool) (m : Machine) where
  abbrev found : Table × Option (ℕ × Proc)
  found = scan pass before 0 none m.procs

  -- A slot of the table that the scan leaves comes from the same slot before it.
  found-get : (j : ℕ) → get_elem? found.0 j ≡ Option.map (pass_runnable pass) (get_elem? m.procs j)
  found-get j =
      rw (scan-table pass before m.procs 0 none) (get_elem?-map (pass_runnable pass) m.procs j)

  pub round-none : ((round pass before m).1 ≡ none) ↔ AllFrom (λ _ p. IsIdle p) 0 m.procs
  round-none =
      let (a, b) = dispatch-none m found.0 found.1 in
      let (c, d) = scan-none pass before m.procs 0 in ((λ e. c (a e)), (λ h. b (d h)))

  module _ (keeps : (p : Proc) → is_runnable (pass p).state ≡ is_runnable p.state) where
    passed-state : (q : Proc) → is_runnable (pass_runnable pass q).state ≡ is_runnable q.state
    passed-state q = elim (Bool-cases (is_runnable q.state)) [
      | inl r ↦ rw (passed-ready pass q r) (keeps q)
      | inr r ↦ rw r r
    ]

    IsFirst-Choice :
        (f : ℕ) (p w : Proc)
        → get_elem? m.procs f ≡ some p
        → IsFirst before f w found.0
        → (round pass before m).0.procs ≡ modify found.0 f (run_proc m.ticks)
        → Choice pass before m f p
    IsFirst-Choice f p w at first table =
        let slot : pass_runnable pass p ≡ w = cc (found-get f, first.at) in
        let r : is_runnable p.state ≡ true = cc (passed-state p, slot, first.ready) in
        let won : pass p ≡ w = cc (passed-ready pass p r) in
        record {
          at = at;
          ready = r;
          leads = λ j q here rq.
              rw (won, ← passed-ready pass q rq)
                (first.leads j (pass_runnable pass q) (cc (found-get j, here))
                  (passed-state q ∙ rq));
          runs = rw table (get_elem?-modify_self _ f (run_proc m.ticks) ∙ cc (first.at, won));
          others = λ j ne. rw table (get_elem?-modify_ne _ f j (run_proc m.ticks) ne ∙ found-get j);
        }

    pub round-Choice :
        ((a b : Proc) → before a b ≡ true → before b a ≡ false)
        → ((a b c : Proc) → before a b ≡ false → before b c ≡ false → before a c ≡ false)
        → (f : ℕ) → (round pass before m).1 ≡ some f
        → (p : Proc) × Choice pass before m f p
    round-Choice asym negtrans f e =
        let (w, picked, table) = dispatch-some m found.0 found.1 f e in
        let first =
          Chosen-IsFirst before f w found.0
            (scan-Chosen pass before keeps asym negtrans m.procs 0 none f w tt picked) in
        elim (Option-cases (get_elem? m.procs f)) [
          | inl gone ↦ cc (found-get f, first.at)
          | inr (p, at) ↦ (p, IsFirst-Choice f p w at first table)
        ]
