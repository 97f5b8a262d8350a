-- ===== src/Kernel/Life/Orphans.antt =====
-- The children of a process that exits.
use mathlib.Core.Option
use mp.Prelude.{
  get_elem?-modify_self, ℕ, zero, suc, ◌+◌, true, false, Option, none, some, List, [], ◌∷◌, map,
  ◌==◌, ◌≡◌, ◌≢◌, ◌∙◌, inl, inr, refl, ap, sym, arith, if◌then◌else◌, length, get_elem?, modify,
  Bool-cases, Option-cases,
}
use mp.Kernel.Proc.{State, Proc, Table, Machine}
use mp.Kernel.Sleep.{wake_proc, wakeup}
use mp.Kernel.Life.{
  exit_proc, close_proc, is_slot, has_parent, reparent_slot, reparent_from, reparent,
  parent_address, exit_of, kexit,
}

abbrev pub parents : Table → List (Option ℕ)
parents t = map (λ p. p.parent) t

-- The children of `me` are given to the first process.
abbrev pub given_away : ℕ → ℕ → Option ℕ → Option ℕ
given_away me initproc o = if is_slot me o then some initproc else o

parents-map :
    (f : Proc → Proc)
    → ((p : Proc) → (f p).parent ≡ p.parent)
    → (t : Table) → parents (map f t) ≡ parents t
parents-map f h [] = refl
parents-map f h (p ∷ t) = rw (h p, parents-map f h t) refl

parents-modify :
    (f : Proc → Proc)
    → ((p : Proc) → (f p).parent ≡ p.parent)
    → (t : Table) (i : ℕ) → parents (modify t i f) ≡ parents t
parents-modify f h [] i = refl
parents-modify f h (p ∷ t) zero = rw (h p) refl
parents-modify f h (p ∷ t) (suc i) = rw (parents-modify f h t i) refl

wakeup-parents : (chan : ℕ) (t : Table) → parents (wakeup chan t) ≡ parents t
unfolding wakeup
wakeup-parents chan t = parents-map (wake_proc chan) (λ p. unfold wake_proc in ground arith) t

module _ (me initproc : ℕ) where
  modify-child :
      (t : Table) (i : ℕ)
      → has_parent me (get_elem? t i) ≡ true
      → parents (modify t i (λ p. record p { parent = some initproc }))
        ≡ modify (parents t) i (given_away me initproc)
  modify-child [] i h = refl
  modify-child (p ∷ t) zero h = rw h refl
  modify-child (p ∷ t) (suc i) h = rw (modify-child t i h) refl

  modify-other :
      (t : Table) (i : ℕ)
      → has_parent me (get_elem? t i) ≡ false
      → parents t ≡ modify (parents t) i (given_away me initproc)
  modify-other [] i h = refl
  modify-other (p ∷ t) zero h = rw h refl
  modify-other (p ∷ t) (suc i) h = ap (◌∷◌ p.parent) (modify-other t i h)

  reparent_slot-parents :
      (address : ℕ → ℕ) (i : ℕ) (t : Table)
      → parents (reparent_slot address me initproc i t)
        ≡ modify (parents t) i (given_away me initproc)
  unfolding reparent_slot
  reparent_slot-parents address i t = elim (Bool-cases (has_parent me (get_elem? t i))) [
    | inl e ↦ rw e (wakeup-parents (address initproc) _ ∙ modify-child t i e)
    | inr e ↦ rw e (modify-other t i e)
  ]

  -- The loop on the parents alone.
  abbrev give_from : ℕ → ℕ → List (Option ℕ) → List (Option ℕ)
  give_from zero i os = os
  give_from (suc left) i os = give_from left (suc i) (modify os i (given_away me initproc))

  give_from-skip :
      (left i : ℕ) (o : Option ℕ) (os : List (Option ℕ))
      → give_from left (suc i) (o ∷ os) ≡ o ∷ give_from left i os
  give_from-skip zero i o os = refl
  give_from-skip (suc left) i o os =
      give_from-skip left (suc i) o (modify os i (given_away me initproc))

  give_from-map :
      (os : List (Option ℕ)) → give_from (length os) 0 os ≡ map (given_away me initproc) os
  give_from-map [] = refl
  give_from-map (o ∷ os) =
      give_from-skip (length os) 0 (given_away me initproc o) os
      ∙ ap (◌∷◌ (given_away me initproc o)) (give_from-map os)

  reparent_from-parents :
      (address : ℕ → ℕ) (left i : ℕ) (t : Table)
      → parents (reparent_from address me initproc left i t) ≡ give_from left i (parents t)
  unfolding reparent_from
  reparent_from-parents address zero i t = refl
  reparent_from-parents address (suc left) i t =
      reparent_from-parents address left (i + 1) (reparent_slot address me initproc i t)
      ∙ ap (give_from left (i + 1)) (reparent_slot-parents address i t)
      ∙ ap (λ k. give_from left k (modify (parents t) i (given_away me initproc))) (omega arith)

  parents-length : (t : Table) → length t ≡ length (parents t)
  parents-length [] = refl
  parents-length (p ∷ t) = ap suc (parents-length t)

  reparent-parents :
      (address : ℕ → ℕ) (t : Table)
      → parents (reparent address me initproc t) ≡ map (given_away me initproc) (parents t)
  unfolding reparent
  reparent-parents address t =
      rw (reparent_from-parents address (length t) 0 t, parents-length t)
        (give_from-map (parents t))

-- What `kexit` leaves: the process is a zombie with its status and the tick, and its children belong
-- to the first process.
pub record Exited (me status : ℕ) (m m' : Machine) : Type 0 where
  pub zombie :
      (p : Proc)
      → get_elem? m'.procs me ≡ some p
      → (p.state ≡ State.zombie) × (p.xstate ≡ status) × (p.etime ≡ m.ticks)
  pub orphans : parents m'.procs ≡ map (given_away me m.initproc) (parents m.procs)
  pub childless : (i : ℕ) → get_elem? (parents m'.procs) i ≢ some (some me)
  pub clock : m'.ticks ≡ m.ticks

modify-zombie :
    (me status now : ℕ) (t : Table) (p : Proc)
    → get_elem? (modify t me (exit_proc now status)) me ≡ some p
    → (p.state ≡ State.zombie) × (p.xstate ≡ status) × (p.etime ≡ now)
unfolding exit_proc
modify-zombie me status now t p e = elim (Option-cases (get_elem? t me)) [
  | inl n ↦
      let f =
        sym e
        ∙ get_elem?-modify_self t me (exit_proc now status)
        ∙ ap (Option.map (exit_proc now status)) n in
      absurd (let g : some p ≡ none = f in cc)
  | inr (q, n) ↦
      let f : some p ≡ some (exit_proc now status q) =
        sym e
        ∙ get_elem?-modify_self t me (exit_proc now status)
        ∙ ap (Option.map (exit_proc now status)) n in
      let g : p ≡ exit_proc now status q = cc in
      (ap (λ x. x.state) g, ap (λ x. x.xstate) g, ap (λ x. x.etime) g)
]

exit_of-zombie :
    (address : ℕ → ℕ) (me status : ℕ) (m : Machine) (t : Table) (p : Proc)
    → get_elem? (exit_of address me status m t).procs me ≡ some p
    → (p.state ≡ State.zombie) × (p.xstate ≡ status) × (p.etime ≡ m.ticks)
unfolding exit_of
exit_of-zombie address me status m t p e =
    let woken = wakeup (parent_address address (get_elem? t me)) t in
    modify-zombie me status m.ticks woken p e

given_away-childless :
    (me initproc : ℕ) → me ≢ initproc → (o : Option ℕ) → given_away me initproc o ≢ some me
given_away-childless me initproc ne none e = cc
given_away-childless me initproc ne (some j) e = elim (Bool-cases (j == me)) [
  | inl h ↦ ne (let g : some initproc ≡ some me = rw h at e in cc)
  | inr h ↦ let g : some j ≡ some me = rw h at e in let same : j ≡ me = cc in absurd (ground arith)
]

map-childless :
    (me initproc : ℕ)
    → me ≢ initproc
    → (os : List (Option ℕ)) (i : ℕ)
    → get_elem? (map (given_away me initproc) os) i ≢ some (some me)
map-childless me initproc ne [] i e = cc
map-childless me initproc ne (o ∷ os) zero e = given_away-childless me initproc ne o cc
map-childless me initproc ne (o ∷ os) (suc i) e = map-childless me initproc ne os i e

exit_of-parents :
    (address : ℕ → ℕ) (me status : ℕ) (m : Machine) (t : Table)
    → parents (exit_of address me status m t).procs ≡ parents t
unfolding exit_of
exit_of-parents address me status m t =
    parents-modify (exit_proc m.ticks status) (λ p. unfold exit_proc in refl) _ me
    ∙ wakeup-parents (parent_address address (get_elem? t me)) t

-- A process other than the first one exits without a panic: it is a zombie with its exit status and
-- the tick, each of its children, and no other process, has the first process as its new parent, and
-- no process has it as its parent any more.
pub kexit-Exited :
    (address : ℕ → ℕ) (me status : ℕ) (m : Machine)
    → me ≢ m.initproc
    → (m' : Machine) × (kexit address me status m ≡ some m') × Exited me status m m'
unfolding kexit
kexit-Exited address me status m ne =
    let closed = modify m.procs me close_proc in
    let t = reparent address me m.initproc closed in
    let given : parents (exit_of address me status m t).procs
        ≡ map (given_away me m.initproc) (parents m.procs) =
      exit_of-parents address me status m t
      ∙ reparent-parents me m.initproc address closed
      ∙ ap (map (given_away me m.initproc))
          (parents-modify close_proc (λ p. unfold close_proc in refl) m.procs me) in
    let no : (me == m.initproc) ≡ false = ground arith in
    (
      exit_of address me status m t,
      rw no refl,
      record {
        zombie = exit_of-zombie address me status m t;
        orphans = given;
        childless = λ i e. map-childless me m.initproc ne (parents m.procs) i (rw given at e);
        clock = unfold exit_of in refl;
      },
    )
