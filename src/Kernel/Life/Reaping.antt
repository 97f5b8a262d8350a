-- ===== src/Kernel/Life/Reaping.antt =====
-- What a round of `kwait` or `kwaitx` does.
use mathlib.Core.Option
use mp.Prelude.{
  ℕ, zero, suc, ◌+◌, Bool, true, false, Option, none, some, [], ◌∷◌, ◌==◌, ◌≡◌, ◌≢◌, ◌∙◌, inl, inr,
  refl, ap, arith, get_elem?, modify, Bool-cases, subst,
}
use mp.Kernel.Proc.{State, Proc, Table, Machine, is_zombie}
use mp.Kernel.Sleep.{sleep_prepare, prepare_proc, killed}
use mp.Kernel.Life.{free_proc, is_slot}
use mp.Kernel.Life.Wait.{find_child, Waited, reap_proc, wait_at, wait_round}

abbrev pub IsChildAt : ℕ → Table → ℕ → Proc → Type 0
IsChildAt me t i p = (get_elem? t i ≡ some p) × (is_slot me p.parent ≡ true)

-- No child is a zombie.
abbrev pub NoZombie : ℕ → Table → Type 0
NoZombie me t = (i : ℕ) (p : Proc) → IsChildAt me t i p → is_zombie p.state ≡ false

abbrev FoundAt : ℕ → ℕ → ℕ → Table → Proc → Type 0
FoundAt me i k t p = (j : ℕ) × (k ≡ i + j) × IsChildAt me t j p × (is_zombie p.state ≡ true)

found_here :
    (me i k : ℕ) (t : Table) (q p : Proc)
    → is_slot me q.parent ≡ true
    → is_zombie q.state ≡ true
    → ◌≡◌ {A = Option (ℕ × Proc)} (some (i, q)) (some (k, p))
    → FoundAt me i k (q ∷ t) p
found_here me i k t q p c z e =
    let g : ◌≡◌ {A = ℕ × Proc} (i, q) (k, p) = cc in
    let same : q ≡ p = ap (λ x. x.1) g in
    let at : i ≡ k = ap (λ x. x.0) g in (0, omega arith, (ap some same, rw same at c), rw same at z)

found_later :
    (me i k : ℕ) (t : Table) (q p : Proc) → FoundAt me (i + 1) k t p → FoundAt me i k (q ∷ t) p
found_later me i k t q p (j, e, c, z) = (suc j, omega arith, c, z)

find_child-zombie :
    (me i k : ℕ) (t : Table) (p : Proc) → (find_child me i t).1 ≡ some (k, p) → FoundAt me i k t p
unfolding find_child
find_child-zombie me i k [] p e = cc
find_child-zombie me i k (q ∷ t) p e = elim (Bool-cases (is_slot me q.parent)) [
  | inl c ↦ elim (Bool-cases (is_zombie q.state)) [
    | inl z ↦ found_here me i k t q p c z (rw (c, z, find_child) at e)
    | inr z ↦
        found_later me i k t q p (find_child-zombie me (i + 1) k t p (rw (c, z, find_child) at e))
  ]
  | inr c ↦ found_later me i k t q p (find_child-zombie me (i + 1) k t p (rw (c, find_child) at e))
]

find_child-none : (me i : ℕ) (t : Table) → (find_child me i t).1 ≡ none → NoZombie me t
unfolding find_child
find_child-none me i [] e j p c = cc
find_child-none me i (q ∷ t) e zero p (at, c) =
    let same : q ≡ p = cc in
    let c' : is_slot me q.parent ≡ true = (rw same c) in
    elim (Bool-cases (is_zombie q.state)) [
      | inl z ↦ absurd (let g : some (i, q) ≡ none = rw (c', z, find_child) at e in cc)
      | inr z ↦ rw same at z
    ]
find_child-none me i (q ∷ t) e (suc j) p c = elim (Bool-cases (is_slot me q.parent)) [
  | inl c' ↦ elim (Bool-cases (is_zombie q.state)) [
    | inl z ↦ absurd (let g : some (i, q) ≡ none = rw (c', z, find_child) at e in cc)
    | inr z ↦ find_child-none me (i + 1) t (rw (c', z, find_child) at e) j p c
  ]
  | inr c' ↦ find_child-none me (i + 1) t (rw (c', find_child) at e) j p c
]

find_child-any :
    (me i : ℕ) (t : Table)
    → (find_child me i t).0 ≡ true
    → (j : ℕ) × (p : Proc) × IsChildAt me t j p
unfolding find_child
find_child-any me i [] e = cc
find_child-any me i (q ∷ t) e = elim (Bool-cases (is_slot me q.parent)) [
  | inl c ↦ (0, q, (refl, c))
  | inr c ↦ let (j, p, d) = find_child-any me (i + 1) t (rw (c, find_child) at e) in (suc j, p, d)
]

find_child-no :
    (me i : ℕ) (t : Table)
    → (find_child me i t).0 ≡ false
    → (j : ℕ) (p : Proc) → IsChildAt me t j p
    → ⊥
unfolding find_child
find_child-no me i [] e j p c = cc
find_child-no me i (q ∷ t) e zero p (at, c) =
    let same : q ≡ p = cc in
    let c' : is_slot me q.parent ≡ true = (rw same c) in
    let g : true ≡ false = rw (c', find_child) at e in cc
find_child-no me i (q ∷ t) e (suc j) p c = elim (Bool-cases (is_slot me q.parent)) [
  | inl c' ↦ let g : true ≡ false = rw (c', find_child) at e in cc
  | inr c' ↦ find_child-no me (i + 1) t (rw (c', find_child) at e) j p c
]

-- What is left in the slot of a child that has been reaped.
pub record IsFreed (r : Proc) : Type 0 where
  pub unused : r.state ≡ State.unused
  pub pid : r.pid ≡ 0
  pub parent : r.parent ≡ none
  pub trapframe : r.trapframe ≡ 0
  pub pagetable : r.pagetable ≡ 0
  pub sz : r.sz ≡ 0
  pub chan : r.chan ≡ 0
  pub killed : r.killed ≡ false
  pub xstate : r.xstate ≡ 0

reap_proc-IsFreed : (p : Proc) → IsFreed (reap_proc p)
unfolding reap_proc free_proc
reap_proc-IsFreed p = record {
  unused = refl;
  pid = refl;
  parent = refl;
  trapframe = refl;
  pagetable = refl;
  sz = refl;
  chan = refl;
  killed = refl;
  xstate = refl;
}

prepare_proc-chan : (chan : ℕ) (p : Proc) → prepare_proc chan p ≡ record p { chan = chan }
unfolding prepare_proc
prepare_proc-chan chan p = refl

module _ {A : Type 0} (out : Proc → A) (copied : A → Bool) (address : ℕ → ℕ) where
  -- What a round may come to, in a table whose slot `me` holds `self`.
  pub data WaitRound (me : ℕ) (m : Machine) (self : Proc) : Machine → Waited A → Type 0 where
    reaps :
        (i : ℕ) (p : Proc)
        → IsChildAt me m.procs i p
        → is_zombie p.state ≡ true
        → copied (out p) ≡ true
        → IsFreed (reap_proc p)
        → WaitRound me m self
            (record m { procs = modify m.procs i reap_proc })
            (Waited.reaped p.pid (out p))
    copy_fails :
        (i : ℕ) (p : Proc)
        → IsChildAt me m.procs i p
        → is_zombie p.state ≡ true
        → copied (out p) ≡ false
        → WaitRound me m self m Waited.failed
    no_child :
        ((i : ℕ) (p : Proc) → IsChildAt me m.procs i p → ⊥) → WaitRound me m self m Waited.failed
    is_killed : NoZombie me m.procs → self.killed ≡ true → WaitRound me m self m Waited.failed
    waits :
        (i : ℕ) (p : Proc)
        → IsChildAt me m.procs i p
        → NoZombie me m.procs
        → self.killed ≡ false
        → prepare_proc (address me) self ≡ record self { chan = address me }
        → WaitRound me m self
            (record m { procs = modify m.procs me (prepare_proc (address me)) })
            Waited.waiting

  wait_at-found :
      (me i : ℕ) (m : Machine) (self p : Proc) (any : Bool)
      → FoundAt me 0 i m.procs p
      → (m' : Machine) × (r : Waited A) × (wait_at out copied address me m (any, some (i, p))
          ≡ some (m', r))
        × WaitRound me m self m' r
  unfolding wait_at
  wait_at-found me i m self p any (j, e, c, z) =
      let same : j ≡ i = omega arith in
      let at : IsChildAt me m.procs i p = subst (λ k. IsChildAt me m.procs k p) same c in
      elim (Bool-cases (copied (out p))) [
        | inl h ↦ (_, _, rw h refl, reaps i p at z h (reap_proc-IsFreed p))
        | inr h ↦ (_, _, rw h refl, copy_fails i p at z h)
      ]

  wait_at-none :
      (me : ℕ) (m : Machine) (self : Proc) (any : Bool)
      → get_elem? m.procs me ≡ some self
      → address me ≢ 0
      → NoZombie me m.procs
      → (any ≡ true → (j : ℕ) × (p : Proc) × IsChildAt me m.procs j p)
      → (any ≡ false → (j : ℕ) (p : Proc) → IsChildAt me m.procs j p → ⊥)
      → (m' : Machine) × (r : Waited A) × (wait_at out copied address me m (any, none)
          ≡ some (m', r))
        × WaitRound me m self m' r
  unfolding wait_at killed sleep_prepare Option.bind
  wait_at-none me m self false at ne nz exists empty =
      (m, Waited.failed, rw at refl, no_child (empty refl))
  wait_at-none me m self true at ne nz exists empty =
      let (j, p, c) = exists refl in
      let zero_free : (address me == 0) ≡ false = ground arith in
      elim (Bool-cases self.killed) [
        | inl k ↦ (_, _, rw (at, k) refl, is_killed nz k)
        | inr k ↦ (
          _,
          _,
          rw (at, k, zero_free) refl,
          waits j p c nz k (prepare_proc-chan (address me) self),
        )
      ]

  wait_at-WaitRound :
      (me : ℕ) (m : Machine) (self : Proc) (found : Bool × Option (ℕ × Proc))
      → find_child me 0 m.procs ≡ found
      → get_elem? m.procs me ≡ some self
      → address me ≢ 0
      → (m' : Machine) × (r : Waited A) × (wait_at out copied address me m found ≡ some (m', r))
        × WaitRound me m self m' r
  wait_at-WaitRound me m self (any, some (i, p)) e at ne =
      wait_at-found me i m self p any (find_child-zombie me 0 i m.procs p (ap (λ x. x.1) e))
  wait_at-WaitRound me m self (any, none) e at ne =
      wait_at-none me m self any at ne (find_child-none me 0 m.procs (ap (λ x. x.1) e))
        (λ h. find_child-any me 0 m.procs (ap (λ x. x.0) e ∙ h))
        (λ h. find_child-no me 0 m.procs (ap (λ x. x.0) e ∙ h))

  -- A round of the loop of `kwait` or `kwaitx` never panics in a process with an address, and reaps a
  -- zombie child, with its pid and what is copied out of it, and frees its slot only, which is
  -- UNUSED then, without pid, parent, pages or channel, and not killed; or fails where
  -- the copy fails, where there is no child, or where no child is a zombie and the process is killed;
  -- or else, where there are children but no zombies, registers the process on its own address, which
  -- becomes its channel and is all that changes of it.
  pub wait_round-WaitRound :
      (me : ℕ) (m : Machine) (self : Proc)
      → get_elem? m.procs me ≡ some self
      → address me ≢ 0
      → (m' : Machine) × (r : Waited A) × (wait_round out copied address me m ≡ some (m', r))
        × WaitRound me m self m' r
  unfolding wait_round
  wait_round-WaitRound me m self at ne =
      wait_at-WaitRound me m self (find_child me 0 m.procs) refl at ne
