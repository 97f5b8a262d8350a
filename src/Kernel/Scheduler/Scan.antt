-- ===== src/Kernel/Scheduler/Scan.antt =====
-- The scan of the process table, for any order in which a process leads another: what it chooses
-- leads every RUNNABLE process, and nothing is chosen only where nothing is RUNNABLE.
use mp.Prelude.{
  ℕ, ◌+◌, ◌≤◌, ◌<◌, Bool, true, false, Option, none, some, [], ◌∷◌, ◌≡◌, ◌≢◌, refl, ◌⊎◌, ◌↔◌, inl,
  inr, arith, AllFrom, Bool-cases, map, ◌∙◌, if◌then◌else◌, ◌&&◌,
}
use mp.Kernel.Proc.{Proc, Table, is_runnable}
use mp.Kernel.Scheduler.{scan, beats}

-- The process `p` of slot `f` is before the process `q` of slot `j`, or neither is before the other
-- and `f` is the lower slot.
abbrev pub Leads : (Proc → Proc → Bool) → ℕ → Proc → ℕ → Proc → Type 0
Leads before f p j q = (before q p ≡ false) × (before p q ≡ false → f ≤ j)

abbrev pub LeadsBest : (Proc → Proc → Bool) → ℕ → Proc → Option (ℕ × Proc) → Type 0
LeadsBest before f p none = Unit
LeadsBest before f p (some (j, q)) = Leads before f p j q

-- The table holds `p`, RUNNABLE, in slot `f`; its first slot is `i`.
abbrev pub Holds : ℕ → Proc → ℕ → Table → Type 0
Holds f p i [] = ⊥
Holds f p i (q ∷ qs) = ((f ≡ i) × (q ≡ p) × (is_runnable p.state ≡ true)) ⊎ Holds f p (i + 1) qs

abbrev pub BestBelow : Option (ℕ × Proc) → ℕ → Type 0
BestBelow none i = Unit
BestBelow (some (j, q)) i = j < i

abbrev pub LeadsRunnable : (Proc → Proc → Bool) → ℕ → Proc → ℕ → Proc → Type 0
LeadsRunnable before f p j q = is_runnable q.state ≡ true → Leads before f p j q

-- A process chosen from `best` and a table.
abbrev pub Chosen : (Proc → Proc → Bool) → ℕ → Proc → ℕ → Option (ℕ × Proc) → Table → Type 0
Chosen before f p i best qs =
    LeadsBest before f p best
    × AllFrom (LeadsRunnable before f p) i qs
    × ((best ≡ some (f, p)) ⊎ Holds f p i qs)

module _ (pass : Proc → Proc) (before : Proc → Proc → Bool)
    (keeps : (p : Proc) → is_runnable (pass p).state ≡ is_runnable p.state)
    (asym : (a b : Proc) → before a b ≡ true → before b a ≡ false)
    (negtrans : (a b c : Proc) → before a b ≡ false → before b c ≡ false → before a c ≡ false) where
  Leads-trans :
      (f j k : ℕ) (p q r : Proc)
      → Leads before f p j q
      → Leads before j q k r
      → Leads before f p k r
  Leads-trans f j k p q r (qp, fj) (rq, jk) = (
    negtrans r q p rq qp,
    λ pr. elim (Bool-cases (before p q)) [
      | inl pq ↦ cc (negtrans p r q pr rq)
      | inr pq ↦ elim (Bool-cases (before q r)) [
        | inl qr ↦ cc (negtrans q p r qp pr)
        | inr qr ↦ omega (arith, fj pq, jk qr)
      ]
    ],
  )

  Leads-later :
      (i : ℕ) (q : Proc) (j : ℕ) (b : Proc) → j < i → before q b ≡ false → Leads before j b i q
  Leads-later i q j b h e = (e, λ _. omega arith)

  Leads-winner : (i : ℕ) (q : Proc) (j : ℕ) (b : Proc) → before q b ≡ true → Leads before i q j b
  Leads-winner i q j b e = (asym q b e, λ e'. cc)

  Leads-self : (i : ℕ) (q : Proc) → Leads before i q i q
  Leads-self i q = elim (Bool-cases (before q q)) [
    | inl e ↦ cc (asym q q e)
    | inr e ↦ (e, λ _. omega arith)
  ]

  -- What the scan leaves to choose among is led by what leads the best so far.
  best-step :
      (i f : ℕ) (p q : Proc) (best : Option (ℕ × Proc))
      → BestBelow best i
      → beats before q best ≡ false
      → LeadsBest before f p best
      → Leads before f p i q
  best-step i f p q none h b l = cc
  best-step i f p q (some (j, r)) h b l = Leads-trans f j i p r q l (Leads-later i q j r h b)

  best-win :
      (i f : ℕ) (p q : Proc) (best : Option (ℕ × Proc))
      → beats before q best ≡ true
      → Leads before f p i q
      → LeadsBest before f p best
  best-win i f p q none b l = tt
  best-win i f p q (some (j, r)) b l = Leads-trans f i j p q r l (Leads-winner i q j r b)

  BestBelow-suc : (best : Option (ℕ × Proc)) (i : ℕ) → BestBelow best i → BestBelow best (i + 1)
  BestBelow-suc none i h = tt
  BestBelow-suc (some (j, q)) i h = omega arith

  winner-runnable :
      (q p : Proc) → is_runnable q.state ≡ true → pass q ≡ p → is_runnable p.state ≡ true
  winner-runnable q p ready same = rw (← same) (keeps q ∙ ready)

  pub scan-Chosen :
      (ps : Table) (i : ℕ) (best : Option (ℕ × Proc)) (f : ℕ) (p : Proc)
      → BestBelow best i
      → (scan pass before i best ps).1 ≡ some (f, p)
      → Chosen before f p i best (scan pass before i best ps).0
  unfolding scan
  scan-Chosen [] i best f p h e = (rw e (Leads-self f p), tt, inl e)
  scan-Chosen (q ∷ qs) i best f p h e = elim (Bool-cases (is_runnable q.state)) [
    | inr idle ↦
        let (l, all, at) =
          scan-Chosen qs (i + 1) best f p (BestBelow-suc best i h) (rw idle at e) in
        rw idle (l, ((λ r. cc), all), elim at [ inl b ↦ inl b | inr t ↦ inr (inr t) ])
    | inl ready ↦ elim (Bool-cases (beats before (pass q) best)) [
      | inl wins ↦
          let (l, all, at) =
            scan-Chosen qs (i + 1) (some (i, pass q)) f p (omega arith) (rw (ready, wins) at e) in
          rw (ready, wins)
            (
              best-win i f p (pass q) best wins l,
              ((λ _. l), all),
              elim at [
                | inl b ↦ inr (inl (ground arith, cc, winner-runnable q p ready (cc)))
                | inr t ↦ inr (inr t)
              ],
            )
      | inr loses ↦
          let (l, all, at) =
            scan-Chosen qs (i + 1) best f p (BestBelow-suc best i h) (rw (ready, loses) at e) in
          rw (ready, loses)
            (
              l,
              ((λ _. best-step i f p (pass q) best h loses l), all),
              elim at [ inl b ↦ inl b | inr t ↦ inr (inr t) ],
            )
    ]
  ]

-- The table after the scan: each RUNNABLE process as `pass` leaves it, the others as they were.
abbrev pub pass_runnable : (Proc → Proc) → Proc → Proc
pass_runnable pass p = if is_runnable p.state then pass p else p

abbrev pub IsIdle : Proc → Type 0
IsIdle p = is_runnable p.state ≡ false

module _ (pass : Proc → Proc) (before : Proc → Proc → Bool) where
  pub scan-table :
      (ps : Table) (i : ℕ) (best : Option (ℕ × Proc))
      → (scan pass before i best ps).0 ≡ map (pass_runnable pass) ps
  unfolding scan
  scan-table [] i best = refl
  scan-table (q ∷ qs) i best = cc (scan-table qs (i + 1) (next q i best))
    where
      next : Proc → ℕ → Option (ℕ × Proc) → Option (ℕ × Proc)
      next p j b =
          if is_runnable p.state && beats before (pass_runnable pass p) b
          then some (j, pass_runnable pass p)
          else b

  scan-some : (ps : Table) (i : ℕ) (b : ℕ × Proc) → (scan pass before i (some b) ps).1 ≢ none
  unfolding scan
  scan-some [] i b = λ e. cc e
  scan-some (q ∷ qs) i b =
      elim (Bool-cases (is_runnable q.state && beats before (pass_runnable pass q) (some b))) [
        | inl e ↦ rw e (scan-some qs (i + 1) (i, pass_runnable pass q))
        | inr e ↦ rw e (scan-some qs (i + 1) b)
      ]

  -- Nothing is chosen exactly where no process is RUNNABLE.
  pub scan-none :
      (ps : Table) (i : ℕ)
      → ((scan pass before i none ps).1 ≡ none) ↔ AllFrom (λ _ p. IsIdle p) i ps
  unfolding scan
  scan-none [] i = ((λ _. tt), (λ _. refl))
  scan-none (q ∷ qs) i = elim (Bool-cases (is_runnable q.state)) [
    | inl ready ↦ rw ready ((λ e. absurd (scan-some qs (i + 1) (i, pass q) e)), (λ h. cc (h.0)))
    | inr idle ↦
        rw idle ((λ e. (refl, (scan-none qs (i + 1)).0 e)), (λ h. (scan-none qs (i + 1)).1 h.1))
  ]
