-- ===== src/Shell/Hop/Preferred.antt =====
-- func.c: which visit find_visit chooses, by an order on counts, stamps and paths.
use mp.Prelude.{
  ℕ, ◌<◌, Bool, true, false, Option, none, some, List, [], ◌∷◌, ◌++◌, ◌==◌, ltb, ◌≡◌, ◌∙◌, ◌⊎◌, inl,
  inr, refl, ap, arith, Bool-cases,
}
use mp.Shell.Builtin.{text_before, starts_with, has_text}
use mp.Shell.Hop.{Visit, is_better, eligible, find_visit, load_visits}
use mp.Shell.Hop.Best.{NoneEligible, Unbeaten, BestOf, find_visit-BestOf}

-- The order of strcmp: at the first place where two texts differ, the first one ends or has the lower byte.
pub data Before : List ℕ → List ℕ → Type 0 where
  ends : (d : ℕ) (t : List ℕ) → Before [] (d ∷ t)
  lower : (c d : ℕ) (s t : List ℕ) → c < d → Before (c ∷ s) (d ∷ t)
  same : (c d : ℕ) (s t : List ℕ) → c ≡ d → Before s t → Before (c ∷ s) (d ∷ t)

Before-text_before : {s t : List ℕ} → Before s t → text_before s t ≡ true
unfolding text_before
Before-text_before (Before.ends d t) = refl
Before-text_before (Before.lower c d s t h) = ground arith
Before-text_before (Before.same c d s t e h) = ground (arith, Before-text_before h)

-- A text that holds a name.
pub record Holds (name text : List ℕ) : Type 0 where
  pub front : List ℕ
  pub rest : List ℕ
  pub split : text ≡ front ++ (name ++ rest)

starts_with-split :
    (name text : List ℕ) → starts_with name text ≡ true → (rest : List ℕ) × (text ≡ name ++ rest)
unfolding starts_with
starts_with-split [] text h = (text, refl)
starts_with-split (c ∷ name) [] h = absurd cc
starts_with-split (c ∷ name) (d ∷ text) h = elim (Bool-cases (c == d)) [
  | inl e ↦
      let (rest, f) = starts_with-split name text (rw e at h) in
      let same : d ≡ c = ground arith in (rest, ap (λ x. x ∷ text) same ∙ ap (λ x. c ∷ x) f)
  | inr e ↦ absurd (let k = rw e at h in cc)
]

starts_with-append : (name rest : List ℕ) → starts_with name (name ++ rest) ≡ true
unfolding starts_with
starts_with-append [] rest = refl
starts_with-append (c ∷ name) rest =
    let e : (c == c) ≡ true = ground arith in rw e (starts_with-append name rest)

has_text-Holds : (name text : List ℕ) → has_text name text ≡ true → Holds name text
unfolding has_text
has_text-Holds name [] h =
    let (rest, e) = starts_with-split name [] h in record { front = []; rest = rest; split = e }
has_text-Holds name (c ∷ text) h = elim (Bool-cases (starts_with name (c ∷ text))) [
  | inl e ↦
      let (rest, f) = starts_with-split name (c ∷ text) e in
      record { front = []; rest = rest; split = f }
  | inr e ↦
      let k = has_text-Holds name text (rw e at h) in
      record { front = c ∷ k.front; rest = k.rest; split = ap (λ x. c ∷ x) k.split }
]

has_text-append : (front name rest : List ℕ) → has_text name (front ++ (name ++ rest)) ≡ true
unfolding has_text
has_text-append [] [] [] = unfold starts_with in refl
has_text-append [] [] (c ∷ rest) = unfold starts_with in refl
has_text-append [] (c ∷ name) rest = rw (starts_with-append (c ∷ name) rest) refl
has_text-append (c ∷ front) name rest =
    elim (Bool-cases (starts_with name (c ∷ (front ++ (name ++ rest))))) [
      | inl e ↦ rw e refl
      | inr e ↦ rw e (has_text-append front name rest)
    ]

-- A visit of a path that exists and holds the name.
pub record IsFit (exists : List ℕ → Bool) (name : List ℕ) (v : Visit) : Type 0 where
  pub there : exists v.path ≡ true
  pub holds : Holds name v.path

IsFit-eligible :
    (exists : List ℕ → Bool) (name : List ℕ) (v : Visit)
    → IsFit exists name v
    → eligible exists name v ≡ true
IsFit-eligible exists name v h =
    let k = has_text-append h.holds.front name h.holds.rest in
    let e : has_text name v.path ≡ true = ap (has_text name) h.holds.split ∙ k in
    rw (h.there, e) refl

eligible-IsFit :
    (exists : List ℕ → Bool) (name : List ℕ) (v : Visit)
    → eligible exists name v ≡ true
    → IsFit exists name v
eligible-IsFit exists name v h = elim (Bool-cases (exists v.path)) [
  | inl e ↦ record { there = e; holds = has_text-Holds name v.path (rw e at h) }
  | inr e ↦ absurd (let k = rw e at h in cc)
]

-- A visit that is not preferred to `v`: it has a lower count, or the same count and a lower stamp, or both are
-- the same and its path is not before the one of `v`.
abbrev pub NotAbove : Visit → Visit → Type 0
NotAbove w v =
    (w.count < v.count)
    ⊎ ((w.count ≡ v.count) × (w.stamp < v.stamp))
    ⊎ ((w.count ≡ v.count) × (w.stamp ≡ v.stamp) × ¬ Before w.path v.path)

is_better-NotAbove : (w v : Visit) → is_better w v ≡ false → NotAbove w v
unfolding is_better
is_better-NotAbove w v h = elim (Bool-cases (ltb w.count v.count)) [
  | inl e ↦ inl (ground arith)
  | inr e ↦ elim (Bool-cases (ltb w.stamp v.stamp)) [
    | inl f ↦ inr (inl (ground arith, ground arith))
    | inr f ↦ inr (
        inr
          (ground arith, ground arith, λ b. let k = Before-text_before b in absurd (ground arith)))
  ]
]

module _ (exists : List ℕ → Bool) (name : List ℕ) where
  -- None of the visits is of a path that exists and holds the name.
  abbrev pub NoneFit : List Visit → Type 0
  NoneFit [] = Unit {0}
  NoneFit (w ∷ ws) = (¬ IsFit exists name w) × NoneFit ws

  -- No visit of a path that exists and holds the name is preferred to `v`.
  abbrev pub NoneAbove : Visit → List Visit → Type 0
  NoneAbove v [] = Unit {0}
  NoneAbove v (w ∷ ws) = (IsFit exists name w → NotAbove w v) × NoneAbove v ws

  pub record Preferred (visits : List Visit) (v : Visit) : Type 0 where
    pub front : List Visit
    pub rest : List Visit
    pub split : visits ≡ front ++ v ∷ rest
    pub fits : IsFit exists name v
    pub best : NoneAbove v visits

  abbrev pub Found : List Visit → Option Visit → Type 0
  Found visits none = NoneFit visits
  Found visits (some v) = Preferred visits v

  NoneEligible-NoneFit : (ws : List Visit) → NoneEligible exists name ws → NoneFit ws
  NoneEligible-NoneFit [] h = tt
  NoneEligible-NoneFit (w ∷ ws) (e, h) =
      ((λ f. let k = IsFit-eligible exists name w f in cc), NoneEligible-NoneFit ws h)

  Unbeaten-NoneAbove : (v : Visit) (ws : List Visit) → Unbeaten exists name v ws → NoneAbove v ws
  Unbeaten-NoneAbove v [] h = tt
  Unbeaten-NoneAbove v (w ∷ ws) (e, h) = (
    (λ f. is_better-NotAbove w v (e (IsFit-eligible exists name w f))),
    Unbeaten-NoneAbove v ws h,
  )

  BestOf-Found : (ws : List Visit) (r : Option Visit) → BestOf exists name ws r → Found ws r
  BestOf-Found ws none h = NoneEligible-NoneFit ws h
  BestOf-Found ws (some v) h = record {
    front = h.front;
    rest = h.rest;
    split = h.split;
    fits = eligible-IsFit exists name v h.fits;
    best = Unbeaten-NoneAbove v ws h.best;
  }

  -- find_visit finds a visit in the file whose path exists and holds the name, and to which no other such
  -- visit is preferred: none has a higher count, none of the same count a higher stamp, and none of the same
  -- count and stamp a path that is before it in the order of strcmp; or it finds none, and there is no visit
  -- whose path exists and holds the name.
  pub find_visit-Found :
      (strtoll : List ℕ → ℕ) (file : Option (List ℕ))
      → Found (load_visits strtoll file).visits (find_visit strtoll exists name file)
  find_visit-Found strtoll file =
      BestOf-Found (load_visits strtoll file).visits (find_visit strtoll exists name file)
        (find_visit-BestOf exists name strtoll file)
