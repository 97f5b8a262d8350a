-- ===== src/Shell/Hop/Best.antt =====
-- func.c: the loop of find_visit, by its own test against the best visit so far.
use mathlib.Core.List.{append_assoc, append-nil}
use mp.Prelude.{
  ℕ, Bool, true, false, Option, none, some, List, [], ◌∷◌, ◌++◌, ◌==◌, ◌≡◌, ◌∙◌, inl, inr, refl, ap,
  sym, arith, Bool-cases,
}
use mp.Shell.Builtin.{text_before}
use mp.Shell.Hop.{Visit, is_better, better_of, eligible, best_from, find_visit, load_visits}

text_before_trans :
    (a b c : List ℕ) → text_before a b ≡ true → text_before b c ≡ true → text_before a c ≡ true
unfolding text_before
text_before_trans a [] c h k = cc
text_before_trans a (y ∷ b) [] h k = cc
text_before_trans [] (y ∷ b) (z ∷ c) h k = refl
text_before_trans (x ∷ a) (y ∷ b) (z ∷ c) h k = ground (arith, text_before_trans a b c)

is_better_trans :
    (u v w : Visit) → is_better u v ≡ true → is_better v w ≡ true → is_better u w ≡ true
unfolding is_better
is_better_trans u v w h k = ground (arith, text_before_trans u.path v.path w.path)

text_before_irrefl : (a : List ℕ) → text_before a a ≡ false
unfolding text_before
text_before_irrefl [] = refl
text_before_irrefl (x ∷ a) = let e : (x == x) ≡ true = ground arith in rw e (text_before_irrefl a)

is_better_irrefl : (v : Visit) → is_better v v ≡ false
unfolding is_better
is_better_irrefl v = ground (arith, text_before_irrefl v.path)

module _ (exists : List ℕ → Bool) (name : List ℕ) where
  abbrev pub NoneEligible : List Visit → Type 0
  NoneEligible [] = Unit {0}
  NoneEligible (w ∷ ws) = (eligible exists name w ≡ false) × NoneEligible ws

  -- No visit that is eligible beats `v`.
  abbrev pub Unbeaten : Visit → List Visit → Type 0
  Unbeaten v [] = Unit {0}
  Unbeaten v (w ∷ ws) = (eligible exists name w ≡ true → is_better w v ≡ false) × Unbeaten v ws

  pub record Chosen (seen : List Visit) (v : Visit) : Type 0 where
    pub front : List Visit
    pub rest : List Visit
    pub split : seen ≡ front ++ v ∷ rest
    pub fits : eligible exists name v ≡ true
    pub best : Unbeaten v seen

  abbrev pub BestOf : List Visit → Option Visit → Type 0
  BestOf seen none = NoneEligible seen
  BestOf seen (some v) = Chosen seen v

  NoneEligible-snoc :
      (ws : List Visit) (w : Visit)
      → NoneEligible ws
      → eligible exists name w ≡ false
      → NoneEligible (ws ++ w ∷ [])
  NoneEligible-snoc [] w h e = (e, tt)
  NoneEligible-snoc (x ∷ ws) w (f, h) e = (f, NoneEligible-snoc ws w h e)

  Unbeaten-snoc :
      (v : Visit) (ws : List Visit) (w : Visit)
      → Unbeaten v ws
      → (eligible exists name w ≡ true → is_better w v ≡ false)
      → Unbeaten v (ws ++ w ∷ [])
  Unbeaten-snoc v [] w h e = (e, tt)
  Unbeaten-snoc v (x ∷ ws) w (f, h) e = (f, Unbeaten-snoc v ws w h e)

  NoneEligible-Unbeaten : (v : Visit) (ws : List Visit) → NoneEligible ws → Unbeaten v ws
  NoneEligible-Unbeaten v [] h = tt
  NoneEligible-Unbeaten v (w ∷ ws) (e, h) = ((λ f. cc), NoneEligible-Unbeaten v ws h)

  -- What did not beat a visit does not beat one that beats it.
  Unbeaten-is_better :
      (v w : Visit) (ws : List Visit) → is_better w v ≡ true → Unbeaten v ws → Unbeaten w ws
  Unbeaten-is_better v w [] b h = tt
  Unbeaten-is_better v w (u ∷ ws) b (e, h) = (
    (λ f. elim (Bool-cases (is_better u w)) [
      | inl g ↦ absurd (let k = is_better_trans u w v g b in let l = e f in cc)
      | inr g ↦ g
    ]),
    Unbeaten-is_better v w ws b h,
  )

  better_of-BestOf :
      (seen : List Visit) (w : Visit) (best : Option Visit)
      → eligible exists name w ≡ true
      → BestOf seen best
      → BestOf (seen ++ w ∷ []) (some (better_of w best))
  better_of-BestOf seen w none e h = record {
    front = seen;
    rest = [];
    split = refl;
    fits = e;
    best = Unbeaten-snoc w seen w (NoneEligible-Unbeaten w seen h) (λ f. is_better_irrefl w);
  }
  better_of-BestOf seen w (some v) e h = elim (Bool-cases (is_better w v)) [
    | inl b ↦ rw b (record {
      front = seen;
      rest = [];
      split = refl;
      fits = e;
      best =
          Unbeaten-snoc w seen w (Unbeaten-is_better v w seen b h.best) (λ f. is_better_irrefl w);
    })
    | inr b ↦ rw b (record {
      front = h.front;
      rest = h.rest ++ w ∷ [];
      split = ap (λ x. x ++ w ∷ []) h.split ∙ append_assoc h.front (v ∷ h.rest) (w ∷ []);
      fits = h.fits;
      best = Unbeaten-snoc v seen w h.best (λ f. b);
    })
  ]

  skipped-BestOf :
      (seen : List Visit) (w : Visit) (best : Option Visit)
      → eligible exists name w ≡ false
      → BestOf seen best
      → BestOf (seen ++ w ∷ []) best
  skipped-BestOf seen w none e h = NoneEligible-snoc seen w h e
  skipped-BestOf seen w (some v) e h = record {
    front = h.front;
    rest = h.rest ++ w ∷ [];
    split = ap (λ x. x ++ w ∷ []) h.split ∙ append_assoc h.front (v ∷ h.rest) (w ∷ []);
    fits = h.fits;
    best = Unbeaten-snoc v seen w h.best (λ f. cc);
  }

  best_from-BestOf :
      (visits seen : List Visit) (best : Option Visit)
      → BestOf seen best
      → BestOf (seen ++ visits) (best_from exists name best visits)
  unfolding best_from
  best_from-BestOf [] seen best h = rw (append-nil seen) h
  best_from-BestOf (w ∷ visits) seen best h = elim (Bool-cases (eligible exists name w)) [
    | inl e ↦
        rw (e, sym (append_assoc seen (w ∷ []) visits))
          (best_from-BestOf visits (seen ++ w ∷ []) (some (better_of w best))
            (better_of-BestOf seen w best e h))
    | inr e ↦
        rw (e, sym (append_assoc seen (w ∷ []) visits))
          (best_from-BestOf visits (seen ++ w ∷ []) best (skipped-BestOf seen w best e h))
  ]

  pub find_visit-BestOf :
      (strtoll : List ℕ → ℕ) (file : Option (List ℕ))
      → BestOf (load_visits strtoll file).visits (find_visit strtoll exists name file)
  unfolding find_visit
  find_visit-BestOf strtoll file = best_from-BestOf (load_visits strtoll file).visits [] none tt
