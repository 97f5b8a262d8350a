-- ===== src/User/Grep/Language.antt =====
-- grep.c: the words that a pattern stands for, and the matcher on them.
use mathlib.Core.List.{append_assoc}
use mp.Prelude.{
  ℕ, Bool, true, false, ◌||◌, List, [], ◌∷◌, ◌++◌, ◌==◌, ◌≡◌, ◌↔◌, ◌∙◌, inl, inr, refl, ap, sym,
  subst, arith, if◌then◌else◌, Bool-cases,
}
use mp.User.Grep.{matchstar, is_end, match_byte, matchhere, search_from, match}

-- A byte of a pattern that is no operator: `.` is any byte, another one is itself.
pub data Atom : Type 0 where
  any : Atom
  lit : ℕ → Atom

-- A pattern: its end, a `$` at its end, a byte, or any number of a byte.
pub data Regex : Type 0 where
  done eol : Regex
  one star : Atom → Regex → Regex

abbrev pub atom : ℕ → Atom
atom c = if c == b'.' then any else lit c

unfoldable pub parse : List ℕ → Regex
parse [] = done
parse (c ∷ []) = if c == b'$' then eol else one (atom c) done
parse (c ∷ d ∷ re) = if d == b'*' then star (atom c) (parse re) else one (atom c) (parse (d ∷ re))

abbrev pub fits : Atom → ℕ → Bool
fits any t = true
fits (lit c) t = c == t

abbrev pub AllFit : Atom → List ℕ → Type 0
AllFit a [] = Unit {0}
AllFit a (t ∷ ts) = (fits a t ≡ true) × AllFit a ts

-- The words of a pattern.
abbrev pub Words : Regex → List ℕ → Type 0
Words done w = w ≡ []
Words eol w = w ≡ []
Words (one a r) w = (t : ℕ) × (u : List ℕ) × (w ≡ t ∷ u) × (fits a t ≡ true) × Words r u
Words (star a r) w = (u v : List ℕ) × (w ≡ u ++ v) × AllFit a u × Words r v

-- The pattern ends in `$`.
abbrev pub is_anchored : Regex → Bool
is_anchored done = false
is_anchored eol = true
is_anchored (one a r) = is_anchored r
is_anchored (star a r) = is_anchored r

-- The text begins with a word of the pattern, and is that word where the pattern ends in `$`.
abbrev pub Begins : Regex → List ℕ → Type 0
Begins r text =
    (w after : List ℕ) × (text ≡ w ++ after) × Words r w × (is_anchored r ≡ true → after ≡ [])

-- The matcher on a pattern that has been taken apart.
abbrev accepts_star : Atom → (List ℕ → Bool) → List ℕ → Bool
accepts_star a here [] = here []
accepts_star a here (t ∷ ts) =
    let rest = accepts_star a here ts in
    if here (t ∷ ts) then true else if fits a t then rest else false

abbrev accepts_one : Atom → (List ℕ → Bool) → List ℕ → Bool
accepts_one a here [] = false
accepts_one a here (t ∷ ts) = if fits a t then here ts else false

accepts : Regex → List ℕ → Bool
accepts done text = true
accepts eol text = is_end text
accepts (one a r) text = accepts_one a (accepts r) text
accepts (star a r) text = accepts_star a (accepts r) text

fits-atom : (c t : ℕ) → fits (atom c) t ≡ (c == b'.' || c == t)
fits-atom c t = elim (Bool-cases (c == b'.')) [ inl e ↦ rw e refl | inr e ↦ rw e refl ]

fits-atom_star : (c t : ℕ) → fits (atom c) t ≡ (t == c || c == b'.')
fits-atom_star c t = fits-atom c t ∙ ground arith

star-accepts :
    (c : ℕ) (f g : List ℕ → Bool) (text : List ℕ)
    → ((x : List ℕ) → f x ≡ g x)
    → matchstar c f text ≡ accepts_star (atom c) g text
unfolding matchstar
star-accepts c f g [] h = h []
star-accepts c f g (t ∷ ts) h = rw (h (t ∷ ts), star-accepts c f g ts h, fits-atom_star c t) refl

byte-accepts :
    (c : ℕ) (f g : List ℕ → Bool) (text : List ℕ)
    → ((x : List ℕ) → f x ≡ g x)
    → match_byte c f text ≡ accepts_one (atom c) g text
byte-accepts c f g [] h = refl
byte-accepts c f g (t ∷ ts) h = rw (h ts, fits-atom c t) refl

matchhere-accepts : (re text : List ℕ) → matchhere re text ≡ accepts (parse re) text
unfolding matchhere parse accepts
matchhere-accepts [] text = refl
matchhere-accepts (c ∷ []) text = elim (Bool-cases (c == b'$')) [
  | inl e ↦ rw e refl
  | inr e ↦ rw e (byte-accepts c (λ t. true) (accepts done) text (λ x. refl))
]
matchhere-accepts (c ∷ d ∷ re) text = elim (Bool-cases (d == b'*')) [
  | inl e ↦ rw e (star-accepts c (matchhere re) (accepts (parse re)) text (matchhere-accepts re))
  | inr e ↦ rw e (
      byte-accepts c (matchhere (d ∷ re)) (accepts (parse (d ∷ re))) text
        (matchhere-accepts (d ∷ re)))
]

-- Some bytes that fit, and then what the rest of the pattern finds.
abbrev Skips : Atom → (List ℕ → Bool) → List ℕ → Type 0
Skips a here text = (u rest : List ℕ) × (text ≡ u ++ rest) × AllFit a u × (here rest ≡ true)

star-Skips :
    (a : Atom) (here : List ℕ → Bool) (text : List ℕ)
    → accepts_star a here text ≡ true
    → Skips a here text
star-Skips a here [] h = ([], [], refl, tt, h)
star-Skips a here (t ∷ ts) h = elim (Bool-cases (here (t ∷ ts))) [
  | inl e ↦ ([], t ∷ ts, refl, tt, e)
  | inr e ↦ elim (Bool-cases (fits a t)) [
    | inl f ↦
        let (u, rest, s, p, q) = star-Skips a here ts (rw (e, f) at h) in
        (t ∷ u, rest, ap (◌∷◌ t) s, (f, p), q)
    | inr f ↦ absurd (let g : false ≡ true = rw (e, f) at h in cc)
  ]
]

Skips-star :
    (a : Atom) (here : List ℕ → Bool) (text u rest : List ℕ)
    → text ≡ u ++ rest
    → AllFit a u
    → here rest ≡ true
    → accepts_star a here text ≡ true
Skips-star a here [] [] rest s p q = rw s q
Skips-star a here [] (x ∷ u) rest s p q = cc
Skips-star a here (t ∷ ts) [] rest s p q = let e : here (t ∷ ts) ≡ true = rw s q in rw e refl
Skips-star a here (t ∷ ts) (x ∷ u) rest s p q =
    let e : t ≡ x = cc in
    let tail : ts ≡ u ++ rest = cc in
    let f : fits a t ≡ true = rw e p.0 in
    elim (Bool-cases (here (t ∷ ts))) [
      | inl g ↦ rw g refl
      | inr g ↦ rw (g, f) (Skips-star a here ts u rest tail p.1 q)
    ]

accepts-Begins : (r : Regex) (text : List ℕ) → accepts r text ≡ true → Begins r text
unfolding accepts
accepts-Begins done text h = ([], text, refl, refl, λ e. cc)
accepts-Begins eol [] h = ([], [], refl, refl, λ e. refl)
accepts-Begins eol (t ∷ ts) h = cc
accepts-Begins (one a r) [] h = cc
accepts-Begins (one a r) (t ∷ ts) h = elim (Bool-cases (fits a t)) [
  | inl f ↦
      let (w, after, s, m, e) = accepts-Begins r ts (rw f at h) in
      (t ∷ w, after, ap (◌∷◌ t) s, (t, w, refl, f, m), e)
  | inr f ↦ absurd (let g : false ≡ true = rw f at h in cc)
]
accepts-Begins (star a r) text h =
    let (u, rest, s, p, q) = star-Skips a (accepts r) text h in
    let (w, after, s', m, e) = accepts-Begins r rest q in
    (u ++ w, after, s ∙ ap (λ x. u ++ x) s' ∙ sym (append_assoc u w after), (u, w, refl, p, m), e)

Begins-accepts :
    (r : Regex) (text w after : List ℕ)
    → text ≡ w ++ after
    → Words r w
    → (is_anchored r ≡ true → after ≡ [])
    → accepts r text ≡ true
unfolding accepts
Begins-accepts done text w after s m e = refl
Begins-accepts eol text w after s m e =
    let nil : text ≡ [] = s ∙ ap (λ x. x ++ after) m ∙ e refl in rw nil refl
Begins-accepts (one a r) text w after s (t, u, split, f, m) e =
    let split' : text ≡ t ∷ (u ++ after) = s ∙ ap (λ x. x ++ after) split in
    rw (split', f) (Begins-accepts r (u ++ after) u after refl m e)
Begins-accepts (star a r) text w after s (u, v, split, p, m) e =
    Skips-star a (accepts r) text u (v ++ after)
      (s ∙ ap (λ x. x ++ after) split ∙ append_assoc u v after) p
      (Begins-accepts r (v ++ after) v after refl m e)

-- `matchhere` finds a pattern at the beginning of a text exactly if the text begins with one of its
-- words, the word being all of the text where the pattern ends in `$`.
matchhere_iff : (re text : List ℕ) → (matchhere re text ≡ true) ↔ Begins (parse re) text
matchhere_iff re text = (
  (λ h. accepts-Begins (parse re) text (sym (matchhere-accepts re text) ∙ h)),
  (λ b.
      let (w, after, s, m, e) = b in
      matchhere-accepts re text ∙ Begins-accepts (parse re) text w after s m e),
)

-- A word of the pattern stands somewhere in the text.
abbrev pub Occurs : Regex → List ℕ → Type 0
Occurs r text = (before rest : List ℕ) × (text ≡ before ++ rest) × Begins r rest

search_from-Occurs : (re text : List ℕ) → search_from re text ≡ true → Occurs (parse re) text
unfolding search_from
search_from-Occurs re [] h = ([], [], refl, (matchhere_iff re []).0 h)
search_from-Occurs re (t ∷ ts) h = elim (Bool-cases (matchhere re (t ∷ ts))) [
  | inl e ↦ ([], t ∷ ts, refl, (matchhere_iff re (t ∷ ts)).0 e)
  | inr e ↦
      let (before, rest, s, b) = search_from-Occurs re ts (rw e at h) in
      (t ∷ before, rest, ap (◌∷◌ t) s, b)
]

Occurs-search_from :
    (re text before rest : List ℕ)
    → text ≡ before ++ rest
    → Begins (parse re) rest
    → search_from re text ≡ true
unfolding search_from
Occurs-search_from re [] [] rest s b =
    (matchhere_iff re []).1 (subst (λ x. Begins (parse re) x) (sym s) b)
Occurs-search_from re [] (x ∷ before) rest s b = cc
Occurs-search_from re (t ∷ ts) [] rest s b =
    let h : matchhere re (t ∷ ts) ≡ true =
      (matchhere_iff re (t ∷ ts)).1 (subst (λ x. Begins (parse re) x) (sym s) b) in
    rw h refl
Occurs-search_from re (t ∷ ts) (x ∷ before) rest s b = elim (Bool-cases (matchhere re (t ∷ ts))) [
  | inl e ↦ rw e refl
  | inr e ↦ rw e (Occurs-search_from re ts before rest (let g : ts ≡ before ++ rest = cc in g) b)
]

-- What a pattern with its `^` finds in a line.
abbrev pub Finds : List ℕ → List ℕ → Type 0
Finds [] text = Occurs done text
Finds (c ∷ re) text = if c == b'^' then Begins (parse re) text else Occurs (parse (c ∷ re)) text

search_from_iff : (re text : List ℕ) → (search_from re text ≡ true) ↔ Occurs (parse re) text
search_from_iff re text = (
  search_from-Occurs re text,
  (λ o. let (before, rest, s, b) = o in Occurs-search_from re text before rest s b),
)

-- `match` finds a pattern in a line exactly if a word of the pattern stands in it: at the beginning of
-- the line where the pattern begins with `^`, and at its end where the pattern ends in `$`. The words
-- are those of the bytes of the pattern in sequence, `.` for any byte, and any number of fitting bytes
-- for a byte with a `*` behind it.
pub match_iff : (re text : List ℕ) → (match re text ≡ true) ↔ Finds re text
unfolding match parse
match_iff [] text = search_from_iff [] text
match_iff (c ∷ re) text = elim (Bool-cases (c == b'^')) [
  | inl e ↦ rw e (matchhere_iff re text)
  | inr e ↦ rw e (search_from_iff (c ∷ re) text)
]
