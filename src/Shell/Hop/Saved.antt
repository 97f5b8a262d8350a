-- ===== src/Shell/Hop/Saved.antt =====
-- func.c: load_visits on a file that save_visits has written.
use mathlib.Core.List.{append_assoc, append-nil}
use mp.Prelude.{ℕ, true, false, some, List, [], ◌∷◌, ◌++◌, ◌==◌, ◌≡◌, ◌∙◌, refl, ap, sym, arith}
use mp.Shell.Builtin.{split_at}
use mp.Shell.Hop.{
  Visit, History, split_lines, tab, parse_visit, later, add_parsed, load_lines, load_visits,
  print_visit, save_visits,
}

-- A byte that the text does not hold.
abbrev pub Lacks : ℕ → List ℕ → Type 0
Lacks b [] = Unit {0}
Lacks b (c ∷ cs) = ((c == b) ≡ false) × Lacks b cs

split_at-Lacks : (b : ℕ) (xs ys : List ℕ) → Lacks b xs → split_at b (xs ++ b ∷ ys) ≡ some (xs, ys)
unfolding split_at
split_at-Lacks b [] ys h = let e : (b == b) ≡ true = ground arith in rw e refl
split_at-Lacks b (c ∷ xs) ys (e, h) = rw (e, split_at-Lacks b xs ys h) refl

Lacks-append : (b : ℕ) (xs ys : List ℕ) → Lacks b xs → Lacks b ys → Lacks b (xs ++ ys)
Lacks-append b [] ys h k = k
Lacks-append b (x ∷ xs) ys (e, h) k = (e, Lacks-append b xs ys h k)

-- A line is read up to its newline.
split_lines-line :
    (line xs file : List ℕ)
    → Lacks 10 xs
    → split_lines line (xs ++ 10 ∷ file) ≡ (line ++ xs) ∷ split_lines [] file
unfolding split_lines
split_lines-line [] [] file h = refl
split_lines-line (l ∷ line) [] file h = rw (append-nil line) refl
split_lines-line [] (c ∷ xs) file (e, h) = rw e (split_lines-line (c ∷ []) xs file h)
split_lines-line (l ∷ line) (c ∷ xs) file (e, h) = rw e (
    split_lines-line (l ∷ (line ++ c ∷ [])) xs file h
    ∙ ap (λ x. (l ∷ x) ∷ split_lines [] file) (append_assoc line (c ∷ []) xs))

-- The formats of numbers: a number that is printed has no tab and no newline, and is read back.
module _ (decimal : ℕ → List ℕ) (strtoll : List ℕ → ℕ) (no_tab : (n : ℕ) → Lacks 9 (decimal n))
    (no_newline : (n : ℕ) → Lacks 10 (decimal n))
    (reads_back : (n : ℕ) → strtoll (decimal n) ≡ n) where
  -- The line of a visit, without its newline.
  abbrev line_of : Visit → List ℕ
  line_of v = decimal v.count ++ tab ∷ (decimal v.stamp ++ tab ∷ v.path)

  parse_visit-line : (v : Visit) → parse_visit strtoll (line_of v) ≡ some v
  unfolding parse_visit
  parse_visit-line v =
      rw
        (
          split_at-Lacks 9 (decimal v.count) (decimal v.stamp ++ tab ∷ v.path) (no_tab v.count),
          split_at-Lacks 9 (decimal v.stamp) v.path (no_tab v.stamp),
          reads_back v.count,
          reads_back v.stamp,
        )
        refl

  line_of-Lacks : (v : Visit) → Lacks 10 v.path → Lacks 10 (line_of v)
  line_of-Lacks v h =
      Lacks-append 10 (decimal v.count) (tab ∷ (decimal v.stamp ++ tab ∷ v.path))
        (no_newline v.count)
        (refl, Lacks-append 10 (decimal v.stamp) (tab ∷ v.path) (no_newline v.stamp) (refl, h))

  print_visit-line : (v : Visit) → print_visit decimal v ≡ line_of v ++ 10 ∷ []
  print_visit-line v = sym (
      append_assoc (decimal v.count) (tab ∷ (decimal v.stamp ++ tab ∷ v.path)) (10 ∷ [])
      ∙ ap (λ x. decimal v.count ++ tab ∷ x)
          (append_assoc (decimal v.stamp) (tab ∷ v.path) (10 ∷ [])))

  abbrev pub AllPaths : List Visit → Type 0
  AllPaths [] = Unit {0}
  AllPaths (v ∷ visits) = Lacks 10 v.path × AllPaths visits

  -- The latest stamp of some visits and of those before.
  abbrev pub latest : ℕ → List Visit → ℕ
  latest n [] = n
  latest n (v ∷ visits) = latest (later v.stamp n) visits

  load_lines-line :
      (lines : List (List ℕ)) (v : Visit) (h : History)
      → load_lines strtoll (line_of v ∷ lines) h
        ≡ load_lines strtoll lines (add_parsed strtoll h (some v))
  unfolding load_lines
  load_lines-line lines v h =
      ap (λ p. load_lines strtoll lines (add_parsed strtoll h p)) (parse_visit-line v)

  load_lines-save :
      (visits before : List Visit) (n : ℕ)
      → AllPaths visits
      → load_lines strtoll
          (split_lines [] (save_visits decimal visits))
          (record { visits = before; sequence = n })
        ≡ record { visits = before ++ visits; sequence = latest n visits }
  unfolding load_lines save_visits split_lines
  load_lines-save [] before n h = rw (append-nil before) refl
  load_lines-save (v ∷ visits) before n (h, hs) =
      let file = save_visits decimal visits in
      let cut : print_visit decimal v ++ file ≡ line_of v ++ 10 ∷ file =
        ap (λ x. x ++ file) (print_visit-line v) ∙ append_assoc (line_of v) (10 ∷ []) file in
      let lines : split_lines [] (print_visit decimal v ++ file) ≡ line_of v ∷ split_lines [] file =
        ap (split_lines []) cut ∙ split_lines-line [] (line_of v) file (line_of-Lacks v h) in
      ap (λ ls. load_lines strtoll ls (record { visits = before; sequence = n })) lines
      ∙ load_lines-line (split_lines [] file) v (record { visits = before; sequence = n })
      ∙ (load_lines-save visits (before ++ v ∷ []) (later v.stamp n) hs
          ∙ ap (λ x. record { visits = x; sequence = latest (later v.stamp n) visits })
              (append_assoc before (v ∷ []) visits))

  -- What save_visits writes is what load_visits reads: the same visits in the same order, and the latest of
  -- their stamps, where no path holds a newline; a path may hold tabs. A number is printed without a tab or a
  -- newline, and is read back.
  pub load_visits-save_visits :
      (visits : List Visit)
      → AllPaths visits
      → load_visits strtoll (some (save_visits decimal visits))
        ≡ record { visits = visits; sequence = latest 0 visits }
  unfolding load_visits
  load_visits-save_visits visits h = load_lines-save visits [] 0 h
