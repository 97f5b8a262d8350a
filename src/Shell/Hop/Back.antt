-- ===== src/Shell/Hop/Back.antt =====
-- func.c: change_directory and do_hop, and the way back.
use mp.Prelude.{
  ℕ, Bool, true, false, Option, none, some, List, [], ◌∷◌, ◌≡◌, ◌∙◌, ◌⊎◌, inl, inr, refl, ap, arith,
  Bool-cases,
}
use mp.Shell.Builtin.{same_text}
use mp.Shell.Hop.{
  Visit, ShellState, record_visit, find_visit, moved_to, change_from, change_directory, hop_to,
  hop_found, hop_else, do_hop,
}

same_text_sym : (s t : List ℕ) → same_text s t ≡ same_text t s
unfolding same_text
same_text_sym [] [] = refl
same_text_sym [] (d ∷ t) = refl
same_text_sym (c ∷ s) [] = refl
same_text_sym (c ∷ s) (d ∷ t) = ground (arith, same_text_sym s t)

same_text_refl : (s : List ℕ) → same_text s s ≡ true
unfolding same_text
same_text_refl [] = refl
same_text_refl (c ∷ s) = ground (arith, same_text_refl s)

module _ (decimal : ℕ → List ℕ) (strtoll : List ℕ → ℕ) (writable : Bool) (exists : List ℕ → Bool)
    (path_of : ℕ → Option (List ℕ)) (chdir : ℕ → List ℕ → Option ℕ) where
  abbrev moves : List ℕ → ShellState → ShellState × Bool
  moves path s = change_directory decimal strtoll writable exists path_of chdir path s

  -- A change of directory that succeeds between two paths that are different.
  record Moved (s : ShellState) (r : ShellState × Bool) (a b : List ℕ) : Type 0 where
    from : path_of s.current ≡ some a
    done : r.1 ≡ true
    to : path_of r.0.current ≡ some b
    other : same_text a b ≡ false

  moved_to-previous :
      (s : ShellState) (a b : List ℕ) (new : Option (List ℕ))
      → (moved_to decimal strtoll writable exists path_of chdir s a new).1 ≡ true
      → path_of s.current ≡ new
      → path_of (moved_to decimal strtoll writable exists path_of chdir s a new).0.current ≡ some b
      → same_text a b ≡ false
      → (moved_to decimal strtoll writable exists path_of chdir s a new).0.previous_dir ≡ some a
  moved_to-previous s a b none h e k d = cc
  moved_to-previous s a b (some new) h e k d = elim (Bool-cases (same_text a new)) [
    | inl f ↦ let k' = rw f at k in cc
    | inr f ↦ rw f refl
  ]

  change_from-previous :
      (s : ShellState) (a b : List ℕ) (old : Option (List ℕ)) (there : Option ℕ)
      → old ≡ some a
      → (change_from decimal strtoll writable exists path_of chdir s old there).1 ≡ true
      → path_of (change_from decimal strtoll writable exists path_of chdir s old there).0.current
        ≡ some b
      → same_text a b ≡ false
      → (change_from decimal strtoll writable exists path_of chdir s old there).0.previous_dir
        ≡ some a
  change_from-previous s a b none there o h k d = cc
  change_from-previous s a b (some old) none o h k d = cc
  change_from-previous s a b (some old) (some there) o h k d =
      let s' = record s { current = there } in
      let same : old ≡ a = cc in
      rw same (moved_to-previous s' a b (path_of there) (rw same at h) refl (rw same at k) d)

  change_directory-previous :
      (path : List ℕ) (s : ShellState) (a b : List ℕ)
      → Moved s (moves path s) a b
      → (moves path s).0.previous_dir ≡ some a
  unfolding change_directory
  change_directory-previous path s a b h =
      change_from-previous s a b (path_of s.current) (chdir s.current path) h.from h.done h.to
        h.other

  -- Where a change fails, the shell is where it was, or in a directory without a path.
  moved_to-stuck :
      (s : ShellState) (a : List ℕ) (new : Option (List ℕ))
      → (moved_to decimal strtoll writable exists path_of chdir s a new).1 ≡ false
      → path_of s.current ≡ new
      → path_of (moved_to decimal strtoll writable exists path_of chdir s a new).0.current ≡ none
  moved_to-stuck s a none h e = e
  moved_to-stuck s a (some new) h e = elim (Bool-cases (same_text a new)) [
    | inl f ↦ let h' = rw f at h in cc
    | inr f ↦ let h' = rw f at h in cc
  ]

  change_from-stuck :
      (s : ShellState) (old : Option (List ℕ)) (there : Option ℕ)
      → (change_from decimal strtoll writable exists path_of chdir s old there).1 ≡ false
      → ((change_from decimal strtoll writable exists path_of chdir s old there).0 ≡ s)
        ⊎ (path_of (change_from decimal strtoll writable exists path_of chdir s old there).0.current
            ≡ none)
  change_from-stuck s none there h = inl refl
  change_from-stuck s (some old) none h = inl refl
  change_from-stuck s (some old) (some there) h =
      inr (moved_to-stuck (record s { current = there }) old (path_of there) h refl)

  change_directory-nowhere :
      (path : List ℕ) (s : ShellState) → path_of s.current ≡ none → moves path s ≡ (s, false)
  unfolding change_directory
  change_directory-nowhere path s e = rw e refl

  stays-previous : (s : ShellState) (a b : List ℕ) → Moved s (s, true) a b → s.previous_dir ≡ some a
  stays-previous s a b h =
      let e = h.from in
      let k = h.to in
      let d = h.other in
      let same : a ≡ b = cc in
      let d' : same_text b b ≡ false = rw same at d in let e' = same_text_refl b in cc

  hop_to-previous :
      (path : Option (List ℕ)) (s : ShellState) (a b : List ℕ)
      → Moved s (hop_to decimal strtoll writable exists path_of chdir path s) a b
      → (hop_to decimal strtoll writable exists path_of chdir path s).0.previous_dir ≡ some a
  hop_to-previous none s a b h = stays-previous s a b h
  hop_to-previous (some path) s a b h = change_directory-previous path s a b h

  hop_found-previous :
      (found : Option Visit) (s : ShellState) (a b : List ℕ)
      → Moved s (hop_found decimal strtoll writable exists path_of chdir found s) a b
      → (hop_found decimal strtoll writable exists path_of chdir found s).0.previous_dir ≡ some a
  hop_found-previous none s a b h = let e = h.done in cc
  hop_found-previous (some v) s a b h = change_directory-previous v.path s a b h

  hop_found-nowhere :
      (found : Option Visit) (s : ShellState)
      → path_of s.current ≡ none
      → (hop_found decimal strtoll writable exists path_of chdir found s).1 ≡ false
  hop_found-nowhere none s e = refl
  hop_found-nowhere (some v) s e = ap (λ r. r.1) (change_directory-nowhere v.path s e)

  -- The first try of hop_else has the result `r`.
  hop_else-previous :
      (name : List ℕ) (s : ShellState) (r : ShellState × Bool) (a b : List ℕ)
      → (Moved s r a b → r.0.previous_dir ≡ some a)
      → (r.1 ≡ false → (r.0 ≡ s) ⊎ (path_of r.0.current ≡ none))
      → Moved s (hop_else decimal strtoll writable exists path_of chdir name r) a b
      → (hop_else decimal strtoll writable exists path_of chdir name r).0.previous_dir ≡ some a
  hop_else-previous name s (t, true) a b first failed h = first h
  hop_else-previous name s (t, false) a b first failed h =
      let found = find_visit strtoll exists name t.history in
      elim (failed refl) [
        | inl e ↦
            hop_found-previous found t a b
              (record { from = rw e h.from; done = h.done; to = h.to; other = h.other })
        | inr e ↦ let f = hop_found-nowhere found t e in let g = h.done in cc
      ]

  change_directory-stuck :
      (path : List ℕ) (s : ShellState)
      → (moves path s).1 ≡ false
      → ((moves path s).0 ≡ s) ⊎ (path_of (moves path s).0.current ≡ none)
  unfolding change_directory
  change_directory-stuck path s h = change_from-stuck s (path_of s.current) (chdir s.current path) h

  abbrev hops : List ℕ → ShellState → ShellState × Bool
  hops argument s = do_hop decimal strtoll writable exists path_of chdir argument s

  do_hop-previous :
      (argument : List ℕ) (s : ShellState) (a b : List ℕ)
      → Moved s (hops argument s) a b
      → (hops argument s).0.previous_dir ≡ some a
  unfolding do_hop
  do_hop-previous argument s a b h = elim (Bool-cases (same_text argument (b'~' ∷ []))) [
    | inl e ↦ rw e (change_directory-previous s.home_dir s a b (rw e at h))
    | inr e ↦ elim (Bool-cases (same_text argument (b'.' ∷ []))) [
      | inl f ↦ rw (e, f) (stays-previous s a b (rw (e, f) at h))
      | inr f ↦ elim (Bool-cases (same_text argument (b'-' ∷ []))) [
        | inl g ↦ rw (e, f, g) (hop_to-previous s.previous_dir s a b (rw (e, f, g) at h))
        | inr g ↦
            rw (e, f, g)
              (hop_else-previous argument s (moves argument s) a b
                (change_directory-previous argument s a b) (change_directory-stuck argument s)
                (rw (e, f, g) at h))
      ]
    ]
  ]

  do_hop-dash :
      (s : ShellState)
      → hops (b'-' ∷ []) s ≡ hop_to decimal strtoll writable exists path_of chdir s.previous_dir s
  unfolding do_hop same_text
  do_hop-dash s = refl

  change_directory-moves :
      (path : List ℕ) (s : ShellState) (old new : List ℕ) (there : ℕ)
      → path_of s.current ≡ some old
      → chdir s.current path ≡ some there
      → path_of there ≡ some new
      → same_text old new ≡ false
      → moves path s ≡ (
        record s {
          current = there;
          previous_dir = some old;
          history = record_visit decimal strtoll writable new s.history;
        },
        true,
      )
  unfolding change_directory
  change_directory-moves path s old new there from leads to other = rw (from, leads, to, other) refl

  -- Whatever a hop that succeeds was given (a path, a name of a visited directory, ~ or -): if it has taken the
  -- shell from a directory to one with another path, and the path of the first leads back to it, then `hop -`
  -- succeeds next and takes the shell back; the directory that it came from is then the previous one, so
  -- that another `hop -` would return there, and the visit is recorded.
  pub do_hop-back :
      (argument : List ℕ) (s : ShellState) (a b : List ℕ)
      → path_of s.current ≡ some a
      → (hops argument s).1 ≡ true
      → path_of (hops argument s).0.current ≡ some b
      → same_text a b ≡ false
      → chdir (hops argument s).0.current a ≡ some s.current
      → hops (b'-' ∷ []) (hops argument s).0 ≡ (
        record (hops argument s).0 {
          current = s.current;
          previous_dir = some b;
          history = record_visit decimal strtoll writable a (hops argument s).0.history;
        },
        true,
      )
  do_hop-back argument s a b from done to other back =
      let t = (hops argument s).0 in
      do_hop-dash t
      ∙ ap (λ p. hop_to decimal strtoll writable exists path_of chdir p t)
          (do_hop-previous argument s a b
            (record { from = from; done = done; to = to; other = other }))
      ∙ change_directory-moves a t b a s.current to back from (same_text_sym b a ∙ other)
