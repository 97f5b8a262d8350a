-- ===== src/Kernel/Path/Walk.antt =====
-- fs.c: `namei` and `nameiparent`, against a walk down the elements of a path.
use mathlib.Core.Option
use mp.Prelude.{
  ℕ, zero, suc, ◌<◌, Bool, true, false, not, ◌&&◌, Option, none, some, List, [], ◌∷◌, ◌==◌, ◌≡◌,
  ◌∙◌, inl, inr, refl, ap, arith, length, if◌then◌else◌, Bool-cases, Option-cases,
}
use mp.Kernel.Path.{
  Inode, dirlookup, skipelem, ends, namex_from, start_of, namex, namei, nameiparent,
}
use mp.Kernel.Path.Elements.{
  elements, Skipped, last, more, skipelem-Skipped, ends-elements, elements-cons,
}

module _ (inodes : ℕ → Inode) where
  -- A directory that has not been removed.
  abbrev pub usable : ℕ → Bool
  usable ip = (inodes ip).is_dir && not ((inodes ip).nlink == 0)

  -- One step of a walk.
  abbrev pub go : ℕ → List ℕ → Option ℕ
  go ip name =
      if usable ip then Option.map (λ found. found.0) (dirlookup name (inodes ip).entries) else none

  -- Down the directories that the names say.
  unfoldable pub walk : ℕ → List (List ℕ) → Option ℕ
  walk ip [] = some ip
  walk ip (name ∷ names) = Option.bind (go ip name) (λ next. walk next names)

  -- Down to the directory before the last name, and that name.
  unfoldable pub walk_parent : ℕ → List (List ℕ) → Option (ℕ × List ℕ)
  walk_parent ip [] = none
  walk_parent ip (name ∷ []) = if usable ip then some (ip, name) else none
  walk_parent ip (name ∷ other ∷ names) =
      Option.bind (go ip name) (λ next. walk_parent next (other ∷ names))

  abbrev FollowsWalk : ℕ → Type 0
  FollowsWalk n =
      (ip : ℕ) (path name : List ℕ)
      → length path < n
      → Option.map (λ r. r.0) (namex_from n inodes false ip path name) ≡ walk ip (elements path)

  walk_round :
      (n ip : ℕ) (path name : List ℕ)
      → length path < suc n
      → FollowsWalk n
      → (r : Option (List ℕ × List ℕ)) → skipelem path ≡ r
      → Skipped path r
      → Option.map (λ x. x.0) (namex_from (suc n) inodes false ip path name)
        ≡ walk ip (elements path)
  unfolding namex_from walk Option.bind
  walk_round n ip path name lt ih none e (last f) = rw (e, f) refl
  walk_round n ip path name lt ih (some (elem, rest)) e (more name' rest' f short trimmed) =
      elim (Bool-cases (inodes ip).is_dir) [
        | inr a ↦ rw (e, f, a) refl
        | inl a ↦ elim (Bool-cases ((inodes ip).nlink == 0)) [
          | inl b ↦ rw (e, f, a, b) refl
          | inr b ↦ elim (Option-cases (dirlookup elem (inodes ip).entries)) [
            | inl c ↦ rw (e, f, a, b, c) refl
            | inr ((next, off), c) ↦ rw (e, f, a, b, c) (ih next rest elem (omega arith))
          ]
        ]
      ]

  namex_from-walk : (n : ℕ) → FollowsWalk n
  namex_from-walk zero ip path name lt = absurd (omega arith)
  namex_from-walk (suc n) ip path name lt =
      walk_round n ip path name lt (namex_from-walk n) (skipelem path) refl (skipelem-Skipped path)

  abbrev FollowsParent : ℕ → Type 0
  FollowsParent n =
      (ip : ℕ) (path name : List ℕ)
      → length path < n
      → namex_from n inodes true ip path name ≡ walk_parent ip (elements path)

  parent_round :
      (n ip : ℕ) (path name : List ℕ)
      → length path < suc n
      → FollowsParent n
      → (r : Option (List ℕ × List ℕ)) → skipelem path ≡ r
      → Skipped path r
      → namex_from (suc n) inodes true ip path name ≡ walk_parent ip (elements path)
  unfolding namex_from walk_parent Option.bind
  parent_round n ip path name lt ih none e (last f) = rw (e, f) refl
  parent_round n ip path name lt ih (some (elem, rest)) e (more name' rest' f short trimmed) =
      elim (Bool-cases (ends rest)) [
        | inl d ↦
            let g : elements rest ≡ [] = ends-elements rest trimmed d in
            elim (Bool-cases (inodes ip).is_dir) [
              | inr a ↦ rw (e, f, g, a) refl
              | inl a ↦ elim (Bool-cases ((inodes ip).nlink == 0)) [
                | inl b ↦ rw (e, f, g, a, b) refl
                | inr b ↦ rw (e, f, g, a, b, d) refl
              ]
            ]
        | inr d ↦
            let (first, names, g) = elements-cons rest trimmed d in
            elim (Bool-cases (inodes ip).is_dir) [
              | inr a ↦ rw (e, f, g, a) refl
              | inl a ↦ elim (Bool-cases ((inodes ip).nlink == 0)) [
                | inl b ↦ rw (e, f, g, a, b) refl
                | inr b ↦ elim (Option-cases (dirlookup elem (inodes ip).entries)) [
                  | inl c ↦ rw (e, f, g, a, b, d, c) refl
                  | inr ((next, off), c) ↦
                      rw (e, f, g, a, b, d, c)
                        (ih next rest elem (omega arith) ∙ ap (walk_parent next) g)
                ]
              ]
            ]
      ]

  namex_from-parent : (n : ℕ) → FollowsParent n
  namex_from-parent zero ip path name lt = absurd (omega arith)
  namex_from-parent (suc n) ip path name lt =
      parent_round n ip path name lt (namex_from-parent n) (skipelem path) refl
        (skipelem-Skipped path)

  -- `namei` finds the inode that a walk down the elements of the path finds, from the root where the path
  -- begins with a slash and from the current directory else, and none where the walk comes through what is
  -- no directory or a removed one, or to a name that is not there; `nameiparent` finds the directory before
  -- the last element, and this element, and none for a path without elements.
  pub namei-walk :
      (root cwd : ℕ) (path : List ℕ)
      → (Option.map (λ r. r.0) (namei inodes root cwd path)
          ≡ walk (start_of root cwd path) (elements path))
        × (nameiparent inodes root cwd path ≡ walk_parent (start_of root cwd path) (elements path))
  unfolding namei nameiparent namex
  namei-walk root cwd path = (
    namex_from-walk (suc (length path)) (start_of root cwd path) path [] (omega arith),
    namex_from-parent (suc (length path)) (start_of root cwd path) path [] (omega arith),
  )
