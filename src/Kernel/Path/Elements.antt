-- ===== src/Kernel/Path/Elements.antt =====
-- The elements of a path.
use mathlib.Core.List.{append_assoc, append-nil}
use mp.Prelude.{
  ℕ, suc, ◌≤◌, ◌<◌, true, false, Option, none, some, List, [], ◌∷◌, ◌++◌, ◌≡◌, ◌∙◌, inl, inr, refl,
  ap, sym, arith, map, length, take, if◌then◌else◌, Bool-cases,
}
use mp.Kernel.Path.{
  dirsiz, is_slash, skip_slashes, element, after_element, next_element, skipelem, ends,
}

-- A word that is not empty, before other words.
abbrev pub emit : List ℕ → List (List ℕ) → List (List ℕ)
emit [] ws = ws
emit (c ∷ w) ws = (c ∷ w) ∷ ws

-- The words between the slashes, with the bytes of the first that have been passed.
unfoldable pub split : List ℕ → List ℕ → List (List ℕ)
split word [] = emit word []
split word (c ∷ path) =
    let next = split [] path in
    let longer = split (word ++ c ∷ []) path in if is_slash c then emit word next else longer

-- The names of a path: what stands between slashes and is not empty, its first 14 bytes.
unfoldable pub elements : List ℕ → List (List ℕ)
unfolding split
elements path = map (take dirsiz) (split [] path)

split-slash :
    (c : ℕ) (word path : List ℕ)
    → is_slash c ≡ true
    → split word (c ∷ path) ≡ emit word (split [] path)
unfolding split
split-slash c word path e = rw e refl

split-byte :
    (c : ℕ) (word path : List ℕ)
    → is_slash c ≡ false
    → split word (c ∷ path) ≡ split (word ++ c ∷ []) path
unfolding split
split-byte c word path e = rw e refl

split-skip : (path : List ℕ) → split [] (skip_slashes path) ≡ split [] path
unfolding split skip_slashes
split-skip [] = refl
split-skip (c ∷ path) = elim (Bool-cases (is_slash c)) [
  | inl e ↦ rw e (split-skip path)
  | inr e ↦ rw e (split-byte c [] path e)
]

split-word :
    (w : ℕ) (word path : List ℕ)
    → split (w ∷ word) path ≡ ((w ∷ word) ++ element path) ∷ split [] (after_element path)
unfolding split element after_element
split-word w word [] = rw (append-nil word) refl
split-word w word (c ∷ path) = elim (Bool-cases (is_slash c)) [
  | inl e ↦ rw (e, append-nil word) (ap (λ ws. (w ∷ word) ∷ ws) (sym (split-slash c [] path e)))
  | inr e ↦
      rw e
        (split-word w (word ++ c ∷ []) path ∙ rw (append_assoc word (c ∷ []) (element path)) refl)
]

-- What `skipelem` does to the elements.
pub data Skipped (path : List ℕ) : Option (List ℕ × List ℕ) → Type 0 where
  last : elements path ≡ [] → Skipped path none
  more :
      (name rest : List ℕ)
      → elements path ≡ name ∷ elements rest
      → length rest < length path
      → skip_slashes rest ≡ rest
      → Skipped path (some (name, rest))

length-skip : (path : List ℕ) → length (skip_slashes path) ≤ length path
unfolding skip_slashes
length-skip [] = omega arith
length-skip (c ∷ path) = elim (Bool-cases (is_slash c)) [
  | inl e ↦ rw e (omega (arith, length-skip path))
  | inr e ↦ rw e (omega arith)
]

length-after : (path : List ℕ) → length (after_element path) ≤ length path
unfolding after_element
length-after [] = omega arith
length-after (c ∷ path) = elim (Bool-cases (is_slash c)) [
  | inl e ↦ rw e (omega arith)
  | inr e ↦ rw e (omega (arith, length-after path))
]

skip-twice : (path : List ℕ) → skip_slashes (skip_slashes path) ≡ skip_slashes path
unfolding skip_slashes
skip-twice [] = refl
skip-twice (c ∷ path) = elim (Bool-cases (is_slash c)) [
  | inl e ↦ rw e (skip-twice path)
  | inr e ↦ rw (e, e) refl
]

-- The first byte of a path behind its slashes is none.
skip-head : (path rest : List ℕ) (c : ℕ) → skip_slashes path ≡ c ∷ rest → is_slash c ≡ false
unfolding skip_slashes
skip-head [] rest c e = cc
skip-head (d ∷ path) rest c e = elim (Bool-cases (is_slash d)) [
  | inl f ↦ skip-head path rest c (rw f at e)
  | inr f ↦
      let g : ◌≡◌ {A = List ℕ} (d ∷ path) (c ∷ rest) = rw f at e in let h : d ≡ c = cc in rw h at f
]

next_element-Skipped :
    (path trimmed : List ℕ) → skip_slashes path ≡ trimmed → Skipped path (next_element trimmed)
unfolding elements split element after_element
next_element-Skipped path [] e =
    last (ap (map (take dirsiz)) (sym (split-skip path) ∙ ap (split []) e))
next_element-Skipped path (c ∷ rest) e =
    let f : is_slash c ≡ false = skip-head path rest c e in
    let words : split [] path ≡ (c ∷ element rest) ∷ split [] (skip_slashes (after_element rest)) =
      sym (split-skip path)
      ∙ ap (split []) e
      ∙ rw f (split-word c [] rest)
      ∙ ap (λ ws. (c ∷ element rest) ∷ ws) (sym (split-skip (after_element rest))) in
    let short : suc (length rest) ≤ length path = rw (ap length e) at (length-skip path) in
    rw f (
      more (take dirsiz (c ∷ element rest)) (skip_slashes (after_element rest))
        (ap (map (take dirsiz)) words)
        (omega (arith, length-skip (after_element rest), length-after rest))
        (skip-twice (after_element rest)))

pub skipelem-Skipped : (path : List ℕ) → Skipped path (skipelem path)
unfolding skipelem
skipelem-Skipped path = next_element-Skipped path (skip_slashes path) refl

-- A path that begins with no slash has no element only if it ends.
pub ends-elements :
    (path : List ℕ) → skip_slashes path ≡ path → ends path ≡ true → elements path ≡ []
unfolding elements split
ends-elements [] e f = refl
ends-elements (c ∷ path) e f = cc

pub elements-cons :
    (path : List ℕ)
    → skip_slashes path ≡ path
    → ends path ≡ false
    → (name : List ℕ) × (names : List (List ℕ)) × (elements path ≡ name ∷ names)
unfolding elements split
elements-cons [] e f = cc
elements-cons (c ∷ path) e f =
    let g : is_slash c ≡ false = skip-head (c ∷ path) path c e in
    (
      take dirsiz (c ∷ element path),
      map (take dirsiz) (split [] (after_element path)),
      rw g (ap (map (take dirsiz)) (split-word c [] path)),
    )
