-- ===== src/Shell/Jobs/Text.antt =====
-- The text of a job's command.
use mathlib.Core.List.{append-nil, append_assoc}
use mp.Prelude.{
  ℕ, ◌≤◌, true, false, List, [], ◌∷◌, ◌++◌, map, ◌≡◌, refl, ◌∙◌, sym, ap, arith, ltb, if◌then◌else◌,
  length, take, take-append_le, take-append_full, length-take, Bool-cases, inl, inr, ltb→lt,
}
use mp.Shell.Token.{Token}
use mp.Shell.Jobs.{copy_text, copy_blank, copy_texts, save_command}

-- The texts with a blank before each that has some text before it.
abbrev pub join_blanks : List ℕ → List (List ℕ) → List ℕ
join_blanks out [] = out
join_blanks [] (t ∷ ts) = join_blanks t ts
join_blanks (c ∷ out) (t ∷ ts) = join_blanks ((c ∷ out) ++ b' ' ∷ t) ts

step_byte :
    (n : ℕ) (xs : List ℕ) (c : ℕ)
    → (if ltb (length (take n xs)) n then take n xs ++ c ∷ [] else take n xs)
      ≡ take n (xs ++ c ∷ [])
step_byte n xs c = elim (Bool-cases (ltb (length (take n xs)) n)) [
  | inl e ↦ rw e (sym (take-append_full n xs c (omega (arith, ltb→lt _ _ e, length-take n xs))))
  | inr e ↦ rw e (sym (take-append_le n xs (c ∷ []) (ground (arith, length-take n xs))))
]

copy_text-take : (xs cs : List ℕ) → copy_text (take 255 xs) cs ≡ take 255 (xs ++ cs)
unfolding copy_text
copy_text-take xs [] = rw (append-nil xs)
copy_text-take xs (c ∷ cs) =
    rw (step_byte 255 xs c)
      (copy_text-take (xs ++ c ∷ []) cs ∙ ap (take 255) (append_assoc xs (c ∷ []) cs))

-- The text before a word that is added.
abbrev blanked : List ℕ → List ℕ
blanked [] = []
blanked (c ∷ out) = (c ∷ out) ++ b' ' ∷ []

length-take_pos : (c : ℕ) (xs : List ℕ) → ltb 0 (length (take 255 (c ∷ xs))) ≡ true
length-take_pos c xs = ground (arith, length-take 255 (c ∷ xs))

copy_blank-take : (xs : List ℕ) → copy_blank (take 255 xs) ≡ take 255 (blanked xs)
unfolding copy_blank
copy_blank-take [] = refl
copy_blank-take (c ∷ xs) = rw (length-take_pos c xs) (step_byte 255 (c ∷ xs) b' ')

join_blanks-blanked :
    (xs t : List ℕ) (ts : List (List ℕ))
    → join_blanks xs (t ∷ ts) ≡ join_blanks (blanked xs ++ t) ts
join_blanks-blanked [] t ts = refl
join_blanks-blanked (c ∷ xs) t ts =
    ap (λ ys. join_blanks ys ts) (sym (append_assoc (c ∷ xs) (b' ' ∷ []) t))

-- What is joined to a text stands behind it.
blanked-extends : (xs : List ℕ) → (ys : List ℕ) × (blanked xs ≡ xs ++ ys)
blanked-extends [] = ([], refl)
blanked-extends (c ∷ xs) = (b' ' ∷ [], refl)

join_blanks-extends :
    (xs : List ℕ) (ts : List (List ℕ)) → (ys : List ℕ) × (join_blanks xs ts ≡ xs ++ ys)
join_blanks-extends xs [] = ([], sym (append-nil xs))
join_blanks-extends xs (t ∷ ts) =
    let (ys, e) = join_blanks-extends (blanked xs ++ t) ts in
    let (zs, b) = blanked-extends xs in
    (zs ++ (t ++ ys), (join_blanks-blanked xs t ts ∙ e ∙ rw b (simp append_assoc)))

full-join :
    (xs : List ℕ) (ts : List (List ℕ))
    → ltb (length (take 255 xs)) 255 ≡ false
    → take 255 (join_blanks xs ts) ≡ take 255 xs
full-join xs ts h =
    let (ys, e) = join_blanks-extends xs ts in
    rw e (take-append_le 255 xs ys (ground (arith, length-take 255 xs)))

copied : (xs t : List ℕ) → copy_text (copy_blank (take 255 xs)) t ≡ take 255 (blanked xs ++ t)
copied xs t = ap (λ o. copy_text o t) (copy_blank-take xs) ∙ copy_text-take (blanked xs) t

copy_texts-take :
    (ts : List (List ℕ)) (xs : List ℕ) → copy_texts (take 255 xs) ts ≡ take 255 (join_blanks xs ts)
unfolding copy_texts
copy_texts-take [] xs = refl
copy_texts-take (t ∷ ts) xs = elim (Bool-cases (ltb (length (take 255 xs)) 255)) [
  | inl e ↦ rw e (
      ap (λ o. copy_texts o ts) (copied xs t)
      ∙ copy_texts-take ts (blanked xs ++ t)
      ∙ ap (take 255) (sym (join_blanks-blanked xs t ts)))
  | inr e ↦ rw e (sym (full-join xs (t ∷ ts) e))
]

-- The text that is kept of a job's command is the first 255 bytes of the texts of its tokens with a
-- blank between each two (none before the first text that is not empty), so that with its NUL it
-- fits the 256 bytes of its buffer.
pub save_command-take :
    (tokens : List Token)
    → (save_command tokens ≡ take 255 (join_blanks [] (map (λ k. k.text) tokens)))
      × (length (save_command tokens) ≤ 255)
unfolding save_command
save_command-take tokens =
    let e = copy_texts-take (map (λ k. k.text) tokens) [] in
    (e, rw e (omega (arith, length-take 255 (join_blanks [] (map (λ k. k.text) tokens)))))
