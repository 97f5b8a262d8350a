-- ===== src/Shell/Peek/Order.antt =====
-- func.c: the two ways in which `peek` prints a regular file.
use mathlib.Core.List.{reverse}
use mp.Prelude.{ℕ, ◌+◌, Bool, true, false, List, [], ◌∷◌, ◌==◌, ◌≡◌, ◌∙◌, refl, ap, sym, length}
use mp.Shell.Peek.{
  for_chunks, for_bytes, start_peek, forward_byte, print_forward, print_reverse_regular,
}
use mp.Shell.Peek.Lines.{
  AllLines, unlines, flatten, count_all, for_chunks-flatten, rendered_all, forward_lines,
}
use mp.Shell.Peek.Backwards.{print_reverse_regular-lines}

module _ (grants : ℕ → Bool) (decimal : ℕ → List ℕ) (numbered : Bool)
    (always : (n : ℕ) → grants n ≡ true) where
  print_forward-lines :
      (ls chunks : List (List ℕ)) (n : ℕ)
      → AllLines ls
      → flatten chunks ≡ unlines ls
      → ((print_forward grants decimal numbered n chunks).0
          ≡ flatten (rendered_all grants decimal numbered n ls))
        × (numbered ≡ true → (print_forward grants decimal numbered n chunks).1 ≡ n + count_all ls)
  unfolding print_forward
  print_forward-lines ls chunks n i e =
      let f = forward_byte grants decimal numbered in
      let h = forward_lines grants decimal numbered always ls n [] (start_peek n) i (record {
        bytes_eq = refl;
        newline_eq = refl;
        number_eq = λ k. refl;
        out_eq = refl;
        going = refl;
      }) in
      let loop : for_chunks f chunks (start_peek n) ≡ for_bytes f (unlines ls) (start_peek n) =
        for_chunks-flatten f chunks (start_peek n) ∙ ap (λ x. for_bytes f x (start_peek n)) e in
      rw (loop, h.going, h.bytes_eq) (h.out_eq, h.number_eq)

  -- A regular file of lines, each with its newline, is printed with all memory granted, however the reads cut
  -- it. `peek` prints the lines in order, with `-n` each line that is not empty behind its number, the next
  -- one after those before. Where the first line is not empty, `peek -r` prints the very same lines in
  -- reverse order, and both leave the same number behind with `-n`.
  pub peek-reverse :
      (l : List ℕ) (ls chunks : List (List ℕ)) (n : ℕ)
      → AllLines (l ∷ ls)
      → (length l == 0) ≡ false
      → flatten chunks ≡ unlines (l ∷ ls)
      → ((print_forward grants decimal numbered n chunks).0
          ≡ flatten (rendered_all grants decimal numbered n (l ∷ ls)))
        × ((print_reverse_regular grants decimal numbered n chunks (unlines (l ∷ ls))).0
            ≡ flatten (reverse (rendered_all grants decimal numbered n (l ∷ ls))))
        × (numbered ≡ true
            → (print_reverse_regular grants decimal numbered n chunks (unlines (l ∷ ls))).1
              ≡ (print_forward grants decimal numbered n chunks).1)
  peek-reverse l ls chunks n i full e =
      let (shown, number) = print_forward-lines (l ∷ ls) chunks n i e in
      let back =
        print_reverse_regular-lines grants decimal numbered always l ls chunks n i full e in
      (shown, ap (λ x. x.0) back, (λ k. ap (λ x. x.1) back ∙ sym (number k)))
