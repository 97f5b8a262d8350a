-- ===== src/Shell/Peek/Backwards.antt =====
-- func.c: print_reverse_regular on a file of lines.
use mathlib.Core.List.{append_assoc, append-nil, reverse, reverse-cons, reverse-reverse}
use mp.Prelude.{
  ℕ, zero, suc, ◌+◌, ◌-◌, ◌≤◌, Bool, true, false, List, [], ◌∷◌, ◌++◌, ◌==◌, ◌≡◌, ◌∙◌, inl, inr,
  refl, ap, sym, arith, length, length-append, take, Bool-cases,
}
use mp.Shell.Peek.{
  skip_bytes, for_bytes, back_bytes, for_chunks, Peek, empty_line, start_peek, tally_byte,
  count_nonempty, print_line, print_back, back_byte, back_from, back_end, print_reverse_regular,
}
use mp.Shell.Peek.Lines.{
  IsLine, AllLines, unlines, flatten, counts, count_all, flatten-append, for_chunks-flatten,
  for_bytes-append, back_bytes-append, take-skip_bytes, counts-length, rendered, rendered_all, Has,
  add_line_char-Grown, Has-same,
}

-- A line with its newline adds to the tally.
tally_line :
    (l : List ℕ) (len count : ℕ)
    → IsLine l
    → for_bytes tally_byte l (record { len = len; count = count })
      ≡ record { len = len + length l; count = count }
unfolding for_bytes tally_byte
tally_line [] len count i = ground arith
tally_line (c ∷ l) len count (e, i) = rw e (tally_line l (len + 1) count i ∙ ground arith)

tally_lines :
    (ls : List (List ℕ)) (count : ℕ)
    → AllLines ls
    → for_bytes tally_byte (unlines ls) (record { len = 0; count = count })
      ≡ record { len = 0; count = count + count_all ls }
unfolding for_bytes tally_byte
tally_lines [] count i = ground arith
tally_lines (l ∷ ls) count (i, is) =
    for_bytes-append tally_byte l (10 ∷ unlines ls) (record { len = 0; count = count })
    ∙ ap (for_bytes tally_byte (10 ∷ unlines ls)) (tally_line l 0 count i)
    ∙ tally_newline l ls count
    ∙ tally_lines ls (count + counts l) is
    ∙ ground arith
  where
    tally_newline :
        (l : List ℕ) (ls : List (List ℕ)) (count : ℕ)
        → for_bytes tally_byte (10 ∷ unlines ls) (record { len = 0 + length l; count = count })
          ≡ for_bytes tally_byte (unlines ls) (record { len = 0; count = count + counts l })
    tally_newline [] ls count = ap (for_bytes tally_byte (unlines ls)) (ground arith)
    tally_newline (c ∷ l) ls count = ap (for_bytes tally_byte (unlines ls)) (ground arith)

pub count_nonempty-unlines :
    (ls chunks : List (List ℕ))
    → AllLines ls
    → flatten chunks ≡ unlines ls
    → count_nonempty chunks ≡ count_all ls
unfolding count_nonempty
count_nonempty-unlines ls chunks i e =
    let t : for_chunks tally_byte chunks (record { len = 0; count = 0 })
        ≡ record { len = 0; count = 0 + count_all ls } =
      for_chunks-flatten tally_byte chunks (record { len = 0; count = 0 })
      ∙ ap (λ x. for_bytes tally_byte x (record { len = 0; count = 0 })) e
      ∙ tally_lines ls 0 i in
    rw t (omega arith)

pub length-reverse : (l : List ℕ) → length (reverse l) ≡ length l
length-reverse [] = refl
length-reverse (c ∷ l) =
    ap length (reverse-cons c l)
    ∙ omega (arith, length-append (reverse l) (c ∷ []), length-reverse l)

length-take_le : (n : ℕ) (xs : List ℕ) → length (take n xs) ≤ n
length-take_le zero xs = omega arith
length-take_le (suc n) [] = omega arith
length-take_le (suc n) (x ∷ xs) = omega (arith, length-take_le n xs)

module _ (grants : ℕ → Bool) (decimal : ℕ → List ℕ) (numbered : Bool) where
  abbrev step : ℕ → Peek → Peek
  step c s = back_byte grants decimal numbered c s

  -- The chunks from the end of a file are all of its bytes, backwards.
  back_from-bytes :
      (n : ℕ) (file : List ℕ) (s : Peek)
      → length file ≤ n
      → back_from grants decimal n numbered file s ≡ back_bytes step file s
  unfolding back_from back_bytes
  back_from-bytes zero [] s h = refl
  back_from-bytes zero (c ∷ file) s h = absurd (omega arith)
  back_from-bytes (suc n) [] s h = refl
  back_from-bytes (suc n) (c ∷ file) s h =
      let start = suc (length file) - 4096 in
      let all : take start (c ∷ file) ++ skip_bytes start (c ∷ file) ≡ c ∷ file =
        take-skip_bytes start (c ∷ file) in
      let some_left : (suc (length file) == 0) ≡ false = ground arith in
      rw some_left (
        back_from-bytes n (take start (c ∷ file)) (back_bytes step (skip_bytes start (c ∷ file)) s)
          (omega (arith, length-take_le start (c ∷ file)))
        ∙ sym (back_bytes-append step (take start (c ∷ file)) (skip_bytes start (c ∷ file)) s)
        ∙ ap (λ x. back_bytes step x s) all)

  module _ (always : (n : ℕ) → grants n ≡ true) where
    back_byte-char :
        (c : ℕ) (newline : Bool) (b : List ℕ) (n : ℕ) (o : List ℕ) (s : Peek)
        → (c == 10) ≡ false
        → Has grants decimal numbered newline b n o s
        → Has grants decimal numbered newline (b ++ c ∷ []) n o (step c s)
          × ((step c s).first_newline ≡ s.first_newline)
    unfolding back_byte
    back_byte-char c newline b n o s e h =
        let (line, f, g) = add_line_char-Grown grants decimal numbered always c s.line in
        rw (h.going, e, f)
          (
            record {
              bytes_eq = g.bytes_eq ∙ ap (λ x. x ++ c ∷ []) h.bytes_eq;
              newline_eq = g.newline_eq ∙ h.newline_eq;
              number_eq = h.number_eq;
              out_eq = h.out_eq;
              going = refl;
            },
            refl,
          )

    back_line :
        (l : List ℕ) (newline : Bool) (b : List ℕ) (n : ℕ) (o : List ℕ) (s : Peek)
        → IsLine l
        → Has grants decimal numbered newline b n o s
        → Has grants decimal numbered newline (b ++ reverse l) n o (back_bytes step l s)
          × ((back_bytes step l s).first_newline ≡ s.first_newline)
    unfolding back_bytes
    back_line [] newline b n o s i h = (rw (append-nil b) h, refl)
    back_line (c ∷ l) newline b n o s (e, i) h =
        let (k, f) = back_line l newline b n o s i h in
        let (k', f') = back_byte-char c newline (b ++ reverse l) n o (back_bytes step l s) e k in
        (rw (reverse-cons c l, sym (append_assoc b (reverse l) (c ∷ []))) k', f' ∙ f)

    -- A line that is printed.
    print_back-Has :
        (l : List ℕ) (n : ℕ) (o : List ℕ) (s : Peek)
        → Has grants decimal numbered true (reverse l) (n + counts l) o s
        → Has grants decimal numbered true
            (reverse l)
            n
            (o ++ rendered grants decimal numbered n l)
            (print_back grants decimal numbered s)
          × ((print_back grants decimal numbered s).first_newline ≡ s.first_newline)
    unfolding print_line
    print_back-Has l n o s h =
        let len : length s.line.bytes ≡ length l = ap length h.bytes_eq ∙ length-reverse l in
        let text : reverse s.line.bytes ≡ l = ap reverse h.bytes_eq ∙ reverse-reverse l in
        let c = counts-length l in
        elim (Bool-cases numbered) [
          | inr k ↦ rw k (
            record {
              bytes_eq = h.bytes_eq;
              newline_eq = h.newline_eq;
              number_eq = λ k'. absurd (cc);
              out_eq = rw (h.out_eq, text, h.newline_eq) refl;
              going = h.going;
            },
            refl,
          )
          | inl k ↦ elim (Bool-cases (length l == 0)) [
            | inl z ↦
                rw (k, len, z)
                  (
                    record {
                      bytes_eq = h.bytes_eq;
                      newline_eq = h.newline_eq;
                      number_eq = λ k'. h.number_eq k ∙ rw (c, z) (omega arith);
                      out_eq = rw (h.out_eq, text, h.newline_eq) refl;
                      going = h.going;
                    },
                    refl,
                  )
            | inr z ↦
                let m : s.number ≡ n + 1 = h.number_eq k ∙ rw (c, z) refl in
                rw (k, len, z)
                  (
                    record {
                      bytes_eq = h.bytes_eq;
                      newline_eq = h.newline_eq;
                      number_eq = λ k'. omega (arith, m);
                      out_eq = rw (h.out_eq, text, h.newline_eq, m) refl;
                      going = h.going;
                    },
                    refl,
                  )
          ]
        ]

    -- The state when the bytes of the lines up to the first have been read backwards.
    record Mirrored (l : List ℕ) (ls : List (List ℕ)) (n : ℕ) (s : Peek) : Type 0 where
      has :
          Has grants decimal numbered true
            (reverse l)
            (n + counts l)
            (flatten (reverse (rendered_all grants decimal numbered (n + counts l) ls)))
            s
      first : s.first_newline ≡ false

    shown_before :
        (l : List ℕ) (ls : List (List ℕ)) (n : ℕ)
        → flatten (reverse (rendered_all grants decimal numbered (n + counts l) ls))
            ++ rendered grants decimal numbered n l
          ≡ flatten (reverse (rendered_all grants decimal numbered n (l ∷ ls)))
    shown_before l ls n =
        let r = rendered grants decimal numbered n l in
        let rest = rendered_all grants decimal numbered (n + counts l) ls in
        sym (
          ap flatten (reverse-cons r rest)
          ∙ flatten-append (reverse rest) (r ∷ [])
          ∙ ap (λ x. flatten (reverse rest) ++ x) (append-nil r))

    -- The newline behind a line, where the bytes behind it have been read.
    first_byte-Has :
        (n : ℕ)
        → Has grants decimal numbered true [] n [] (step 10 (start_peek n))
          × ((step 10 (start_peek n)).first_newline ≡ false)
    unfolding back_byte
    first_byte-Has n = (
      record {
        bytes_eq = refl;
        newline_eq = refl;
        number_eq = λ k. refl;
        out_eq = refl;
        going = refl;
      },
      refl,
    )

    back_byte-newline :
        (l : List ℕ) (ls : List (List ℕ)) (n : ℕ) (s : Peek)
        → Mirrored l ls n s
        → Has grants decimal numbered true [] n
            (flatten (reverse (rendered_all grants decimal numbered n (l ∷ ls))))
            (step 10 s)
          × ((step 10 s).first_newline ≡ false)
    unfolding back_byte
    back_byte-newline l ls n s b =
        let h = b.has in
        let marked : Peek = record s {
          line = record s.line { newline = true };
          first_newline = false;
        } in
        let m : Has grants decimal numbered true (reverse l) (n + counts l)
            (flatten (reverse (rendered_all grants decimal numbered (n + counts l) ls))) marked =
          record {
            bytes_eq = h.bytes_eq;
            newline_eq = refl;
            number_eq = h.number_eq;
            out_eq = h.out_eq;
            going = h.going;
          } in
        let (p, f) =
          print_back-Has l n
            (flatten (reverse (rendered_all grants decimal numbered (n + counts l) ls))) marked m in
        let ended : step 10 s
            ≡ record (print_back grants decimal numbered marked) { line = empty_line true s.line } =
          rw (h.going, b.first) refl in
        rw ended (
          record {
            bytes_eq = refl;
            newline_eq = refl;
            number_eq = p.number_eq;
            out_eq = p.out_eq ∙ shown_before l ls n;
            going = p.going;
          },
          f,
        )

    back_lines :
        (l : List ℕ) (ls : List (List ℕ)) (n : ℕ)
        → AllLines (l ∷ ls)
        → Mirrored l ls n (back_bytes step (unlines (l ∷ ls)) (start_peek (n + count_all (l ∷ ls))))
    unfolding back_bytes
    back_lines l [] n (i, is) =
        let start = start_peek (n + (counts l + 0)) in
        let (h, f) = first_byte-Has (n + (counts l + 0)) in
        let (k, g) = back_line l true [] (n + (counts l + 0)) [] (step 10 start) i h in
        rw (back_bytes-append step l (10 ∷ []) start) (record {
          has =
              Has-same grants decimal numbered always true (reverse l) (n + (counts l + 0))
                (n + counts l) [] [] (back_bytes step l (step 10 start)) (omega arith) refl k;
          first = g ∙ f;
        })
    back_lines l (r ∷ rest) n (i, is) =
        let start = start_peek (n + (counts l + (counts r + count_all rest))) in
        let same : start_peek (n + counts l + count_all (r ∷ rest)) ≡ start =
          ap start_peek (omega arith) in
        let before : Mirrored r rest (n + counts l) (back_bytes step (unlines (r ∷ rest)) start) =
          rw same at (back_lines r rest (n + counts l) is) in
        let s1 = back_bytes step (unlines (r ∷ rest)) start in
        let (h, f) = back_byte-newline r rest (n + counts l) s1 before in
        let (k, g) =
          back_line l true [] (n + counts l)
            (flatten (reverse (rendered_all grants decimal numbered (n + counts l) (r ∷ rest))))
            (step 10 s1) i h in
        rw (back_bytes-append step l (10 ∷ unlines (r ∷ rest)) start)
          (record { has = k; first = g ∙ f })

    -- The last line to be printed is the first of the file.
    pub print_reverse_regular-lines :
        (l : List ℕ) (ls chunks : List (List ℕ)) (n : ℕ)
        → AllLines (l ∷ ls)
        → (length l == 0) ≡ false
        → flatten chunks ≡ unlines (l ∷ ls)
        → print_reverse_regular grants decimal numbered n chunks (unlines (l ∷ ls)) ≡ (
          flatten (reverse (rendered_all grants decimal numbered n (l ∷ ls))),
          n + count_all (l ∷ ls),
        )
    unfolding print_reverse_regular
    print_reverse_regular-lines l ls chunks n i full e =
        let file = unlines (l ∷ ls) in
        let start = start_peek (n + count_all (l ∷ ls)) in
        let s = back_bytes step file start in
        let b = back_lines l ls n i in
        let h = b.has in
        let len : length s.line.bytes ≡ length l = ap length h.bytes_eq ∙ length-reverse l in
        let (p, f) =
          print_back-Has l n
            (flatten (reverse (rendered_all grants decimal numbered (n + counts l) ls))) s h in
        let loop : back_from grants decimal (length file) numbered file start ≡ s =
          back_from-bytes (length file) file start (omega arith) in
        let ended : back_end grants decimal numbered s ≡ print_back grants decimal numbered s =
          rw (h.going, len, full) refl in
        rw (count_nonempty-unlines (l ∷ ls) chunks i e, loop, ended, p.going)
          (ap (λ x. (x, n + count_all (l ∷ ls))) (p.out_eq ∙ shown_before l ls n))
