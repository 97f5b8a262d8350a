-- ===== src/User/Grep/Lines.antt =====
-- What `grep` writes, however its reads cut the input.
use mathlib.Core.List.{append_assoc, append-nil}
use mp.Prelude.{
  ℕ, zero, suc, ◌+◌, ◌≤◌, ◌<◌, false, List, [], ◌∷◌, ◌++◌, ◌==◌, ◌≡◌, ◌≢◌, ◌∙◌, inl, inr, refl, ap,
  sym, arith, length, length-append, take, if◌then◌else◌, Bool-cases,
}
use mp.User.Grep.{newline, shown, scan_lines, drop, read_size, grep_from, grep}

-- What the lines of a text give, from the bytes of the first that have been passed: each line that the
-- pattern matches, with its newline. The bytes behind the last newline are no line.
unfoldable pub lines_from : List ℕ → List ℕ → List ℕ → List ℕ
unfolding newline
lines_from pattern line [] = []
lines_from pattern line (c ∷ cs) =
    let rest = lines_from pattern [] cs in
    let longer = lines_from pattern (line ++ c ∷ []) cs in
    if c == newline then shown pattern line ++ rest else longer

-- No line is longer than 1022 bytes, with `k` bytes of the first passed, and there is no NUL.
abbrev pub LinesFit : ℕ → List ℕ → Type 0
LinesFit k [] = Unit {0}
LinesFit k (c ∷ cs) =
    (c ≢ 0) × (if c == 10 then LinesFit 0 cs else (k < 1022) × LinesFit (k + 1) cs)

abbrev pub NoNewline : List ℕ → Type 0
NoNewline [] = Unit {0}
NoNewline (c ∷ cs) = (c ≢ 0) × ((c == 10) ≡ false) × NoNewline cs

NoNewline-append :
    (xs : List ℕ) (c : ℕ) → NoNewline xs → c ≢ 0 → (c == 10) ≡ false → NoNewline (xs ++ c ∷ [])
NoNewline-append [] c n z e = (z, e, tt)
NoNewline-append (x ∷ xs) c (a, b, n) z e = (a, b, NoNewline-append xs c n z e)

scan_lines-skip :
    (pattern line buf chunk : List ℕ)
    → NoNewline buf
    → scan_lines pattern line (buf ++ chunk) ≡ scan_lines pattern (line ++ buf) chunk
unfolding scan_lines newline
scan_lines-skip pattern line [] chunk n = rw (append-nil line) refl
scan_lines-skip pattern line (b ∷ buf) chunk (z, e, n) =
    let zero_free : (b == 0) ≡ false = ground arith in
    rw (e, zero_free)
      (scan_lines-skip pattern (line ++ b ∷ []) buf chunk n
        ∙ ap (λ l. scan_lines pattern l chunk) (append_assoc line (b ∷ []) buf))

-- What a scan leaves: the lines of what follows continue with what is left.
record Scanned (pattern line chunk more : List ℕ) : Type 0 where
  out :
      (scan_lines pattern line chunk).0 ++ lines_from pattern (scan_lines pattern line chunk).1 more
      ≡ lines_from pattern line (chunk ++ more)
  open_line : NoNewline (scan_lines pattern line chunk).1
  short : length (scan_lines pattern line chunk).1 ≤ 1022
  fit : LinesFit (length (scan_lines pattern line chunk).1) more

scan_lines-Scanned :
    (pattern line chunk more : List ℕ)
    → NoNewline line
    → length line ≤ 1022
    → LinesFit (length line) (chunk ++ more)
    → Scanned pattern line chunk more
unfolding scan_lines newline lines_from
scan_lines-Scanned pattern line [] more n l f = record {
  out = refl;
  open_line = n;
  short = l;
  fit = f;
}
scan_lines-Scanned pattern line (c ∷ chunk) more n l (z, f) = elim (Bool-cases (c == 10)) [
  | inl e ↦
      let ih = scan_lines-Scanned pattern [] chunk more tt (omega arith) (rw e at f) in
      record {
        out = rw e (
            append_assoc (shown pattern line) (scan_lines pattern [] chunk).0
              (lines_from pattern (scan_lines pattern [] chunk).1 more)
            ∙ ap (λ x. shown pattern line ++ x) ih.out);
        open_line = rw e ih.open_line;
        short = rw e ih.short;
        fit = rw e ih.fit;
      }
  | inr e ↦
      let zero_free : (c == 0) ≡ false = ground arith in
      let g : (length line < 1022) × LinesFit (length line + 1) (chunk ++ more) = rw e at f in
      let len : length (line ++ c ∷ []) ≡ length line + 1 = length-append line (c ∷ []) in
      let ih =
        scan_lines-Scanned pattern (line ++ c ∷ []) chunk more (NoNewline-append line c n z e)
          (omega arith) (rw len g.1) in
      record {
        out = rw (e, zero_free) ih.out;
        open_line = rw (e, zero_free) ih.open_line;
        short = rw (e, zero_free) ih.short;
        fit = rw (e, zero_free) ih.fit;
      }
]

take-drop : (k : ℕ) (xs : List ℕ) → take k xs ++ drop k xs ≡ xs
unfolding drop
take-drop zero xs = refl
take-drop (suc k) [] = refl
take-drop (suc k) (x ∷ xs) = ap (◌∷◌ x) (take-drop k xs)

take-nil : (k : ℕ) (xs : List ℕ) → 0 < k → length (take k xs) ≡ 0 → length xs ≡ 0
take-nil zero xs h e = absurd (omega arith)
take-nil (suc k) [] h e = refl
take-nil (suc k) (x ∷ xs) h e = absurd (omega arith)

-- Each read gives something.
abbrev pub AllPositive : List ℕ → Type 0
AllPositive [] = Unit {0}
AllPositive (n ∷ ns) = (0 < n) × AllPositive ns

lines_from-nil : (pattern buf input : List ℕ) → length input ≡ 0 → lines_from pattern buf input ≡ []
unfolding lines_from
lines_from-nil pattern buf [] e = refl
lines_from-nil pattern buf (c ∷ input) e = absurd (omega arith)

grep_from-lines :
    (pattern buf sizes input : List ℕ)
    → NoNewline buf
    → length buf ≤ 1022
    → LinesFit (length buf) input
    → AllPositive sizes
    → length input ≤ length sizes
    → grep_from pattern buf sizes input ≡ lines_from pattern buf input
unfolding grep_from
grep_from-lines pattern buf [] input n l f p e =
    sym (lines_from-nil pattern buf input (omega arith))
grep_from-lines pattern buf (m ∷ sizes) input n l f (pos, p) e =
    let k = read_size m buf in
    let room : 0 < k = ground arith in
    let chunk = take k input in
    let s = scan_lines-Scanned pattern buf chunk (drop k input) n l (rw (take-drop k input) f) in
    let at : scan_lines pattern [] (buf ++ chunk) ≡ scan_lines pattern buf chunk =
      scan_lines-skip pattern [] buf chunk n in
    elim (Bool-cases (length chunk == 0)) [
      | inl z ↦ rw z (sym (lines_from-nil pattern buf input (take-nil k input room (ground arith))))
      | inr z ↦
          let some_read : 0 < length chunk = ground arith in
          let fewer : length chunk + length (drop k input) ≡ length input =
            sym (length-append chunk (drop k input)) ∙ ap length (take-drop k input) in
          let scanned = scan_lines pattern buf chunk in
          let later =
            grep_from-lines pattern scanned.1 sizes (drop k input) s.open_line s.short s.fit p
              (omega arith) in
          rw (z, at)
            (ap (λ x. scanned.0 ++ x) later
              ∙ s.out
              ∙ ap (lines_from pattern buf) (take-drop k input))
    ]

-- On an input without NUL whose lines, the last one included, are at most 1022 bytes long, and with
-- enough reads that each give something, `grep` writes the lines that the pattern matches, in order,
-- each with its newline, however the reads cut the input; what follows the last newline is no line.
pub grep_lem :
    (pattern sizes input : List ℕ)
    → LinesFit 0 input
    → AllPositive sizes
    → length input ≤ length sizes
    → grep pattern sizes input ≡ lines_from pattern [] input
unfolding grep
grep_lem pattern sizes input f p e = grep_from-lines pattern [] sizes input tt (omega arith) f p e
