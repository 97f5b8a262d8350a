-- ===== src/Shell/Peek/Lines.antt =====
-- func.c: lines of a file, and print_forward on them.
use mathlib.Core.List.{append_assoc, append-nil}
use mp.Prelude.{
  ℕ, zero, suc, ◌+◌, Bool, true, false, not, ◌&&◌, some, List, [], ◌∷◌, ◌++◌, ◌==◌, ◌≡◌, ◌∙◌, inl,
  inr, refl, ap, sym, arith, if◌then◌else◌, length, take, Bool-cases,
}
use mp.Shell.Peek.{
  PeekLine, skip_bytes, for_bytes, back_bytes, for_chunks, new_cap, Peek, next_number,
  add_line_char, print_line, forward_byte,
}

-- The bytes of a line.
abbrev pub IsLine : List ℕ → Type 0
IsLine [] = Unit {0}
IsLine (c ∷ cs) = ((c == 10) ≡ false) × IsLine cs

abbrev pub AllLines : List (List ℕ) → Type 0
AllLines [] = Unit {0}
AllLines (l ∷ ls) = IsLine l × AllLines ls

-- The lines, each with its newline.
abbrev pub unlines : List (List ℕ) → List ℕ
unlines [] = []
unlines (l ∷ ls) = l ++ 10 ∷ unlines ls

abbrev pub flatten : List (List ℕ) → List ℕ
flatten [] = []
flatten (x ∷ xs) = x ++ flatten xs

abbrev pub counts : List ℕ → ℕ
counts [] = 0
counts (c ∷ cs) = 1

-- How many lines are not empty.
abbrev pub count_all : List (List ℕ) → ℕ
count_all [] = 0
count_all (l ∷ ls) = counts l + count_all ls

pub flatten-append : (xs ys : List (List ℕ)) → flatten (xs ++ ys) ≡ flatten xs ++ flatten ys
flatten-append [] ys = refl
flatten-append (x ∷ xs) ys =
    rw (flatten-append xs ys) (sym (append_assoc x (flatten xs) (flatten ys)))

pub for_bytes-append {ℓ} :
    {S : Type ℓ} (f : ℕ → S → S) (xs ys : List ℕ) (s : S)
    → for_bytes f (xs ++ ys) s ≡ for_bytes f ys (for_bytes f xs s)
unfolding for_bytes
for_bytes-append f [] ys s = refl
for_bytes-append f (x ∷ xs) ys s = for_bytes-append f xs ys (f x s)

pub for_chunks-flatten {ℓ} :
    {S : Type ℓ} (f : ℕ → S → S) (chunks : List (List ℕ)) (s : S)
    → for_chunks f chunks s ≡ for_bytes f (flatten chunks) s
unfolding for_chunks for_bytes
for_chunks-flatten f [] s = refl
for_chunks-flatten f (c ∷ chunks) s =
    for_chunks-flatten f chunks (for_bytes f c s) ∙ sym (for_bytes-append f c (flatten chunks) s)

pub back_bytes-append {ℓ} :
    {S : Type ℓ} (f : ℕ → S → S) (xs ys : List ℕ) (s : S)
    → back_bytes f (xs ++ ys) s ≡ back_bytes f xs (back_bytes f ys s)
unfolding back_bytes
back_bytes-append f [] ys s = refl
back_bytes-append f (x ∷ xs) ys s = ap (f x) (back_bytes-append f xs ys s)

pub take-skip_bytes : (k : ℕ) (xs : List ℕ) → take k xs ++ skip_bytes k xs ≡ xs
unfolding skip_bytes
take-skip_bytes zero xs = refl
take-skip_bytes (suc k) [] = refl
take-skip_bytes (suc k) (x ∷ xs) = ap (◌∷◌ x) (take-skip_bytes k xs)

pub counts-length : (l : List ℕ) → counts l ≡ (if length l == 0 then 0 else 1)
counts-length [] = refl
counts-length (c ∷ l) = let e : (suc (length l) == 0) ≡ false = ground arith in rw e refl

module _ (grants : ℕ → Bool) (decimal : ℕ → List ℕ) (numbered : Bool) where
  -- A line as it is printed, where `n` lines have been numbered before.
  abbrev pub rendered : ℕ → List ℕ → List ℕ
  rendered n l =
      (if numbered && not (length l == 0) then decimal (n + 1) ++ b' ' ∷ [] else [])
      ++ (l ++ 10 ∷ [])

  abbrev pub rendered_all : ℕ → List (List ℕ) → List (List ℕ)
  rendered_all n [] = []
  rendered_all n (l ∷ ls) = rendered n l ∷ rendered_all (n + counts l) ls

  -- A line being read, the number of the lines before it, and what has been printed.
  pub record Has (newline : Bool) (bytes : List ℕ) (number : ℕ) (out : List ℕ) (s : Peek)
      : Type 0 where
    pub bytes_eq : s.line.bytes ≡ bytes
    pub newline_eq : s.line.newline ≡ newline
    pub number_eq : numbered ≡ true → s.number ≡ number
    pub out_eq : s.out ≡ out
    pub going : s.failed ≡ false

  pub record Grown (c : ℕ) (line line' : PeekLine) : Type 0 where
    pub bytes_eq : line'.bytes ≡ line.bytes ++ c ∷ []
    pub newline_eq : line'.newline ≡ line.newline

  -- Every request for memory is granted.
  module _ (always : (n : ℕ) → grants n ≡ true) where
    pub add_line_char-Grown :
        (c : ℕ) (line : PeekLine)
        → (line' : PeekLine) × (add_line_char grants decimal c line ≡ some line')
          × Grown c line line'
    unfolding add_line_char
    add_line_char-Grown c line = elim (Bool-cases (length line.bytes == line.cap)) [
      | inl e ↦ (
        record line { bytes = line.bytes ++ c ∷ []; cap = new_cap 64 line.cap },
        rw (e, always (new_cap 64 line.cap)) refl,
        record { bytes_eq = refl; newline_eq = refl },
      )
      | inr e ↦ (
        record line { bytes = line.bytes ++ c ∷ [] },
        rw e refl,
        record { bytes_eq = refl; newline_eq = refl },
      )
    ]

    forward_byte-char :
        (c : ℕ) (newline : Bool) (b : List ℕ) (n : ℕ) (o : List ℕ) (s : Peek)
        → (c == 10) ≡ false
        → Has newline b n o s
        → Has newline (b ++ c ∷ []) n o (forward_byte grants decimal numbered c s)
    unfolding forward_byte
    forward_byte-char c newline b n o s e h =
        let (line, f, g) = add_line_char-Grown c s.line in
        rw (h.going, e, f)
          (record {
            bytes_eq = g.bytes_eq ∙ ap (λ x. x ++ c ∷ []) h.bytes_eq;
            newline_eq = g.newline_eq ∙ h.newline_eq;
            number_eq = h.number_eq;
            out_eq = h.out_eq;
            going = refl;
          })

    forward_line :
        (l : List ℕ) (newline : Bool) (b : List ℕ) (n : ℕ) (o : List ℕ) (s : Peek)
        → IsLine l
        → Has newline b n o s
        → Has newline (b ++ l) n o (for_bytes (forward_byte grants decimal numbered) l s)
    unfolding for_bytes
    forward_line [] newline b n o s i h = rw (append-nil b) h
    forward_line (c ∷ l) newline b n o s (e, i) h = rw (sym (append_assoc b (c ∷ []) l)) (
        forward_line l newline (b ++ c ∷ []) n o (forward_byte grants decimal numbered c s) i
          (forward_byte-char c newline b n o s e h))

    pub print_line-rendered :
        (line : PeekLine) (m n : ℕ) (l : List ℕ)
        → line.bytes ≡ l
        → line.newline ≡ true
        → (numbered ≡ true → (length l == 0) ≡ false → m ≡ n + 1)
        → print_line grants decimal line numbered m false ≡ rendered n l
    unfolding print_line
    print_line-rendered line m n l e f g = elim (Bool-cases numbered) [
      | inr k ↦ rw (e, f, k) refl
      | inl k ↦ elim (Bool-cases (length l == 0)) [
        | inl z ↦ rw (e, f, k, z) refl
        | inr z ↦ rw (e, f, k, z, g k z) refl
      ]
    ]

    next_number-counts :
        (newline : Bool) (l : List ℕ) (n : ℕ) (o : List ℕ) (s : Peek)
        → Has newline l n o s
        → numbered ≡ true
        → next_number numbered s ≡ n + counts l
    next_number-counts newline l n o s h k =
        let m = h.number_eq k in
        elim (Bool-cases (length l == 0)) [
          | inl z ↦ rw (k, h.bytes_eq, counts-length l, z) (omega arith)
          | inr z ↦ rw (k, h.bytes_eq, counts-length l, z) (omega arith)
        ]

    forward_byte-newline :
        (l : List ℕ) (n : ℕ) (o : List ℕ) (s : Peek)
        → Has false l n o s
        → Has false []
            (n + counts l)
            (o ++ rendered n l)
            (forward_byte grants decimal numbered 10 s)
    unfolding forward_byte
    forward_byte-newline l n o s h =
        let shown : print_line grants decimal (record s.line { newline = true }) numbered
              (next_number numbered s) false
            ≡ rendered n l =
          print_line-rendered (record s.line { newline = true }) (next_number numbered s) n l
            h.bytes_eq refl
            (λ k z. next_number-counts false l n o s h k ∙ rw (counts-length l, z) refl) in
        rw (h.going) (record {
          bytes_eq = refl;
          newline_eq = refl;
          number_eq = λ k. next_number-counts false l n o s h k;
          out_eq = rw (sym h.out_eq) (ap (λ x. s.out ++ x) shown);
          going = refl;
        })

    pub Has-same :
        (newline : Bool) (b : List ℕ) (n m : ℕ) (o p : List ℕ) (s : Peek)
        → n ≡ m
        → o ≡ p
        → Has newline b n o s
        → Has newline b m p s
    Has-same newline b n m o p s e f h = record {
      bytes_eq = h.bytes_eq;
      newline_eq = h.newline_eq;
      number_eq = λ k. h.number_eq k ∙ e;
      out_eq = h.out_eq ∙ f;
      going = h.going;
    }

    pub forward_lines :
        (ls : List (List ℕ)) (n : ℕ) (o : List ℕ) (s : Peek)
        → AllLines ls
        → Has false [] n o s
        → Has false []
            (n + count_all ls)
            (o ++ flatten (rendered_all n ls))
            (for_bytes (forward_byte grants decimal numbered) (unlines ls) s)
    unfolding for_bytes
    forward_lines [] n o s i h =
        Has-same false [] n (n + 0) o (o ++ []) s (omega arith) (sym (append-nil o)) h
    forward_lines (l ∷ ls) n o s (i, is) h =
        let f = forward_byte grants decimal numbered in
        let s1 = for_bytes f l s in
        let h1 = forward_byte-newline l n o s1 (forward_line l false [] n o s i h) in
        let ih = forward_lines ls (n + counts l) (o ++ rendered n l) (f 10 s1) is h1 in
        rw (for_bytes-append f l (10 ∷ unlines ls) s) (
          Has-same false [] (n + counts l + count_all ls) (n + (counts l + count_all ls))
            (o ++ rendered n l ++ flatten (rendered_all (n + counts l) ls))
            (o ++ (rendered n l ++ flatten (rendered_all (n + counts l) ls)))
            (for_bytes f (unlines ls) (f 10 s1)) (omega arith)
            (append_assoc o (rendered n l) (flatten (rendered_all (n + counts l) ls))) ih)
