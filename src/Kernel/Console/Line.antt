-- ===== src/Kernel/Console/Line.antt =====
-- What the user types and a process reads: lines that are complete, and a line that is being edited.
use mp.Prelude.{
  ℕ, zero, suc, ◌+◌, ◌%◌, ◌≤◌, ◌<◌, Bool, false, not, ◌&&◌, ◌||◌, some, List, [], ◌∷◌, ◌++◌, ◌==◌,
  ltb, ◌≡◌, ◌⊎◌, ◌∙◌, inl, inr, refl, ap, arith, length, if◌then◌else◌, get_elem?, modify,
  get_elem?-modify_ne,
}
use mp.Kernel.Proc.{u32}
use mp.Kernel.Console.{Console, translated, Reading, is_empty}

-- The bytes that are ready to be read, and those of the line that is being edited.
pub record Text : Type 0 where
  pub ready : List ℕ
  pub line : List ℕ

abbrev pub all_but_last : List ℕ → List ℕ
all_but_last [] = []
all_but_last (x ∷ []) = []
all_but_last (x ∷ y ∷ xs) = x ∷ all_but_last (y ∷ xs)

-- A byte is put behind the line; a newline, a ^D, or the 128th byte makes the line ready.
unfoldable pub enter : ℕ → Text → Text
enter c t =
    let longer = t.line ++ c ∷ [] in
    if c == 10 || c == 4 || length (t.ready ++ longer) == 128
    then record { ready = t.ready ++ longer; line = [] }
    else record { ready = t.ready; line = longer }

-- What a key does: ^U erases the line, backspace and delete its last byte, ^P and NUL do nothing, nor does
-- another key once 128 bytes are held.
unfoldable pub press : ℕ → Text → Text
unfolding enter
press c t =
    if c == 16
    then t
    else if c == 21
    then record { ready = t.ready; line = [] }
    else if c == 8 || c == 127
    then record { ready = t.ready; line = all_but_last t.line }
    else if not (c == 0) && ltb (length (t.ready ++ t.line)) 128
    then enter (translated c) t
    else t

-- What a read takes of the bytes that are ready: up to a newline, or to a ^D, which it leaves if it has
-- taken any byte; the byte of a copy that fails is lost.
unfoldable pub take_ready : Bool → List ℕ → List Bool → List ℕ → List ℕ × List ℕ × Reading
take_ready killed got [] ready = (ready, got, Reading.returned)
take_ready killed got (ok ∷ copies) [] =
    ([], got, if killed then Reading.refused else Reading.waiting)
take_ready killed got (ok ∷ copies) (c ∷ ready) =
    let next = take_ready killed (got ++ c ∷ []) copies ready in
    if c == 4
    then ((if is_empty got then ready else c ∷ ready), got, Reading.returned)
    else if not ok
    then (ready, got, Reading.returned)
    else if c == 10
    then (ready, got ++ c ∷ [], Reading.returned)
    else next

-- The bytes of the buffer from the index `r` on.
abbrev pub Ring : List ℕ → ℕ → List ℕ → Type 0
Ring xs r [] = Unit {0}
Ring xs r (c ∷ cs) = (get_elem? xs (r % 128) ≡ some c) × Ring xs (u32 (r + 1)) cs

-- The line being edited holds no newline.
abbrev pub NoNewline : List ℕ → Type 0
NoNewline [] = Unit {0}
NoNewline (c ∷ cs) = ((c == 10) ≡ false) × NoNewline cs

-- The buffer and its indices hold the text.
pub record Shows (s : Console) (t : Text) : Type 0 where
  pub ring : Ring s.buf s.read_index (t.ready ++ t.line)
  pub size : length s.buf ≡ 128
  pub fits : length t.ready + length t.line ≤ 128
  pub counter : s.read_index < 4294967296
  pub written : s.write_index ≡ u32 (s.read_index + length t.ready)
  pub edited : s.edit_index ≡ u32 (s.read_index + length t.ready + length t.line)
  pub open_line : NoNewline t.line

modify-there :
    (xs : List ℕ) (i ch : ℕ) → i < length xs → get_elem? (modify xs i (λ _. ch)) i ≡ some ch
modify-there [] i ch h = absurd (omega arith)
modify-there (x ∷ xs) zero ch h = refl
modify-there (x ∷ xs) (suc i) ch h = modify-there xs i ch (omega arith)

pub Ring-put :
    (xs : List ℕ) (r : ℕ) (cs : List ℕ) (ch w : ℕ)
    → length xs ≡ 128
    → length cs < 128
    → w ≡ u32 (r + length cs) % 128
    → Ring xs r cs
    → Ring (modify xs w (λ _. ch)) r (cs ++ ch ∷ [])
Ring-put xs r [] ch w size lt e h =
    let same : w ≡ r % 128 = omega arith in (rw (← same) (modify-there xs w ch (omega arith)), tt)
Ring-put xs r (c ∷ cs) ch w size lt e h = (
  get_elem?-modify_ne xs w (r % 128) (λ _. ch) (λ f. omega arith) ∙ h.0,
  Ring-put xs (u32 (r + 1)) cs ch w size (omega arith) (omega arith) h.1,
)

pub Ring-front : (xs : List ℕ) (r : ℕ) (cs ds : List ℕ) → Ring xs r (cs ++ ds) → Ring xs r cs
Ring-front xs r [] ds h = tt
Ring-front xs r (c ∷ cs) ds (e, h) = (e, Ring-front xs (u32 (r + 1)) cs ds h)

-- The byte at the end of what is held.
pub Ring-last :
    (xs : List ℕ) (r : ℕ) (cs : List ℕ) (c : ℕ)
    → Ring xs r (cs ++ c ∷ [])
    → get_elem? xs (u32 (r + length cs) % 128) ≡ some c
Ring-last xs r [] c h = ap (get_elem? xs) (omega arith) ∙ h.0
Ring-last xs r (x ∷ cs) c (e, h) =
    ap (get_elem? xs) (omega arith) ∙ Ring-last xs (u32 (r + 1)) cs c h

pub all_but_last-snoc : (xs : List ℕ) (x : ℕ) → all_but_last (xs ++ x ∷ []) ≡ xs
all_but_last-snoc [] x = refl
all_but_last-snoc (y ∷ []) x = refl
all_but_last-snoc (y ∷ z ∷ xs) x = ap (◌∷◌ y) (all_but_last-snoc (z ∷ xs) x)

pub NoNewline-append : (xs ys : List ℕ) → NoNewline xs → NoNewline ys → NoNewline (xs ++ ys)
NoNewline-append [] ys h k = k
NoNewline-append (x ∷ xs) ys (e, h) k = (e, NoNewline-append xs ys h k)

pub NoNewline-split : (xs ys : List ℕ) → NoNewline (xs ++ ys) → NoNewline xs × NoNewline ys
NoNewline-split [] ys h = (tt, h)
NoNewline-split (x ∷ xs) ys (e, h) = let (a, b) = NoNewline-split xs ys h in ((e, a), b)

-- A list is empty, or has a last element.
pub last-cases : (xs : List ℕ) → (xs ≡ []) ⊎ ((ys : List ℕ) × (y : ℕ) × (xs ≡ ys ++ y ∷ []))
last-cases [] = inl refl
last-cases (x ∷ xs) = elim (last-cases xs) [
  | inl e ↦ inr ([], x, ap (◌∷◌ x) e)
  | inr (ys, y, e) ↦ inr (x ∷ ys, y, ap (◌∷◌ x) e)
]
