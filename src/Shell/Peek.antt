-- ===== src/Shell/Peek.antt =====
-- c-shell/src/func.c: what `peek` prints. A file is the list of its bytes, and the reads of print_forward,
-- count_nonempty and read_all_lines are the chunks that they give; print_reverse_regular reads a regular file,
-- where a read gives all bytes asked for. `grants` says which capacities `realloc` grants, `decimal` is
-- what printf makes of a number; a number is below 2 ^ 63.
pub mod Lines
pub mod Backwards
pub mod Order
pub mod Command
mod Tests
use mathlib.Core.List.{reverse}
use mp.Prelude.{
  ℕ, zero, suc, ◌+◌, ◌-◌, ◌*◌, Bool, true, false, not, ◌&&◌, ◌||◌, Option, none, some, List, [],
  ◌∷◌, ◌++◌, ◌==◌, ltb, if◌then◌else◌, length, take,
}

pub record PeekLine : Type 0 where
  pub bytes : List ℕ
  pub cap : ℕ
  pub newline : Bool

-- `{0}`.
abbrev pub blank_line : PeekLine
blank_line = record { bytes = []; cap = 0; newline = false }

abbrev pub has_bytes : PeekLine → Bool
has_bytes line = not (length line.bytes == 0)

unfoldable pub skip_bytes : ℕ → List ℕ → List ℕ
skip_bytes zero xs = xs
skip_bytes (suc n) [] = []
skip_bytes (suc n) (x ∷ xs) = skip_bytes n xs

-- A loop over the bytes of a buffer, forwards and backwards.
unfoldable pub for_bytes {ℓ} : {S : Type ℓ} → (ℕ → S → S) → List ℕ → S → S
for_bytes f [] s = s
for_bytes f (c ∷ cs) s = for_bytes f cs (f c s)

unfoldable pub back_bytes {ℓ} : {S : Type ℓ} → (ℕ → S → S) → List ℕ → S → S
back_bytes f [] s = s
back_bytes f (c ∷ cs) s = f c (back_bytes f cs s)

-- The loop over the reads.
unfoldable pub for_chunks {ℓ} : {S : Type ℓ} → (ℕ → S → S) → List (List ℕ) → S → S
unfolding for_bytes
for_chunks f [] s = s
for_chunks f (chunk ∷ chunks) s = for_chunks f chunks (for_bytes f chunk s)

abbrev pub new_cap : ℕ → ℕ → ℕ
new_cap least cap = if cap == 0 then least else cap * 2

-- The line being read, the number, what has been printed, and whether memory ran out.
pub record Peek : Type 0 where
  pub line : PeekLine
  pub number : ℕ
  pub out : List ℕ
  pub first_newline : Bool
  pub failed : Bool

abbrev pub with_line : Peek → Option PeekLine → Peek
with_line s none = record s { failed = true }
with_line s (some line) = record s { line = line }

abbrev pub empty_line : Bool → PeekLine → PeekLine
empty_line newline line = record line { bytes = []; newline = newline }

-- The number of the line that ends.
abbrev pub next_number : Bool → Peek → ℕ
next_number numbered s = if numbered && has_bytes s.line then s.number + 1 else s.number

abbrev pub start_peek : ℕ → Peek
start_peek number = record {
  line = blank_line;
  number = number;
  out = [];
  first_newline = true;
  failed = false;
}

pub record Tally : Type 0 where
  pub len : ℕ
  pub count : ℕ

unfoldable pub tally_byte : ℕ → Tally → Tally
tally_byte c t =
    if c == 10
    then record { len = 0; count = if ltb 0 t.len then t.count + 1 else t.count }
    else record t { len = t.len + 1 }

unfoldable pub count_nonempty : List (List ℕ) → ℕ
unfolding tally_byte for_chunks
count_nonempty chunks =
    let t = for_chunks tally_byte chunks (record { len = 0; count = 0 }) in
    if ltb 0 t.len then t.count + 1 else t.count

pub record PeekLines : Type 0 where
  pub items : List PeekLine
  pub lines_cap : ℕ

-- The lines, and the one being read.
pub record Gather : Type 0 where
  pub lines : PeekLines
  pub current : PeekLine
  pub gave_up : Bool

abbrev pub with_items : PeekLine → PeekLines → ℕ → PeekLines
with_items line lines cap = record { items = lines.items ++ line ∷ []; lines_cap = cap }

abbrev pub with_lines : Gather → Option PeekLines → Gather
with_lines g none = record g { gave_up = true }
with_lines g (some lines) = record g { lines = lines; current = blank_line }

abbrev pub with_current : Gather → Option PeekLine → Gather
with_current g none = record g { gave_up = true }
with_current g (some line) = record g { current = line }

abbrev pub gathered : Gather → Option (List PeekLine)
gathered g = if g.gave_up then none else some g.lines.items

unfoldable pub count_lines : List PeekLine → ℕ
count_lines [] = 0
count_lines (line ∷ lines) = if has_bytes line then 1 + count_lines lines else count_lines lines

module _ (grants : ℕ → Bool) (decimal : ℕ → List ℕ) where
  -- `none` is -1.
  unfoldable pub add_line_char : ℕ → PeekLine → Option PeekLine
  add_line_char c line =
      let longer = record line { bytes = line.bytes ++ c ∷ [] } in
      if length line.bytes == line.cap
      then (if grants (new_cap 64 line.cap)
          then some (record longer { cap = new_cap 64 line.cap })
          else none)
      else some longer

  -- The loop that swaps the ends of a line is `reverse`.
  unfoldable pub print_line : PeekLine → Bool → ℕ → Bool → List ℕ
  print_line line numbered number backwards =
      let text = if backwards then reverse line.bytes else line.bytes in
      (if numbered && has_bytes line then decimal number ++ b' ' ∷ [] else [])
      ++ (text ++ (if line.newline then 10 ∷ [] else []))

  unfoldable pub forward_byte : Bool → ℕ → Peek → Peek
  unfolding add_line_char print_line
  forward_byte numbered c s =
      let n = next_number numbered s in
      let ended = print_line (record s.line { newline = true }) numbered n false in
      if s.failed
      then s
      else if c == 10
      then record s { number = n; out = s.out ++ ended; line = empty_line false s.line }
      else with_line s (add_line_char c s.line)

  abbrev pub forward_end : Bool → Peek → Peek
  forward_end numbered s =
      let n = next_number numbered s in
      if s.failed || not (has_bytes s.line)
      then s
      else record s { number = n; out = s.out ++ print_line s.line numbered n false }

  -- What is printed, and `*line_number` afterwards.
  unfoldable pub print_forward : Bool → ℕ → List (List ℕ) → List ℕ × ℕ
  unfolding forward_byte for_chunks print_line
  print_forward numbered number chunks =
      let s =
        forward_end numbered (for_chunks (forward_byte numbered) chunks (start_peek number)) in
      (s.out, s.number)

  -- A line is printed from its last byte on.
  abbrev pub print_back : Bool → Peek → Peek
  print_back numbered s =
      if numbered && has_bytes s.line
      then record s { out = s.out ++ print_line s.line true s.number true; number = s.number - 1 }
      else record s { out = s.out ++ print_line s.line false 0 true }

  unfoldable pub back_byte : Bool → ℕ → Peek → Peek
  unfolding add_line_char print_line
  back_byte numbered c s =
      let marked = record s { line = record s.line { newline = true }; first_newline = false } in
      let printed = print_back numbered marked in
      if s.failed
      then s
      else if c == 10
      then (if s.first_newline && not (has_bytes s.line)
          then marked
          else record printed { line = empty_line true s.line })
      else with_line s (add_line_char c s.line)

  -- The loop over the chunks from the end of a file, at most `n` rounds.
  unfoldable pub back_from : ℕ → Bool → List ℕ → Peek → Peek
  unfolding back_byte back_bytes skip_bytes
  back_from zero numbered file s = s
  back_from (suc n) numbered file s =
      let start = length file - 4096 in
      let rest =
        back_from n numbered (take start file)
          (back_bytes (back_byte numbered) (skip_bytes start file) s) in
      if length file == 0 then s else rest

  abbrev pub back_end : Bool → Peek → Peek
  back_end numbered s = if s.failed || not (has_bytes s.line) then s else print_back numbered s

  -- `chunks` is what the reads of count_nonempty give of the file. Each round takes at least a byte.
  unfoldable pub print_reverse_regular : Bool → ℕ → List (List ℕ) → List ℕ → List ℕ × ℕ
  unfolding count_nonempty back_from print_line
  print_reverse_regular numbered number chunks file =
      let remaining = count_nonempty chunks in
      let s =
        back_end numbered
          (back_from (length file) numbered file (start_peek (number + remaining))) in
      (s.out, if s.failed then number else number + remaining)

  unfoldable pub add_line : PeekLines → PeekLine → Bool → Option PeekLines
  add_line lines line newline =
      let ended = record line { newline = newline } in
      if length lines.items == lines.lines_cap
      then (if grants (new_cap 16 lines.lines_cap)
          then some (with_items ended lines (new_cap 16 lines.lines_cap))
          else none)
      else some (with_items ended lines lines.lines_cap)

  unfoldable pub gather_byte : ℕ → Gather → Gather
  unfolding add_line_char add_line
  gather_byte c g =
      if g.gave_up
      then g
      else if c == 10
      then with_lines g (add_line g.lines g.current true)
      else with_current g (add_line_char c g.current)

  -- `none` is -1.
  unfoldable pub read_all_lines : List (List ℕ) → Option (List PeekLine)
  unfolding gather_byte for_chunks add_line
  read_all_lines chunks =
      let g = for_chunks gather_byte chunks (record {
        lines = record { items = []; lines_cap = 0 };
        current = blank_line;
        gave_up = false;
      }) in
      if not g.gave_up && has_bytes g.current
      then gathered (with_lines g (add_line g.lines g.current false))
      else gathered g

  -- The loop from the last line on: what is printed, and the number of the next line.
  unfoldable pub print_from_end : Bool → ℕ → List PeekLine → List ℕ × ℕ
  unfolding print_line
  print_from_end numbered number [] = ([], number)
  print_from_end numbered number (line ∷ lines) =
      let (out, n) = print_from_end numbered number lines in
      if numbered && has_bytes line
      then (out ++ print_line line true n false, n - 1)
      else (out ++ print_line line false 0 false, n)

  unfoldable pub print_reverse_lines : Bool → ℕ → List PeekLine → List ℕ × ℕ
  unfolding count_lines print_from_end
  print_reverse_lines numbered number lines =
      let remaining = count_lines lines in
      ((print_from_end numbered (number + remaining) lines).0, number + remaining)
