-- ===== src/Shell/Peek/Tests.antt =====
-- `peek` at concrete inputs.
use mp.Prelude.{ℕ, ◌+◌, Bool, true, false, List, [], ◌∷◌, ◌≡◌, refl}
use mathlib.Core.List.{reverse}
use mathlib.Core.Option
use mp.Prelude.{Option, some}
use mp.Shell.Peek.{print_forward, print_reverse_regular, print_reverse_lines, read_all_lines}
use mp.Shell.Peek.Lines.{unlines, flatten, rendered_all}
use mp.Shell.Peek.Order.{peek-reverse}

abbrev all_granted : ℕ → Bool
all_granted n = true

-- A number below ten.
abbrev one_digit : ℕ → List ℕ
one_digit n = (b'0' + n) ∷ []

-- `ab`, an empty line, and `c`.
abbrev three : List (List ℕ)
three = (b'b' ∷ []) ∷ [] ∷ (b'c' ∷ []) ∷ []

abbrev first_line : List ℕ
first_line = b'a' ∷ b'b' ∷ []

-- The reads cut the file in the first line.
abbrev chunks : List (List ℕ)
chunks = (b'a' ∷ []) ∷ (b'b' ∷ 10 ∷ 10 ∷ b'c' ∷ 10 ∷ []) ∷ []

abbrev others : List (List ℕ)
others = [] ∷ (b'c' ∷ []) ∷ []

peek-reverse_example :
    ((print_forward all_granted one_digit true 0 chunks).0
      ≡ flatten (rendered_all all_granted one_digit true 0 (first_line ∷ others)))
    × ((print_reverse_regular all_granted one_digit true 0 chunks (unlines (first_line ∷ others))).0
        ≡ flatten (reverse (rendered_all all_granted one_digit true 0 (first_line ∷ others))))
    × (true ≡ true
        → (print_reverse_regular all_granted one_digit true 0 chunks
            (unlines (first_line ∷ others))).1
          ≡ (print_forward all_granted one_digit true 0 chunks).1)
peek-reverse_example =
    peek-reverse all_granted one_digit true (λ n. refl) first_line others chunks 0
      ((refl, (refl, tt)), (tt, ((refl, tt), tt))) refl refl

prints_back :
    (print_reverse_regular all_granted one_digit true 0 chunks (unlines (first_line ∷ others))).0
    ≡ b'2' ∷ b' ' ∷ b'c' ∷ 10 ∷ 10 ∷ b'1' ∷ b' ' ∷ b'a' ∷ b'b' ∷ 10 ∷ []
unfolding print_reverse_regular
prints_back = refl

-- An empty first line is lost.
loses_line :
    (print_reverse_regular all_granted one_digit false 0
      ((10 ∷ b'a' ∷ 10 ∷ []) ∷ [])
      (10 ∷ b'a' ∷ 10 ∷ [])).0
    ≡ b'a' ∷ 10 ∷ []
unfolding print_reverse_regular
loses_line = refl

abbrev gathers : Option (List ℕ)
gathers =
    Option.map (λ lines. (print_reverse_lines all_granted one_digit false 0 lines).0)
      (read_all_lines all_granted one_digit ((b'a' ∷ 10 ∷ b'b' ∷ []) ∷ []))

-- A last line without a newline is printed without one, before the others.
glues_lines : gathers ≡ some (b'b' ∷ b'a' ∷ 10 ∷ [])
unfolding print_reverse_lines read_all_lines
glues_lines = refl
