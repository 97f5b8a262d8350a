-- ===== src/Shell/Peek/Command.antt =====
-- func.c: the arguments of `peek`, and what it does to each file.
use mp.Prelude.{
  ℕ, ◌+◌, Bool, true, false, ◌&&◌, Option, none, some, List, [], ◌∷◌, ◌++◌, ◌==◌, if◌then◌else◌,
}
use mp.Shell.Token.{Token, is_word}
use mp.Shell.Builtin.{arguments_of}
use mp.Shell.Peek.{
  PeekLine, print_forward, print_reverse_regular, print_reverse_lines, read_all_lines,
}

pub record PeekOptions : Type 0 where
  pub numbered : Bool
  pub backwards : Bool

-- `none` is a syntax error.
unfoldable pub peek_flags : List ℕ → PeekOptions → Option PeekOptions
peek_flags [] o = some o
peek_flags (c ∷ text) o =
    let numbered = peek_flags text (record o { numbered = true }) in
    let backwards = peek_flags text (record o { backwards = true }) in
    if c == b'n' then numbered else if c == b'r' then backwards else none

-- The text behind the dash, where there is one.
abbrev pub dashed : List ℕ → Option (List ℕ)
dashed [] = none
dashed (c ∷ []) = none
dashed (c ∷ d ∷ text) = if c == b'-' then some (d ∷ text) else none

abbrev pub option_of : Token → Option (List ℕ)
option_of k = if is_word k.type then dashed k.text else none

unfoldable pub all_words : List Token → Bool
all_words [] = true
all_words (k ∷ ks) = is_word k.type && all_words ks

abbrev pub file_names : List Token → List (List ℕ)
file_names [] = []
file_names (k ∷ ks) = k.text ∷ file_names ks

abbrev pub names_or_dash : List Token → List (List ℕ)
names_or_dash [] = (b'-' ∷ []) ∷ []
names_or_dash (k ∷ ks) = file_names (k ∷ ks)

abbrev pub go_on :
    (PeekOptions → Option (PeekOptions × List (List ℕ)))
    → Option PeekOptions
    → Option (PeekOptions × List (List ℕ))
go_on next none = none
go_on next (some o) = next o

abbrev pub option_or :
    Option (PeekOptions × List (List ℕ))
    → (List ℕ → Option (PeekOptions × List (List ℕ)))
    → Option (List ℕ)
    → Option (PeekOptions × List (List ℕ))
option_or files flags none = files
option_or files flags (some text) = flags text

-- The options and the names; `none` is a syntax error.
unfoldable pub peek_arguments : PeekOptions → List Token → Option (PeekOptions × List (List ℕ))
unfolding peek_flags all_words
peek_arguments o [] = some (o, names_or_dash [])
peek_arguments o (k ∷ ks) =
    option_or (if all_words (k ∷ ks) then some (o, names_or_dash (k ∷ ks)) else none)
      (λ text. go_on (λ p. peek_arguments p ks) (peek_flags text o)) (option_of k)

-- What a name opens: the chunks that its reads give, and its bytes where it is a regular file.
pub data Opened : Type 0 where
  missing directory : Opened
  regular : List (List ℕ) → List ℕ → Opened
  stream : List (List ℕ) → Opened

-- What is printed, the errors, and the number of the last line.
pub record Printed : Type 0 where
  pub out : List ℕ
  pub errors : ℕ
  pub line_number : ℕ

module _ (grants : ℕ → Bool) (decimal : ℕ → List ℕ) (open_name : List ℕ → Opened) where
  abbrev pub add_output : Printed → List ℕ × ℕ → Printed
  add_output p (out, number) = record p { out = p.out ++ out; line_number = number }

  abbrev pub lines_output : Bool → Printed → Option (List PeekLine) → Printed
  lines_output numbered p none = p
  lines_output numbered p (some lines) =
      add_output p (print_reverse_lines grants decimal numbered p.line_number lines)

  abbrev pub peek_opened : PeekOptions → Printed → Opened → Printed
  peek_opened o p Opened.missing = record p { errors = p.errors + 1 }
  peek_opened o p Opened.directory = record p { errors = p.errors + 1 }
  peek_opened o p (Opened.regular chunks file) = add_output p (
      if o.backwards
      then print_reverse_regular grants decimal o.numbered p.line_number chunks file
      else print_forward grants decimal o.numbered p.line_number chunks)
  peek_opened o p (Opened.stream chunks) =
      if o.backwards
      then lines_output o.numbered p (read_all_lines grants decimal chunks)
      else add_output p (print_forward grants decimal o.numbered p.line_number chunks)

  unfoldable pub peek_one : PeekOptions → List ℕ → Printed → Printed
  unfolding print_forward print_reverse_regular print_reverse_lines read_all_lines
  peek_one o name p = peek_opened o p (open_name name)

  unfoldable pub peek_all : PeekOptions → List (List ℕ) → Printed → Printed
  unfolding peek_one
  peek_all o [] p = p
  peek_all o (name ∷ names) p = peek_all o names (peek_one o name p)

  abbrev pub nothing_printed : Printed
  nothing_printed = record { out = []; errors = 0; line_number = 0 }

  abbrev pub peek_parsed : Option (PeekOptions × List (List ℕ)) → Printed
  peek_parsed none = record nothing_printed { errors = 1 }
  peek_parsed (some (o, names)) = peek_all o names nothing_printed

  abbrev pub peek_with : Option (List Token) → Option Printed
  peek_with none = none
  peek_with (some ks) =
      some (peek_parsed (peek_arguments (record { numbered = false; backwards = false }) ks))

  -- `none` is 0: another command.
  unfoldable pub run_peek : List Token → Option Printed
  unfolding arguments_of peek_arguments peek_all
  run_peek tokens = peek_with (arguments_of (b'p' ∷ b'e' ∷ b'e' ∷ b'k' ∷ []) tokens)
