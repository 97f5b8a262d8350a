-- ===== src/Shell/Lexer/Reference.antt =====
-- The lexer without its memory: what it does to the tokens and to the word that is being read, as
-- functions that cannot fail but at the end of a line. `lex_line` implements them, whatever requests
-- for memory are granted.
use mathlib.Core.Option
use mp.Prelude.{
  ℕ, Bool, true, false, not, ◌&&◌, Option, none, some, List, [], ◌∷◌, ◌++◌, ◌==◌, if◌then◌else◌,
}
use mp.Shell.Token.{TokenType, Token}
use mp.Shell.Lexer.{Lexer, Mode, is_space, is_special, operator}

-- The tokens, the bytes of the word, and whether a word is being read.
pub record View : Type 0 where
  pub items : List Token
  pub bytes : List ℕ
  pub reading : Bool

abbrev pub view : Lexer → View
view s = record { items = s.tokens.items; bytes = s.word.bytes; reading = s.has_word }

abbrev pub add : ℕ → View → View
add c v = record v { bytes = v.bytes ++ c ∷ [] }

abbrev pub push : TokenType → List ℕ → View → View
push type text v = record v { items = v.items ++ (record { type = type; text = text }) ∷ [] }

abbrev pub save_as : Bool → View → View
save_as false v = v
save_as true v = record {
  items = v.items ++ (record { type = TokenType.word; text = v.bytes }) ∷ [];
  bytes = [];
  reading = false;
}

abbrev pub save : View → View
save v = save_as v.reading v

abbrev pub read : View → View
read v = record v { reading = true }

abbrev pub special_step : ℕ → View → Mode × View
special_step c v =
    if c == b'>' then (Mode.after_gt, v) else (Mode.outer, push (operator c) (c ∷ []) v)

abbrev pub word_step : ℕ → View → Mode × View
word_step c v =
    if c == b'\\'
    then (Mode.escaped, v)
    else if c == b'\''
    then (Mode.single, v)
    else if c == b'"'
    then (Mode.double, v)
    else (Mode.outer, add c v)

unfoldable pub outer_step : ℕ → View → Mode × View
unfolding is_space is_special
outer_step c v =
    if is_space c
    then (Mode.outer, save v)
    else if is_special c
    then special_step c (save v)
    else word_step c (read v)

unfoldable pub step : Mode → ℕ → View → Mode × View
unfolding outer_step
step Mode.outer c v = outer_step c v
step Mode.after_gt c v =
    if c == b'>'
    then (Mode.outer, push TokenType.op_gtgt (b'>' ∷ b'>' ∷ []) v)
    else outer_step c (push TokenType.op_gt (b'>' ∷ []) v)
step Mode.escaped c v = (Mode.outer, add c v)
step Mode.single c v = if c == b'\'' then (Mode.outer, v) else (Mode.single, add c v)
step Mode.double c v =
    if c == b'"'
    then (Mode.outer, v)
    else if c == b'\\'
    then (Mode.double_escaped, v)
    else (Mode.double, add c v)
step Mode.double_escaped c v =
    if not (c == b'"') && not (c == b'\\')
    then (Mode.double, add c (add b'\\' v))
    else (Mode.double, add c v)

-- `none` where a quote or an escape is left open.
unfoldable pub stop : Mode → View → Option View
stop Mode.outer v = some (save v)
stop Mode.after_gt v = some (save (push TokenType.op_gt (b'>' ∷ []) v))
stop _ v = none

unfoldable pub run : Mode → List ℕ → View → Option View
unfolding step stop
run mode [] v = stop mode v
run mode (c ∷ cs) v = let (next, w) = step mode c v in run next cs w

abbrev pub start : List Token → View
start items = record { items = items; bytes = []; reading = false }

-- The token list that a line makes of one that holds some tokens already.
unfoldable pub tokens_of : List Token → List ℕ → Option (List Token)
unfolding run
tokens_of items line = Option.map (λ v. v.items) (run Mode.outer line (start items))
