-- ===== src/Shell/Run.antt =====
-- c-shell/src/d1d2.c: `run` and `run_tokens`, which take a line apart and give each part to `runcomm`
-- or `runbuff`. What these two do to the shell is a parameter.
pub mod Line
pub mod Checked
pub mod Parts
use mp.Prelude.{ℕ, Bool, true, false, Option, none, some, List, [], ◌∷◌, ◌++◌, if◌then◌else◌}
use mp.Shell.Token.{TokenType, Token, TokenList}
use mp.Shell.Lexer.{Lexer, Result, lex_line}
use mp.Shell.Parser.{parse_tokens}

unfoldable pub ends_part : TokenType → Bool
ends_part TokenType.op_semi = true
ends_part TokenType.op_amp = true
ends_part _ = false

abbrev pub is_background : TokenType → Bool
is_background TokenType.op_amp = true
is_background _ = false

-- A part of a line, and whether an `&` ends it.
pub record Part : Type 0 where
  pub background : Bool
  pub tokens : List Token

-- `if(i>start)` and what it guards: the part that has been read, with the token type that ends it.
abbrev pub part_of : Bool → List Token → List Part
part_of background [] = []
part_of background (k ∷ ks) = (record { background = background; tokens = k ∷ ks }) ∷ []

module _ {S : Type 0} (runcomm : List Token → S → S × Bool) (runbuff : List Token → S → S) where
  -- The flag of `runcomm` says that it returned a negative number.
  unfoldable pub run_part : Part → S → S × Bool
  run_part p s = if p.background then (runbuff p.tokens s, false) else runcomm p.tokens s

  abbrev pub run_parts : List Part → S → S × Bool
  run_parts [] s = (s, false)
  run_parts (p ∷ ps) s =
      let (t, failed) = run_part p s in
      let rest = run_parts ps t in if failed then (t, true) else rest

  -- The loop of `run_tokens`: the tokens from `start` up to `i`, and those from `i` on. It returns at
  -- once where a part in the foreground fails.
  unfoldable pub run_from : List Token → List Token → S → S
  unfolding run_part ends_part
  run_from cur [] s = (run_parts (part_of false cur) s).0
  run_from cur (k ∷ ks) s =
      let (t, failed) = run_parts (part_of (is_background k.type) cur) s in
      let ended = run_from [] ks t in
      let longer = run_from (cur ++ k ∷ []) ks s in
      if ends_part k.type then (if failed then t else ended) else longer

  unfoldable pub run_tokens : TokenList → S → S
  unfolding run_from
  run_tokens tokens s = run_from [] tokens.items s

  abbrev pub run_lexed : Result (Unit {0}) → S → S × Bool
  run_lexed (Result.failed t) s = (s, false)
  run_lexed (Result.ok a t) s =
      if parse_tokens t.tokens then (run_tokens t.tokens s, true) else (s, false)

  -- The flag is `false` where `cshell: invalid syntax` is written.
  unfoldable pub run : (ℕ → Bool) → List ℕ → S → S × Bool
  unfolding run_tokens lex_line parse_tokens
  run grants line s = run_lexed (lex_line grants line (record { items = []; capacity = 0 })) s
