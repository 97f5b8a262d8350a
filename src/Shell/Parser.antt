-- ===== src/Shell/Parser.antt =====
-- c-shell/src/parser.c: the check of the token sequence. The index of the loop is the list of the
-- tokens that are left, and the first argument is `want_command`.
pub mod Grammar
use mp.Prelude.{Bool, true, false, ◌||◌, List, [], ◌∷◌, map}
use mp.Shell.Token.{TokenType, Token, TokenList, is_word}

unfoldable pub is_redirection : TokenType → Bool
is_redirection TokenType.op_lt = true
is_redirection TokenType.op_gt = true
is_redirection TokenType.op_gtgt = true
is_redirection _ = false

unfoldable pub is_separator : TokenType → Bool
is_separator TokenType.op_pipe = true
is_separator TokenType.op_semi = true
is_separator TokenType.op_amp = true
is_separator _ = false

abbrev pub is_amp : TokenType → Bool
is_amp TokenType.op_amp = true
is_amp _ = false

-- `true` is 0 and `false` is -1. The clause for one token that is left reads it as the loop does: a
-- word ends the line, a redirection lacks its word, and of the separators only `&` may end it.
unfoldable pub parse_from : Bool → List TokenType → Bool
unfolding is_redirection is_separator
parse_from true [] = false
parse_from false [] = true
parse_from true (t ∷ ts) = elim (is_word t) [ true ↦ parse_from false ts | false ↦ false ]
parse_from false (t ∷ []) = elim (is_word t) [
  | true ↦ true
  | false ↦ elim (is_redirection t) [
    | true ↦ false
    | false ↦ elim (is_separator t) [ true ↦ is_amp t | false ↦ false ]
  ]
]
parse_from false (t ∷ u ∷ ts) = elim (is_word t) [
  | true ↦ parse_from false (u ∷ ts)
  | false ↦ elim (is_redirection t) [
    | true ↦ elim (is_word u) [ true ↦ parse_from false ts | false ↦ false ]
    | false ↦ elim (is_separator t) [ true ↦ parse_from true (u ∷ ts) | false ↦ false ]
  ]
]

unfoldable pub parse_types : List TokenType → Bool
unfolding parse_from
parse_types [] = true
parse_types (t ∷ ts) = parse_from true (t ∷ ts)

unfoldable pub parse_tokens : TokenList → Bool
unfolding parse_types
parse_tokens tokens = parse_types (map (λ k. k.type) tokens.items)
