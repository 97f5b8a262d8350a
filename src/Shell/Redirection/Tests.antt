-- ===== src/Shell/Redirection/Tests.antt =====
-- `collect_command` at concrete inputs.
use mp.Prelude.{ℕ, ◌+◌, true, false, Option, some, List, [], ◌∷◌, ◌≡◌, refl}
use mp.Shell.Token.{TokenType, Token, TokenList}
use mp.Shell.Parser.{parse_tokens}
use mp.Shell.Redirection.{Collected, collect_command}
use mp.Shell.Redirection.Arguments.{Gives, arguments, collect_command-Gives}

abbrev word_of : ℕ → Token
word_of c = record { type = TokenType.word; text = c ∷ [] }

-- `a < b c < d > e`.
abbrev command : TokenList
command = record {
  items =
      word_of b'a'
      ∷ record { type = TokenType.op_lt; text = b'<' ∷ [] }
      ∷ word_of b'b'
      ∷ word_of b'c'
      ∷ record { type = TokenType.op_lt; text = b'<' ∷ [] }
      ∷ word_of b'd'
      ∷ record { type = TokenType.op_gt; text = b'>' ∷ [] }
      ∷ word_of b'e'
      ∷ [];
  capacity = 8;
}

abbrev opens : List ℕ → Option ℕ
opens name = some 4

abbrev joins : ℕ → ℕ → Option ℕ
joins a b = some (a + b)

collects :
    collect_command opens joins (λ fd. true) command.items
    ≡ Collected.collected ((b'a' ∷ []) ∷ (b'c' ∷ []) ∷ []) (some 8)
unfolding collect_command
collects = refl

accepted_command : parse_tokens command ≡ true
unfolding parse_tokens
accepted_command = refl

collect_command-Gives_example :
    Gives (arguments false command.items) (collect_command opens joins (λ fd. true) command.items)
collect_command-Gives_example =
    collect_command-Gives opens joins (λ fd. true) command accepted_command
