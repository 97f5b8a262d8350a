-- ===== src/Shell/Token.antt =====
-- c-shell/include/lexer.h: tokens. A text is the list of its bytes, without the closing NUL.
use mp.Prelude.{ℕ, Bool, true, false, List}

pub data TokenType : Type 0 where
  word op_pipe op_amp op_semi op_lt op_gt op_gtgt : TokenType

pub record Token : Type 0 where
  pub type : TokenType
  pub text : List ℕ

abbrev pub is_word : TokenType → Bool
is_word TokenType.word = true
is_word _ = false

-- `items[0..count)` and `capacity` of a `TokenList`.
pub record TokenList : Type 0 where
  pub items : List Token
  pub capacity : ℕ
