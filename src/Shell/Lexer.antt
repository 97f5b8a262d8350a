-- ===== src/Shell/Lexer.antt =====
-- c-shell/src/lexer.c. The line is the list of its bytes before the NUL. `lex_line` reads it by an
-- index that only grows; here each byte is read once, and a mode says at which place of the code.
-- `malloc` and `realloc` are not modelled: the parameter `grants` says of each request, counted from
-- 0, whether memory is given.
pub mod Reference
pub mod Refinement
pub mod Quoting
pub mod Bounds
pub mod RoundTrip
use mp.Prelude.{
  ℕ, suc, ◌+◌, ◌*◌, Bool, true, false, not, ◌&&◌, ◌||◌, List, [], ◌∷◌, ◌++◌, length, ◌==◌,
  if◌then◌else◌,
}
use mp.Shell.Token.{TokenType, Token, TokenList}

unfoldable pub is_space : ℕ → Bool
is_space c = c == b' ' || c == b'\t' || c == b'\n' || c == b'\r'

unfoldable pub is_special : ℕ → Bool
is_special c = c == b'|' || c == b'&' || c == b';' || c == b'<' || c == b'>'

-- `data[0..len)` and `cap` of a `WordBuffer`.
pub record WordBuffer : Type 0 where
  pub bytes : List ℕ
  pub cap : ℕ

-- The variables of `lex_line`, its token list, and the number of requests for memory so far.
pub record Lexer : Type 0 where
  pub tokens : TokenList
  pub word : WordBuffer
  pub has_word : Bool
  pub requests : ℕ

-- 0 with a value, or -1, each with the state that is left.
pub data Result (A : Type 0) : Type 0 where
  ok : A → Lexer → Result A
  failed : Lexer → Result A

abbrev pub M : Type 0 → Type 0
M A = Lexer → Result A

abbrev pub continue : {A B : Type 0} → Result A → (A → M B) → Result B
continue (Result.ok a t) f = f a t
continue (Result.failed t) f = Result.failed t

infixl 5 ◌>>=◌ ◌>>◌
abbrev pub ◌>>=◌ : {A B : Type 0} → M A → (A → M B) → M B
◌>>=◌ m f s = continue (m s) f

abbrev pub ◌>>◌ : {B : Type 0} → M (Unit {0}) → M B → M B
m >> k = m >>= λ _. k

abbrev pub pure : {A : Type 0} → A → M A
pure a s = Result.ok a s

abbrev pub fail : {A : Type 0} → M A
fail s = Result.failed s

-- Where the next byte is read: in the loop of `lex_line`, behind `>` (the byte is looked at, and
-- taken only if it is `>`), behind a backslash, in single quotes, in double quotes, and behind a
-- backslash in these.
pub data Mode : Type 0 where
  outer after_gt escaped single double double_escaped : Mode

abbrev pub grown : ℕ → ℕ → ℕ
grown first cap = if cap == 0 then first else cap * 2

abbrev pub append_char : ℕ → M (Unit {0})
append_char c s =
    Result.ok tt (record s { word = record s.word { bytes = s.word.bytes ++ c ∷ [] } })

abbrev pub append_token : Token → M (Unit {0})
append_token k s =
    Result.ok tt (record s { tokens = record s.tokens { items = s.tokens.items ++ k ∷ [] } })

abbrev pub clear_word : M (Unit {0})
clear_word s = Result.ok tt (record s { word = record s.word { bytes = [] }; has_word = false })

abbrev pub set_has_word : M (Unit {0})
set_has_word s = Result.ok tt (record s { has_word = true })

-- An operator of one byte other than `>`.
abbrev pub operator : ℕ → TokenType
operator c =
    if c == b'|'
    then TokenType.op_pipe
    else if c == b'&'
    then TokenType.op_amp
    else if c == b';'
    then TokenType.op_semi
    else TokenType.op_lt

module _ (grants : ℕ → Bool) where
  unfoldable pub request : M (Unit {0})
  request s =
      let t = record s { requests = s.requests + 1 } in
      if grants s.requests then Result.ok tt t else Result.failed t

  unfoldable pub grow_word : M (Unit {0})
  unfolding request
  grow_word s =
      if length s.word.bytes == s.word.cap
      then (request >>= λ _ t.
            Result.ok tt (record t { word = record s.word { cap = grown 16 s.word.cap } }))
          s
      else Result.ok tt s

  unfoldable pub add_char : ℕ → M (Unit {0})
  unfolding grow_word
  add_char c = grow_word >> append_char c

  unfoldable pub grow_tokens : M (Unit {0})
  unfolding request
  grow_tokens s =
      if length s.tokens.items == s.tokens.capacity
      then (request >>= λ _ t.
            Result.ok tt
              (record t { tokens = record s.tokens { capacity = grown 8 s.tokens.capacity } }))
          s
      else Result.ok tt s

  -- The second request is for the copy of the text.
  unfoldable pub token_list_push : TokenType → List ℕ → M (Unit {0})
  unfolding grow_tokens request
  token_list_push type text =
      grow_tokens >> request >> append_token (record { type = type; text = text })

  unfoldable pub save_if : Bool → M (Unit {0})
  unfolding token_list_push
  save_if false s = Result.ok tt s
  save_if true s = (token_list_push TokenType.word s.word.bytes >> clear_word) s

  unfoldable pub save_word : M (Unit {0})
  unfolding save_if
  save_word s = save_if s.has_word s

  -- An operator, behind `save_word`.
  unfoldable pub special_byte : ℕ → M Mode
  unfolding token_list_push
  special_byte c =
      if c == b'>'
      then pure Mode.after_gt
      else token_list_push (operator c) (c ∷ []) >> pure Mode.outer

  -- A byte of a word, behind `has_word=1`.
  unfoldable pub word_byte : ℕ → M Mode
  unfolding add_char
  word_byte c =
      if c == b'\\'
      then pure Mode.escaped
      else if c == b'\''
      then pure Mode.single
      else if c == b'"'
      then pure Mode.double
      else add_char c >> pure Mode.outer

  -- The body of the loop at a byte that is not the NUL.
  unfoldable pub outer_byte : ℕ → M Mode
  unfolding is_space is_special save_word special_byte word_byte
  outer_byte c =
      if is_space c
      then save_word >> pure Mode.outer
      else if is_special c
      then save_word >> special_byte c
      else set_has_word >> word_byte c

  unfoldable pub byte : Mode → ℕ → M Mode
  unfolding outer_byte add_char token_list_push
  byte Mode.outer c = outer_byte c
  byte Mode.after_gt c =
      if c == b'>'
      then token_list_push TokenType.op_gtgt (b'>' ∷ b'>' ∷ []) >> pure Mode.outer
      else token_list_push TokenType.op_gt (b'>' ∷ []) >> outer_byte c
  byte Mode.escaped c = add_char c >> pure Mode.outer
  byte Mode.single c = if c == b'\'' then pure Mode.outer else add_char c >> pure Mode.single
  byte Mode.double c =
      if c == b'"'
      then pure Mode.outer
      else if c == b'\\'
      then pure Mode.double_escaped
      else add_char c >> pure Mode.double
  byte Mode.double_escaped c =
      if not (c == b'"') && not (c == b'\\')
      then add_char b'\\' >> add_char c >> pure Mode.double
      else add_char c >> pure Mode.double

  -- At the NUL.
  unfoldable pub finish : Mode → M (Unit {0})
  unfolding save_word token_list_push
  finish Mode.outer = save_word
  finish Mode.after_gt = token_list_push TokenType.op_gt (b'>' ∷ []) >> save_word
  finish _ = fail

  unfoldable pub lex : Mode → List ℕ → M (Unit {0})
  unfolding byte finish
  lex mode [] = finish mode
  lex mode (c ∷ cs) = byte mode c >>= λ next. lex next cs

  -- On the token list of the caller.
  unfoldable pub lex_line : List ℕ → TokenList → Result (Unit {0})
  unfolding lex
  lex_line line tokens = lex Mode.outer line (record {
    tokens = tokens;
    word = record { bytes = []; cap = 0 };
    has_word = false;
    requests = 0;
  })
