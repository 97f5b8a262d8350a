-- ===== src/Shell/Lexer/Bounds.antt =====
-- The two buffers of the lexer never hold more than their capacity.
use mp.Prelude.{
  ℕ, ◌≤◌, Bool, true, false, List, [], ◌∷◌, arith, length, length-append, if◌then◌else◌,
}
use mp.Shell.Token.{TokenType, TokenList}
use mp.Shell.Lexer.{
  Lexer, Result, Mode, M, add_char, token_list_push, clear_word, save_if, save_word, set_has_word,
  special_byte, word_byte, outer_byte, byte, finish, lex, lex_line, pure, fail, continue, ◌>>=◌,
  ◌>>◌,
}

pub record Fits (s : Lexer) : Type 0 where
  pub word_fits : length s.word.bytes ≤ s.word.cap
  pub tokens_fit : length s.tokens.items ≤ s.tokens.capacity

-- Whether it returns 0 or -1, the buffers fit.
abbrev pub LeavesFit : {A : Type 0} → Result A → Type 0
LeavesFit (Result.ok a t) = Fits t
LeavesFit (Result.failed t) = Fits t

record Keeps {A : Type 0} (m : M A) : Type 0 where
  at : (s : Lexer) → Fits s → LeavesFit (m s)

LeavesFit-continue :
    {A B : Type 0} (r : Result A) (k : A → M B)
    → LeavesFit r
    → ((a : A) → Keeps (k a))
    → LeavesFit (continue r k)
LeavesFit-continue (Result.ok a t) k h d = (d a).at t h
LeavesFit-continue (Result.failed t) k h d = h

Keeps-bind :
    {A B : Type 0} (m : M A) (k : A → M B) → Keeps m → ((a : A) → Keeps (k a)) → Keeps (m >>= k)
Keeps-bind m k dm dk = record { at = λ s h. LeavesFit-continue (m s) k (dm.at s h) dk }

Keeps-then : {B : Type 0} (m : M (Unit {0})) (k : M B) → Keeps m → Keeps k → Keeps (m >> k)
Keeps-then m k dm dk = Keeps-bind m (λ _. k) dm (λ _. dk)

Keeps-if : {A : Type 0} (b : Bool) (m n : M A) → Keeps m → Keeps n → Keeps (if b then m else n)
Keeps-if true m n dm dn = dm
Keeps-if false m n dm dn = dn

Keeps-pure : {A : Type 0} (a : A) → Keeps (pure a)
Keeps-pure a = record { at = λ s h. h }

Keeps-fail : {A : Type 0} → Keeps (fail {A = A})
Keeps-fail = record { at = λ s h. h }

module _ (grants : ℕ → Bool) where
  -- Room for one more byte.
  add_char-Fits : (c : ℕ) (s : Lexer) → Fits s → LeavesFit (add_char grants c s)
  unfolding add_char
  add_char-Fits c s h =
      ground (arith, length-append s.word.bytes (c ∷ []), h.word_fits, h.tokens_fit)

  token_list_push-Fits :
      (type : TokenType) (text : List ℕ) (s : Lexer)
      → Fits s
      → LeavesFit (token_list_push grants type text s)
  unfolding token_list_push
  token_list_push-Fits type text s h = ground (
    arith,
    length-append s.tokens.items ((record { type = type; text = text }) ∷ []),
    h.word_fits,
    h.tokens_fit,
  )

  add_char-Keeps : (c : ℕ) → Keeps (add_char grants c)
  add_char-Keeps c = record { at = add_char-Fits c }

  token_list_push-Keeps :
      (type : TokenType) (text : List ℕ) → Keeps (token_list_push grants type text)
  token_list_push-Keeps type text = record { at = token_list_push-Fits type text }

  clear_word-Keeps : Keeps clear_word
  clear_word-Keeps = record {
    at = λ s h. record { word_fits = omega arith; tokens_fit = h.tokens_fit };
  }

  set_has_word-Keeps : Keeps set_has_word
  set_has_word-Keeps = record {
    at = λ s h. record { word_fits = h.word_fits; tokens_fit = h.tokens_fit };
  }

  save_if-Fits : (b : Bool) (s : Lexer) → Fits s → LeavesFit (save_if grants b s)
  unfolding save_if
  save_if-Fits false s h = h
  save_if-Fits true s h =
      (Keeps-then (token_list_push grants TokenType.word s.word.bytes) clear_word
          (token_list_push-Keeps TokenType.word s.word.bytes) clear_word-Keeps).at
        s h

  save_word-Keeps : Keeps (save_word grants)
  unfolding save_word
  save_word-Keeps = record { at = λ s h. save_if-Fits s.has_word s h }

  ruleset fit_rules = (
    Keeps-then, Keeps-if, Keeps-pure, Keeps-fail, add_char-Keeps, token_list_push-Keeps,
    save_word-Keeps, set_has_word-Keeps,
  )

  outer_byte-Keeps : (c : ℕ) → Keeps (outer_byte grants c)
  unfolding outer_byte special_byte word_byte
  outer_byte-Keeps c = search fit_rules depth 8

  byte-Keeps : (mode : Mode) (c : ℕ) → Keeps (byte grants mode c)
  unfolding byte
  byte-Keeps Mode.outer c = outer_byte-Keeps c
  byte-Keeps Mode.after_gt c = search (fit_rules, outer_byte-Keeps)
  byte-Keeps _ c = search fit_rules

  finish-Keeps : (mode : Mode) → Keeps (finish grants mode)
  unfolding finish
  finish-Keeps Mode.outer = save_word-Keeps
  finish-Keeps _ = search fit_rules

  lex-Keeps : (cs : List ℕ) (mode : Mode) → Keeps (lex grants mode cs)
  unfolding lex
  lex-Keeps [] mode = finish-Keeps mode
  lex-Keeps (c ∷ cs) mode =
      Keeps-bind (byte grants mode c) (λ next. lex grants next cs) (byte-Keeps mode c)
        (λ next. lex-Keeps cs next)

  -- Whatever requests for memory are granted, and whether `lex_line` returns 0 or -1, the word buffer
  -- and the token list that it leaves hold no more than their capacity, if the list did so before.
  pub lex_line-Fits :
      (line : List ℕ) (tokens : TokenList)
      → length tokens.items ≤ tokens.capacity
      → LeavesFit (lex_line grants line tokens)
  unfolding lex_line
  lex_line-Fits line tokens h =
      (lex-Keeps line Mode.outer).at _ (record { word_fits = omega arith; tokens_fit = h })
