-- ===== src/Shell/Lexer/Refinement.antt =====
-- `lex_line` implements the reference, whatever requests for memory are granted.
use mathlib.Core.Option
use mp.Prelude.{
  ℕ, Bool, true, false, not, ◌&&◌, Option, none, some, List, [], ◌∷◌, ◌≡◌, ◌⊎◌, inl, inr, refl, ap,
  subst, arith, length, ◌==◌, if◌then◌else◌, Bool-cases,
}
use mp.Shell.Token.{TokenType, Token, TokenList}
use mp.Shell.Lexer.{
  Lexer, Result, Mode, M, is_space, is_special, request, grow_word, append_char, add_char,
  grow_tokens, token_list_push, clear_word, save_if, save_word, set_has_word, operator,
  special_byte, word_byte, outer_byte, byte, finish, lex, lex_line, pure, continue, ◌>>=◌, ◌>>◌,
}
use mp.Shell.Lexer.Reference.{
  View, view, add, push, save_as, save, read, special_step, word_step, outer_step, step, stop, run,
  start, tokens_of,
}

module _ (grants : ℕ → Bool) where
  abbrev pub IsDenied : Type 0
  IsDenied = (n : ℕ) × (grants n ≡ false)

  -- A result agrees with what the reference gives; it may also be a failure for want of memory.
  abbrev pub Gives : {A : Type 0} → Result A → Option (A × View) → Type 0
  Gives (Result.ok a t) o = o ≡ some (a, view t)
  Gives (Result.failed t) o = (o ≡ none) ⊎ IsDenied

  -- An action at which the reference does not fail.
  abbrev Does : {A : Type 0} → M A → (View → A × View) → Type 0
  Does m f = (s : Lexer) → Gives (m s) (some (f (view s)))

  Gives-continue :
      {A B : Type 0} (r : Result A) (k : A → M B) (o : A × View) (x : Option (B × View))
      → Gives r (some o)
      → ((t : Lexer) → o.1 ≡ view t → Gives (k o.0 t) x)
      → Gives (continue r k) x
  Gives-continue (Result.ok a t) k o x h d =
      let e : o ≡ (a, view t) = cc in
      subst (λ b. Gives (k b t) x) (ap (λ y. y.0) e) (d t (ap (λ y. y.1) e))
  Gives-continue (Result.failed t) k o x (inl e) d = cc
  Gives-continue (Result.failed t) k o x (inr n) d = inr n

  Does-bind :
      {A B : Type 0} (m : M A) (k : A → M B) (f : View → A × View) (g : A → View → B × View)
      → Does m f
      → ((a : A) → Does (k a) (g a))
      → Does (m >>= k) (λ v. g (f v).0 (f v).1)
  Does-bind m k f g dm dk s =
      Gives-continue (m s) k (f (view s)) (some (g (f (view s)).0 (f (view s)).1)) (dm s)
        (λ t e. rw e (dk (f (view s)).0 t))

  request-Does : Does (request grants) (λ v. (tt, v))
  unfolding request
  request-Does s = elim (Bool-cases (grants s.requests)) [
    | inl e ↦ rw e refl
    | inr e ↦ rw e (inr (s.requests, e))
  ]

  grow_word-Does : Does (grow_word grants) (λ v. (tt, v))
  unfolding grow_word
  grow_word-Does s = elim (Bool-cases (length s.word.bytes == s.word.cap)) [
    | inr e ↦ rw e refl
    | inl e ↦ rw e (
        Gives-continue (request grants s) _ (tt, view s) (some (tt, view s)) (request-Does s)
          (λ t e. ground arith))
  ]

  add_char-Does : (c : ℕ) → Does (add_char grants c) (λ v. (tt, add c v))
  unfolding add_char
  add_char-Does c =
      Does-bind (grow_word grants) (λ _. append_char c) (λ v. (tt, v)) (λ _ v. (tt, add c v))
        grow_word-Does (λ _ s. refl)

  grow_tokens-Does : Does (grow_tokens grants) (λ v. (tt, v))
  unfolding grow_tokens
  grow_tokens-Does s = elim (Bool-cases (length s.tokens.items == s.tokens.capacity)) [
    | inr e ↦ rw e refl
    | inl e ↦ rw e (
        Gives-continue (request grants s) _ (tt, view s) (some (tt, view s)) (request-Does s)
          (λ t e. ground arith))
  ]

  token_list_push-Does :
      (type : TokenType) (text : List ℕ)
      → Does (token_list_push grants type text) (λ v. (tt, push type text v))
  unfolding token_list_push
  token_list_push-Does type text =
      Does-bind (grow_tokens grants >> request grants) _ (λ v. (tt, v))
        (λ _ v. (tt, push type text v))
        (Does-bind (grow_tokens grants) (λ _. request grants) (λ v. (tt, v)) (λ _ v. (tt, v))
          grow_tokens-Does (λ _. request-Does))
        (λ _ s. refl)

  save_if-Does : (b : Bool) → Does (save_if grants b) (λ v. (tt, save_as b v))
  unfolding save_if
  save_if-Does false s = refl
  save_if-Does true s =
      Gives-continue (token_list_push grants TokenType.word s.word.bytes s) (λ _. clear_word)
        (tt, push TokenType.word s.word.bytes (view s)) (some (tt, save_as true (view s)))
        (token_list_push-Does TokenType.word s.word.bytes s) (λ t e. ground arith)

  save_word-Does : Does (save_word grants) (λ v. (tt, save v))
  unfolding save_word
  save_word-Does s = save_if-Does s.has_word s

  Does-if :
      {A : Type 0} (b : Bool) (m n : M A) (f g : View → A × View)
      → Does m f
      → Does n g
      → Does (if b then m else n) (λ v. if b then f v else g v)
  Does-if true m n f g dm dn = dm
  Does-if false m n f g dm dn = dn

  -- An action without a result, and then a mode.
  Does-then :
      {A : Type 0} (m : M (Unit {0})) (k : M A) (f : View → View) (g : View → A × View)
      → Does m (λ v. (tt, f v))
      → Does k g
      → Does (m >> k) (λ v. g (f v))
  Does-then m k f g dm dk = Does-bind m (λ _. k) (λ v. (tt, f v)) (λ _. g) dm (λ _. dk)

  pure-Does : {A : Type 0} (a : A) → Does (pure a) (λ v. (a, v))
  pure-Does a s = refl

  set_has_word-Does : Does set_has_word (λ v. (tt, read v))
  set_has_word-Does s = refl

  Does-end :
      (m : M (Unit {0})) (f : View → View) (next : Mode)
      → Does m (λ v. (tt, f v))
      → Does (m >> pure next) (λ v. (next, f v))
  Does-end m f next dm = Does-then m (pure next) f (λ v. (next, v)) dm (pure-Does next)

  add_char-next :
      (c : ℕ) (next : Mode) → Does (add_char grants c >> pure next) (λ v. (next, add c v))
  add_char-next c next = Does-end (add_char grants c) (add c) next (add_char-Does c)

  push-next :
      (type : TokenType) (text : List ℕ) (next : Mode)
      → Does (token_list_push grants type text >> pure next) (λ v. (next, push type text v))
  push-next type text next =
      Does-end (token_list_push grants type text) (push type text) next
        (token_list_push-Does type text)

  special_byte-Does : (c : ℕ) → Does (special_byte grants c) (special_step c)
  unfolding special_byte
  special_byte-Does c =
      Does-if (c == b'>') _ _ (λ v. (Mode.after_gt, v))
        (λ v. (Mode.outer, push (operator c) (c ∷ []) v)) (pure-Does Mode.after_gt)
        (push-next (operator c) (c ∷ []) Mode.outer)

  word_byte-Does : (c : ℕ) → Does (word_byte grants c) (word_step c)
  unfolding word_byte
  word_byte-Does c =
      Does-if (c == b'\\') _ _ (λ v. (Mode.escaped, v))
        (λ v.
          if c == b'\''
          then (Mode.single, v)
          else if c == b'"'
          then (Mode.double, v)
          else (Mode.outer, add c v))
        (pure-Does Mode.escaped)
        (Does-if (c == b'\'') _ _ (λ v. (Mode.single, v))
          (λ v. if c == b'"' then (Mode.double, v) else (Mode.outer, add c v))
          (pure-Does Mode.single)
          (Does-if (c == b'"') _ _ (λ v. (Mode.double, v)) (λ v. (Mode.outer, add c v))
            (pure-Does Mode.double) (add_char-next c Mode.outer)))

  outer_byte-Does : (c : ℕ) → Does (outer_byte grants c) (outer_step c)
  unfolding outer_byte outer_step
  outer_byte-Does c =
      Does-if (is_space c) _ _ (λ v. (Mode.outer, save v))
        (λ v. if is_special c then special_step c (save v) else word_step c (read v))
        (Does-end (save_word grants) save Mode.outer save_word-Does)
        (Does-if (is_special c) _ _ (λ v. special_step c (save v)) (λ v. word_step c (read v))
          (Does-then (save_word grants) (special_byte grants c) save (special_step c) save_word-Does
            (special_byte-Does c))
          (Does-then set_has_word (word_byte grants c) read (word_step c) set_has_word-Does
            (word_byte-Does c)))

  byte-Does : (mode : Mode) (c : ℕ) → Does (byte grants mode c) (step mode c)
  unfolding byte step
  byte-Does Mode.outer c = outer_byte-Does c
  byte-Does Mode.after_gt c =
      Does-if (c == b'>') _ _ (λ v. (Mode.outer, push TokenType.op_gtgt (b'>' ∷ b'>' ∷ []) v))
        (λ v. outer_step c (push TokenType.op_gt (b'>' ∷ []) v))
        (push-next TokenType.op_gtgt (b'>' ∷ b'>' ∷ []) Mode.outer)
        (Does-then (token_list_push grants TokenType.op_gt (b'>' ∷ [])) (outer_byte grants c)
          (push TokenType.op_gt (b'>' ∷ [])) (outer_step c)
          (token_list_push-Does TokenType.op_gt (b'>' ∷ [])) (outer_byte-Does c))
  byte-Does Mode.escaped c = add_char-next c Mode.outer
  byte-Does Mode.single c =
      Does-if (c == b'\'') _ _ (λ v. (Mode.outer, v)) (λ v. (Mode.single, add c v))
        (pure-Does Mode.outer) (add_char-next c Mode.single)
  byte-Does Mode.double c =
      Does-if (c == b'"') _ _ (λ v. (Mode.outer, v))
        (λ v. if c == b'\\' then (Mode.double_escaped, v) else (Mode.double, add c v))
        (pure-Does Mode.outer)
        (Does-if (c == b'\\') _ _ (λ v. (Mode.double_escaped, v)) (λ v. (Mode.double, add c v))
          (pure-Does Mode.double_escaped) (add_char-next c Mode.double))
  byte-Does Mode.double_escaped c =
      Does-if (not (c == b'"') && not (c == b'\\')) _ _ (λ v. (Mode.double, add c (add b'\\' v)))
        (λ v. (Mode.double, add c v))
        (Does-end (add_char grants b'\\' >> add_char grants c) (λ v. add c (add b'\\' v))
          Mode.double
          (Does-then (add_char grants b'\\') (add_char grants c) (add b'\\') (λ v. (tt, add c v))
            (add_char-Does b'\\') (add_char-Does c)))
        (add_char-next c Mode.double)

  abbrev result : Option View → Option (Unit {0} × View)
  result = Option.map (λ v. (tt, v))

  finish-Gives :
      (mode : Mode) (s : Lexer) → Gives (finish grants mode s) (result (stop mode (view s)))
  unfolding finish stop
  finish-Gives Mode.outer s = save_word-Does s
  finish-Gives Mode.after_gt s =
      Does-then (token_list_push grants TokenType.op_gt (b'>' ∷ [])) (save_word grants)
        (push TokenType.op_gt (b'>' ∷ [])) (λ v. (tt, save v))
        (token_list_push-Does TokenType.op_gt (b'>' ∷ [])) save_word-Does s
  finish-Gives _ s = inl refl

  lex-Gives :
      (cs : List ℕ) (mode : Mode) (s : Lexer)
      → Gives (lex grants mode cs s) (result (run mode cs (view s)))
  unfolding lex run
  lex-Gives [] mode s = finish-Gives mode s
  lex-Gives (c ∷ cs) mode s =
      Gives-continue (byte grants mode c s) (λ next. lex grants next cs) (step mode c (view s)) _
        (byte-Does mode c s) (λ t e. rw e (lex-Gives cs (step mode c (view s)).0 t))

  -- What a call of `lex_line` leaves, told by the reference.
  abbrev pub LexOutcome : List ℕ → TokenList → Result (Unit {0}) → Type 0
  LexOutcome line tokens (Result.ok a t) = tokens_of tokens.items line ≡ some t.tokens.items
  LexOutcome line tokens (Result.failed t) = (tokens_of tokens.items line ≡ none) ⊎ IsDenied

  Gives-LexOutcome :
      (line : List ℕ) (tokens : TokenList) (r : Result (Unit {0}))
      → Gives r (result (run Mode.outer line (start tokens.items)))
      → LexOutcome line tokens r
  unfolding tokens_of
  Gives-LexOutcome line tokens (Result.ok a t) h = ground arith
  Gives-LexOutcome line tokens (Result.failed t) (inl h) = inl (ground arith)
  Gives-LexOutcome line tokens (Result.failed t) (inr n) = inr n

  -- Whatever requests for memory are granted: where `lex_line` returns 0, it has appended to the
  -- caller's list the tokens that the reference finds in the line; where it returns -1, the reference
  -- finds a quote or an escape left open, or some request is one that is
  -- denied.
  pub lex_line-refines :
      (line : List ℕ) (tokens : TokenList) → LexOutcome line tokens (lex_line grants line tokens)
  unfolding lex_line
  lex_line-refines line tokens = Gives-LexOutcome line tokens (lex_line grants line tokens) (
      lex-Gives line Mode.outer (record {
        tokens = tokens;
        word = record { bytes = []; cap = 0 };
        has_word = false;
        requests = 0;
      }))

abbrev pub always : ℕ → Bool
always n = true

always-lex_line :
    (line : List ℕ) (tokens : TokenList) (r : Result (Unit {0})) (ks : List Token)
    → LexOutcome always line tokens r
    → tokens_of tokens.items line ≡ some ks
    → (t : Lexer) × (r ≡ Result.ok tt t) × (t.tokens.items ≡ ks)
always-lex_line line tokens (Result.ok a t) ks h e = (t, refl, cc)
always-lex_line line tokens (Result.failed t) ks (inl h) e = cc
always-lex_line line tokens (Result.failed t) ks (inr (n, h)) e = cc

-- With every request granted `lex_line` finds the tokens that the reference finds.
pub lex_line_complete :
    (line : List ℕ) (tokens : TokenList) (ks : List Token)
    → tokens_of tokens.items line ≡ some ks
    → (t : Lexer) × (lex_line always line tokens ≡ Result.ok tt t) × (t.tokens.items ≡ ks)
lex_line_complete line tokens ks e =
    always-lex_line line tokens (lex_line always line tokens) ks
      (lex_line-refines always line tokens) e
