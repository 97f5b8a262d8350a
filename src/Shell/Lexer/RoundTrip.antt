-- ===== src/Shell/Lexer/RoundTrip.antt =====
-- A printer of token lists, and that the lexer reads back what it prints. Every sequence of tokens is
-- printed, words with any bytes in them included.
use mathlib.Core.List.{append-nil, append_assoc}
use mp.Prelude.{
  ℕ, Bool, true, false, ◌||◌, some, List, [], ◌∷◌, ◌++◌, ◌≡◌, refl, ◌∙◌, ap, arith, ◌==◌,
  if◌then◌else◌, Bool-cases, inl, inr,
}
use mp.Shell.Token.{TokenType, Token, TokenList, is_word}
use mp.Shell.Lexer.{Lexer, Result, Mode, lex_line}
use mp.Shell.Lexer.Reference.{View, add, read, save, step, run, start, tokens_of}
use mp.Shell.Lexer.Refinement.{always, lex_line_complete}

-- The text of an operator.
abbrev pub symbol : TokenType → List ℕ
symbol TokenType.word = []
symbol TokenType.op_pipe = b'|' ∷ []
symbol TokenType.op_amp = b'&' ∷ []
symbol TokenType.op_semi = b';' ∷ []
symbol TokenType.op_lt = b'<' ∷ []
symbol TokenType.op_gt = b'>' ∷ []
symbol TokenType.op_gtgt = b'>' ∷ b'>' ∷ []

abbrev quotes : ℕ → Bool
quotes c = c == b'"' || c == b'\\'

-- The bytes of a word and the closing quote, each quote and backslash behind a backslash.
print_bytes : List ℕ → List ℕ → List ℕ
print_bytes [] rest = b'"' ∷ b' ' ∷ rest
print_bytes (c ∷ cs) rest =
    let more = print_bytes cs rest in if quotes c then b'\\' ∷ c ∷ more else c ∷ more

print_token : TokenType → List ℕ → List ℕ → List ℕ
unfolding print_bytes
print_token TokenType.word text rest = b'"' ∷ print_bytes text rest
print_token t text rest = symbol t ++ b' ' ∷ rest

unfoldable pub print_tokens : List Token → List ℕ
unfolding print_token
print_tokens [] = []
print_tokens (k ∷ ks) = print_token k.type k.text (print_tokens ks)

-- An operator token holds the text of its operator.
abbrev pub IsPrintable : List Token → Type 0
IsPrintable [] = Unit
IsPrintable (k ∷ ks) = (is_word k.type ≡ false → k.text ≡ symbol k.type) × IsPrintable ks

run-step :
    (mode next : Mode) (c : ℕ) (cs : List ℕ) (v w : View)
    → step mode c v ≡ (next, w)
    → run mode (c ∷ cs) v ≡ run next cs w
unfolding run
run-step mode next c cs v w e = ap (λ (r : Mode × View). run r.0 cs r.1) e

step-plain : (c : ℕ) (v : View) → quotes c ≡ false → step Mode.double c v ≡ (Mode.double, add c v)
unfolding step
step-plain c v q = ground arith

step-escaped :
    (c : ℕ) (v : View) → quotes c ≡ true → step Mode.double_escaped c v ≡ (Mode.double, add c v)
unfolding step
step-escaped c v q = ground arith

step-backslash : (v : View) → step Mode.double b'\\' v ≡ (Mode.double_escaped, v)
unfolding step
step-backslash v = refl

step-close : (v : View) → step Mode.double b'"' v ≡ (Mode.outer, v)
unfolding step
step-close v = refl

step-open : (v : View) → step Mode.outer b'"' v ≡ (Mode.double, read v)
unfolding step
step-open v = refl

step-blank : (v : View) → step Mode.outer b' ' v ≡ (Mode.outer, save v)
unfolding step
step-blank v = refl

abbrev in_word : List Token → List ℕ → View
in_word items bs = record { items = items; bytes = bs; reading = true }

append-cons {ℓ} :
    {A : Type ℓ} (xs : List A) (y : A) (ys : List A) → (xs ++ y ∷ []) ++ ys ≡ xs ++ y ∷ ys
append-cons xs y ys = simp append_assoc

-- In double quotes the printed bytes are added to the word.
run-print_bytes :
    (cs rest bs : List ℕ) (items : List Token)
    → run Mode.double (print_bytes cs rest) (in_word items bs)
      ≡ run Mode.outer (b' ' ∷ rest) (in_word items (bs ++ cs))
unfolding print_bytes
run-print_bytes [] rest bs items = rw (append-nil bs) (
    run-step Mode.double Mode.outer b'"' (b' ' ∷ rest) (in_word items bs) (in_word items bs)
      (step-close (in_word items bs)))
run-print_bytes (c ∷ cs) rest bs items =
    let more = run-print_bytes cs rest (bs ++ c ∷ []) items in
    let last = rw (append-cons bs c cs) at more in
    elim (Bool-cases (quotes c)) [
      | inl q ↦ rw q (
          run-step Mode.double Mode.double_escaped b'\\' (c ∷ print_bytes cs rest)
            (in_word items bs) (in_word items bs) (step-backslash (in_word items bs))
          ∙ run-step Mode.double_escaped Mode.double c (print_bytes cs rest) (in_word items bs)
              (in_word items (bs ++ c ∷ [])) (step-escaped c (in_word items bs) q)
          ∙ last)
      | inr q ↦ rw q (
          run-step Mode.double Mode.double c (print_bytes cs rest) (in_word items bs)
            (in_word items (bs ++ c ∷ [])) (step-plain c (in_word items bs) q)
          ∙ last)
    ]

-- A printed token is read as that token.
run-print_token :
    (t : TokenType) (text rest : List ℕ) (items : List Token)
    → (is_word t ≡ false → text ≡ symbol t)
    → run Mode.outer (print_token t text rest) (start items)
      ≡ run Mode.outer rest (start (items ++ (record { type = t; text = text }) ∷ []))
unfolding print_token
run-print_token TokenType.word text rest items h =
    run-step Mode.outer Mode.double b'"' (print_bytes text rest) (start items) (in_word items [])
      (step-open (start items))
    ∙ run-print_bytes text rest [] items
    ∙ run-step Mode.outer Mode.outer b' ' rest (in_word items text) _
        (step-blank (in_word items text))
run-print_token TokenType.op_pipe text rest items h = unfold run step in rw (h refl)
run-print_token TokenType.op_amp text rest items h = unfold run step in rw (h refl)
run-print_token TokenType.op_semi text rest items h = unfold run step in rw (h refl)
run-print_token TokenType.op_lt text rest items h = unfold run step in rw (h refl)
run-print_token TokenType.op_gt text rest items h = unfold run step in rw (h refl)
run-print_token TokenType.op_gtgt text rest items h = unfold run step in rw (h refl)

run-print_tokens :
    (ks items : List Token)
    → IsPrintable ks
    → run Mode.outer (print_tokens ks) (start items) ≡ some (start (items ++ ks))
unfolding print_tokens
run-print_tokens [] items h = unfold run in rw (append-nil items)
run-print_tokens (k ∷ ks) items h =
    let rest = run-print_tokens ks (items ++ k ∷ []) h.1 in
    run-print_token k.type k.text (print_tokens ks) items h.0 ∙ rw (append-cons items k ks) at rest

tokens_of-print_tokens :
    (ks items : List Token)
    → IsPrintable ks
    → tokens_of items (print_tokens ks) ≡ some (items ++ ks)
unfolding tokens_of
tokens_of-print_tokens ks items h = rw (run-print_tokens ks items h)

-- Any list of tokens in which the operators hold their texts is printed (words in double quotes, with
-- quotes and backslashes escaped, and a blank behind each token) as a line that `lex_line` reads back:
-- with every request for memory granted it returns 0 and has appended these tokens to its list.
pub lex_line-print_tokens :
    (ks : List Token) (tokens : TokenList)
    → IsPrintable ks
    → (t : Lexer) × (lex_line always (print_tokens ks) tokens ≡ Result.ok tt t)
      × (t.tokens.items ≡ tokens.items ++ ks)
lex_line-print_tokens ks tokens h =
    lex_line_complete (print_tokens ks) tokens (tokens.items ++ ks)
      (tokens_of-print_tokens ks tokens.items h)
