-- ===== src/Shell/Parser/Grammar.antt =====
-- The grammar of command lines, and that the check of the tokens decides it.
use mathlib.Core.List.{append-nil}
use mp.Prelude.{
  Bool, true, false, List, [], ◌∷◌, ◌++◌, map, ◌≡◌, ◌↔◌, ◌⊎◌, inl, inr, refl, ap, ◌∙◌, arith,
}
use mp.Shell.Token.{TokenType, TokenList, is_word}
use mp.Shell.Parser.{is_redirection, is_separator, is_amp, parse_from, parse_types, parse_tokens}

abbrev pub Types : Type 0
Types = List TokenType

-- What follows the name of a command: words, and redirections, each with its file.
pub data Args : Types → Type 0 where
  none_left : Args []
  argument : {ts : Types} → Args ts → Args (TokenType.word ∷ ts)
  redirect :
      {r : TokenType} {ts : Types}
      → is_redirection r ≡ true
      → Args ts
      → Args (r ∷ TokenType.word ∷ ts)

-- Commands with a separator between each two, and possibly an `&` behind the last.
pub data Line : Types → Type 0 where
  last : {xs : Types} → Args xs → Line (TokenType.word ∷ xs)
  background :
      {xs ts : Types} → Args xs → ts ≡ TokenType.word ∷ (xs ++ TokenType.op_amp ∷ []) → Line ts
  next :
      (s : TokenType) {xs rest ts : Types}
      → Args xs
      → is_separator s ≡ true
      → Line rest
      → ts ≡ TokenType.word ∷ (xs ++ s ∷ rest)
      → Line ts

abbrev pub IsCommandLine : Types → Type 0
IsCommandLine ts = (ts ≡ []) ⊎ Line ts

-- What may follow the name of a command: the rest of its arguments, and what stands behind them.
data Tail : Types → Type 0 where
  tail_end : {xs : Types} → Args xs → Tail xs
  tail_amp : {xs ts : Types} → Args xs → ts ≡ xs ++ TokenType.op_amp ∷ [] → Tail ts
  tail_next :
      (s : TokenType) {xs rest ts : Types}
      → Args xs
      → is_separator s ≡ true
      → Line rest
      → ts ≡ xs ++ s ∷ rest
      → Tail ts

Tail-Line : {ts : Types} → Tail ts → Line (TokenType.word ∷ ts)
Tail-Line (tail_end a) = last a
Tail-Line (tail_amp a e) = background a (ap (◌∷◌ TokenType.word) e)
Tail-Line (tail_next s a h l e) = next s a h l (ap (◌∷◌ TokenType.word) e)

Tail-word : {ts : Types} → Tail ts → Tail (TokenType.word ∷ ts)
Tail-word (tail_end a) = tail_end (argument a)
Tail-word (tail_amp a e) = tail_amp (argument a) (ap (◌∷◌ TokenType.word) e)
Tail-word (tail_next s a h l e) = tail_next s (argument a) h l (ap (◌∷◌ TokenType.word) e)

Tail-redirect :
    (r : TokenType) {ts : Types}
    → is_redirection r ≡ true
    → Tail ts
    → Tail (r ∷ TokenType.word ∷ ts)
Tail-redirect r h (tail_end a) = tail_end (redirect h a)
Tail-redirect r h (tail_amp a e) = tail_amp (redirect h a) (cc)
Tail-redirect r h (tail_next s a k l e) = tail_next s (redirect h a) k l (cc)

-- A token by its part in the grammar.
data Part (t : TokenType) : Type 0 where
  part_word : t ≡ TokenType.word → Part t
  part_redirection : is_word t ≡ false → is_redirection t ≡ true → Part t
  part_separator : is_word t ≡ false → is_redirection t ≡ false → is_separator t ≡ true → Part t

part : (t : TokenType) → Part t
unfolding is_redirection is_separator
part TokenType.word = part_word refl
part TokenType.op_pipe = part_separator refl refl refl
part TokenType.op_amp = part_separator refl refl refl
part TokenType.op_semi = part_separator refl refl refl
part TokenType.op_lt = part_redirection refl refl
part TokenType.op_gt = part_redirection refl refl
part TokenType.op_gtgt = part_redirection refl refl

is_word-eq : (t : TokenType) → is_word t ≡ true → t ≡ TokenType.word
is_word-eq t h = ground arith

is_amp-eq : (t : TokenType) → is_amp t ≡ true → t ≡ TokenType.op_amp
is_amp-eq t h = ground arith

abbrev Reads : Bool → Types → Type 0
Reads true ts = Line ts
Reads false ts = Tail ts

parse_from_sound : (want : Bool) (ts : Types) → parse_from want ts ≡ true → Reads want ts
unfolding parse_from
parse_from_sound true [] h = cc
parse_from_sound false [] h = tail_end none_left
parse_from_sound true (t ∷ ts) h = elim (part t) [
  | part_word e ↦ rw e (Tail-Line (parse_from_sound false ts (rw (e, parse_from) at h)))
  | part_redirection w r ↦ cc (rw (w, parse_from) at h)
  | part_separator w r s ↦ cc (rw (w, parse_from) at h)
]
parse_from_sound false (t ∷ []) h = elim (part t) [
  | part_word e ↦ rw e (tail_end (argument none_left))
  | part_redirection w r ↦ cc (rw (w, r, parse_from) at h)
  | part_separator w r s ↦
      rw (is_amp-eq t (rw (w, r, s, parse_from) at h)) (tail_amp none_left refl)
]
parse_from_sound false (t ∷ u ∷ ts) h = elim (part t) [
  | part_word e ↦ rw e (Tail-word (parse_from_sound false (u ∷ ts) (rw (e, parse_from) at h)))
  | part_redirection w r ↦ elim (part u) [
    | part_word e ↦
        rw e (Tail-redirect t r (parse_from_sound false ts (rw (w, r, e, parse_from) at h)))
    | part_redirection uw ur ↦ cc (rw (w, r, uw, parse_from) at h)
    | part_separator uw ur us ↦ cc (rw (w, r, uw, parse_from) at h)
  ]
  | part_separator w r s ↦
      tail_next t none_left s (parse_from_sound true (u ∷ ts) (rw (w, r, s, parse_from) at h)) refl
]

parse_from-word : (ts : Types) → parse_from false (TokenType.word ∷ ts) ≡ parse_from false ts
unfolding parse_from
parse_from-word [] = refl
parse_from-word (t ∷ ts) = refl

parse_from-redirect :
    (r : TokenType) (ts : Types)
    → is_redirection r ≡ true
    → parse_from false (r ∷ TokenType.word ∷ ts) ≡ parse_from false ts
unfolding parse_from
parse_from-redirect r ts h = elim (part r) [
  | part_word e ↦ cc (rw (e, parse_from) at h)
  | part_redirection w k ↦ rw (w, k, parse_from)
  | part_separator w k l ↦ cc
]

redirection-not_separator : (t : TokenType) → is_redirection t ≡ true → ¬ (is_separator t ≡ true)
unfolding is_redirection is_separator
redirection-not_separator t h k = ground arith

parse_from-separator :
    (s : TokenType) (t : TokenType) (ts : Types)
    → is_separator s ≡ true
    → parse_from false (s ∷ t ∷ ts) ≡ parse_from true (t ∷ ts)
unfolding parse_from
parse_from-separator s t ts h = elim (part s) [
  | part_word e ↦ cc (rw (e, parse_from) at h)
  | part_redirection w k ↦ absurd (redirection-not_separator s k h)
  | part_separator w k l ↦ rw (w, k, l, parse_from)
]

-- The arguments of a command are read to their end, whatever follows.
parse_from-Args :
    {xs : Types} (rest : Types) → Args xs → parse_from false (xs ++ rest) ≡ parse_from false rest
parse_from-Args rest none_left = refl
parse_from-Args rest (argument {ts = xs} a) = parse_from-word (xs ++ rest) ∙ parse_from-Args rest a
parse_from-Args rest (redirect {r = r} {ts = xs} h a) =
    parse_from-redirect r (xs ++ rest) h ∙ parse_from-Args rest a

parse_from-command : (ts : Types) → parse_from true (TokenType.word ∷ ts) ≡ parse_from false ts
unfolding parse_from
parse_from-command ts = refl

parse_from-next :
    (s : TokenType) (rest : Types)
    → is_separator s ≡ true
    → parse_from true rest ≡ true
    → parse_from false (s ∷ rest) ≡ true
parse_from-next s [] h p = unfold parse_from in cc
parse_from-next s (t ∷ ts) h p = parse_from-separator s t ts h ∙ p

parse_from-end : parse_from false [] ≡ true
unfolding parse_from
parse_from-end = refl

parse_from-amp : parse_from false (TokenType.op_amp ∷ []) ≡ true
unfolding parse_from
parse_from-amp = refl

Line-complete : {ts : Types} → Line ts → parse_from true ts ≡ true
Line-complete (last {xs = xs} a) =
    parse_from-command xs ∙ rw (← append-nil xs) (parse_from-Args [] a ∙ parse_from-end)
Line-complete (background {xs = xs} a e) = rw e (
    parse_from-command (xs ++ TokenType.op_amp ∷ [])
    ∙ parse_from-Args (TokenType.op_amp ∷ []) a
    ∙ parse_from-amp)
Line-complete (next s {xs = xs} {rest = rest} a h l e) = rw e (
    parse_from-command (xs ++ s ∷ rest)
    ∙ parse_from-Args (s ∷ rest) a
    ∙ parse_from-next s rest h (Line-complete l))

parse_types_iff : (ts : Types) → (parse_types ts ≡ true) ↔ IsCommandLine ts
unfolding parse_types
parse_types_iff [] = ((λ _. inl refl), (λ _. refl))
parse_types_iff (t ∷ ts) =
    ((λ h. inr (parse_from_sound true (t ∷ ts) h)), elim [ inl e ↦ cc | inr l ↦ Line-complete l ])

-- A token list is accepted exactly if it is empty, or is commands with a separator between each two
-- and possibly an `&` behind the last, where a command is a word and then words and redirections,
-- each redirection with a word behind it.
pub parse_tokens_iff :
    (tokens : TokenList)
    → (parse_tokens tokens ≡ true) ↔ IsCommandLine (map (λ k. k.type) tokens.items)
unfolding parse_tokens
parse_tokens_iff tokens = parse_types_iff (map (λ k. k.type) tokens.items)
