-- ===== src/Shell/Redirection/Arguments.antt =====
-- What `collect_command` makes of a command that the check of the line has accepted.
use mathlib.Core.List.{append_assoc, append-nil}
use mp.Prelude.{
  ℕ, Bool, true, false, not, ◌&&◌, Option, none, some, List, [], ◌∷◌, ◌++◌, ◌≡◌, ◌∙◌, inl, inr,
  refl, sym, map, if◌then◌else◌, Bool-cases,
}
use mp.Shell.Token.{TokenType, Token, TokenList, is_word}
use mp.Shell.Parser.{is_redirection, is_separator, parse_from, parse_types, parse_tokens}
use mp.Shell.Redirection.{
  is_input, Collected, finish_command, joined, goes_on, with_input, collect, collect_command,
}

-- The texts of the words that are behind no redirection; `skip` says that the token before was one.
unfoldable pub arguments : Bool → List Token → List (List ℕ)
unfolding is_redirection
arguments skip [] = []
arguments skip (k ∷ ks) =
    let rest = arguments (is_redirection k.type) ks in
    if not skip && is_word k.type then k.text ∷ rest else rest

-- The result is not -2, and where it is 0, it has these arguments.
abbrev pub Gives : List (List ℕ) → Collected → Type 0
Gives args (Collected.invalid fd) = ⊥
Gives args (Collected.failed fd) = Unit {0}
Gives args (Collected.collected found fd) = found ≡ args

abbrev types : List Token → List TokenType
types ks = map (λ k. k.type) ks

word-plain : (t : TokenType) → is_word t ≡ true → is_redirection t ≡ false
unfolding is_redirection
word-plain TokenType.word e = refl
word-plain TokenType.op_pipe e = cc
word-plain TokenType.op_amp e = cc
word-plain TokenType.op_semi e = cc
word-plain TokenType.op_lt e = cc
word-plain TokenType.op_gt e = cc
word-plain TokenType.op_gtgt e = cc

-- The check reads a token that is no word only where it wants no command.
want-word :
    (want : Bool) (t : TokenType) (ts : List TokenType)
    → is_word t ≡ true
    → parse_from want (t ∷ ts) ≡ parse_from false ts
unfolding parse_from
want-word true t ts e = rw (e, parse_from) refl
want-word false t [] e = rw (e, parse_from) refl
want-word false t (u ∷ ts) e = rw (e, parse_from) refl

want-redirection :
    (want : Bool) (t u : TokenType) (ts : List TokenType)
    → is_word t ≡ false
    → is_redirection t ≡ true
    → parse_from want (t ∷ u ∷ ts) ≡ true
    → (is_word u ≡ true) × (parse_from false ts ≡ true)
unfolding parse_from
want-redirection true t u ts e f h = absurd (let g : false ≡ true = rw (e, parse_from) at h in cc)
want-redirection false t u ts e f h = elim (Bool-cases (is_word u)) [
  | inl w ↦ (w, rw (e, f, w, parse_from) at h)
  | inr w ↦ absurd (let g : false ≡ true = rw (e, f, w, parse_from) at h in cc)
]

want-last :
    (want : Bool) (t : TokenType)
    → is_word t ≡ false
    → is_redirection t ≡ true
    → parse_from want (t ∷ []) ≡ false
unfolding parse_from
want-last true t e f = rw (e, parse_from) refl
want-last false t e f = rw (e, f, parse_from) refl

want-separator :
    (want : Bool) (t u : TokenType) (ts : List TokenType)
    → is_word t ≡ false
    → is_redirection t ≡ false
    → parse_from want (t ∷ u ∷ ts) ≡ true
    → parse_from true (u ∷ ts) ≡ true
unfolding parse_from
want-separator true t u ts e f h = absurd (let g : false ≡ true = rw (e, parse_from) at h in cc)
want-separator false t u ts e f h = elim (Bool-cases (is_separator t)) [
  | inl w ↦ rw (e, f, w, parse_from) at h
  | inr w ↦ absurd (let g : false ≡ true = rw (e, f, w, parse_from) at h in cc)
]

module _ (open_file : List ℕ → Option ℕ) (join_inputs : ℕ → ℕ → Option ℕ)
    (can_stream : ℕ → Bool) where
  finish-Gives :
      (args : List (List ℕ)) (input : Option ℕ)
      → Gives args (finish_command open_file join_inputs can_stream args input)
  finish-Gives args none = refl
  finish-Gives args (some fd) = elim (Bool-cases (can_stream fd)) [
    | inl e ↦ rw e refl
    | inr e ↦ rw e tt
  ]

  goes_on-Gives :
      (args : List (List ℕ)) (next : Option ℕ → Collected)
      → ((fd : Option ℕ) → Gives args (next fd))
      → (fd : Option ℕ) → Gives args (goes_on open_file join_inputs can_stream next fd)
  goes_on-Gives args next h none = tt
  goes_on-Gives args next h (some fd) = h (some fd)

  with_input-Gives :
      (args : List (List ℕ)) (next : Option ℕ → Collected)
      → ((fd : Option ℕ) → Gives args (next fd))
      → (input fd : Option ℕ)
      → Gives args (with_input open_file join_inputs can_stream next input fd)
  with_input-Gives args next h input none = tt
  with_input-Gives args next h input (some fd) =
      goes_on-Gives args next h (joined open_file join_inputs can_stream input fd)

  collect-Gives :
      (want : Bool) (args : List (List ℕ)) (input : Option ℕ) (ks : List Token)
      → parse_from want (types ks) ≡ true
      → Gives (args ++ arguments false ks) (collect open_file join_inputs can_stream args input ks)
  unfolding collect arguments
  collect-Gives want args input [] h = rw (append-nil args) (finish-Gives args input)
  collect-Gives want args input (k ∷ []) h = elim (Bool-cases (is_word k.type)) [
    | inl e ↦ rw e (finish-Gives (args ++ k.text ∷ []) input)
    | inr e ↦ elim (Bool-cases (is_redirection k.type)) [
      | inl f ↦ absurd (let g = want-last want k.type e f in cc)
      | inr f ↦ rw (e, f, append-nil args) (finish-Gives args input)
    ]
  ]
  collect-Gives want args input (k ∷ l ∷ ks) h = elim (Bool-cases (is_word k.type)) [
    | inl e ↦
        let f : is_redirection k.type ≡ false = word-plain k.type e in
        let ih =
          collect-Gives false (args ++ k.text ∷ []) input (l ∷ ks)
            (sym (want-word want k.type (types (l ∷ ks)) e) ∙ h) in
        rw (e, f, ← append_assoc args (k.text ∷ []) (arguments false (l ∷ ks))) ih
    | inr e ↦ elim (Bool-cases (is_redirection k.type)) [
      | inl f ↦
          let (w, p) = want-redirection want k.type l.type (types ks) e f h in
          let g : is_redirection l.type ≡ false = word-plain l.type w in
          elim (Bool-cases (is_input k.type)) [
            | inl i ↦
                rw (e, f, w, g, i)
                  (with_input-Gives (args ++ arguments false ks)
                    (λ fd. collect open_file join_inputs can_stream args fd ks)
                    (λ fd. collect-Gives false args fd ks p) input (open_file l.text))
            | inr i ↦ rw (e, f, w, g, i) (collect-Gives false args input ks p)
          ]
      | inr f ↦
          rw (e, f)
            (collect-Gives true args input (l ∷ ks)
              (want-separator want k.type l.type (types ks) e f h))
    ]
  ]

  accepted :
      (ks : List Token)
      → parse_types (types ks) ≡ true
      → Gives (arguments false ks) (collect open_file join_inputs can_stream [] none ks)
  unfolding parse_types
  accepted [] h = collect-Gives false [] none [] refl
  accepted (k ∷ ks) h = collect-Gives true [] none (k ∷ ks) h

  -- Whatever opening, joining and streaming the files answers: on tokens that the check of the line accepts,
  -- collect_command never returns -2, and where it returns 0, the arguments are the texts of the words
  -- that stand behind no redirection, in order.
  pub collect_command-Gives :
      (tokens : TokenList)
      → parse_tokens tokens ≡ true
      → Gives
          (arguments false tokens.items)
          (collect_command open_file join_inputs can_stream tokens.items)
  unfolding parse_tokens parse_types collect_command
  collect_command-Gives tokens h = accepted tokens.items h
