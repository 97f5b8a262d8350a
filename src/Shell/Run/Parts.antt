-- ===== src/Shell/Run/Parts.antt =====
-- d1d2.c: the loop of run_tokens, on a line that the check accepts.
use mathlib.Core.List.{append_assoc, append-nil}
use mp.Prelude.{
  Bool, true, false, List, [], ◌∷◌, ◌++◌, map, ◌≡◌, ◌⊎◌, inl, inr, refl, ap, subst, Bool-cases,
}
use mp.Shell.Token.{TokenType, Token, TokenList, is_word}
use mp.Shell.Parser.{parse_from, parse_types, parse_tokens}
use mp.Shell.Run.{ends_part, run_part, run_from, run_tokens}
use mp.Shell.Run.Line.{IsCommand, IsCommand-snoc, Runs}
use mp.Shell.Run.Checked.{
  is_word-word, ends_part-cases, word-ends_part, parse_from-Continues, parse_from-command,
}

-- What the check knows about the part being read: it is a command where one has been read, and there may
-- be nothing of it where one is to follow.
abbrev Reading : Bool → List Token → Type 0
Reading true cur = (cur ≡ []) ⊎ IsCommand cur
Reading false cur = IsCommand cur

IsCommand-start :
    (cur : List Token) (k : Token)
    → Reading true cur
    → is_word k.type ≡ true
    → IsCommand (cur ++ k ∷ [])
IsCommand-start [] k r h = (is_word-word k.type h, tt)
IsCommand-start (l ∷ cur) k (inl e) h = absurd cc
IsCommand-start (l ∷ cur) k (inr r) h = IsCommand-snoc (l ∷ cur) k r (word-ends_part k.type h)

abbrev types : List Token → List TokenType
types ks = map (λ k. k.type) ks

module _ {S : Type 0} (runcomm : List Token → S → S × Bool) (runbuff : List Token → S → S) where
  -- The loop from `ks` on does what the line of `cur` and `ks` does.
  abbrev Follows : List Token → List Token → S → Type 0
  Follows cur ks s = Runs runcomm runbuff (cur ++ ks) s (run_from runcomm runbuff cur ks s)

  last-run :
      (c : Token) (cur : List Token) (s : S)
      → run_from runcomm runbuff (c ∷ cur) [] s ≡ (runcomm (c ∷ cur) s).0
  unfolding run_from run_part
  last-run c cur s = elim (Bool-cases (runcomm (c ∷ cur) s).1) [
    | inl f ↦ rw (run_from, f) refl
    | inr f ↦ rw (run_from, f) refl
  ]

  end-Follows : (cur : List Token) (s : S) → IsCommand cur → Follows cur [] s
  end-Follows [] s h = absurd h
  end-Follows (c ∷ cur) s h =
      rw (append-nil (c ∷ cur), last-run c cur s)
        (Runs.last (c ∷ cur) s (runcomm (c ∷ cur) s).0 (runcomm (c ∷ cur) s).1 h refl)

  inner-Follows :
      (cur : List Token) (k : Token) (ks : List Token) (s : S)
      → ends_part k.type ≡ false
      → Follows (cur ++ k ∷ []) ks s
      → Follows cur (k ∷ ks) s
  unfolding run_from
  inner-Follows cur k ks s e h = rw e (
      subst (λ l. Runs runcomm runbuff l s (run_from runcomm runbuff (cur ++ k ∷ []) ks s))
        (append_assoc cur (k ∷ []) ks) h)

  failed-run :
      (c : Token) (cur : List Token) (k : Token) (ks : List Token) (s : S)
      → k.type ≡ TokenType.op_semi
      → (runcomm (c ∷ cur) s).1 ≡ true
      → run_from runcomm runbuff (c ∷ cur) (k ∷ ks) s ≡ (runcomm (c ∷ cur) s).0
  unfolding run_from run_part ends_part
  failed-run c cur k ks s e f = rw (e, f) refl

  semi-run :
      (c : Token) (cur : List Token) (k : Token) (ks : List Token) (s : S)
      → k.type ≡ TokenType.op_semi
      → (runcomm (c ∷ cur) s).1 ≡ false
      → run_from runcomm runbuff (c ∷ cur) (k ∷ ks) s
        ≡ run_from runcomm runbuff [] ks (runcomm (c ∷ cur) s).0
  unfolding run_from run_part ends_part
  semi-run c cur k ks s e f = rw (e, f) refl

  amp-run :
      (c : Token) (cur : List Token) (k : Token) (ks : List Token) (s : S)
      → k.type ≡ TokenType.op_amp
      → run_from runcomm runbuff (c ∷ cur) (k ∷ ks) s
        ≡ run_from runcomm runbuff [] ks (runbuff (c ∷ cur) s)
  unfolding run_from run_part ends_part
  amp-run c cur k ks s e = rw e refl

  semi-Follows :
      (cur : List Token) (k : Token) (ks : List Token) (s : S)
      → IsCommand cur
      → k.type ≡ TokenType.op_semi
      → ((t : S) → Follows [] ks t)
      → Follows cur (k ∷ ks) s
  semi-Follows [] k ks s h e rest = absurd h
  semi-Follows (c ∷ cur) k ks s h e rest =
      let t = (runcomm (c ∷ cur) s).0 in
      elim (Bool-cases (runcomm (c ∷ cur) s).1) [
        | inl f ↦
            rw (failed-run c cur k ks s e f)
              (Runs.fails ((c ∷ cur) ++ k ∷ ks) (c ∷ cur) ks k s t refl h e (ap (λ b. (t, b)) f))
        | inr f ↦ rw (semi-run c cur k ks s e f) (
            Runs.goes_on ((c ∷ cur) ++ k ∷ ks) (c ∷ cur) ks k s t (run_from runcomm runbuff [] ks t)
              refl h e (ap (λ b. (t, b)) f) (rest t))
      ]

  amp-Follows :
      (cur : List Token) (k : Token) (ks : List Token) (s : S)
      → IsCommand cur
      → k.type ≡ TokenType.op_amp
      → ((t : S) → Follows [] ks t)
      → Follows cur (k ∷ ks) s
  amp-Follows [] k ks s h e rest = absurd h
  amp-Follows (c ∷ cur) k ks s h e rest = rw (amp-run c cur k ks s e) (
      Runs.in_background ((c ∷ cur) ++ k ∷ ks) (c ∷ cur) ks k s
        (run_from runcomm runbuff [] ks (runbuff (c ∷ cur) s)) refl h e
        (rest (runbuff (c ∷ cur) s)))

  ended-Follows :
      (cur : List Token) (k : Token) (ks : List Token) (s : S)
      → IsCommand cur
      → ends_part k.type ≡ true
      → ((t : S) → Follows [] ks t)
      → Follows cur (k ∷ ks) s
  ended-Follows cur k ks s h e rest = elim (ends_part-cases k.type e) [
    | inl f ↦ semi-Follows cur k ks s h f rest
    | inr f ↦ amp-Follows cur k ks s h f rest
  ]

  nothing-Follows : (s : S) → Follows [] [] s
  unfolding run_from
  nothing-Follows s = Runs.nothing s

  run_from-Follows :
      (want : Bool) (cur ks : List Token) (s : S)
      → Reading want cur
      → parse_from want (types ks) ≡ true
      → Follows cur ks s
  run_from-Follows true cur [] s r h = absurd (unfold parse_from in cc)
  run_from-Follows false cur [] s r h = end-Follows cur s r
  run_from-Follows true cur (k ∷ ks) s r h =
      let (w, h') = parse_from-command k.type (types ks) h in
      inner-Follows cur k ks s (word-ends_part k.type w)
        (run_from-Follows false (cur ++ k ∷ []) ks s (IsCommand-start cur k r w) h')
  run_from-Follows false cur (k ∷ []) s r h = elim (Bool-cases (ends_part k.type)) [
    | inl e ↦ ended-Follows cur k [] s r e nothing-Follows
    | inr e ↦ inner-Follows cur k [] s e (end-Follows (cur ++ k ∷ []) s (IsCommand-snoc cur k r e))
  ]
  run_from-Follows false cur (k ∷ l ∷ ks) s r h =
      elim (parse_from-Continues k.type l.type (types ks) h) [
        | inl (e, g) ↦
            inner-Follows cur k (l ∷ ks) s e
              (run_from-Follows false (cur ++ k ∷ []) (l ∷ ks) s (IsCommand-snoc cur k r e) g)
        | inr (inl (e, w, g)) ↦
            let some_more = IsCommand-snoc cur k r e in
            let no_end = word-ends_part l.type w in
            inner-Follows cur k (l ∷ ks) s e (
              inner-Follows (cur ++ k ∷ []) l ks s no_end (
                run_from-Follows false ((cur ++ k ∷ []) ++ l ∷ []) ks s
                  (IsCommand-snoc (cur ++ k ∷ []) l some_more no_end) g))
        | inr (inr (inl (e, g))) ↦
            inner-Follows cur k (l ∷ ks) s e
              (run_from-Follows true (cur ++ k ∷ []) (l ∷ ks) s (inr (IsCommand-snoc cur k r e)) g)
        | inr (inr (inr (e, g))) ↦
            ended-Follows cur k (l ∷ ks) s r e
              (λ t. run_from-Follows true [] (l ∷ ks) t (inl refl) g)
      ]

  accepted-Follows : (ks : List Token) (s : S) → parse_types (types ks) ≡ true → Follows [] ks s
  unfolding parse_types
  accepted-Follows [] s h = nothing-Follows s
  accepted-Follows (k ∷ ks) s h = run_from-Follows true [] (k ∷ ks) s (inl refl) h

-- Running the tokens of a line that the check accepts does to the shell what the line says, whatever the
-- commands do: the line is a sequence of commands, each of which starts with a word and goes up to the next
-- `;` or `&` or to the end, and they run in their order. One with an `&` behind it runs by `runbuff`, any
-- other by `runcomm`; where `runcomm` fails, nothing of the line behind it runs.
pub run_tokens-Runs :
    {S : Type 0} (runcomm : List Token → S → S × Bool) (runbuff : List Token → S → S)
    (tokens : TokenList) (s : S)
    → parse_tokens tokens ≡ true
    → Runs runcomm runbuff tokens.items s (run_tokens runcomm runbuff tokens s)
unfolding run_tokens parse_tokens
run_tokens-Runs runcomm runbuff tokens s h = accepted-Follows runcomm runbuff tokens.items s h
