-- ===== src/Shell/Lexer/Quoting.antt =====
-- When the lexer refuses a line: with memory granted, exactly where a quote or an escape is left open.
use mp.Prelude.{ℕ, none, List, [], ◌∷◌, ◌≡◌, ◌≢◌, ◌↔◌, inl, inr, refl, arith, ◌==◌, if◌then◌else◌}
use mp.Shell.Token.{Token, TokenList}
use mp.Shell.Lexer.{Lexer, Result, Mode, lex_line}
use mp.Shell.Lexer.Reference.{View, step, stop, run, start, tokens_of}
use mp.Shell.Lexer.Refinement.{always, LexOutcome, lex_line-refines}

-- What is open at a place of a line: nothing, a backslash, single quotes, double quotes, or a
-- backslash in these.
pub data Open : Type 0 where
  nothing backslash single_quote double_quote double_backslash : Open

unfoldable pub open_next : Open → ℕ → Open
open_next Open.nothing c =
    if c == b'\\'
    then Open.backslash
    else if c == b'\''
    then Open.single_quote
    else if c == b'"'
    then Open.double_quote
    else Open.nothing
open_next Open.backslash c = Open.nothing
open_next Open.single_quote c = if c == b'\'' then Open.nothing else Open.single_quote
open_next Open.double_quote c =
    if c == b'"'
    then Open.nothing
    else if c == b'\\'
    then Open.double_backslash
    else Open.double_quote
open_next Open.double_backslash c = Open.double_quote

unfoldable pub open_at_end : Open → List ℕ → Open
unfolding open_next
open_at_end o [] = o
open_at_end o (c ∷ cs) = open_at_end (open_next o c) cs

abbrev open_in : Mode → Open
open_in Mode.outer = Open.nothing
open_in Mode.after_gt = Open.nothing
open_in Mode.escaped = Open.backslash
open_in Mode.single = Open.single_quote
open_in Mode.double = Open.double_quote
open_in Mode.double_escaped = Open.double_backslash

open_in-step :
    (mode : Mode) (c : ℕ) (v : View) → open_in (step mode c v).0 ≡ open_next (open_in mode) c
unfolding step open_next
open_in-step Mode.outer c v = ground arith
open_in-step _ c v = ground arith

stop-none : (mode : Mode) (v : View) → (stop mode v ≡ none) ↔ (open_in mode ≢ Open.nothing)
unfolding stop
stop-none Mode.outer v = ((λ e. cc), (λ h. absurd (h refl)))
stop-none Mode.after_gt v = ((λ e. cc), (λ h. absurd (h refl)))
stop-none Mode.escaped v = ((λ e h. cc), (λ h. refl))
stop-none Mode.single v = ((λ e h. cc), (λ h. refl))
stop-none Mode.double v = ((λ e h. cc), (λ h. refl))
stop-none Mode.double_escaped v = ((λ e h. cc), (λ h. refl))

run-none :
    (cs : List ℕ) (mode : Mode) (v : View)
    → (run mode cs v ≡ none) ↔ (open_at_end (open_in mode) cs ≢ Open.nothing)
unfolding run open_at_end
run-none [] mode v = stop-none mode v
run-none (c ∷ cs) mode v =
    rw (← open_in-step mode c v) (run-none cs (step mode c v).0 (step mode c v).1)

tokens_of-none :
    (items : List Token) (line : List ℕ)
    → (tokens_of items line ≡ none) ↔ (open_at_end Open.nothing line ≢ Open.nothing)
unfolding tokens_of
tokens_of-none items line =
    let (to, from) = run-none line Mode.outer (start items) in
    ((λ e. to (ground arith)), (λ h. rw (from h)))

outcome-fails :
    (line : List ℕ) (tokens : TokenList) (r : Result (Unit {0}))
    → LexOutcome always line tokens r
    → ((t : Lexer) × (r ≡ Result.failed t)) ↔ (open_at_end Open.nothing line ≢ Open.nothing)
outcome-fails line tokens (Result.ok a s) h =
    ((λ f. cc (f.1)), λ o. cc (h, (tokens_of-none tokens.items line).1 o))
outcome-fails line tokens (Result.failed s) (inl e) =
    ((λ _. (tokens_of-none tokens.items line).0 e), (λ _. (s, refl)))
outcome-fails line tokens (Result.failed s) (inr (n, d)) = cc

-- With every request for memory granted, `lex_line` returns -1 exactly for the lines that leave
-- something open: a backslash with nothing behind it, single quotes, or double quotes.
pub lex_line-fails :
    (line : List ℕ) (tokens : TokenList)
    → ((t : Lexer) × (lex_line always line tokens ≡ Result.failed t))
      ↔ (open_at_end Open.nothing line ≢ Open.nothing)
lex_line-fails line tokens =
    outcome-fails line tokens (lex_line always line tokens) (lex_line-refines always line tokens)
