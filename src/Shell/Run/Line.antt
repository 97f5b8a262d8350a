-- ===== src/Shell/Run/Line.antt =====
-- d1d2.c: what a line of commands does, as a relation on its tokens.
use mp.Prelude.{Bool, true, false, List, [], ◌∷◌, ◌++◌, ◌≡◌, ◌≢◌, ap}
use mp.Shell.Token.{TokenType, Token}
use mp.Shell.Run.{ends_part}

abbrev pub NoEnds : List Token → Type 0
NoEnds [] = Unit {0}
NoEnds (k ∷ ks) = (k.type ≢ TokenType.op_semi) × (k.type ≢ TokenType.op_amp) × NoEnds ks

-- A word, and what is behind it up to a `;` or an `&`.
abbrev pub IsCommand : List Token → Type 0
IsCommand [] = ⊥
IsCommand (k ∷ ks) = (k.type ≡ TokenType.word) × NoEnds ks

module _ {S : Type 0} (runcomm : List Token → S → S × Bool) (runbuff : List Token → S → S) where
  -- What a line does to the shell. A command with a `;` behind it, or with nothing, runs in the foreground by
  -- `runcomm`, whose flag says that it failed; one with an `&` behind it runs by `runbuff`.
  pub data Runs : List Token → S → S → Type 0 where
    nothing : (s : S) → Runs [] s s
    last :
        (cmd : List Token) (s t : S) (failed : Bool)
        → IsCommand cmd
        → runcomm cmd s ≡ (t, failed)
        → Runs cmd s t
    fails :
        (line cmd rest : List Token) (k : Token) (s t : S)
        → line ≡ cmd ++ k ∷ rest
        → IsCommand cmd
        → k.type ≡ TokenType.op_semi
        → runcomm cmd s ≡ (t, true)
        → Runs line s t
    goes_on :
        (line cmd rest : List Token) (k : Token) (s t u : S)
        → line ≡ cmd ++ k ∷ rest
        → IsCommand cmd
        → k.type ≡ TokenType.op_semi
        → runcomm cmd s ≡ (t, false)
        → Runs rest t u
        → Runs line s u
    in_background :
        (line cmd rest : List Token) (k : Token) (s u : S)
        → line ≡ cmd ++ k ∷ rest
        → IsCommand cmd
        → k.type ≡ TokenType.op_amp
        → Runs rest (runbuff cmd s) u
        → Runs line s u

NoEnds-snoc :
    (ks : List Token) (k : Token)
    → NoEnds ks
    → k.type ≢ TokenType.op_semi
    → k.type ≢ TokenType.op_amp
    → NoEnds (ks ++ k ∷ [])
NoEnds-snoc [] k h e f = (e, f, tt)
NoEnds-snoc (l ∷ ks) k (a, b, h) e f = (a, b, NoEnds-snoc ks k h e f)

pub IsCommand-snoc :
    (cur : List Token) (k : Token)
    → IsCommand cur
    → ends_part k.type ≡ false
    → IsCommand (cur ++ k ∷ [])
unfolding ends_part
IsCommand-snoc [] k h e = absurd h
IsCommand-snoc (l ∷ cur) k (w, h) e =
    (w, NoEnds-snoc cur k h (λ f. let g = ap ends_part f in cc) (λ f. let g = ap ends_part f in cc))
