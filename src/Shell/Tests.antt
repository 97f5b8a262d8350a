-- ===== src/Shell/Tests.antt =====
-- The theorems of the shell's parts at concrete inputs, and runs of the definitions.
use Prim.Native.Char.{code}
use Prim.Native.String.{String}
use mp.Prelude.{
  ℕ, Bool, true, false, none, some, List, [], ◌∷◌, ◌++◌, ◌≡◌, ◌≢◌, ◌↔◌, refl, arith, map, ◌==◌, ◌+◌,
  ◌⊎◌, ◌++◌,
}
use mp.Shell.Token.{TokenType, Token, TokenList}
use mp.Shell.Lexer.{Lexer, Result, lex_line}
use mp.Shell.Lexer.Reference.{tokens_of}
use mp.Shell.Lexer.Refinement.{always, LexOutcome, lex_line-refines}
use mp.Shell.Lexer.Quoting.{Open, open_at_end, lex_line-fails}
use mp.Shell.Lexer.RoundTrip.{print_tokens, lex_line-print_tokens}
use mp.Shell.Lexer.Bounds.{LeavesFit, lex_line-Fits}
use mp.Shell.Parser.{parse_tokens}
use mp.Shell.Parser.Grammar.{IsCommandLine, parse_tokens_iff}
use mp.Shell.Jobs.{Jobs, Status, save_command, find_job}
use mp.Shell.Jobs.Stable.{Event, handle, handle_all, find_job_stable}
use mp.Shell.Jobs.Ends.{ReportsOf, all_ends}
use mp.Shell.Jobs.Noticed.{AllNoticed}
use mp.Shell.Jobs.Reports.{count_done, count_reports, handle_all-done}
use mp.Shell.Run.{run_tokens}
use mp.Shell.Run.Line.{Runs}
use mp.Shell.Run.Parts.{run_tokens-Runs}

-- The bytes of a text, which is ASCII here.
abbrev bytes : String → List ℕ
bytes String.[] = []
bytes (String.◌∷◌ c s) = code c ∷ bytes s

abbrev word : String → Token
word s = record { type = TokenType.word; text = bytes s }

abbrev op : TokenType → String → Token
op t s = record { type = t; text = bytes s }

abbrev empty : TokenList
empty = record { items = []; capacity = 0 }

abbrev script : List Token
script =
    word "echo"
    ∷ word "a \"b\\"
    ∷ word ""
    ∷ op TokenType.op_gtgt ">>"
    ∷ word "out"
    ∷ op TokenType.op_amp "&"
    ∷ []

reads :
    tokens_of [] (bytes "ls -l|wc>>'a b'\"\\\"\\n\"")
    ≡ some (
        word "ls"
        ∷ word "-l"
        ∷ op TokenType.op_pipe "|"
        ∷ word "wc"
        ∷ op TokenType.op_gtgt ">>"
        ∷ word "a b\"\\n"
        ∷ [])
unfolding tokens_of
reads = refl

prints : print_tokens (word "a" ∷ word "\"" ∷ []) ≡ bytes "\"a\" \"\\\"\" "
unfolding print_tokens
prints = refl

lex_line-refines_example :
    LexOutcome always (bytes "a>b") empty (lex_line always (bytes "a>b") empty)
lex_line-refines_example = lex_line-refines always (bytes "a>b") empty

lex_line-fails_example :
    ((t : Lexer) × (lex_line always (bytes "a 'b") empty ≡ Result.failed t))
    ↔ (open_at_end Open.nothing (bytes "a 'b") ≢ Open.nothing)
lex_line-fails_example = lex_line-fails (bytes "a 'b") empty

lex_line-print_tokens_example :
    (t : Lexer) × (lex_line always (print_tokens script) empty ≡ Result.ok tt t)
    × (t.tokens.items ≡ [] ++ script)
lex_line-print_tokens_example =
    lex_line-print_tokens script empty
      ((λ e. cc), ((λ e. cc), ((λ e. cc), ((λ e. refl), ((λ e. cc), ((λ e. refl), tt))))))

lex_line-Fits_example : LeavesFit (lex_line (λ n. false) (bytes "a b") empty)
lex_line-Fits_example = lex_line-Fits (λ n. false) (bytes "a b") empty (omega arith)

parse_tokens_iff_example :
    (parse_tokens (record { items = script; capacity = 8 }) ≡ true)
    ↔ IsCommandLine (map (λ k. k.type) script)
parse_tokens_iff_example = parse_tokens_iff (record { items = script; capacity = 8 })

accepts : parse_tokens (record { items = script; capacity = 8 }) ≡ true
unfolding parse_tokens
accepts = refl

-- One job with a leader that ends while another runs; its group is gone at the second signal.
abbrev history : List Event
history =
    Event.starts (some 7) script
    ∷ Event.stops 8 script
    ∷ Event.starts none script
    ∷ Event.signals (λ n. false) ((7, Status.ended true) ∷ [])
    ∷ Event.signals (λ n. n == 7) []
    ∷ []

saves : save_command script ≡ bytes "echo a \"b\\  >> out &"
unfolding save_command
saves = refl

forgets : find_job 1 (handle_all history []).0 ≡ none
unfolding find_job handle_all
forgets = refl

finds : find_job 2 (handle_all history []).0 ≡ some (1, 8)
unfolding find_job handle_all
finds = refl

abbrev one_job : Jobs
one_job = (handle_all (Event.starts (some 9) script ∷ []) []).0

find_job_stable_example :
    (find_job 1 (handle_all history one_job).0 ≡ none)
    ⊎ (find_job 1 (handle_all history one_job).0 ≡ find_job 1 one_job)
find_job_stable_example = find_job_stable history one_job 1 (unfold handle_all in omega arith)

-- The job with the pid 7.
abbrev is_seven : List ℕ → ℕ → Bool
is_seven name pid = pid == 7

handle_all-done_example :
    (count_done is_seven (handle_all history one_job).0
      ≡ count_done is_seven one_job + count_reports is_seven (handle_all history one_job).1)
    × ReportsOf (handle_all history one_job).1 (all_ends history)
    × AllNoticed
        ((9, Status.ended false) ∷ [])
        (handle_all history one_job).0
        (handle
          (Event.signals (λ n. false) ((9, Status.ended false) ∷ []))
          (handle_all history one_job).0).0
handle_all-done_example =
    handle_all-done is_seven history one_job (λ n. false) ((9, Status.ended false) ∷ [])

abbrev two_parts : TokenList
two_parts = record { items = script ++ word "ls" ∷ word "-l" ∷ []; capacity = 8 }

-- Commands that are kept in the order they are called in.
abbrev note_command : List Token → List (List Token) → List (List Token) × Bool
note_command tokens log = (log ++ tokens ∷ [], false)

abbrev note_background : List Token → List (List Token) → List (List Token)
note_background tokens log = log ++ tokens ∷ []

run_tokens-Runs_example :
    Runs note_command note_background two_parts.items []
      (run_tokens note_command note_background two_parts [])
run_tokens-Runs_example =
    run_tokens-Runs note_command note_background two_parts [] (unfold parse_tokens in refl)

runs_both :
    run_tokens note_command note_background two_parts []
    ≡ (word "echo" ∷ word "a \"b\\" ∷ word "" ∷ op TokenType.op_gtgt ">>" ∷ word "out" ∷ [])
      ∷ (word "ls" ∷ word "-l" ∷ [])
      ∷ []
unfolding run_tokens
runs_both = refl
