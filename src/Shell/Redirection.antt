-- ===== src/Shell/Redirection.antt =====
-- c-shell/src/redirection.c: `collect_command`, and has_pipe and has_redirect of d1d2.c. What `open`,
-- join_inputs and `fdopen` answer are arguments; a descriptor that is closed is in the result.
pub mod Arguments
mod Tests
use mp.Prelude.{ℕ, Bool, true, false, ◌||◌, Option, none, some, List, [], ◌∷◌, ◌++◌, if◌then◌else◌}
use mp.Shell.Token.{TokenType, Token, is_word}
use mp.Shell.Parser.{is_redirection}

abbrev pub is_pipe : TokenType → Bool
is_pipe TokenType.op_pipe = true
is_pipe _ = false

abbrev pub is_input : TokenType → Bool
is_input TokenType.op_lt = true
is_input _ = false

unfoldable pub has_pipe : List Token → Bool
has_pipe [] = false
has_pipe (k ∷ ks) = is_pipe k.type || has_pipe ks

unfoldable pub has_redirect : List Token → Bool
unfolding is_redirection
has_redirect [] = false
has_redirect (k ∷ ks) = is_redirection k.type || has_redirect ks

-- -2 and -1, with what is closed; or the arguments and the descriptor of the input.
pub data Collected : Type 0 where
  invalid failed : Option ℕ → Collected
  collected : List (List ℕ) → Option ℕ → Collected

module _ (open_file : List ℕ → Option ℕ) (join_inputs : ℕ → ℕ → Option ℕ)
    (can_stream : ℕ → Bool) where
  abbrev pub finish_command : List (List ℕ) → Option ℕ → Collected
  finish_command args none = Collected.collected args none
  finish_command args (some fd) =
      if can_stream fd then Collected.collected args (some fd) else Collected.failed (some fd)

  -- The input behind one more file; `none` where there is none, which ends the command.
  abbrev pub joined : Option ℕ → ℕ → Option ℕ
  joined none fd = some fd
  joined (some input) fd = join_inputs input fd

  abbrev pub goes_on : (Option ℕ → Collected) → Option ℕ → Collected
  goes_on next none = Collected.failed none
  goes_on next (some fd) = next (some fd)

  abbrev pub with_input : (Option ℕ → Collected) → Option ℕ → Option ℕ → Collected
  with_input next input none = Collected.failed input
  with_input next input (some fd) = goes_on next (joined input fd)

  -- The loop, with the arguments and the input so far.
  unfoldable pub collect : List (List ℕ) → Option ℕ → List Token → Collected
  unfolding is_redirection
  collect args input [] = finish_command args input
  collect args input (k ∷ []) =
      if is_word k.type
      then finish_command (args ++ k.text ∷ []) input
      else if is_redirection k.type
      then Collected.invalid input
      else finish_command args input
  collect args input (k ∷ l ∷ ks) =
      let as_word = collect (args ++ k.text ∷ []) input (l ∷ ks) in
      let past_file = collect args input ks in
      let as_input = with_input (λ fd. collect args fd ks) input (open_file l.text) in
      let past = collect args input (l ∷ ks) in
      if is_word k.type
      then as_word
      else if is_redirection k.type
      then (if is_word l.type
          then (if is_input k.type then as_input else past_file)
          else Collected.invalid input)
      else past

  unfoldable pub collect_command : List Token → Collected
  unfolding collect
  collect_command tokens = collect [] none tokens
