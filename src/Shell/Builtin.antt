-- ===== src/Shell/Builtin.antt =====
-- What the builtins of c-shell share: the test of the first token, and strcmp, strstr and strchr on strings.
use mp.Prelude.{
  ℕ, Bool, true, false, ◌&&◌, Option, none, some, List, [], ◌∷◌, ◌==◌, ltb, if◌then◌else◌,
}
use mp.Shell.Token.{Token, is_word}

-- `strcmp(s, t) == 0`.
unfoldable pub same_text : List ℕ → List ℕ → Bool
same_text [] [] = true
same_text [] (d ∷ t) = false
same_text (c ∷ s) [] = false
same_text (c ∷ s) (d ∷ t) = let rest = same_text s t in if c == d then rest else false

-- `strcmp(s, t) < 0`.
unfoldable pub text_before : List ℕ → List ℕ → Bool
text_before s [] = false
text_before [] (d ∷ t) = true
text_before (c ∷ s) (d ∷ t) = let rest = text_before s t in if c == d then rest else ltb c d

unfoldable pub starts_with : List ℕ → List ℕ → Bool
starts_with [] t = true
starts_with (c ∷ s) [] = false
starts_with (c ∷ s) (d ∷ t) = let rest = starts_with s t in if c == d then rest else false

-- `strstr(text, name) != NULL`.
unfoldable pub has_text : List ℕ → List ℕ → Bool
unfolding starts_with
has_text name [] = starts_with name []
has_text name (c ∷ text) =
    let rest = has_text name text in if starts_with name (c ∷ text) then true else rest

-- What is before the first `c` and what is behind it.
abbrev pub past : ℕ → Option (List ℕ × List ℕ) → Option (List ℕ × List ℕ)
past d none = none
past d (some (before, after)) = some (d ∷ before, after)

unfoldable pub split_at : ℕ → List ℕ → Option (List ℕ × List ℕ)
split_at c [] = none
split_at c (d ∷ text) =
    let rest = split_at c text in if d == c then some ([], text) else past d rest

-- The arguments, where the first token is the word `name`.
unfoldable pub arguments_of : List ℕ → List Token → Option (List Token)
unfolding same_text
arguments_of name [] = none
arguments_of name (k ∷ ks) = if is_word k.type && same_text k.text name then some ks else none
