-- ===== src/User/Tests.antt =====
-- The theorems of the programs at concrete inputs, and runs of the definitions.
use mp.Prelude.{ℕ, true, false, List, [], ◌∷◌, ◌++◌, ◌≡◌, ◌↔◌, refl, arith}
use mp.User.Grep.{match, grep}
use mp.User.Grep.Language.{Finds, match_iff}
use mp.User.Grep.Lines.{lines_from, grep_lem}

-- `^a.*c$` and `abbc`.
abbrev pattern : List ℕ
pattern = b'^' ∷ b'a' ∷ b'.' ∷ b'*' ∷ b'c' ∷ b'$' ∷ []

abbrev text : List ℕ
text = b'a' ∷ b'b' ∷ b'b' ∷ b'c' ∷ []

matches : match pattern text ≡ true
unfolding match
matches = refl

not_longer : match pattern (text ++ b'd' ∷ []) ≡ false
unfolding match
not_longer = refl

match_iff_example : (match pattern text ≡ true) ↔ Finds pattern text
match_iff_example = match_iff pattern text

-- Two lines that match around one that does not, read five bytes at a time; the last line has no newline.
abbrev input : List ℕ
input = text ++ 10 ∷ b'b' ∷ 10 ∷ b'a' ∷ b'c' ∷ 10 ∷ b'a' ∷ b'c' ∷ []

abbrev sizes : List ℕ
sizes = 5 ∷ 5 ∷ 5 ∷ 5 ∷ 5 ∷ 5 ∷ 5 ∷ 5 ∷ 5 ∷ 5 ∷ 5 ∷ 5 ∷ []

prints : grep pattern sizes input ≡ text ++ 10 ∷ b'a' ∷ b'c' ∷ 10 ∷ []
unfolding grep
prints = refl

grep_lem_example : grep pattern sizes input ≡ lines_from pattern [] input
grep_lem_example = grep_lem pattern sizes input (ground arith) (ground arith) (omega arith)
