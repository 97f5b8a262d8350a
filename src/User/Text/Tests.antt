-- ===== src/User/Text/Tests.antt =====
-- The theorems on numbers at concrete inputs.
use mathlib.Core.Option
use mp.Prelude.{ℕ, true, Option, none, some, List, [], ◌∷◌, ◌≡◌, refl, arith}
use mp.User.Text.{printint, atoi}
use mp.User.Text.Numbers.{atoi-printint}

abbrev minus_seven : Option (List ℕ)
minus_seven = some (b'-' ∷ b'7' ∷ [])

prints_sign : printint 18446744073709551609 10 true ≡ minus_seven
unfolding printint
prints_sign = refl

atoi-printint_example : Option.bind (printint 4096 10 true) atoi ≡ some 4096
atoi-printint_example = atoi-printint 4096 true (omega arith)

-- The largest `int` is one of the numbers at which the sum overflows.
overflows : Option.bind (printint 2147483647 10 true) atoi ≡ none
unfolding printint atoi Option.bind
overflows = refl
