-- ===== src/Shell/Run/Checked.antt =====
-- parser.c and d1d2.c: how the check of the tokens goes on at the ends of the parts of a line.
use mp.Prelude.{true, false, List, ◌∷◌, ◌≡◌, ◌⊎◌, inl, inr, refl, Bool-cases}
use mp.Shell.Token.{TokenType, is_word}
use mp.Shell.Parser.{parse_from}
use mp.Shell.Run.{ends_part}

pub is_word-word : (t : TokenType) → is_word t ≡ true → t ≡ TokenType.word
is_word-word TokenType.word h = refl
is_word-word TokenType.op_pipe h = cc
is_word-word TokenType.op_amp h = cc
is_word-word TokenType.op_semi h = cc
is_word-word TokenType.op_lt h = cc
is_word-word TokenType.op_gt h = cc
is_word-word TokenType.op_gtgt h = cc

pub ends_part-cases :
    (t : TokenType) → ends_part t ≡ true → (t ≡ TokenType.op_semi) ⊎ (t ≡ TokenType.op_amp)
unfolding ends_part
ends_part-cases TokenType.word h = cc
ends_part-cases TokenType.op_pipe h = cc
ends_part-cases TokenType.op_amp h = inr refl
ends_part-cases TokenType.op_semi h = inl refl
ends_part-cases TokenType.op_lt h = cc
ends_part-cases TokenType.op_gt h = cc
ends_part-cases TokenType.op_gtgt h = cc

pub word-ends_part : (t : TokenType) → is_word t ≡ true → ends_part t ≡ false
unfolding ends_part
word-ends_part TokenType.word h = refl
word-ends_part TokenType.op_pipe h = refl
word-ends_part TokenType.op_amp h = cc
word-ends_part TokenType.op_semi h = cc
word-ends_part TokenType.op_lt h = refl
word-ends_part TokenType.op_gt h = refl
word-ends_part TokenType.op_gtgt h = refl

-- How the check goes on behind a token that is not the last.
abbrev pub Continues : TokenType → TokenType → List TokenType → Type 0
Continues t u ts =
    ((ends_part t ≡ false) × (parse_from false (u ∷ ts) ≡ true))
    ⊎ ((ends_part t ≡ false) × (is_word u ≡ true) × (parse_from false ts ≡ true))
    ⊎ ((ends_part t ≡ false) × (parse_from true (u ∷ ts) ≡ true))
    ⊎ ((ends_part t ≡ true) × (parse_from true (u ∷ ts) ≡ true))

pub parse_from-Continues :
    (t u : TokenType) (ts : List TokenType)
    → parse_from false (t ∷ u ∷ ts) ≡ true
    → Continues t u ts
unfolding parse_from ends_part
parse_from-Continues TokenType.word u ts h = inl (refl, h)
parse_from-Continues TokenType.op_pipe u ts h = inr (inr (inl (refl, h)))
parse_from-Continues TokenType.op_amp u ts h = inr (inr (inr (refl, h)))
parse_from-Continues TokenType.op_semi u ts h = inr (inr (inr (refl, h)))
parse_from-Continues TokenType.op_lt u ts h = elim (Bool-cases (is_word u)) [
  | inl e ↦ inr (inl (refl, e, rw (e, parse_from) at h))
  | inr e ↦ absurd (let g = rw (e, parse_from) at h in cc)
]
parse_from-Continues TokenType.op_gt u ts h = elim (Bool-cases (is_word u)) [
  | inl e ↦ inr (inl (refl, e, rw (e, parse_from) at h))
  | inr e ↦ absurd (let g = rw (e, parse_from) at h in cc)
]
parse_from-Continues TokenType.op_gtgt u ts h = elim (Bool-cases (is_word u)) [
  | inl e ↦ inr (inl (refl, e, rw (e, parse_from) at h))
  | inr e ↦ absurd (let g = rw (e, parse_from) at h in cc)
]

pub parse_from-command :
    (t : TokenType) (ts : List TokenType)
    → parse_from true (t ∷ ts) ≡ true
    → (is_word t ≡ true) × (parse_from false ts ≡ true)
unfolding parse_from
parse_from-command t ts h = elim (Bool-cases (is_word t)) [
  | inl e ↦ (e, rw (e, parse_from) at h)
  | inr e ↦ absurd (let g = rw (e, parse_from) at h in cc)
]
