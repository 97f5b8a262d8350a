-- ===== src/User/Text.antt =====
-- xv6/user/printf.c: printint, which xv6/kernel/printk.c has as well; xv6/user/ulib.c: atoi. A number of
-- 64 or 32 bits is its bit pattern, and a text is the list of its bytes.
pub mod Numbers
mod Tests
use mp.Prelude.{
  ℕ, zero, suc, ◌+◌, ◌-◌, ◌*◌, ◌/◌, ◌%◌, Bool, true, false, not, ◌&&◌, Option, none, some, List, [],
  ◌∷◌, ltb, leb, ◌==◌, if◌then◌else◌, length,
}

-- `digits[d]`.
abbrev pub digit : ℕ → ℕ
digit d = if ltb d 10 then b'0' + d else b'A' + (d - 10)

-- The loop, at most `n` rounds, with what it has put into `buf` before, the last byte first.
unfoldable pub digits_from : ℕ → ℕ → ℕ → List ℕ → List ℕ
digits_from zero base x buf = buf
digits_from (suc n) base x buf =
    let longer = digit (x % base) ∷ buf in
    let rest = digits_from n base (x / base) longer in if x / base == 0 then longer else rest

-- What is sent; `none` is a write past the end of `buf`. 64 rounds are enough for 64 bits.
unfoldable pub printint : ℕ → ℕ → Bool → Option (List ℕ)
unfolding digits_from
printint xx base sgn =
    let neg = sgn && leb 9223372036854775808 xx in
    let digits = digits_from 64 base (if neg then 18446744073709551616 - xx else xx) [] in
    let text = if neg then b'-' ∷ digits else digits in
    if ltb 20 (length text) then none else some text

-- The loop of `atoi`. The sum is an `int`, and `n * 10 + c` is formed before `'0'` is taken away: `none` where
-- it is too large for an `int`, which is undefined behaviour.
unfoldable pub atoi_from : ℕ → List ℕ → Option ℕ
atoi_from n [] = some n
atoi_from n (c ∷ s) =
    let rest = atoi_from (n * 10 + c - b'0') s in
    if leb b'0' c && leb c b'9'
    then (if leb 2147483648 (n * 10 + c) then none else rest)
    else some n

unfoldable pub atoi : List ℕ → Option ℕ
unfolding atoi_from
atoi s = atoi_from 0 s
