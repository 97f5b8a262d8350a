-- ===== src/User/Text/Numbers.antt =====
-- printf.c and ulib.c: the length of what `printint` sends, and `atoi` on it.
use mathlib.Core.Option
use mp.Prelude.{
  ℕ, zero, suc, ◌+◌, ◌-◌, ◌*◌, ◌/◌, ◌%◌, ◌≤◌, ◌<◌, Bool, true, false, ◌&&◌, some, List, [], ◌∷◌,
  ltb, leb, ◌==◌, ◌≡◌, ◌⊎◌, ◌∙◌, inl, inr, refl, ap, arith, if◌then◌else◌, length, Bool-cases,
}
use mp.User.Text.{digit, digits_from, printint, atoi_from, atoi}

-- The numbers of `n` digits are below this.
abbrev limit : ℕ → ℕ → ℕ
limit base zero = 1
limit base (suc n) = base * limit base n

module _ (base : ℕ) (shrinks : (x l : ℕ) → x < base * l → x / base < l) where
  length-digits_from :
      (k n x : ℕ) (buf : List ℕ)
      → x < limit base (suc k)
      → length (digits_from n base x buf) ≤ length buf + suc k
  unfolding digits_from
  length-digits_from k zero x buf h = omega arith
  length-digits_from zero (suc n) x buf h =
      let s = shrinks x 1 h in let e : (x / base == 0) ≡ true = ground arith in rw e (omega arith)
  length-digits_from (suc k) (suc n) x buf h = elim (Bool-cases (x / base == 0)) [
    | inl e ↦ rw e (omega arith)
    | inr e ↦
        let ih =
          length-digits_from k n (x / base) (digit (x % base) ∷ buf)
            (shrinks x (limit base (suc k)) h) in
        rw e (omega (arith, ih))
  ]

shrinks_ten : (x l : ℕ) → x < 10 * l → x / 10 < l
shrinks_ten x l h = omega arith

shrinks_sixteen : (x l : ℕ) → x < 16 * l → x / 16 < l
shrinks_sixteen x l h = omega arith

-- Twenty digits, or nineteen and a sign.
digits-fit :
    (base x : ℕ) (neg : Bool)
    → (base ≡ 10) ⊎ (base ≡ 16)
    → x < 18446744073709551616
    → (neg ≡ true → x ≤ 9223372036854775808)
    → length (if neg then b'-' ∷ digits_from 64 base x [] else digits_from 64 base x []) ≤ 20
digits-fit base x true (inl e) h g =
    rw e (omega (arith, length-digits_from 10 shrinks_ten 18 64 x [] (omega (arith, g refl))))
digits-fit base x false (inl e) h g =
    rw e (omega (arith, length-digits_from 10 shrinks_ten 19 64 x [] (omega arith)))
digits-fit base x true (inr e) h g =
    rw e (omega (arith, length-digits_from 16 shrinks_sixteen 15 64 x [] (omega arith)))
digits-fit base x false (inr e) h g =
    rw e (omega (arith, length-digits_from 16 shrinks_sixteen 15 64 x [] (omega arith)))

within : (n : ℕ) → n ≤ 20 → ltb 20 n ≡ false
within n h = ground arith

abbrev is_negative : ℕ → Bool → Bool
is_negative xx sgn = sgn && leb 9223372036854775808 xx

abbrev magnitude : ℕ → Bool → ℕ
magnitude xx neg = if neg then 18446744073709551616 - xx else xx

magnitude-below :
    (xx : ℕ) (sgn : Bool)
    → xx < 18446744073709551616
    → (magnitude xx (is_negative xx sgn) < 18446744073709551616)
      × (is_negative xx sgn ≡ true → magnitude xx (is_negative xx sgn) ≤ 9223372036854775808)
magnitude-below xx sgn h = elim (Bool-cases (is_negative xx sgn)) [
  | inl e ↦ rw e (ground arith, (λ f. ground arith))
  | inr e ↦ rw e (h, (λ f. cc))
]

abbrev signed_digits : ℕ → ℕ → Bool → List ℕ
signed_digits base x neg = if neg then b'-' ∷ digits_from 64 base x [] else digits_from 64 base x []

-- The twenty bytes of the buffer of printint are enough for every number of 64 bits, in base 10 and in base
-- 16, with its sign.
pub printint-fits :
    (xx base : ℕ) (sgn : Bool)
    → xx < 18446744073709551616
    → (base ≡ 10) ⊎ (base ≡ 16)
    → (text : List ℕ) × (printint xx base sgn ≡ some text)
unfolding printint
printint-fits xx base sgn h b =
    let (low, abs) = magnitude-below xx sgn h in
    let fit = digits-fit base (magnitude xx (is_negative xx sgn)) (is_negative xx sgn) b low abs in
    let text = signed_digits base (magnitude xx (is_negative xx sgn)) (is_negative xx sgn) in
    (text, rw (within (length text) fit) refl)

atoi_from-digit :
    (n d : ℕ) (s : List ℕ)
    → d < 10
    → n * 10 + d < 2147483600
    → atoi_from n (digit d ∷ s) ≡ atoi_from (n * 10 + d) s
unfolding atoi_from
atoi_from-digit n d s h k =
    let e : ltb d 10 ≡ true = ground arith in
    let f : (leb b'0' (b'0' + d) && leb (b'0' + d) b'9') ≡ true = ground arith in
    let g : leb 2147483648 (n * 10 + (b'0' + d)) ≡ false = ground arith in
    rw (e, f, g) (ap (λ m. atoi_from m s) (omega arith))

atoi_from-digits :
    (n x : ℕ) (s : List ℕ)
    → x < limit 10 (suc n)
    → x < 2147483600
    → atoi_from 0 (digits_from (suc n) 10 x s) ≡ atoi_from x s
unfolding digits_from
atoi_from-digits zero x s h k =
    let e : (x / 10 == 0) ≡ true = ground arith in
    rw e (
      atoi_from-digit 0 (x % 10) s (omega arith) (omega arith)
      ∙ ap (λ m. atoi_from m s) (omega arith))
atoi_from-digits (suc n) x s h k = elim (Bool-cases (x / 10 == 0)) [
  | inl e ↦ rw e (
      atoi_from-digit 0 (x % 10) s (omega arith) (omega arith)
      ∙ ap (λ m. atoi_from m s) (ground arith))
  | inr e ↦ rw e (
      atoi_from-digits n (x / 10) (digit (x % 10) ∷ s) (shrinks_ten x (limit 10 (suc n)) h)
        (omega arith)
      ∙ atoi_from-digit (x / 10) (x % 10) s (omega arith) (omega arith)
      ∙ ap (λ m. atoi_from m s) (omega arith))
]

not_negative : (x : ℕ) (sgn : Bool) → x < 2147483600 → is_negative x sgn ≡ false
not_negative x sgn h = ground arith

printint-plain :
    (x : ℕ) (sgn : Bool) → x < 2147483600 → printint x 10 sgn ≡ some (digits_from 64 10 x [])
unfolding printint
printint-plain x sgn h =
    let plain : is_negative x sgn ≡ false = not_negative x sgn h in
    let fit = digits-fit 10 x false (inl refl) (omega arith) (λ e. cc) in
    rw (plain, within (length (digits_from 64 10 x [])) fit) refl

-- Every number below 2147483600 that is printed in base 10, signed or not, is read back by atoi, which does
-- not overflow. The bound is 2 ^ 31 less the code of the digit 0, which atoi takes away after it has added the
-- digit's code.
pub atoi-printint :
    (x : ℕ) (sgn : Bool) → x < 2147483600 → Option.bind (printint x 10 sgn) atoi ≡ some x
unfolding atoi Option.bind
atoi-printint x sgn h =
    rw (printint-plain x sgn h)
      (atoi_from-digits 63 x [] (omega arith) h ∙ (unfold atoi_from in refl))
