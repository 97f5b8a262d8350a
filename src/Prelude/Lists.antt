-- ===== src/Prelude/Lists.antt =====
-- Lists measured and indexed by native numbers, under the library's names. A table of the kernel is
-- such a list, and a pointer into it is an index.
use Prim.Native.Nat.{ℕ, zero, suc, ◌+◌, ◌≤◌, ◌<◌, min}
use mathlib.Core.Path.{◌≡◌, refl, ap, subst}
use mathlib.Core.Logic.{◌≢◌}
use mathlib.Core.List.{List, [], ◌∷◌, ◌++◌, map}
use mathlib.Core.Option
use mathlib.Core.Option.{Option, none, some}
use native.Mathlib.Omega.{arith}

module _ {ℓ} {A : Type ℓ} where
  abbrev pub length : List A → ℕ
  length [] = 0
  length (x ∷ xs) = suc (length xs)

  abbrev pub get_elem? : List A → ℕ → Option A
  get_elem? [] i = none
  get_elem? (x ∷ xs) zero = some x
  get_elem? (x ∷ xs) (suc i) = get_elem? xs i

  -- Applies a function at one index; out of bounds nothing changes.
  abbrev pub modify : List A → ℕ → (A → A) → List A
  modify [] i f = []
  modify (x ∷ xs) zero f = f x ∷ xs
  modify (x ∷ xs) (suc i) f = x ∷ modify xs i f

  pub length-append : (xs ys : List A) → length (xs ++ ys) ≡ length xs + length ys
  length-append [] ys = omega arith
  length-append (x ∷ xs) ys = omega (arith, length-append xs ys)

  pub length-modify : (xs : List A) (i : ℕ) (f : A → A) → length (modify xs i f) ≡ length xs
  length-modify [] i f = refl
  length-modify (x ∷ xs) zero f = refl
  length-modify (x ∷ xs) (suc i) f = ap suc (length-modify xs i f)

  pub get_elem?-modify_self :
      (xs : List A) (i : ℕ) (f : A → A)
      → get_elem? (modify xs i f) i ≡ Option.map f (get_elem? xs i)
  get_elem?-modify_self [] i f = refl
  get_elem?-modify_self (x ∷ xs) zero f = refl
  get_elem?-modify_self (x ∷ xs) (suc i) f = get_elem?-modify_self xs i f

  pub get_elem?-modify_ne :
      (xs : List A) (i j : ℕ) (f : A → A) → i ≢ j → get_elem? (modify xs i f) j ≡ get_elem? xs j
  get_elem?-modify_ne [] i j f h = refl
  get_elem?-modify_ne (x ∷ xs) zero zero f h = absurd (h refl)
  get_elem?-modify_ne (x ∷ xs) zero (suc j) f h = refl
  get_elem?-modify_ne (x ∷ xs) (suc i) zero f h = refl
  get_elem?-modify_ne (x ∷ xs) (suc i) (suc j) f h =
      get_elem?-modify_ne xs i j f (λ e. h (ap suc e))

  -- What holds at every index of a list that is read.
  abbrev pub AllAt {κ} : (ℕ → A → Type κ) → List A → Type (ℓ ⊔ κ)
  AllAt P xs = (i : ℕ) (x : A) → get_elem? xs i ≡ some x → P i x

module _ {ℓ κ} {A : Type ℓ} {B : Type κ} where
  pub get_elem?-map :
      (f : A → B) (xs : List A) (i : ℕ) → get_elem? (map f xs) i ≡ Option.map f (get_elem? xs i)
  get_elem?-map f [] i = refl
  get_elem?-map f (x ∷ xs) zero = refl
  get_elem?-map f (x ∷ xs) (suc i) = get_elem?-map f xs i

module _ {ℓ} {A : Type ℓ} where
  -- What holds of each element of a list whose first element has the index `i`.
  abbrev pub AllFrom {κ} : (ℕ → A → Type κ) → ℕ → List A → Type κ
  AllFrom P i [] = Unit
  AllFrom P i (x ∷ xs) = P i x × AllFrom P (i + 1) xs

  pub AllFrom-get {κ} :
      (P : ℕ → A → Type κ) (i : ℕ) (xs : List A)
      → AllFrom P i xs
      → (j : ℕ) (x : A) → get_elem? xs j ≡ some x
      → P (i + j) x
  AllFrom-get P i [] h j x e = cc
  AllFrom-get P i (y ∷ xs) h zero x e =
      let same : y ≡ x = cc in subst (λ k. P k x) (omega arith) (subst (P i) same h.0)
  AllFrom-get P i (y ∷ xs) h (suc j) x e =
      subst (λ k. P k x) (omega arith) (AllFrom-get P (i + 1) xs h.1 j x e)

  pub get-AllFrom {κ} :
      (P : ℕ → A → Type κ) (i : ℕ) (xs : List A)
      → ((j : ℕ) (x : A) → get_elem? xs j ≡ some x → P (i + j) x)
      → AllFrom P i xs
  get-AllFrom P i [] h = tt
  get-AllFrom P i (y ∷ xs) h = (
    subst (λ k. P k y) (omega arith) (h 0 y refl),
    get-AllFrom P (i + 1) xs (λ j x e. subst (λ k. P k x) (omega arith) (h (suc j) x e)),
  )

module _ {ℓ} {A : Type ℓ} where
  abbrev pub take : ℕ → List A → List A
  take zero xs = []
  take (suc n) [] = []
  take (suc n) (x ∷ xs) = x ∷ take n xs

  pub take-append_le : (n : ℕ) (xs ys : List A) → n ≤ length xs → take n (xs ++ ys) ≡ take n xs
  take-append_le zero xs ys h = refl
  take-append_le (suc n) [] ys h = absurd (omega arith)
  take-append_le (suc n) (x ∷ xs) ys h = ap (◌∷◌ x) (take-append_le n xs ys (omega arith))

  pub take-append_full :
      (n : ℕ) (xs : List A) (x : A) → length xs < n → take n (xs ++ x ∷ []) ≡ take n xs ++ x ∷ []
  take-append_full zero xs x h = absurd (omega arith)
  take-append_full (suc zero) [] x h = refl
  take-append_full (suc (suc n)) [] x h = refl
  take-append_full (suc n) (y ∷ xs) x h = ap (◌∷◌ y) (take-append_full n xs x (omega arith))

  pub length-take : (n : ℕ) (xs : List A) → length (take n xs) ≡ min n (length xs)
  length-take zero xs = omega arith
  length-take (suc n) [] = omega arith
  length-take (suc n) (x ∷ xs) = omega (arith, length-take n xs)
