-- ===== src/Kernel/Strings/Moves.antt =====
-- string.c: `memmove`, on ranges that may overlap.
use mp.Prelude.{
  ℕ, zero, suc, ◌+◌, ◌-◌, ◌≤◌, ◌<◌, true, false, ◌&&◌, ltb, leb, ◌==◌, ◌≡◌, ◌≢◌, ◌∙◌, ◌⊎◌, inl, inr,
  refl, ap, sym, arith, if◌then◌else◌, Bool-cases,
}
use mp.Kernel.Strings.{Memory, put, copy_up, copy_down, memmove}

-- The memory in which the `n` bytes from `dst` on are those that were from `src` on.
abbrev pub moved : ℕ → ℕ → ℕ → Memory → Memory
moved dst src n m x = if leb dst x && ltb x (dst + n) then m (src + (x - dst)) else m x

moved-in : (d s n : ℕ) (m : Memory) (x : ℕ) → d ≤ x → x < d + n → moved d s n m x ≡ m (s + (x - d))
moved-in d s n m x a b = let e : (leb d x && ltb x (d + n)) ≡ true = ground arith in rw e refl

moved-out : (d s n : ℕ) (m : Memory) (x : ℕ) → (x < d) ⊎ (d + n ≤ x) → moved d s n m x ≡ m x
moved-out d s n m x a = let e : (leb d x && ltb x (d + n)) ≡ false = ground arith in rw e refl

pub put-at : (p v : ℕ) (m : Memory) (x : ℕ) → x ≡ p → put p v m x ≡ v
put-at p v m x e = let t : (x == p) ≡ true = ground arith in rw t refl

pub put-ne : (p v : ℕ) (m : Memory) (x : ℕ) → x ≢ p → put p v m x ≡ m x
put-ne p v m x e = let t : (x == p) ≡ false = ground arith in rw t refl

-- Where an address is, against `n` and one more bytes.
pub data Place (d n x : ℕ) : Type 0 where
  outside : (x < d) ⊎ (d + suc n ≤ x) → Place d n x
  first : x ≡ d → Place d n x
  last : x ≡ d + n → Place d n x
  between : d < x → x < d + n → Place d n x

place : (d n x : ℕ) → Place d n x
place d n x = elim (Bool-cases (ltb x d)) [
  | inl a ↦ outside (inl (ground arith))
  | inr a ↦ elim (Bool-cases (ltb x (d + suc n))) [
    | inr b ↦ outside (inr (ground arith))
    | inl b ↦ elim (Bool-cases (x == d)) [
      | inl c ↦ first (ground arith)
      | inr c ↦ elim (Bool-cases (x == d + n)) [
        | inl e ↦ last (ground arith)
        | inr e ↦ between (ground arith) (ground arith)
      ]
    ]
  ]
]

up_in :
    (d s n : ℕ) (m : Memory)
    → (d ≤ s) ⊎ (s + suc n ≤ d)
    → (x : ℕ) → d < x
    → x < d + suc n
    → moved (d + 1) (s + 1) n (put d (m s) m) x ≡ moved d s (suc n) m x
up_in d s n m h x a b =
    moved-in (d + 1) (s + 1) n (put d (m s) m) x (omega arith) (omega arith)
    ∙ put-ne d (m s) m (s + 1 + (x - (d + 1))) (λ e. ground arith)
    ∙ ap m (omega arith)
    ∙ sym (moved-in d s (suc n) m x (omega arith) b)

up_first :
    (d s n : ℕ) (m : Memory) (x : ℕ)
    → x ≡ d
    → moved (d + 1) (s + 1) n (put d (m s) m) x ≡ moved d s (suc n) m x
up_first d s n m x p =
    moved-out (d + 1) (s + 1) n (put d (m s) m) x (inl (omega arith))
    ∙ put-at d (m s) m x p
    ∙ ap m (omega arith)
    ∙ sym (moved-in d s (suc n) m x (omega arith) (omega arith))

up_step :
    (d s n : ℕ) (m : Memory)
    → (d ≤ s) ⊎ (s + suc n ≤ d)
    → (x : ℕ) → Place d n x
    → moved (d + 1) (s + 1) n (put d (m s) m) x ≡ moved d s (suc n) m x
up_step d s n m h x (outside p) =
    moved-out (d + 1) (s + 1) n (put d (m s) m) x (ground arith)
    ∙ put-ne d (m s) m x (λ e. ground arith)
    ∙ sym (moved-out d s (suc n) m x p)
up_step d s n m h x (first p) = up_first d s n m x p
up_step d s zero m h x (last p) = up_first d s 0 m x (omega arith)
up_step d s (suc n) m h x (last p) = up_in d s (suc n) m h x (omega arith) (omega arith)
up_step d s n m h x (between a b) = up_in d s n m h x a (omega arith)

down_in :
    (d s n : ℕ) (m : Memory)
    → s ≤ d
    → (x : ℕ) → d ≤ x
    → x < d + n
    → moved d s n (put (d + n) (m (s + n)) m) x ≡ moved d s (suc n) m x
down_in d s n m h x a b =
    moved-in d s n (put (d + n) (m (s + n)) m) x a b
    ∙ put-ne (d + n) (m (s + n)) m (s + (x - d)) (λ e. omega arith)
    ∙ sym (moved-in d s (suc n) m x a (omega arith))

down_last :
    (d s n : ℕ) (m : Memory) (x : ℕ)
    → x ≡ d + n
    → moved d s n (put (d + n) (m (s + n)) m) x ≡ moved d s (suc n) m x
down_last d s n m x p =
    moved-out d s n (put (d + n) (m (s + n)) m) x (inr (omega arith))
    ∙ put-at (d + n) (m (s + n)) m x p
    ∙ ap m (omega arith)
    ∙ sym (moved-in d s (suc n) m x (omega arith) (omega arith))

down_step :
    (d s n : ℕ) (m : Memory)
    → s ≤ d
    → (x : ℕ) → Place d n x
    → moved d s n (put (d + n) (m (s + n)) m) x ≡ moved d s (suc n) m x
down_step d s n m h x (outside p) =
    moved-out d s n (put (d + n) (m (s + n)) m) x (ground arith)
    ∙ put-ne (d + n) (m (s + n)) m x (λ e. ground arith)
    ∙ sym (moved-out d s (suc n) m x p)
down_step d s zero m h x (first p) = down_last d s 0 m x (omega arith)
down_step d s (suc n) m h x (first p) = down_in d s (suc n) m h x (omega arith) (omega arith)
down_step d s n m h x (last p) = down_last d s n m x p
down_step d s n m h x (between a b) = down_in d s n m h x (omega arith) b

copy_up-moved :
    (d s n : ℕ) (m : Memory) → (d ≤ s) ⊎ (s + n ≤ d) → (x : ℕ) → copy_up d s n m x ≡ moved d s n m x
unfolding copy_up
copy_up-moved d s zero m h x = ground arith
copy_up-moved d s (suc n) m h x =
    copy_up-moved (d + 1) (s + 1) n (put d (m s) m) (ground arith) x
    ∙ up_step d s n m h x (place d n x)

copy_down-moved : (d s n : ℕ) (m : Memory) → s ≤ d → (x : ℕ) → copy_down d s n m x ≡ moved d s n m x
unfolding copy_down
copy_down-moved d s zero m h x = ground arith
copy_down-moved d s (suc n) m h x =
    copy_down-moved d s n (put (d + n) (m (s + n)) m) h x ∙ down_step d s n m h x (place d n x)

-- Whether and however the two ranges overlap, the destination holds the bytes that the source held before,
-- and no other byte is changed.
pub memmove-moved :
    (dst src n : ℕ) (m : Memory) (x : ℕ) → memmove dst src n m x ≡ moved dst src n m x
unfolding memmove
memmove-moved dst src n m x = elim (Bool-cases (ltb src dst && ltb dst (src + n))) [
  | inl e ↦ rw e (copy_down-moved dst src n m (ground arith) x)
  | inr e ↦ rw e (copy_up-moved dst src n m (ground arith) x)
]
