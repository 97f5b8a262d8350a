-- ===== src/Kernel/Strings/Copies.antt =====
-- What `safestrcpy` copies.
use mp.Prelude.{
  ℕ, zero, suc, ◌+◌, ◌≤◌, ◌<◌, ◌==◌, ◌≡◌, ◌≢◌, ◌∙◌, ◌⊎◌, inl, inr, ap, sym, arith, Bool-cases,
}
use mp.Kernel.Strings.{Memory, put, safe_from, safestrcpy}
use mp.Kernel.Strings.Moves.{put-at, put-ne}

-- A copy of a string into `n + 1` bytes at `s`: `k` bytes that are not NUL and a NUL, where only a copy
-- that is full may be shorter than the string; and no other byte changes.
pub record Copied (s t n : ℕ) (m m' : Memory) : Type 0 where
  pub k : ℕ
  pub fits : k ≤ n
  pub same : (i : ℕ) → i < k → m' (s + i) ≡ m (t + i)
  pub inner : (i : ℕ) → i < k → m (t + i) ≢ 0
  pub ends : m' (s + k) ≡ 0
  pub whole : k < n → m (t + k) ≡ 0
  pub others : (x : ℕ) → (x < s) ⊎ (s + n < x) → m' x ≡ m x

-- The two ranges do not overlap.
abbrev pub Apart : ℕ → ℕ → ℕ → Type 0
Apart s t n = (s + n < t) ⊎ (t + n < s)

empty-Copied :
    (s t n : ℕ) (m : Memory) → m t ≡ 0 → Copied s t (suc n) m (put (s + 1) 0 (put s (m t) m))
empty-Copied s t n m z =
    let copied = put s (m t) m in
    record {
      k = 0;
      fits = omega arith;
      same = λ i h. absurd (omega arith);
      inner = λ i h. absurd (omega arith);
      ends =
          put-ne (s + 1) 0 copied (s + 0) (λ e. omega arith)
          ∙ put-at s (m t) m (s + 0) (omega arith)
          ∙ z;
      whole = λ h. ap m (omega arith) ∙ z;
      others = λ x h.
          put-ne (s + 1) 0 copied x (λ e. ground arith) ∙ put-ne s (m t) m x (λ e. ground arith);
    }

module _ (s t n : ℕ) (m m' : Memory) (c : Copied (s + 1) (t + 1) n (put s (m t) m) m') where
  longer-same :
      ((i : ℕ) → i ≤ n → put s (m t) m (t + 1 + i) ≡ m (t + suc i))
      → (i : ℕ) → i < suc c.k
      → m' (s + i) ≡ m (t + i)
  longer-same source zero h =
      c.others (s + 0) (inl (omega arith))
      ∙ put-at s (m t) m (s + 0) (omega arith)
      ∙ ap m (omega arith)
  longer-same source (suc i) h =
      ap m' (omega arith) ∙ c.same i (omega arith) ∙ source i (omega (arith, c.fits))

  longer-inner :
      m t ≢ 0
      → ((i : ℕ) → i ≤ n → put s (m t) m (t + 1 + i) ≡ m (t + suc i))
      → (i : ℕ) → i < suc c.k
      → m (t + i) ≢ 0
  longer-inner nz source zero h e = nz (ap m (omega arith) ∙ e)
  longer-inner nz source (suc i) h e =
      c.inner i (omega arith) (source i (omega (arith, c.fits)) ∙ e)

longer-Copied :
    (s t n : ℕ) (m m' : Memory)
    → Apart s t (suc n)
    → m t ≢ 0
    → Copied (s + 1) (t + 1) n (put s (m t) m) m'
    → Copied s t (suc n) m m'
longer-Copied s t n m m' apart nz c =
    let source : (i : ℕ) → i ≤ n → put s (m t) m (t + 1 + i) ≡ m (t + suc i) =
      λ i h. put-ne s (m t) m (t + 1 + i) (λ e. ground arith) ∙ ap m (omega arith) in
    let same : (i : ℕ) → i < suc c.k → m' (s + i) ≡ m (t + i) = longer-same s t n m m' c source in
    record {
      k = suc c.k;
      fits = omega (arith, c.fits);
      same = same;
      inner = longer-inner s t n m m' c nz source;
      ends = ap m' (omega arith) ∙ c.ends;
      whole = λ h. sym (source c.k (omega (arith, c.fits))) ∙ c.whole (omega arith);
      others = λ x h. c.others x (ground arith) ∙ put-ne s (m t) m x (λ e. ground arith);
    }

safe_from-Copied : (s t n : ℕ) (m : Memory) → Apart s t n → Copied s t n m (safe_from s t n m)
unfolding safe_from
safe_from-Copied s t zero m apart = record {
  k = 0;
  fits = omega arith;
  same = λ i h. absurd (omega arith);
  inner = λ i h. absurd (omega arith);
  ends = put-at s 0 m (s + 0) (omega arith);
  whole = λ h. absurd (omega arith);
  others = λ x h. put-ne s 0 m x (λ e. ground arith);
}
safe_from-Copied s t (suc n) m apart = elim (Bool-cases (m t == 0)) [
  | inl e ↦ rw e (empty-Copied s t n m (ground arith))
  | inr e ↦ rw e (
      longer-Copied s t n m (safe_from (s + 1) (t + 1) n (put s (m t) m)) apart (λ z. ground arith)
        (safe_from-Copied (s + 1) (t + 1) n (put s (m t) m) (ground arith)))
]

-- A string is copied into `n + 1` bytes that do not overlap its own: what is there afterwards is a string,
-- with its NUL among these bytes; it is the string that was copied, or its first `n` bytes; and no byte
-- outside of them is changed.
pub safestrcpy-Copied :
    (s t n : ℕ) (m : Memory) → Apart s t n → Copied s t n m (safestrcpy s t (suc n) m)
unfolding safestrcpy
safestrcpy-Copied s t n m apart = safe_from-Copied s t n m apart
