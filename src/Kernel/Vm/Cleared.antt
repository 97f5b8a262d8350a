-- ===== src/Kernel/Vm/Cleared.antt =====
-- vm.c: the entries of a range that is unmapped.
use mp.Prelude.{
  ℕ, suc, ◌+◌, ◌/◌, true, false, ◌&&◌, some, leb, ltb, ◌≡◌, ◌∙◌, inl, inr, refl, ap, sym, arith,
  if◌then◌else◌, Bool-cases,
}
use mp.Kernel.Vm.{px, pte_v}
use mp.Kernel.Vm.Tree.{node, word_of}
use mp.Kernel.Vm.Walk.{path, entry_of}
use mp.Kernel.Vm.Entries.{path-page, px-page}

-- The entry of `b` after `n` pages from `a` on have been unmapped.
abbrev pub cleared : ℕ → ℕ → ℕ → ℕ → ℕ
cleared a n before b =
    if leb (a / 4096) (b / 4096) && ltb (b / 4096) (a / 4096 + n)
    then (if pte_v before then 0 else before)
    else before

pub cleared-inside :
    (a n before b : ℕ)
    → (leb (a / 4096) (b / 4096) && ltb (b / 4096) (a / 4096 + n)) ≡ true
    → cleared a n before b ≡ (if pte_v before then 0 else before)
cleared-inside a n before b e = rw e refl

pub cleared-outside :
    (a n before b : ℕ)
    → (leb (a / 4096) (b / 4096) && ltb (b / 4096) (a / 4096 + n)) ≡ false
    → cleared a n before b ≡ before
cleared-outside a n before b e = rw e refl

pub cleared-suc :
    (a n before b : ℕ) → cleared (a + 4096) n (cleared a 1 before b) b ≡ cleared a (suc n) before b
cleared-suc a n before b =
    elim (Bool-cases (leb (a / 4096) (b / 4096) && ltb (b / 4096) (a / 4096 + 1))) [
      | inl e ↦
          cleared-outside (a + 4096) n (cleared a 1 before b) b (ground arith)
          ∙ cleared-inside a 1 before b e
          ∙ sym (cleared-inside a (suc n) before b (ground arith))
      | inr e ↦
          ap (λ x. cleared (a + 4096) n x b) (cleared-outside a 1 before b e)
          ∙ elim (Bool-cases (leb (a / 4096) (b / 4096) && ltb (b / 4096) (a / 4096 + suc n))) [
            | inl f ↦
                cleared-inside (a + 4096) n before b (ground arith)
                ∙ sym (cleared-inside a (suc n) before b f)
            | inr f ↦
                cleared-outside (a + 4096) n before b (ground arith)
                ∙ sym (cleared-outside a (suc n) before b f)
          ]
    ]

entry_of-page :
    (root : ℕ) (w : ℕ → ℕ → ℕ) (a b : ℕ)
    → b / 4096 ≡ a / 4096
    → entry_of root w b ≡ entry_of root w a
entry_of-page root w a b e =
    ap (λ xs. word_of w (node w xs (some root)) (px 0 b)) (path-page a b e)
    ∙ ap (λ j. word_of w (node w (path 2 a) (some root)) j) (px-page a b e).0

-- Where a page has no valid entry, nothing changes.
pub cleared-none :
    (root : ℕ) (w : ℕ → ℕ → ℕ) (a b : ℕ)
    → pte_v (entry_of root w a) ≡ false
    → entry_of root w b ≡ cleared a 1 (entry_of root w b) b
cleared-none root w a b e =
    elim (Bool-cases (leb (a / 4096) (b / 4096) && ltb (b / 4096) (a / 4096 + 1))) [
      | inl f ↦
          let v = ap pte_v (entry_of-page root w a b (ground arith)) ∙ e in
          sym (
            cleared-inside a 1 (entry_of root w b) b f
            ∙ ap (λ c. if c then 0 else entry_of root w b) v)
      | inr f ↦ sym (cleared-outside a 1 (entry_of root w b) b f)
    ]

pub cleared-one :
    (root : ℕ) (w : ℕ → ℕ → ℕ) (a b : ℕ)
    → pte_v (entry_of root w a) ≡ true
    → b / 4096 ≡ a / 4096
    → 0 ≡ cleared a 1 (entry_of root w b) b
cleared-one root w a b e f =
    let v = ap pte_v (entry_of-page root w a b f) ∙ e in
    sym (
      cleared-inside a 1 (entry_of root w b) b (ground arith)
      ∙ ap (λ c. if c then 0 else entry_of root w b) v)
