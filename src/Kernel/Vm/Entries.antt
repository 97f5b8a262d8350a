-- ===== src/Kernel/Vm/Entries.antt =====
-- vm.c: the indices of an address, and an entry of the last level that is set.
use mp.Prelude.{
  ℕ, ◌+◌, ◌*◌, ◌/◌, ◌≤◌, ◌<◌, Bool, false, some, List, [], ◌∷◌, ◌==◌, leb, ◌≡◌, ◌∙◌, inl, inr, refl,
  ap, arith, Bool-cases, length,
}
use mp.Kernel.Vm.{Vm, maxva, px, pa2pte, set_word, walk_from, walk}
use mp.Kernel.Vm.Tree.{
  node, word_of, Tree, Outside, Outside-leaf, Tree-leaf, node-leaf, word_of-other, word_of-written,
}
use mp.Kernel.Vm.Walk.{path, entry_of}

abbrev first_of : List ℕ → ℕ
first_of [] = 0
first_of (x ∷ xs) = x

abbrev second_of : List ℕ → ℕ
second_of [] = 0
second_of (x ∷ xs) = first_of xs

-- Below MAXVA the indices are those of one page.
pub same_page :
    (a b : ℕ) → a < maxva → b < maxva → path 2 b ≡ path 2 a → px 0 b ≡ px 0 a → b / 4096 ≡ a / 4096
unfolding px
same_page a b h k e f = let second = ap first_of e in let first = ap second_of e in omega arith

pub px-page :
    (a b : ℕ) → b / 4096 ≡ a / 4096 → (px 0 b ≡ px 0 a) × (px 1 b ≡ px 1 a) × (px 2 b ≡ px 2 a)
unfolding px
px-page a b e = omega arith

pub path-page : (a b : ℕ) → b / 4096 ≡ a / 4096 → path 2 b ≡ path 2 a
path-page a b e =
    let h = px-page a b e in ap (λ x. x ∷ px 1 b ∷ []) h.2 ∙ ap (λ x. px 2 a ∷ x ∷ []) h.1

abbrev pub pte_for : ℕ → ℕ → ℕ
pte_for perm pa = pa2pte pa + (perm / 2 * 2 + 1)

pub set_word-same : (p i v : ℕ) (w : ℕ → ℕ → ℕ) → set_word p i v w p i ≡ v
unfolding set_word
set_word-same p i v w = ground arith

pub set_word-page :
    (p i v : ℕ) (w : ℕ → ℕ → ℕ) (q j : ℕ) → (q == p) ≡ false → set_word p i v w q j ≡ w q j
unfolding set_word
set_word-page p i v w q j e = rw e refl

pub set_word-index :
    (p i v : ℕ) (w : ℕ → ℕ → ℕ) (j : ℕ) → (j == i) ≡ false → set_word p i v w p j ≡ w p j
unfolding set_word
set_word-index p i v w j e = ground arith

pub walk-below :
    (root a : ℕ) (alloc : Bool) (s : Vm)
    → a < maxva
    → walk root a alloc s ≡ some (walk_from alloc a 2 root s)
unfolding walk
walk-below root a alloc s h = let e : leb maxva a ≡ false = ground arith in rw e refl

-- The entry of `a` is set, in the table `p` of the last level.
module _ (root a v p : ℕ) (w : ℕ → ℕ → ℕ) (free : List ℕ) (tree : Tree w root free)
    (below : a < maxva) (there : node w (path 2 a) (some root) ≡ some p) where
  abbrev pub written_words : ℕ → ℕ → ℕ
  written_words = set_word p (px 0 a) v w

  only : (q j : ℕ) → (q == p) ≡ false → written_words q j ≡ w q j
  only q j e = set_word-page p (px 0 a) v w q j e

  pub Tree-set : Tree written_words root free
  Tree-set = Tree-leaf w root free tree written_words p (px 0 a) (path 2 a) there refl only

  pub Outside-set : (q : ℕ) → Outside q w root free → Outside q written_words root free
  Outside-set = Outside-leaf w root free tree written_words p (px 0 a) (path 2 a) there refl only

  pub node-set :
      (xs : List ℕ) → length xs ≤ 2 → node written_words xs (some root) ≡ node w xs (some root)
  node-set = node-leaf w root free tree written_words p (px 0 a) (path 2 a) there refl only

  pub entry_of-same : (b : ℕ) → b / 4096 ≡ a / 4096 → entry_of root written_words b ≡ v
  entry_of-same b e =
      ap (λ xs. word_of written_words (node written_words xs (some root)) (px 0 b))
        (path-page a b e)
      ∙ ap (λ j. word_of written_words (node written_words (path 2 a) (some root)) j)
          (px-page a b e).0
      ∙ word_of-written w root free tree written_words p (px 0 a) (path 2 a) there refl only
          (px 0 a)
      ∙ set_word-same p (px 0 a) v w

  pub entry_of-other :
      (b : ℕ)
      → b < maxva
      → (b / 4096 == a / 4096) ≡ false
      → entry_of root written_words b ≡ entry_of root w b
  entry_of-other b h e =
      word_of-other w root free tree written_words p (px 0 a) (path 2 a) there refl only (path 2 b)
        (px 0 b) refl
        (λ k. set_word-index p (px 0 a) v w (px 0 b) (elim (Bool-cases (px 0 b == px 0 a)) [
          | inl f ↦ let d = same_page a b below h k (ground arith) in absurd (ground arith)
          | inr f ↦ f
        ]))
