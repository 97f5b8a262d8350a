-- ===== src/Kernel/Vm/Off.antt =====
-- vm.c: writes into a page that is no table.
use mp.Prelude.{
  ℕ, ◌+◌, ◌%◌, ◌≤◌, ◌<◌, false, Option, none, some, List, [], ◌∷◌, ◌++◌, ◌==◌, ◌≡◌, ◌∙◌, refl, ap,
  sym, arith, if◌then◌else◌, length,
}
use mp.Kernel.Vm.{pte_v, pte2pa}
use mp.Kernel.Vm.Tree.{step, node, node-none, node-snoc, snoc-length, word_of, Absent, Tree}

-- Writes in a page that is no table of the tree.
module _ (w : ℕ → ℕ → ℕ) (root : ℕ) (free : List ℕ) (tree : Tree w root free) (p : ℕ)
    (no_table : (xs : List ℕ) (q : ℕ)
      → length xs ≤ 2
      → node w xs (some root) ≡ some q
      → (q == p) ≡ false)
    (w' : ℕ → ℕ → ℕ) (only : (q j : ℕ) → (q == p) ≡ false → w' q j ≡ w q j) where
  node-off_from :
      (ys xs : List ℕ) (o : Option ℕ)
      → node w ys (some root) ≡ o
      → length ys + length xs ≤ 2
      → node w' xs o ≡ node w xs o
  unfolding node
  node-off_from ys [] o e h = refl
  node-off_from ys (j ∷ xs) none e h = node-none w' xs ∙ sym (node-none w xs)
  node-off_from ys (j ∷ xs) (some q) e h =
      ap (λ v. node w' xs (if pte_v v then some (pte2pa v) else none))
        (only q j (no_table ys q (omega arith) e))
      ∙ node-off_from (ys ++ j ∷ []) xs (step w (some q) j)
          (node-snoc w ys j (some root) (some q) e) (snoc-length ys xs j h)

  pub node-off : (xs : List ℕ) → length xs ≤ 2 → node w' xs (some root) ≡ node w xs (some root)
  unfolding node
  node-off xs h = node-off_from [] xs (some root) refl (omega arith)

  pub Tree-off :
      Absent p free → p % 4096 ≡ 0 → 0 < p → p < 72057594037927936 → Tree w' root (p ∷ free)
  Tree-off absent aligned positive small = record {
    apart = λ xs ys q h k e f.
        tree.apart xs ys q h k (sym (node-off xs h) ∙ e) (sym (node-off ys k) ∙ f);
    in_use = λ xs q h e.
        (no_table xs q h (sym (node-off xs h) ∙ e), tree.in_use xs q h (sym (node-off xs h) ∙ e));
    pages = (aligned, positive, small, absent, tree.pages);
  }

  word_of-off_at :
      (xs : List ℕ) (j : ℕ) (o : Option ℕ)
      → length xs ≤ 2
      → node w xs (some root) ≡ o
      → word_of w' o j ≡ word_of w o j
  word_of-off_at xs j none h e = refl
  word_of-off_at xs j (some q) h e = only q j (no_table xs q h e)

  pub word_of-off :
      (xs : List ℕ) (j : ℕ)
      → length xs ≤ 2
      → word_of w' (node w' xs (some root)) j ≡ word_of w (node w xs (some root)) j
  word_of-off xs j h =
      ap (λ o. word_of w' o j) (node-off xs h) ∙ word_of-off_at xs j (node w xs (some root)) h refl
