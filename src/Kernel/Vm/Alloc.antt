-- ===== src/Kernel/Vm/Alloc.antt =====
-- vm.c: uvmalloc, with the undoing of it.
use mp.Prelude.{
  ℕ, ◌%◌, ◌≤◌, ◌<◌, true, false, some, List, ◌∷◌, ◌==◌, ◌≡◌, ◌∙◌, refl, ap, sym, subst, arith,
  length,
}
use mp.Kernel.Memory.{phystop}
use mp.Kernel.Vm.{Vm, px, pte_v, pte2pa, fill_page, give_page}
use mp.Kernel.Vm.Tree.{node, Absent, Tree, Outside}
use mp.Kernel.Vm.Walk.{path, entry_of}
use mp.Kernel.Vm.Off.{node-off, Tree-off, word_of-off}
use mp.Kernel.Vm.Owned.{Owns, junk, junk-only, kfree-given}

module _ (end root bound : ℕ) where
  -- Memory in which the entries and the tables are the same.
  Owns-off :
      (w w' : ℕ → ℕ → ℕ) (free free' : List ℕ)
      → Owns end root bound w free
      → ((b : ℕ) → entry_of root w' b ≡ entry_of root w b)
      → ((xs : List ℕ) → length xs ≤ 2 → node w' xs (some root) ≡ node w xs (some root))
      → ((b : ℕ)
          → b < bound
          → pte_v (entry_of root w b) ≡ true
          → Absent (pte2pa (entry_of root w b)) free')
      → Owns end root bound w' free'
  Owns-off w w' free free' owns same nodes absent = record {
    given = λ b h e.
        subst (λ x. (pte2pa x % 4096 ≡ 0) × (end ≤ pte2pa x) × (pte2pa x < phystop)) (sym (same b))
          (owns.given b h (sym (ap pte_v (same b)) ∙ e));
    in_use = λ b h e.
        subst (λ x. Absent (pte2pa x) free') (sym (same b))
          (absent b h (sym (ap pte_v (same b)) ∙ e));
    no_table = λ b h e xs q k l.
        subst (λ x. (q == pte2pa x) ≡ false) (sym (same b))
          (owns.no_table b h (sym (ap pte_v (same b)) ∙ e) xs q k (sym (nodes xs k) ∙ l));
    apart = λ a b h k e f d.
        ap (λ x. pte2pa x == pte2pa (entry_of root w' b)) (same a)
        ∙ ap (λ x. pte2pa (entry_of root w a) == pte2pa x) (same b)
        ∙ owns.apart a b h k (sym (ap pte_v (same a)) ∙ e) (sym (ap pte_v (same b)) ∙ f) d;
  }

  -- A free page is taken and cleared.
  module _ (p : ℕ) (rest : List ℕ) (w : ℕ → ℕ → ℕ) (tree : Tree w root (p ∷ rest))
      (owns : Owns end root bound w (p ∷ rest)) where
    abbrev pub taken : ℕ → ℕ → ℕ
    taken = fill_page p 0 (fill_page p 361700864190383365 w)

    taken-only : (q j : ℕ) → (q == p) ≡ false → taken q j ≡ w q j
    unfolding fill_page
    taken-only q j e = rw e refl

    taken-no_table :
        (xs : List ℕ) (q : ℕ) → length xs ≤ 2 → node w xs (some root) ≡ some q → (q == p) ≡ false
    taken-no_table xs q h e = (tree.in_use xs q h e).0

    taken-node : (xs : List ℕ) → length xs ≤ 2 → node taken xs (some root) ≡ node w xs (some root)
    taken-node = node-off w root (p ∷ rest) tree p taken-no_table taken taken-only

    pub taken-entry : (b : ℕ) → entry_of root taken b ≡ entry_of root w b
    taken-entry b =
        word_of-off w root (p ∷ rest) tree p taken-no_table taken taken-only (path 2 b) (px 0 b)
          (omega arith)

    pub taken-Tree : Tree taken root rest
    taken-Tree = record {
      apart = λ xs ys q h k e f.
          tree.apart xs ys q h k (sym (taken-node xs h) ∙ e) (sym (taken-node ys k) ∙ f);
      in_use = λ xs q h e. (tree.in_use xs q h (sym (taken-node xs h) ∙ e)).1;
      pages = tree.pages.4;
    }

    pub taken-Owns : Owns end root bound taken rest
    taken-Owns =
        Owns-off w taken (p ∷ rest) rest owns taken-entry taken-node
          (λ b h e. (owns.in_use b h e).1)

    pub taken-Outside : Outside p taken root rest
    taken-Outside = (tree.pages.3, λ xs q h e. taken-no_table xs q h (sym (taken-node xs h) ∙ e))

    pub taken-not_mapped :
        (b : ℕ)
        → b < bound
        → pte_v (entry_of root taken b) ≡ true
        → (pte2pa (entry_of root taken b) == p) ≡ false
    taken-not_mapped b h e =
        ap (λ x. pte2pa x == p) (taken-entry b)
        ∙ (owns.in_use b h (sym (ap pte_v (taken-entry b)) ∙ e)).0

  -- A page is given back.
  module _ (p : ℕ) (s : Vm) (tree : Tree s.words root s.free)
      (owns : Owns end root bound s.words s.free) (aligned : p % 4096 ≡ 0) (positive : 0 < p)
      (from_end : end ≤ p) (below_top : p < phystop) (outside : Outside p s.words root s.free)
      (not_mapped : (b : ℕ)
        → b < bound
        → pte_v (entry_of root s.words b) ≡ true
        → (pte2pa (entry_of root s.words b) == p) ≡ false) where
    abbrev pub given_back : Vm
    given_back = record { words = junk end root bound p s; free = p ∷ s.free }

    pub given_back_result : give_page end p s ≡ some given_back
    unfolding give_page
    given_back_result = rw (kfree-given end root bound p s.free aligned from_end below_top) refl

    pub given_back-Tree : Tree given_back.words root given_back.free
    given_back-Tree =
        Tree-off s.words root s.free tree p outside.1 (junk end root bound p s)
          (junk-only end root bound p s) outside.0 aligned positive (omega arith)

    pub given_back-entry : (b : ℕ) → entry_of root given_back.words b ≡ entry_of root s.words b
    given_back-entry b =
        word_of-off s.words root s.free tree p outside.1 (junk end root bound p s)
          (junk-only end root bound p s) (path 2 b) (px 0 b) (omega arith)

    pub given_back-Owns : Owns end root bound given_back.words given_back.free
    given_back-Owns =
        Owns-off s.words (junk end root bound p s) s.free (p ∷ s.free) owns given_back-entry
          (node-off s.words root s.free tree p outside.1 (junk end root bound p s)
            (junk-only end root bound p s))
          (λ b h e. (not_mapped b h e, owns.in_use b h e))
