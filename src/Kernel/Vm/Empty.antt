-- ===== src/Kernel/Vm/Empty.antt =====
-- vm.c: uvmcreate, and a page table without entries.
use mp.Prelude.{ℕ, false, none, some, List, [], ◌∷◌, ◌==◌, ◌≡◌, ◌∙◌, refl, ap, sym, subst, arith}
use mp.Kernel.Memory.{kalloc}
use mp.Kernel.Vm.{Vm, px, pte_v, fill_page, take_page, uvmcreate}
use mp.Kernel.Vm.Tree.{step-invalid, node, node-none, word_of, Absent, FreePages, Tree, Outside}
use mp.Kernel.Vm.Walk.{entry_of}

module _ (w : ℕ → ℕ → ℕ) (root : ℕ) (zeros : (j : ℕ) → w root j ≡ 0) where
  node-zeros : (x : ℕ) (xs : List ℕ) → node w (x ∷ xs) (some root) ≡ none
  unfolding node
  node-zeros x xs = ap (node w xs) (step-invalid w root x (ap pte_v (zeros x))) ∙ node-none w xs

  only_root : (xs : List ℕ) (p : ℕ) → node w xs (some root) ≡ some p → (xs ≡ []) × (p ≡ root)
  unfolding node
  only_root [] p e = (refl, cc)
  only_root (x ∷ xs) p e = let f = node-zeros x xs in cc

  pub Tree-zeros : (free : List ℕ) → Absent root free → FreePages free → Tree w root free
  Tree-zeros free absent pages = record {
    apart = λ xs ys p h k e f. (only_root xs p e).0 ∙ sym (only_root ys p f).0;
    in_use = λ xs p h e. subst (λ q. Absent q free) (sym (only_root xs p e).1) absent;
    pages = pages;
  }

  pub Outside-zeros :
      (p : ℕ) (free : List ℕ) → Absent p free → (root == p) ≡ false → Outside p w root free
  Outside-zeros p free absent other =
      (absent, λ xs q h e. subst (λ x. (x == p) ≡ false) (sym (only_root xs q e).1) other)

  pub entry_of-zeros : (va : ℕ) → entry_of root w va ≡ 0
  entry_of-zeros va = ap (λ o. word_of w o (px 0 va)) (node-zeros (px 2 va) (px 1 va ∷ []))

uvmcreate-page :
    (s : Vm) (p : ℕ) (rest : List ℕ)
    → s.free ≡ p ∷ rest
    → (p == 0) ≡ false
    → uvmcreate s
      ≡ (record { words = fill_page p 0 (fill_page p 361700864190383365 s.words); free = rest }, p)
unfolding uvmcreate take_page kalloc
uvmcreate-page s p rest e f = rw (e, f) refl

pub uvmcreate-free :
    (s : Vm) (p : ℕ) (rest : List ℕ)
    → s.free ≡ p ∷ rest
    → (p == 0) ≡ false
    → (uvmcreate s).0.free ≡ rest
uvmcreate-free s p rest e f = ap (λ r. r.0.free) (uvmcreate-page s p rest e f)

fill_page-zeros : (p : ℕ) (w : ℕ → ℕ → ℕ) (j : ℕ) → fill_page p 0 w p j ≡ 0
unfolding fill_page
fill_page-zeros p w j = ground arith

-- Where a page is free, uvmcreate gives a table without entries that uses it and leaves the others free.
pub uvmcreate-Tree :
    (s : Vm) (p : ℕ) (rest : List ℕ)
    → s.free ≡ p ∷ rest
    → FreePages (p ∷ rest)
    → ((uvmcreate s).1 ≡ p)
      × Tree (uvmcreate s).0.words p (uvmcreate s).0.free
      × ((va : ℕ) → entry_of p (uvmcreate s).0.words va ≡ 0)
uvmcreate-Tree s p rest e pages =
    let f : (p == 0) ≡ false = (let h = pages.1 in ground arith) in
    let w = fill_page p 361700864190383365 s.words in
    let zeros = fill_page-zeros p w in
    subst (λ r. (r.1 ≡ p) × Tree r.0.words p r.0.free × ((va : ℕ) → entry_of p r.0.words va ≡ 0))
      (sym (uvmcreate-page s p rest e f))
      (
        refl,
        Tree-zeros (fill_page p 0 w) p zeros rest pages.3 pages.4,
        entry_of-zeros (fill_page p 0 w) p zeros,
      )
