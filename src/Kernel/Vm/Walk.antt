-- ===== src/Kernel/Vm/Walk.antt =====
-- vm.c: where walk leads in a page table, and what it adds to the table.
use mathlib.Core.List.{append_assoc, append-nil}
use mp.Prelude.{
  ℕ, zero, suc, ◌+◌, ◌<◌, Bool, true, false, ◌&&◌, Option, none, some, List, [], ◌∷◌, ◌++◌, ◌==◌,
  ◌≡◌, ◌∙◌, ◌⊎◌, inl, inr, refl, ap, sym, subst, arith, Bool-cases, length, length-append,
}
use mp.Kernel.Memory.{kalloc}
use mp.Kernel.Vm.{Vm, px, pte_v, pte2pa, pa2pte, set_word, fill_page, take_page, walk_from}
use mp.Kernel.Vm.Tree.{
  step-valid, step-invalid, node, node-none, node-snoc, word_of, Tree, All, Outside, Outside-new,
  Tree-new, word_of-same, node-linked,
}

-- The indices of an address above the last level.
abbrev pub path : ℕ → ℕ → List ℕ
path zero va = []
path (suc level) va = px (suc level) va ∷ path level va

abbrev pub pointer : ℕ → Option ℕ → Option (ℕ × ℕ)
pointer i none = none
pointer i (some p) = some (p, i)

walk_from-zero :
    (alloc : Bool) (va table : ℕ) (s : Vm)
    → walk_from alloc va 0 table s ≡ (s, some (table, px 0 va))
unfolding walk_from
walk_from-zero alloc va table s = refl

walk_from-valid :
    (alloc : Bool) (va level table : ℕ) (s : Vm)
    → pte_v (s.words table (px (suc level) va)) ≡ true
    → walk_from alloc va (suc level) table s
      ≡ walk_from alloc va level (pte2pa (s.words table (px (suc level) va))) s
unfolding walk_from
walk_from-valid alloc va level table s e = rw e refl

walk_from-missing :
    (va level table : ℕ) (s : Vm)
    → pte_v (s.words table (px (suc level) va)) ≡ false
    → walk_from false va (suc level) table s ≡ (s, none)
unfolding walk_from
walk_from-missing va level table s e = rw e refl

abbrev linked_words : ℕ → ℕ → ℕ → (ℕ → ℕ → ℕ) → ℕ → ℕ → ℕ
linked_words table i p w =
    set_word table i (pa2pte p + 1) (fill_page p 0 (fill_page p 361700864190383365 w))

walk_from-full :
    (va level table : ℕ) (s : Vm)
    → pte_v (s.words table (px (suc level) va)) ≡ false
    → s.free ≡ []
    → walk_from true va (suc level) table s ≡ (record { words = s.words; free = [] }, none)
unfolding walk_from take_page kalloc
walk_from-full va level table s e f = rw (e, f) refl

walk_from-link :
    (va level table : ℕ) (s : Vm) (p : ℕ) (rest : List ℕ)
    → pte_v (s.words table (px (suc level) va)) ≡ false
    → s.free ≡ p ∷ rest
    → (p == 0) ≡ false
    → walk_from true va (suc level) table s
      ≡ walk_from true va level p
          (record { words = linked_words table (px (suc level) va) p s.words; free = rest })
unfolding walk_from take_page kalloc
walk_from-link va level table s p rest e f g = rw (e, f, g) refl

-- Without alloc the table stays as it is.
pub walk_from-find :
    (va level table : ℕ) (s : Vm)
    → walk_from false va level table s
      ≡ (s, pointer (px 0 va) (node s.words (path level va) (some table)))
unfolding node
walk_from-find va zero table s = walk_from-zero false va table s
walk_from-find va (suc level) table s =
    let i = px (suc level) va in
    elim (Bool-cases (pte_v (s.words table i))) [
      | inl e ↦
          walk_from-valid false va level table s e
          ∙ walk_from-find va level (pte2pa (s.words table i)) s
          ∙ ap (λ o. (s, pointer (px 0 va) (node s.words (path level va) o)))
              (sym (step-valid s.words table i e))
      | inr e ↦
          walk_from-missing va level table s e
          ∙ sym (
              ap (λ o. (s, pointer (px 0 va) o))
                (ap (node s.words (path level va)) (step-invalid s.words table i e)
                  ∙ node-none s.words (path level va)))
    ]

-- The entry of an address in the last level; 0 where a table is missing.
abbrev pub entry_of : ℕ → (ℕ → ℕ → ℕ) → ℕ → ℕ
entry_of root w va = word_of w (node w (path 2 va) (some root)) (px 0 va)

pub record Walked (root va : ℕ) (pre : List ℕ) (level : ℕ) (s : Vm) (r : Vm × Option (ℕ × ℕ))
    : Type 0 where
  pub tree : Tree r.0.words root r.0.free
  pub same :
      (xs : List ℕ) (j : ℕ)
      → length xs ≡ 2
      → word_of r.0.words (node r.0.words xs (some root)) j
        ≡ word_of s.words (node s.words xs (some root)) j
  pub outside : (p : ℕ) → Outside p s.words root s.free → Outside p r.0.words root r.0.free
  pub fewer : (P : ℕ → Bool) → All P s.free → All P r.0.free
  pub found :
      (r.1 ≡ none)
      ⊎ ((p : ℕ) × (r.1 ≡ some (p, px 0 va))
          × (node r.0.words (pre ++ path level va) (some root) ≡ some p))

-- A new table below an entry.
module _ (root table i p : ℕ) (pre rest : List ℕ) (w : ℕ → ℕ → ℕ) (tree : Tree w root (p ∷ rest))
    (there : node w pre (some root) ≡ some table) (short : length pre < 2)
    (invalid : pte_v (w table i) ≡ false) where
  is_other : (table == p) ≡ false
  is_other = (tree.in_use pre table (omega arith) there).0

  linked_at : linked_words table i p w table i ≡ pa2pte p + 1
  unfolding set_word
  linked_at = ground arith

  linked_zeros : (j : ℕ) → linked_words table i p w p j ≡ 0
  unfolding set_word fill_page
  linked_zeros j = let d = is_other in ground arith

  linked_only :
      (q j : ℕ)
      → (q == p) ≡ false
      → (q == table && j == i) ≡ false
      → linked_words table i p w q j ≡ w q j
  unfolding set_word fill_page
  linked_only q j h k = rw (k, h) refl

  pub Tree-linked : Tree (linked_words table i p w) root rest
  Tree-linked =
      Tree-new w root (p ∷ rest) tree (linked_words table i p w) table i pre there p rest refl short
        invalid linked_at linked_zeros linked_only

  word_of-linked :
      (xs : List ℕ) (j : ℕ)
      → length xs ≡ 2
      → word_of (linked_words table i p w) (node (linked_words table i p w) xs (some root)) j
        ≡ word_of w (node w xs (some root)) j
  word_of-linked =
      word_of-same w root (p ∷ rest) tree (linked_words table i p w) table i pre there p rest refl
        short invalid linked_at linked_zeros linked_only

  Outside-linked :
      (q : ℕ) → Outside q w root (p ∷ rest) → Outside q (linked_words table i p w) root rest
  Outside-linked =
      Outside-new w root (p ∷ rest) tree (linked_words table i p w) table i pre there p rest refl
        short invalid linked_at linked_zeros linked_only

  node-at_link : node (linked_words table i p w) (pre ++ i ∷ []) (some root) ≡ some p
  node-at_link =
      node-linked w root (p ∷ rest) tree (linked_words table i p w) table i pre there p rest refl
        short invalid linked_at linked_zeros linked_only

pub free-cases : (free : List ℕ) → (free ≡ []) ⊎ ((p : ℕ) × (rest : List ℕ) × (free ≡ p ∷ rest))
free-cases [] = inl refl
free-cases (p ∷ rest) = inr (p, rest, refl)

module _ (root va : ℕ) where
  deeper-Walked :
      (level : ℕ) (pre : List ℕ) (s : Vm) (r : Vm × Option (ℕ × ℕ))
      → Walked root va (pre ++ px (suc level) va ∷ []) level s r
      → Walked root va pre (suc level) s r
  deeper-Walked level pre s r h = record {
    tree = h.tree;
    same = h.same;
    outside = h.outside;
    fewer = h.fewer;
    found =
        subst
          (λ xs.
            (r.1 ≡ none)
            ⊎ ((p : ℕ) × (r.1 ≡ some (p, px 0 va)) × (node r.0.words xs (some root) ≡ some p)))
          (append_assoc pre (px (suc level) va ∷ []) (path level va)) h.found;
  }

  -- From the memory that a new table makes.
  linked-Walked :
      (level : ℕ) (pre : List ℕ) (s t : Vm) (r : Vm × Option (ℕ × ℕ))
      → ((xs : List ℕ) (j : ℕ)
          → length xs ≡ 2
          → word_of t.words (node t.words xs (some root)) j
            ≡ word_of s.words (node s.words xs (some root)) j)
      → ((p : ℕ) → Outside p s.words root s.free → Outside p t.words root t.free)
      → ((P : ℕ → Bool) → All P s.free → All P t.free)
      → Walked root va pre level t r
      → Walked root va pre level s r
  linked-Walked level pre s t r same outside fewer h = record {
    tree = h.tree;
    same = λ xs j k. h.same xs j k ∙ same xs j k;
    outside = λ p k. h.outside p (outside p k);
    fewer = λ P k. h.fewer P (fewer P k);
    found = h.found;
  }

  walk_from-Walked :
      (level table : ℕ) (pre : List ℕ) (s : Vm)
      → Tree s.words root s.free
      → node s.words pre (some root) ≡ some table
      → length pre + level ≡ 2
      → Walked root va pre level s (walk_from true va level table s)
  walk_from-Walked zero table pre s tree there len =
      subst (Walked root va pre 0 s) (sym (walk_from-zero true va table s)) (record {
        tree = tree;
        same = λ xs j h. refl;
        outside = λ p h. h;
        fewer = λ P h. h;
        found = inr (table, refl, ap (λ xs. node s.words xs (some root)) (append-nil pre) ∙ there);
      })
  walk_from-Walked (suc level) table pre s tree there len =
      let i = px (suc level) va in
      let longer = length-append pre (i ∷ []) in
      elim (Bool-cases (pte_v (s.words table i))) [
        | inl e ↦
            subst (Walked root va pre (suc level) s) (sym (walk_from-valid true va level table s e))
              (deeper-Walked level pre s (walk_from true va level (pte2pa (s.words table i)) s) (
                walk_from-Walked level (pte2pa (s.words table i)) (pre ++ i ∷ []) s tree
                  (node-snoc s.words pre i (some root) (some table) there
                    ∙ step-valid s.words table i e)
                  (omega arith)))
        | inr e ↦ elim (free-cases s.free) [
          | inl f ↦
              subst (Walked root va pre (suc level) s) (sym (walk_from-full va level table s e f))
                (record {
                  tree = subst (Tree s.words root) f tree;
                  same = λ xs j h. refl;
                  outside = λ p h. subst (Outside p s.words root) f h;
                  fewer = λ P h. tt;
                  found = inl refl;
                })
          | inr (p, rest, f) ↦
              let tree' = subst (Tree s.words root) f tree in
              let some_page : (p == 0) ≡ false = (let h = tree'.pages.1 in ground arith) in
              let t : Vm = record { words = linked_words table i p s.words; free = rest } in
              subst (Walked root va pre (suc level) s)
                (sym (walk_from-link va level table s p rest e f some_page))
                (deeper-Walked level pre s (walk_from true va level p t) (
                  linked-Walked level (pre ++ i ∷ []) s t (walk_from true va level p t)
                    (word_of-linked root table i p pre rest s.words tree' there (omega arith) e)
                    (λ q h.
                      Outside-linked root table i p pre rest s.words tree' there (omega arith) e q
                        (subst (Outside q s.words root) f h))
                    (λ P h. (subst (All P) f h).1)
                    (walk_from-Walked level p (pre ++ i ∷ []) t
                      (Tree-linked root table i p pre rest s.words tree' there (omega arith) e)
                      (node-at_link root table i p pre rest s.words tree' there (omega arith) e)
                      (omega arith))))
        ]
      ]

pub walk-Walked :
    (root va : ℕ) (s : Vm)
    → Tree s.words root s.free
    → Walked root va [] 2 s (walk_from true va 2 root s)
unfolding node
walk-Walked root va s tree = walk_from-Walked root va 2 root [] s tree refl refl
