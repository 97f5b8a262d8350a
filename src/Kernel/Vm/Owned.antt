-- ===== src/Kernel/Vm/Owned.antt =====
-- vm.c: the pages that the entries of a table own, and an entry whose page is freed.
use mp.Prelude.{
  ℕ, ◌/◌, ◌%◌, ◌≤◌, ◌<◌, true, false, not, ◌||◌, some, List, ◌∷◌, ◌==◌, leb, ltb, ◌≡◌, ◌∙◌, inl,
  inr, refl, ap, sym, subst, arith, Bool-cases, length,
}
use mp.Kernel.Memory.{kfree, phystop}
use mp.Kernel.Vm.{Vm, maxva, px, pte_v, pte2pa, set_word, fill_page, next_of}
use mp.Kernel.Vm.Tree.{node, Absent, Tree}
use mp.Kernel.Vm.Walk.{path, entry_of}
use mp.Kernel.Vm.Entries.{Tree-set, node-set, entry_of-same, entry_of-other}
use mp.Kernel.Vm.Off.{node-off, Tree-off, word_of-off}

module _ (end root bound : ℕ) where
  -- The page of each entry below `bound` that is valid: one of the pages that the kernel gives, not free, no table, and of
  -- this entry only.
  pub record Owns (w : ℕ → ℕ → ℕ) (free : List ℕ) : Type 0 where
    pub given :
        (b : ℕ)
        → b < bound
        → pte_v (entry_of root w b) ≡ true
        → (pte2pa (entry_of root w b) % 4096 ≡ 0)
          × (end ≤ pte2pa (entry_of root w b))
          × (pte2pa (entry_of root w b) < phystop)
    pub in_use :
        (b : ℕ)
        → b < bound
        → pte_v (entry_of root w b) ≡ true
        → Absent (pte2pa (entry_of root w b)) free
    pub no_table :
        (b : ℕ)
        → b < bound
        → pte_v (entry_of root w b) ≡ true
        → (xs : List ℕ) (q : ℕ) → length xs ≤ 2
        → node w xs (some root) ≡ some q
        → (q == pte2pa (entry_of root w b)) ≡ false
    pub apart :
        (a b : ℕ)
        → a < bound
        → b < bound
        → pte_v (entry_of root w a) ≡ true
        → pte_v (entry_of root w b) ≡ true
        → (a / 4096 == b / 4096) ≡ false
        → (pte2pa (entry_of root w a) == pte2pa (entry_of root w b)) ≡ false

  pub kfree-given :
      (p : ℕ) (pages : List ℕ)
      → p % 4096 ≡ 0
      → end ≤ p
      → p < phystop
      → kfree end p pages ≡ some (p ∷ pages)
  unfolding kfree
  kfree-given p pages h k l =
      let e : (not (p % 4096 == 0) || (ltb p end || leb phystop p)) ≡ false = ground arith in
      rw e refl

  -- Memory in which kfree has filled a page.
  abbrev pub junk : ℕ → Vm → ℕ → ℕ → ℕ
  junk p s = set_word p 0 (next_of s.free) (fill_page p 72340172838076673 s.words)

  pub junk-only : (p : ℕ) (s : Vm) (q j : ℕ) → (q == p) ≡ false → junk p s q j ≡ s.words q j
  unfolding set_word fill_page
  junk-only p s q j e = rw e refl

  -- The entry of `a` stands in the table `t`, and is valid.
  module _ (a t : ℕ) (s : Vm) (tree : Tree s.words root s.free) (owns : Owns s.words s.free)
      (bound_below : bound ≤ maxva) (some_end : 0 < end) (below : a < bound)
      (there : node s.words (path 2 a) (some root) ≡ some t)
      (valid : pte_v (entry_of root s.words a) ≡ true) where
    abbrev freed_page : ℕ
    freed_page = pte2pa (entry_of root s.words a)

    junk-Tree : Tree (junk freed_page s) root (freed_page ∷ s.free)
    junk-Tree =
        let (aligned, from_end, small) = owns.given a below valid in
        Tree-off s.words root s.free tree freed_page (owns.no_table a below valid)
          (junk freed_page s) (junk-only freed_page s) (owns.in_use a below valid) aligned
          (omega arith) (omega arith)

    junk-node :
        (xs : List ℕ)
        → length xs ≤ 2
        → node (junk freed_page s) xs (some root) ≡ node s.words xs (some root)
    junk-node =
        node-off s.words root s.free tree freed_page (owns.no_table a below valid)
          (junk freed_page s) (junk-only freed_page s)

    junk-there : node (junk freed_page s) (path 2 a) (some root) ≡ some t
    junk-there = junk-node (path 2 a) (omega arith) ∙ there

    abbrev pub cleared_words : ℕ → ℕ → ℕ
    cleared_words = set_word t (px 0 a) 0 (junk freed_page s)

    pub cleared-Tree : Tree cleared_words root (freed_page ∷ s.free)
    cleared-Tree =
        Tree-set root a 0 t (junk freed_page s) (freed_page ∷ s.free) junk-Tree (omega arith)
          junk-there

    pub cleared-same : (b : ℕ) → b / 4096 ≡ a / 4096 → entry_of root cleared_words b ≡ 0
    cleared-same =
        entry_of-same root a 0 t (junk freed_page s) (freed_page ∷ s.free) junk-Tree (omega arith)
          junk-there

    pub cleared-other :
        (b : ℕ)
        → b < maxva
        → (b / 4096 == a / 4096) ≡ false
        → entry_of root cleared_words b ≡ entry_of root s.words b
    cleared-other b h e =
        entry_of-other root a 0 t (junk freed_page s) (freed_page ∷ s.free) junk-Tree (omega arith)
          junk-there b h e
        ∙ word_of-off s.words root s.free tree freed_page (owns.no_table a below valid)
            (junk freed_page s) (junk-only freed_page s) (path 2 b) (px 0 b) (omega arith)

    -- What is still valid is the entry of another page.
    still :
        (b : ℕ)
        → b < bound
        → pte_v (entry_of root cleared_words b) ≡ true
        → (b / 4096 == a / 4096) ≡ false
    still b h e = elim (Bool-cases (b / 4096 == a / 4096)) [
      | inl f ↦ let g = ap pte_v (cleared-same b (ground arith)) in cc
      | inr f ↦ f
    ]

    was :
        (b : ℕ)
        → b < bound
        → pte_v (entry_of root cleared_words b) ≡ true
        → entry_of root cleared_words b ≡ entry_of root s.words b
    was b h e = cleared-other b (omega arith) (still b h e)

    was_valid :
        (b : ℕ)
        → b < bound
        → pte_v (entry_of root cleared_words b) ≡ true
        → pte_v (entry_of root s.words b) ≡ true
    was_valid b h e = sym (ap pte_v (was b h e)) ∙ e

    cleared-node :
        (xs : List ℕ)
        → length xs ≤ 2
        → node cleared_words xs (some root) ≡ node s.words xs (some root)
    cleared-node xs h =
        node-set root a 0 t (junk freed_page s) (freed_page ∷ s.free) junk-Tree (omega arith)
          junk-there xs h
        ∙ junk-node xs h

    pub cleared-Owns : Owns cleared_words (freed_page ∷ s.free)
    cleared-Owns = record {
      given = λ b h e.
          subst (λ x. (pte2pa x % 4096 ≡ 0) × (end ≤ pte2pa x) × (pte2pa x < phystop))
            (sym (was b h e)) (owns.given b h (was_valid b h e));
      in_use = λ b h e.
          subst (λ x. Absent (pte2pa x) (freed_page ∷ s.free)) (sym (was b h e))
            (
              owns.apart b a h below (was_valid b h e) valid (still b h e),
              owns.in_use b h (was_valid b h e),
            );
      no_table = λ b h e xs q k l.
          subst (λ x. (q == pte2pa x) ≡ false) (sym (was b h e))
            (owns.no_table b h (was_valid b h e) xs q k (sym (cleared-node xs k) ∙ l));
      apart = λ b c h k e f d.
          ap (λ x. pte2pa x == pte2pa (entry_of root cleared_words c)) (was b h e)
          ∙ ap (λ x. pte2pa (entry_of root s.words b) == pte2pa x) (was c k f)
          ∙ owns.apart b c h k (was_valid b h e) (was_valid c k f) d;
    }
