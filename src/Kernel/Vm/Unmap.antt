-- ===== src/Kernel/Vm/Unmap.antt =====
-- vm.c: uvmunmap, and kfree of the pages that it unmaps.
use mathlib.Core.List.{append_assoc}
use mp.Prelude.{
  ℕ, zero, suc, ◌+◌, ◌*◌, ◌/◌, ◌%◌, ◌≤◌, ◌<◌, true, false, Option, none, some, List, [], ◌∷◌, ◌++◌,
  ◌==◌, ◌≡◌, ◌∙◌, inl, inr, refl, ap, sym, subst, arith, if◌then◌else◌, Bool-cases,
}
use mp.Kernel.Memory.{kfree}
use mp.Kernel.Vm.{
  Vm, maxva, px, pte_v, pte2pa, set_word, give_page, unmap_at, unmap_page, then_unmap, unmap_from,
  uvmunmap,
}
use mp.Kernel.Vm.Tree.{node, word_of, Tree}
use mp.Kernel.Vm.Walk.{path, pointer, entry_of, walk_from-find}
use mp.Kernel.Vm.Entries.{walk-below}
use mp.Kernel.Vm.Cleared.{cleared, cleared-outside, cleared-suc, cleared-none, cleared-one}
use mp.Kernel.Vm.Owned.{
  Owns, junk, kfree-given, cleared_words, cleared-Tree, cleared-same, cleared-other, cleared-Owns,
}

module _ (end root bound : ℕ) where
  -- An entry that is cleared; `freed` are the pages that become free.
  record Cleared (a : ℕ) (freed : List ℕ) (s : Vm) (r : Option Vm) : Type 0 where
    after : Vm
    result : r ≡ some after
    tree : Tree after.words root after.free
    owns : Owns end root bound after.words after.free
    free_eq : after.free ≡ freed ++ s.free
    entries :
        (b : ℕ) → b < maxva → entry_of root after.words b ≡ cleared a 1 (entry_of root s.words b) b

  abbrev pub freed_by : ℕ → List ℕ
  freed_by pte = if pte_v pte then pte2pa pte ∷ [] else []

  unmap-valid :
      (s : Vm) (t i : ℕ)
      → pte_v (s.words t i) ≡ true
      → kfree end (pte2pa (s.words t i)) s.free ≡ some (pte2pa (s.words t i) ∷ s.free)
      → unmap_at end true (some (s, some (t, i)))
        ≡ some (record {
          words = set_word t i 0 (junk end root bound (pte2pa (s.words t i)) s);
          free = pte2pa (s.words t i) ∷ s.free;
        })
  unfolding give_page
  unmap-valid s t i e f = rw (e, f) refl

  unmap-invalid :
      (s : Vm) (t i : ℕ)
      → pte_v (s.words t i) ≡ false
      → unmap_at end true (some (s, some (t, i))) ≡ some s
  unmap-invalid s t i e = rw e refl

  same-Cleared :
      (a : ℕ) (s : Vm) (r : Option Vm)
      → Tree s.words root s.free
      → Owns end root bound s.words s.free
      → pte_v (entry_of root s.words a) ≡ false
      → r ≡ some s
      → Cleared a (freed_by (entry_of root s.words a)) s r
  same-Cleared a s r tree owns e f = record {
    after = s;
    result = f;
    tree = tree;
    owns = owns;
    free_eq = ap (λ c. (if c then pte2pa (entry_of root s.words a) ∷ [] else []) ++ s.free) (sym e);
    entries = λ b h. cleared-none root s.words a b e;
  }

  unmap_at-Cleared :
      (a : ℕ) (s : Vm) (o : Option ℕ)
      → Tree s.words root s.free
      → Owns end root bound s.words s.free
      → bound ≤ maxva
      → 0 < end
      → a < bound
      → node s.words (path 2 a) (some root) ≡ o
      → Cleared a
          (freed_by (entry_of root s.words a))
          s
          (unmap_at end true (some (s, pointer (px 0 a) o)))
  unmap_at-Cleared a s none tree owns bound_below positive below there =
      same-Cleared a s (some s) tree owns (ap (λ o. pte_v (word_of s.words o (px 0 a))) there) refl
  unmap_at-Cleared a s (some t) tree owns bound_below positive below there =
      let entry : entry_of root s.words a ≡ s.words t (px 0 a) =
        ap (λ o. word_of s.words o (px 0 a)) there in
      elim (Bool-cases (pte_v (entry_of root s.words a))) [
        | inl e ↦
            let (aligned, from_end, small) = owns.given a below e in
            let freed =
              kfree-given end root bound (pte2pa (entry_of root s.words a)) s.free aligned from_end
                small in
            record {
              after = record {
                words =
                    cleared_words end root bound a t s tree owns bound_below positive below there e;
                free = pte2pa (entry_of root s.words a) ∷ s.free;
              };
              result =
                  unmap-valid s t (px 0 a) (ap pte_v (sym entry) ∙ e) (
                    subst (λ x. kfree end (pte2pa x) s.free ≡ some (pte2pa x ∷ s.free)) entry freed)
                  ∙ ap
                      (λ x. some (record {
                        words = set_word t (px 0 a) 0 (junk end root bound (pte2pa x) s);
                        free = pte2pa x ∷ s.free;
                      }))
                      (sym entry);
              tree = cleared-Tree end root bound a t s tree owns bound_below positive below there e;
              owns = cleared-Owns end root bound a t s tree owns bound_below positive below there e;
              free_eq =
                  ap (λ c. (if c then pte2pa (entry_of root s.words a) ∷ [] else []) ++ s.free)
                    (sym e);
              entries = λ b h. elim (Bool-cases (b / 4096 == a / 4096)) [
                | inl f ↦
                    cleared-same end root bound a t s tree owns bound_below positive below there e b
                      (ground arith)
                    ∙ cleared-one root s.words a b e (ground arith)
                | inr f ↦
                    cleared-other end root bound a t s tree owns bound_below positive below there e
                      b h f
                    ∙ sym (cleared-outside a 1 (entry_of root s.words b) b (ground arith))
              ];
            }
        | inr e ↦
            same-Cleared a s (unmap_at end true (some (s, some (t, px 0 a)))) tree owns e
              (unmap-invalid s t (px 0 a) (ap pte_v (sym entry) ∙ e))
      ]

  unmap_page-Cleared :
      (a : ℕ) (s : Vm)
      → Tree s.words root s.free
      → Owns end root bound s.words s.free
      → bound ≤ maxva
      → 0 < end
      → a < bound
      → Cleared a (freed_by (entry_of root s.words a)) s (unmap_page end true root a s)
  unfolding unmap_page
  unmap_page-Cleared a s tree owns bound_below positive below =
      subst (λ x. Cleared a (freed_by (entry_of root s.words a)) s (unmap_at end true x))
        (sym (walk-below root a false s (omega arith) ∙ ap some (walk_from-find a 2 root s)))
        (unmap_at-Cleared a s (node s.words (path 2 a) (some root)) tree owns bound_below positive
          below refl)

  -- The pages of the valid entries of a range, the last one first.
  abbrev pub freed_from : ℕ → ℕ → (ℕ → ℕ) → List ℕ
  freed_from zero a entry = []
  freed_from (suc n) a entry = freed_from n (a + 4096) entry ++ freed_by (entry a)

  freed_from-same :
      (n a : ℕ) (f g : ℕ → ℕ)
      → ((b : ℕ) → a ≤ b → b < a + n * 4096 → f b ≡ g b)
      → freed_from n a f ≡ freed_from n a g
  freed_from-same zero a f g h = refl
  freed_from-same (suc n) a f g h =
      ap (λ x. x ++ freed_by (f a))
        (freed_from-same n (a + 4096) f g (λ b k l. h b (omega arith) (omega arith)))
      ∙ ap (λ x. freed_from n (a + 4096) g ++ freed_by x) (h a (omega arith) (omega arith))

  pub record Freed (n a : ℕ) (s : Vm) (r : Option Vm) : Type 0 where
    pub after : Vm
    pub result : r ≡ some after
    pub tree : Tree after.words root after.free
    pub owns : Owns end root bound after.words after.free
    pub free_eq : after.free ≡ freed_from n a (λ b. entry_of root s.words b) ++ s.free
    pub entries :
        (b : ℕ) → b < maxva → entry_of root after.words b ≡ cleared a n (entry_of root s.words b) b

  next-Freed :
      (n a : ℕ) (s : Vm) (r : Option Vm)
      → bound ≤ maxva
      → a + suc n * 4096 ≤ bound
      → (one : Cleared a (freed_by (entry_of root s.words a)) s r)
      → Freed n (a + 4096) one.after (unmap_from end true root n (a + 4096) one.after)
      → Freed (suc n) a s (then_unmap end (λ t. unmap_from end true root n (a + 4096) t) r)
  next-Freed n a s r bound_below below one rest = record {
    after = rest.after;
    result =
        ap (then_unmap end (λ t. unmap_from end true root n (a + 4096) t)) one.result ∙ rest.result;
    tree = rest.tree;
    owns = rest.owns;
    free_eq =
        let front = freed_from n (a + 4096) (λ b. entry_of root s.words b) in
        rest.free_eq
        ∙ ap (λ x. x ++ one.after.free)
            (freed_from-same n (a + 4096) (λ b. entry_of root one.after.words b)
              (λ b. entry_of root s.words b)
              (λ b h k.
                one.entries b (omega arith)
                ∙ cleared-outside a 1 (entry_of root s.words b) b (ground arith)))
        ∙ ap (λ x. front ++ x) one.free_eq
        ∙ sym (append_assoc front (freed_by (entry_of root s.words a)) s.free);
    entries = λ b h.
        rest.entries b h
        ∙ ap (λ x. cleared (a + 4096) n x b) (one.entries b h)
        ∙ cleared-suc a n (entry_of root s.words b) b;
  }

  unmap_from-Freed :
      (n a : ℕ) (s : Vm)
      → Tree s.words root s.free
      → Owns end root bound s.words s.free
      → bound ≤ maxva
      → 0 < end
      → a + n * 4096 ≤ bound
      → Freed n a s (unmap_from end true root n a s)
  unfolding unmap_from
  unmap_from-Freed zero a s tree owns bound_below positive below = record {
    after = s;
    result = refl;
    tree = tree;
    owns = owns;
    free_eq = refl;
    entries = λ b h. sym (cleared-outside a 0 (entry_of root s.words b) b (ground arith));
  }
  unmap_from-Freed (suc n) a s tree owns bound_below positive below =
      let one = unmap_page-Cleared a s tree owns bound_below positive (omega arith) in
      next-Freed n a s (unmap_page end true root a s) bound_below below one (
        unmap_from-Freed n (a + 4096) one.after one.tree one.owns bound_below positive
          (omega arith))

  -- In a table whose tables are different pages and not free, and each of whose pages mapped below `bound`,
  -- which is at most MAXVA, is one that kfree takes, neither free nor a table, and mapped once there,
  -- uvmunmap of a range of whole pages below `bound` that frees the pages never panics: the entries of the
  -- range that are valid become 0, all others are as before, and the pages that were mapped there, and no
  -- others, are put in front of the free ones. The table is such a table again.
  pub uvmunmap-Freed :
      (va npages : ℕ) (s : Vm)
      → Tree s.words root s.free
      → Owns end root bound s.words s.free
      → bound ≤ maxva
      → 0 < end
      → va % 4096 ≡ 0
      → va + npages * 4096 ≤ bound
      → Freed npages va s (uvmunmap end root va npages true s)
  unfolding uvmunmap
  uvmunmap-Freed va npages s tree owns bound_below positive aligned below =
      let e : (va % 4096 == 0) ≡ true = ground arith in
      rw e (unmap_from-Freed npages va s tree owns bound_below positive below)
