-- ===== src/Kernel/Vm/Rounds.antt =====
-- vm.c: a round of the loop of uvmalloc, and the undoing of what it has done.
use mp.Prelude.{
  ℕ, ◌+◌, ◌-◌, ◌*◌, ◌/◌, ◌%◌, ◌≤◌, ◌<◌, Bool, true, false, ◌&&◌, Option, some, List, ◌∷◌, ◌==◌, leb,
  ltb, ◌≡◌, ◌∙◌, ◌⊎◌, inl, inr, refl, ap, sym, arith, if◌then◌else◌, Bool-cases,
}
use mp.Kernel.Memory.{phystop}
use mp.Kernel.Vm.{
  Vm, maxva, pte_v, pte_u, pte2pa, pa2pte, mappages, give_page, uvmunmap, pground_up, with_size,
  uvmdealloc, undone,
}
use mp.Kernel.Vm.Tree.{Tree, All, Outside}
use mp.Kernel.Vm.Walk.{entry_of}
use mp.Kernel.Vm.Entries.{pte_for}
use mp.Kernel.Vm.Map.{mapped, mapped-inside, mapped-outside, Mapped}
use mp.Kernel.Vm.Cleared.{cleared-inside, cleared-outside}
use mp.Kernel.Vm.Owned.{Owns}
use mp.Kernel.Vm.Unmap.{uvmunmap-Freed}
use mp.Kernel.Vm.Grow.{mappages-Owns}
use mp.Kernel.Vm.Alloc.{
  taken, taken-entry, taken-Owns, taken-Outside, taken-not_mapped, given_back, given_back_result,
  given_back-Tree, given_back-Owns, given_back-entry,
}

-- A page that kfree takes.
abbrev pub is_given : ℕ → ℕ → Bool
is_given end p = leb end p && ltb p phystop

-- The page of `b` is one of those from `old` up to `a`.
abbrev pub grows_at : ℕ → ℕ → ℕ → Bool
grows_at old a b = leb (old / 4096) (b / 4096) && ltb (b / 4096) (a / 4096)

abbrev pub for_user : ℕ → Bool
for_user pte = pte_v pte && pte_u pte

for_user-valid : (pte : ℕ) → for_user pte ≡ true → pte_v pte ≡ true
for_user-valid pte h = ground arith

pte_for-user : (perm pa : ℕ) → (perm / 16 % 2 == 1) ≡ true → for_user (pte_for perm pa) ≡ true
unfolding pa2pte
pte_for-user perm pa u = ground arith

pground_up-aligned : (a : ℕ) → a % 4096 ≡ 0 → a ≤ maxva → pground_up a ≡ a
unfolding pground_up
pground_up-aligned a h k = omega arith

module _ (end root bound xperm old newsz : ℕ) (s0 : Vm) where
  -- The pages from `old` up to `a` are there for the user, and the others are as in `s0`.
  pub record Growing (a : ℕ) (s : Vm) : Type 0 where
    pub tree : Tree s.words root s.free
    pub owns : Owns end root bound s.words s.free
    pub given : All (is_given end) s.free
    pub inside :
        (b : ℕ) → b < maxva → grows_at old a b ≡ true → for_user (entry_of root s.words b) ≡ true
    pub others :
        (b : ℕ)
        → b < maxva
        → grows_at old a b ≡ false
        → entry_of root s.words b ≡ entry_of root s0.words b

  -- Every page up to `top` is there for the user, or none of them, and 0 is returned.
  pub record Grown (top : ℕ) (r : Option (Vm × ℕ)) : Type 0 where
    pub after : Vm
    pub sz : ℕ
    pub result : r ≡ some (after, sz)
    pub tree : Tree after.words root after.free
    pub owns : Owns end root bound after.words after.free
    pub all_or_none :
        ((sz ≡ newsz)
          × ((b : ℕ)
              → b < maxva
              → grows_at old top b ≡ true
              → for_user (entry_of root after.words b) ≡ true))
        ⊎ ((sz ≡ 0)
            × ((b : ℕ)
                → b < maxva
                → grows_at old top b ≡ true
                → pte_v (entry_of root after.words b) ≡ false))
    pub others :
        (b : ℕ)
        → b < maxva
        → grows_at old top b ≡ false
        → entry_of root after.words b ≡ entry_of root s0.words b

  uvmdealloc-none : (s : Vm) → uvmdealloc end root old old s ≡ some (s, old)
  unfolding uvmdealloc
  uvmdealloc-none s = let e : leb old old ≡ true = ground arith in rw e refl

  abbrev dealloc_between : ℕ → ℕ → Vm → Option (Vm × ℕ)
  dealloc_between top low s =
      if ltb low top
      then with_size end old (uvmunmap end root low ((top - low) / 4096) true s)
      else some (s, old)

  uvmdealloc-between :
      (a : ℕ) (s : Vm)
      → leb a old ≡ false
      → uvmdealloc end root a old s ≡ dealloc_between (pground_up a) (pground_up old) s
  unfolding uvmdealloc
  uvmdealloc-between a s e = rw e refl

  uvmdealloc-some :
      (a : ℕ) (s : Vm)
      → a % 4096 ≡ 0
      → old % 4096 ≡ 0
      → old < a
      → a ≤ maxva
      → uvmdealloc end root a old s
        ≡ with_size end old (uvmunmap end root old ((a - old) / 4096) true s)
  uvmdealloc-some a s h k l m =
      let i : ltb old a ≡ true = ground arith in
      uvmdealloc-between a s (ground arith)
      ∙ ap (λ x. dealloc_between x (pground_up old) s) (pground_up-aligned a h m)
      ∙ ap (λ x. dealloc_between a x s) (pground_up-aligned old k (omega arith))
      ∙ ap
          (λ c.
            if c
            then with_size end old (uvmunmap end root old ((a - old) / 4096) true s)
            else some (s, old))
          i

  module _ (bound_below : bound ≤ maxva) (positive : 0 < end) (old_aligned : old % 4096 ≡ 0)
      (user : (xperm / 16 % 2 == 1) ≡ true) (small : xperm < 1024) (top : ℕ)
      (top_below : top ≤ bound)
      (unmapped : (b : ℕ)
        → b < maxva
        → grows_at old top b ≡ true
        → pte_v (entry_of root s0.words b) ≡ false) where
    -- What has been mapped is unmapped.
    pub undo-Grown :
        (a : ℕ) (s : Vm)
        → a % 4096 ≡ 0
        → old ≤ a
        → a ≤ top
        → Growing a s
        → Grown top (undone end (uvmdealloc end root a old s))
    undo-Grown a s aligned from below g = elim (Bool-cases (a == old)) [
      | inl e ↦
          let is_old : a ≡ old = ground arith in
          record {
            after = s;
            sz = 0;
            result =
                ap (λ x. undone end (uvmdealloc end root x old s)) is_old
                ∙ ap (undone end) (uvmdealloc-none s);
            tree = g.tree;
            owns = g.owns;
            all_or_none =
                inr (refl, λ b h f. ap pte_v (g.others b h (ground arith)) ∙ unmapped b h f);
            others = λ b h f. g.others b h (ground arith);
          }
      | inr e ↦
          let n : old + (a - old) / 4096 * 4096 ≡ a = ground arith in
          let d =
            uvmunmap-Freed end root bound old ((a - old) / 4096) s g.tree g.owns bound_below
              positive old_aligned (ground arith) in
          record {
            after = d.after;
            sz = 0;
            result = ap (undone end) (
                uvmdealloc-some a s aligned old_aligned (ground arith) (omega arith)
                ∙ ap (with_size end old) d.result);
            tree = d.tree;
            owns = d.owns;
            all_or_none = inr (
              refl,
              λ b h f. elim (Bool-cases (grows_at old a b)) [
                | inl k ↦
                    let v = g.inside b h k in
                    let v' : pte_v (entry_of root s.words b) ≡ true =
                      for_user-valid (entry_of root s.words b) v in
                    ap pte_v (
                      d.entries b h
                      ∙ cleared-inside old ((a - old) / 4096) (entry_of root s.words b) b
                          (ground arith)
                      ∙ ap (λ c. if c then 0 else entry_of root s.words b) v')
                | inr k ↦
                    ap pte_v (
                      d.entries b h
                      ∙ cleared-outside old ((a - old) / 4096) (entry_of root s.words b) b
                          (ground arith)
                      ∙ g.others b h k)
                    ∙ unmapped b h f
              ],
            );
            others = λ b h f.
                d.entries b h
                ∙ cleared-outside old ((a - old) / 4096) (entry_of root s.words b) b (ground arith)
                ∙ g.others b h (ground arith);
          }
    ]

    mapped-Owns :
        (a p : ℕ) (rest : List ℕ) (s : Vm) (tree : Tree s.words root (p ∷ rest))
        (owns : Owns end root bound s.words (p ∷ rest))
        → All (is_given end) (p ∷ rest)
        → (h : Mapped root xperm a p 1
            (record { words = taken end root bound p rest s.words tree owns; free = rest })
            (mappages xperm root a 4096 p
              (record { words = taken end root bound p rest s.words tree owns; free = rest })))
        → Owns end root bound h.after.words h.after.free
    mapped-Owns a p rest s tree owns given h =
        let given_p = given.0 in
        mappages-Owns end root bound xperm a p bound_below
          (record { words = taken end root bound p rest s.words tree owns; free = rest })
          (taken-Owns end root bound p rest s.words tree owns) small tree.pages.0 (ground arith)
          (ground arith) (taken-Outside end root bound p rest s.words tree owns)
          (taken-not_mapped end root bound p rest s.words tree owns) h

    -- One page more.
    pub grown-Growing :
        (a p : ℕ) (rest : List ℕ) (s : Vm)
        → a % 4096 ≡ 0
        → old ≤ a
        → a + 4096 ≤ top
        → Growing a s
        → (tree : Tree s.words root (p ∷ rest)) → (owns : Owns end root bound s.words (p ∷ rest))
        → All (is_given end) (p ∷ rest)
        → (h : Mapped root xperm a p 1
            (record { words = taken end root bound p rest s.words tree owns; free = rest })
            (mappages xperm root a 4096 p
              (record { words = taken end root bound p rest s.words tree owns; free = rest })))
        → h.ok ≡ true
        → Growing (a + 4096) h.after
    grown-Growing a p rest s aligned from below g tree owns given h ok =
        let t : Vm = record {
          words = taken end root bound p rest s.words tree owns;
          free = rest;
        } in
        let one = h.all ok in
        let entry : (b : ℕ)
            → b < maxva
            → entry_of root h.after.words b ≡ mapped root xperm a p 1 (entry_of root s.words b) b =
          (λ b k.
            h.entries b k
            ∙ ap (λ m. mapped root xperm a p m (entry_of root t.words b) b) one
            ∙ ap (λ x. mapped root xperm a p 1 x b)
                (taken-entry end root bound p rest s.words tree owns b)) in
        record {
          tree = h.tree;
          owns = mapped-Owns a p rest s tree owns given h;
          given = h.fewer (is_given end) given.1;
          inside = λ b k f.
              elim (Bool-cases (leb (a / 4096) (b / 4096) && ltb (b / 4096) (a / 4096 + 1))) [
                | inl e ↦
                    ap for_user
                      (entry b k ∙ mapped-inside root xperm a p 1 (entry_of root s.words b) b e)
                    ∙ pte_for-user xperm (p + (b / 4096 - a / 4096) * 4096) user
                | inr e ↦
                    ap for_user
                      (entry b k ∙ mapped-outside root xperm a p 1 (entry_of root s.words b) b e)
                    ∙ g.inside b k (ground arith)
              ];
          others = λ b k f.
              entry b k
              ∙ mapped-outside root xperm a p 1 (entry_of root s.words b) b (ground arith)
              ∙ g.others b k (ground arith);
        }

    -- The page could not be mapped, and is given back.
    module _ (a p : ℕ) (rest : List ℕ) (s : Vm) (g : Growing a s)
        (tree : Tree s.words root (p ∷ rest)) (owns : Owns end root bound s.words (p ∷ rest))
        (given : All (is_given end) (p ∷ rest))
        (h : Mapped root xperm a p 1
          (record { words = taken end root bound p rest s.words tree owns; free = rest })
          (mappages xperm root a 4096 p
            (record { words = taken end root bound p rest s.words tree owns; free = rest })))
        (failed : h.ok ≡ false) where
      unchanged : (b : ℕ) → b < maxva → entry_of root h.after.words b ≡ entry_of root s.words b
      unchanged b k =
          let few = h.some_left failed in
          h.entries b k
          ∙ mapped-outside root xperm a p h.count
              (entry_of root (taken end root bound p rest s.words tree owns) b) b (ground arith)
          ∙ taken-entry end root bound p rest s.words tree owns b

      still_free :
          (b : ℕ)
          → b < bound
          → pte_v (entry_of root h.after.words b) ≡ true
          → (pte2pa (entry_of root h.after.words b) == p) ≡ false
      still_free b k e =
          ap (λ x. pte2pa x == p) (unchanged b (omega arith))
          ∙ (owns.in_use b k (sym (ap pte_v (unchanged b (omega arith))) ∙ e)).0

      apart_again : Outside p h.after.words root h.after.free
      apart_again = h.outside p (taken-Outside end root bound p rest s.words tree owns)

      from_kernel : (end ≤ p) × (p < phystop)
      from_kernel = let given_p = given.0 in (ground arith, ground arith)

      pub back : Vm
      back =
          given_back end root bound p h.after h.tree (mapped-Owns a p rest s tree owns given h)
            tree.pages.0 tree.pages.1 from_kernel.0 from_kernel.1 apart_again still_free

      pub back_result : give_page end p h.after ≡ some back
      unfolding back
      back_result =
          given_back_result end root bound p h.after h.tree
            (mapped-Owns a p rest s tree owns given h) tree.pages.0 tree.pages.1 from_kernel.0
            from_kernel.1 apart_again still_free

      pub back-Growing : Growing a back
      unfolding back
      back-Growing =
          let same : (b : ℕ) → b < maxva → entry_of root back.words b ≡ entry_of root s.words b =
            (λ b k.
              given_back-entry end root bound p h.after h.tree
                (mapped-Owns a p rest s tree owns given h) tree.pages.0 tree.pages.1 from_kernel.0
                from_kernel.1 apart_again still_free b
              ∙ unchanged b k) in
          record {
            tree =
                given_back-Tree end root bound p h.after h.tree
                  (mapped-Owns a p rest s tree owns given h) tree.pages.0 tree.pages.1 from_kernel.0
                  from_kernel.1 apart_again still_free;
            owns =
                given_back-Owns end root bound p h.after h.tree
                  (mapped-Owns a p rest s tree owns given h) tree.pages.0 tree.pages.1 from_kernel.0
                  from_kernel.1 apart_again still_free;
            given = (given.0, h.fewer (is_given end) given.1);
            inside = λ b k e. ap for_user (same b k) ∙ g.inside b k e;
            others = λ b k e. same b k ∙ g.others b k e;
          }
