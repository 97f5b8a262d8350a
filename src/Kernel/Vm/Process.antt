-- ===== src/Kernel/Vm/Process.antt =====
-- xv6/kernel/proc.c: proc_pagetable, and the table that uvmalloc gets from it. The trampoline is a page of the
-- kernel's text, below `end`.
use mp.Prelude.{
  ℕ, ◌<◌, Bool, true, false, Option, none, some, List, [], ◌∷◌, ◌==◌, ◌≡◌, ◌∙◌, inl, inr, refl, ap,
  sym, subst, arith, if◌then◌else◌, Bool-cases,
}
use mp.Kernel.Memory.{kalloc}
use mp.Kernel.Vm.{Vm, pte_v, take_page, uvmcreate, mappages, then_unmap, uvmunmap, uvmfree}
use mp.Kernel.Vm.Tree.{FreePages, Tree, All}
use mp.Kernel.Vm.Walk.{entry_of, free-cases}
use mp.Kernel.Vm.Entries.{pte_for}
use mp.Kernel.Vm.Map.{mapped, mapped-inside, mapped-outside, Mapped, mappages-Mapped}
use mp.Kernel.Vm.Owned.{Owns}
use mp.Kernel.Vm.Empty.{uvmcreate-Tree, uvmcreate-free}
use mp.Kernel.Vm.Rounds.{is_given}

-- TRAMPOLINE and TRAPFRAME.
abbrev pub trampoline_va : ℕ
trampoline_va = 274877902848

abbrev pub trapframe_va : ℕ
trapframe_va = 274877898752

module _ (end : ℕ) where
  abbrev pub no_table : Option Vm → Option (Vm × ℕ)
  no_table none = none
  no_table (some s) = some (s, 0)

  abbrev pub trapframe_mapped : ℕ → Option (Vm × Bool) → Option (Vm × ℕ)
  trapframe_mapped table none = none
  trapframe_mapped table (some (s, ok)) =
      if ok
      then some (s, table)
      else no_table
          (then_unmap end (λ t. uvmfree end table 0 t) (uvmunmap end table trampoline_va 1 false s))

  abbrev pub trampoline_mapped : ℕ → ℕ → Option (Vm × Bool) → Option (Vm × ℕ)
  trampoline_mapped table trapframe none = none
  trampoline_mapped table trapframe (some (s, ok)) =
      if ok
      then trapframe_mapped table (mappages 6 table trapframe_va 4096 trapframe s)
      else no_table (uvmfree end table 0 s)

  -- The table; 0 is no table.
  unfoldable pub proc_pagetable : ℕ → ℕ → Vm → Option (Vm × ℕ)
  unfolding uvmcreate mappages uvmunmap uvmfree
  proc_pagetable trampoline trapframe s =
      let (t, table) = uvmcreate s in
      if table == 0
      then some (t, 0)
      else trampoline_mapped table trapframe (mappages 10 table trampoline_va 4096 trampoline t)

module _ (end trampoline trapframe : ℕ) where
  -- The trampoline and the trapframe are mapped, not for the user, and nothing below.
  pub record Ready (table : ℕ) (s : Vm) : Type 0 where
    pub tree : Tree s.words table s.free
    pub given : All (is_given end) s.free
    pub below : (b : ℕ) → b < trapframe_va → pte_v (entry_of table s.words b) ≡ false
    pub at_trapframe : entry_of table s.words trapframe_va ≡ pte_for 6 trapframe
    pub at_trampoline : entry_of table s.words trampoline_va ≡ pte_for 10 trampoline

  no_table-zero : (r : Option Vm) (t : Vm) (q : ℕ) → no_table end r ≡ some (t, q) → (q == 0) ≡ true
  no_table-zero none t q e = absurd cc
  no_table-zero (some s) t q e = let f : q ≡ 0 = cc in ground arith

  mapped-first :
      (table perm va pa before : ℕ) → mapped table perm va pa 1 before va ≡ pte_for perm pa
  mapped-first table perm va pa before =
      mapped-inside table perm va pa 1 before va (ground arith) ∙ ap (pte_for perm) (ground arith)

  trapframe-step :
      (table : ℕ) (s : Vm)
      → (m : Mapped table 6 trapframe_va trapframe 1 s
          (mappages 6 table trapframe_va 4096 trapframe s))
      → m.ok ≡ true
      → All (is_given end) s.free
      → ((b : ℕ) → b < trampoline_va → pte_v (entry_of table s.words b) ≡ false)
      → entry_of table s.words trampoline_va ≡ pte_for 10 trampoline
      → Ready table m.after
  trapframe-step table s m ok given below top = record {
    tree = m.tree;
    given = m.fewer (is_given end) given;
    below = λ b h.
        ap pte_v (
          m.entries b (omega arith)
          ∙ mapped-outside table 6 trapframe_va trapframe m.count (entry_of table s.words b) b
              (ground arith))
        ∙ below b (omega arith);
    at_trapframe =
        m.entries trapframe_va (omega arith)
        ∙ ap
            (λ n.
              mapped table 6 trapframe_va trapframe n (entry_of table s.words trapframe_va)
                trapframe_va)
            (m.all ok)
        ∙ mapped-first table 6 trapframe_va trapframe (entry_of table s.words trapframe_va);
    at_trampoline =
        m.entries trampoline_va (omega arith)
        ∙ ap
            (λ n.
              mapped table 6 trapframe_va trapframe n (entry_of table s.words trampoline_va)
                trampoline_va)
            (m.all ok)
        ∙ mapped-outside table 6 trapframe_va trapframe 1 (entry_of table s.words trampoline_va)
            trampoline_va refl
        ∙ top;
  }

  trapframe-Ready :
      (table : ℕ) (s t : Vm) (q : ℕ)
      → Tree s.words table s.free
      → All (is_given end) s.free
      → ((b : ℕ) → b < trampoline_va → pte_v (entry_of table s.words b) ≡ false)
      → entry_of table s.words trampoline_va ≡ pte_for 10 trampoline
      → trapframe_mapped end table (mappages 6 table trapframe_va 4096 trapframe s) ≡ some (t, q)
      → (q == 0) ≡ false
      → Ready q t
  trapframe-Ready table s t q tree given below top e f =
      let m =
        mappages-Mapped table 6 trapframe_va 4096 trapframe s tree refl refl (omega arith)
          (omega arith) (λ b h k l. below b (omega arith)) in
      let e' = sym (ap (trapframe_mapped end table) m.result) ∙ e in
      elim (Bool-cases m.ok) [
        | inr failed ↦ absurd (
            let g =
              no_table-zero
                (then_unmap end (λ u. uvmfree end table 0 u)
                  (uvmunmap end table trampoline_va 1 false m.after))
                t q (sym (ap (λ c. trapframe_mapped end table (some (m.after, c))) failed) ∙ e') in
            cc)
        | inl ok ↦
            let e'' = sym (ap (λ c. trapframe_mapped end table (some (m.after, c))) ok) ∙ e' in
            let ready = trapframe-step table s m ok given below top in
            let after : m.after ≡ t = cc in
            let same : table ≡ q = cc in
            subst (λ u. Ready q u) after (subst (λ x. Ready x m.after) same ready)
      ]

  trampoline-Ready :
      (table : ℕ) (s t : Vm) (q : ℕ)
      → Tree s.words table s.free
      → All (is_given end) s.free
      → ((b : ℕ) → entry_of table s.words b ≡ 0)
      → trampoline_mapped end table trapframe (mappages 10 table trampoline_va 4096 trampoline s)
        ≡ some (t, q)
      → (q == 0) ≡ false
      → Ready q t
  trampoline-Ready table s t q tree given zeros e f =
      let m =
        mappages-Mapped table 10 trampoline_va 4096 trampoline s tree refl refl (omega arith)
          (omega arith) (λ b h k l. ap pte_v (zeros b)) in
      let e' = sym (ap (trampoline_mapped end table trapframe) m.result) ∙ e in
      elim (Bool-cases m.ok) [
        | inr failed ↦ absurd (
            let g = no_table-zero (uvmfree end table 0 m.after) t q (
              sym (ap (λ c. trampoline_mapped end table trapframe (some (m.after, c))) failed)
              ∙ e') in
            cc)
        | inl ok ↦
            trapframe-Ready table m.after t q m.tree (m.fewer (is_given end) given)
              (λ b h. ap pte_v (
                m.entries b (omega arith)
                ∙ mapped-outside table 10 trampoline_va trampoline m.count
                    (entry_of table s.words b) b (ground arith)
                ∙ zeros b))
              (m.entries trampoline_va (omega arith)
                ∙ ap
                    (λ n.
                      mapped table 10 trampoline_va trampoline n
                        (entry_of table s.words trampoline_va) trampoline_va)
                    (m.all ok)
                ∙ mapped-first table 10 trampoline_va trampoline
                    (entry_of table s.words trampoline_va))
              (sym (ap (λ c. trampoline_mapped end table trapframe (some (m.after, c))) ok) ∙ e') f
      ]

  proc_pagetable-page :
      (s : Vm) (p : ℕ) (rest : List ℕ)
      → s.free ≡ p ∷ rest
      → FreePages (p ∷ rest)
      → proc_pagetable end trampoline trapframe s
        ≡ trampoline_mapped end p trapframe
            (mappages 10 p trampoline_va 4096 trampoline (uvmcreate s).0)
  unfolding proc_pagetable
  proc_pagetable-page s p rest e pages =
      let is_p = (uvmcreate-Tree s p rest e pages).0 in
      let some_page : (p == 0) ≡ false = (let h = pages.1 in ground arith) in
      rw (is_p, some_page) refl

  proc_pagetable-none :
      (s : Vm)
      → s.free ≡ []
      → proc_pagetable end trampoline trapframe s ≡ some (record { words = s.words; free = [] }, 0)
  unfolding proc_pagetable uvmcreate take_page kalloc
  proc_pagetable-none s e = rw e refl

  -- Where only pages that kfree takes are free, and are different ones, a table that proc_pagetable gives has
  -- the trampoline and the trapframe and nothing below them.
  pub proc_pagetable-Ready :
      (s t : Vm) (table : ℕ)
      → FreePages s.free
      → All (is_given end) s.free
      → proc_pagetable end trampoline trapframe s ≡ some (t, table)
      → (table == 0) ≡ false
      → Ready table t
  proc_pagetable-Ready s t table pages given e f = elim (free-cases s.free) [
    | inl g ↦
        absurd (let h = sym (proc_pagetable-none s g) ∙ e in let z : table ≡ 0 = cc in ground arith)
    | inr (p, rest, g) ↦
        let pages' = subst FreePages g pages in
        let made = uvmcreate-Tree s p rest g pages' in
        let some_page : (p == 0) ≡ false = (let h = pages'.1 in ground arith) in
        trampoline-Ready p (uvmcreate s).0 t table made.1
          (subst (All (is_given end)) (sym (uvmcreate-free s p rest g some_page))
            (subst (All (is_given end)) g given).1)
          made.2 (sym (proc_pagetable-page s p rest g pages') ∙ e) f
  ]

  pub Ready-Owns : (table : ℕ) (s : Vm) → Ready table s → Owns end table trapframe_va s.words s.free
  Ready-Owns table s r = record {
    given = λ b h e. let f = r.below b h in cc;
    in_use = λ b h e. let f = r.below b h in cc;
    no_table = λ b h e xs q k l. let f = r.below b h in cc;
    apart = λ a b h k e f d. let g = r.below a h in cc;
  }
