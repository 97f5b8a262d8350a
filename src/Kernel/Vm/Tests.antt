-- ===== src/Kernel/Vm/Tests.antt =====
-- Page tables at concrete inputs.
use mp.Prelude.{
  ℕ, Bool, true, false, Option, none, some, [], ◌∷◌, ◌≡◌, ◌∙◌, ltb, refl, ap, subst, arith,
}
use mp.Kernel.Vm.{
  Vm, maxva, pte_v, pte2pa, pa2pte, walkaddr, mappages, uvmunmap, uvmalloc, pground_up, user_perm,
}
use mp.Kernel.Vm.Tree.{FreePages, Tree, Outside}
use mp.Kernel.Vm.Map.{Mapped, mappages-Mapped}
use mp.Kernel.Vm.Empty.{Tree-zeros, Outside-zeros, entry_of-zeros}
use mp.Kernel.Vm.Walk.{entry_of}
use mp.Kernel.Vm.Addresses.{walkaddr-mappages}
use mp.Kernel.Vm.Owned.{Owns}
use mp.Kernel.Vm.Unmap.{Freed, uvmunmap-Freed}
use mp.Kernel.Vm.Rounds.{Grown}
use mp.Kernel.Vm.Uvmalloc.{uvmalloc-Grown}
use mp.Kernel.Vm.Grow.{mappages-Owns}
use mp.Kernel.Vm.Process.{
  trampoline_va, trapframe_va, proc_pagetable, Ready, proc_pagetable-Ready, Ready-Owns,
}

-- A table without entries, and three free pages; the kernel ends below.
abbrev root : ℕ
root = 2148532224

abbrev no_words : ℕ → ℕ → ℕ
no_words p i = 0

abbrev empty : Vm
empty = record { words = no_words; free = 2148536320 ∷ 2148540416 ∷ 2148544512 ∷ [] }

empty-Tree : Tree empty.words root empty.free
empty-Tree =
    Tree-zeros empty.words root (λ j. refl) empty.free (refl, (refl, (refl, tt)))
      (
        refl,
        omega arith,
        omega arith,
        (refl, (refl, tt)),
        (refl, omega arith, omega arith, (refl, tt), (refl, omega arith, omega arith, tt, tt)),
      )

empty-invalid : (b : ℕ) → pte_v (entry_of root empty.words b) ≡ false
empty-invalid b = ap pte_v (entry_of-zeros empty.words root (λ j. refl) b)

-- One page for users at 0x3000, read and write.
abbrev page : ℕ
page = 2148548608

abbrev state_of : Option (Vm × Bool) → Vm
state_of none = empty
state_of (some (s, ok)) = s

abbrev with_page : Vm
with_page = state_of (mappages 22 root 12288 4096 page empty)

maps : mappages 22 root 12288 4096 page empty ≡ some (with_page, true)
unfolding mappages mp.Kernel.Memory.kalloc
maps = refl

mappages-Mapped_example : Mapped root 22 12288 page 1 empty (mappages 22 root 12288 4096 page empty)
mappages-Mapped_example =
    mappages-Mapped root 22 12288 4096 page empty empty-Tree refl refl (omega arith) (omega arith)
      (λ b h k l. empty-invalid b)

walkaddr-mappages_example : walkaddr root 12300 with_page ≡ page
walkaddr-mappages_example =
    walkaddr-mappages root 22 12288 4096 page empty with_page empty-Tree refl refl (omega arith)
      (omega arith) (λ b h k l. empty-invalid b) (omega arith) refl refl (omega arith) maps 12300
      (omega arith)

one_page : Mapped root 22 12288 page 1 empty (mappages 22 root 12288 4096 page empty)
one_page =
    mappages-Mapped root 22 12288 4096 page empty empty-Tree refl refl (omega arith) (omega arith)
      (λ b h k l. empty-invalid b)

-- The kernel ends at 0x80021000.
abbrev end : ℕ
end = 2147618816

empty-Owns : Owns end root maxva empty.words empty.free
empty-Owns = record {
  given = λ b h e. let f = empty-invalid b in cc;
  in_use = λ b h e. let f = empty-invalid b in cc;
  no_table = λ b h e xs q k l. let f = empty-invalid b in cc;
  apart = λ a b h k e f d. let g = empty-invalid a in cc;
}

page-Outside : Outside page empty.words root empty.free
page-Outside =
    Outside-zeros empty.words root (λ j. refl) page empty.free (refl, (refl, (refl, tt))) refl

is_after : one_page.after ≡ with_page
is_after = let e = one_page.result in let f = maps in cc

with_page-Owns : Owns end root maxva with_page.words with_page.free
with_page-Owns =
    subst (λ s. Owns end root maxva s.words s.free) is_after
      (mappages-Owns end root maxva 22 12288 page (omega arith) empty empty-Owns (omega arith) refl
        (omega arith) (omega arith) page-Outside (λ b h e. let f = empty-invalid b in cc) one_page)

uvmunmap-Freed_example :
    Freed end root maxva 2 8192 with_page (uvmunmap end root 8192 2 true with_page)
uvmunmap-Freed_example =
    uvmunmap-Freed end root maxva 8192 2 with_page
      (subst (λ s. Tree s.words root s.free) is_after one_page.tree) with_page-Owns (omega arith)
      (omega arith) refl (omega arith)

-- A process whose table has the trampoline, a page of the kernel's text at 0x80008000, and a trapframe.
abbrev start : Vm
start = record {
  words = no_words;
  free =
      2148532224 ∷ 2148536320 ∷ 2148540416 ∷ 2148544512 ∷ 2148548608 ∷ 2148552704 ∷ 2148556800 ∷ [];
}

start-FreePages : FreePages start.free
start-FreePages = ground arith

abbrev vm_of : Option (Vm × ℕ) → Vm
vm_of none = empty
vm_of (some (s, n)) = s

abbrev process : Vm
process = vm_of (proc_pagetable end 2147516416 2148560896 start)

makes : proc_pagetable end 2147516416 2148560896 start ≡ some (process, root)
unfolding proc_pagetable mp.Kernel.Memory.kalloc
makes = refl

process-Ready : Ready end 2147516416 2148560896 root process
process-Ready =
    proc_pagetable-Ready end 2147516416 2148560896 start process root start-FreePages
      (refl, (refl, (refl, (refl, (refl, (refl, (refl, tt))))))) makes refl

-- The entry of the trampoline is valid, and its page is not one that kfree takes.
trampoline_valid : pte_v (entry_of root process.words trampoline_va) ≡ true
trampoline_valid = ap pte_v process-Ready.at_trampoline ∙ (unfold pa2pte in refl)

trampoline_page : ltb (pte2pa (entry_of root process.words trampoline_va)) end ≡ true
trampoline_page =
    ap (λ x. ltb (pte2pa x) end) process-Ready.at_trampoline ∙ (unfold pte2pa pa2pte in refl)

-- Two pages, and two tables for them, are free.
uvmalloc-Grown_example :
    Grown end root trapframe_va
      (user_perm 4)
      0
      5000
      process
      8192
      (uvmalloc end root 0 5000 4 process)
unfolding pground_up
uvmalloc-Grown_example =
    uvmalloc-Grown end root trapframe_va 0 5000 4 process refl (omega arith) (omega arith)
      process-Ready.tree (Ready-Owns end 2147516416 2148560896 root process process-Ready)
      process-Ready.given (omega arith) (omega arith) (omega arith)
      (λ b h e. process-Ready.below b (ground arith))

abbrev size_of : Option (Vm × ℕ) → ℕ
size_of none = 1
size_of (some (s, sz)) = sz

grows : size_of (uvmalloc end root 0 5000 4 process) ≡ 5000
unfolding uvmalloc proc_pagetable mp.Kernel.Memory.kalloc mp.Kernel.Memory.kfree
grows = refl

-- There is no memory for the third page.
returns_none : size_of (uvmalloc end root 0 9000 4 process) ≡ 0
unfolding uvmalloc proc_pagetable mp.Kernel.Memory.kalloc mp.Kernel.Memory.kfree
returns_none = refl
