-- ===== src/Kernel/Memory.antt =====
-- xv6/kernel/kalloc.c: the list of free pages, and proc.c: `growproc`, on the answers of uvmalloc and
-- uvmdealloc. A page is its address, 0 is none; `end` is the first address after the kernel. What the
-- pages hold is not modelled.
use mp.Prelude.{
  ℕ, ◌+◌, ◌-◌, ◌%◌, Bool, true, false, not, ◌&&◌, ◌||◌, Option, none, some, List, [], ◌∷◌, ltb, leb,
  ◌==◌, if◌then◌else◌,
}

abbrev pub phystop : ℕ
phystop = 2281701376

-- `none` is the panic.
unfoldable pub kfree : ℕ → ℕ → List ℕ → Option (List ℕ)
kfree end pa pages =
    if not (pa % 4096 == 0) || (ltb pa end || leb phystop pa) then none else some (pa ∷ pages)

unfoldable pub kalloc : List ℕ → List ℕ × ℕ
kalloc [] = ([], 0)
kalloc (r ∷ pages) = (pages, r)

abbrev pub trapframe_address : ℕ
trapframe_address = 274877898752

-- Where `uvmalloc` is asked; 0 says that it failed.
abbrev pub grown_to : Bool → ℕ → ℕ → ℕ × Bool
grown_to too_large new sz = if too_large || new == 0 then (sz, false) else (new, true)

-- The new size, and `true` for 0. `n` is the size of the change.
unfoldable pub growproc : (ℕ → ℕ → ℕ) → (ℕ → ℕ) → Bool → ℕ → ℕ → ℕ × Bool
growproc uvmalloc uvmdealloc shrinks n sz =
    if not shrinks && not (n == 0)
    then grown_to (ltb trapframe_address (sz + n)) (uvmalloc sz (sz + n)) sz
    else (
      if shrinks then uvmdealloc ((sz + 18446744073709551616 - n) % 18446744073709551616) else sz,
      true,
    )
