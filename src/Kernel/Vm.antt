-- ===== src/Kernel/Vm.antt =====
-- xv6/kernel/vm.c: the page tables of processes, with the macros of riscv.h. Memory is a word for each page and
-- index; a pointer to a PTE is such a pair, and a page is its address. The list of free pages is that of
-- kalloc.c, and a page is filled as kalloc and kfree fill it. `perm` is below 1024.
pub mod Tree
pub mod Walk
pub mod Entries
pub mod Map
pub mod Empty
pub mod Addresses
pub mod Off
pub mod Cleared
pub mod Owned
pub mod Unmap
pub mod Grow
pub mod Alloc
pub mod Rounds
pub mod Uvmalloc
pub mod Process
mod Tests
use mp.Prelude.{
  ℕ, zero, suc, ◌+◌, ◌-◌, ◌*◌, ◌/◌, ◌%◌, Bool, true, false, not, ◌&&◌, ◌||◌, Option, none, some,
  List, [], ◌∷◌, ltb, leb, ◌==◌, if◌then◌else◌,
}
use mp.Kernel.Memory.{kfree, kalloc}

pub record Vm : Type 0 where
  pub words : ℕ → ℕ → ℕ
  pub free : List ℕ

abbrev pub maxva : ℕ
maxva = 274877906944

abbrev pub word_size : ℕ
word_size = 18446744073709551616

-- PX.
unfoldable pub px : ℕ → ℕ → ℕ
px zero va = va / 4096 % 512
px (suc level) va = px level (va / 512)

-- The bits PTE_V, PTE_U, and any of PTE_R, PTE_W and PTE_X.
abbrev pub pte_v : ℕ → Bool
pte_v pte = pte % 2 == 1

abbrev pub pte_u : ℕ → Bool
pte_u pte = pte / 16 % 2 == 1

abbrev pub pte_rwx : ℕ → Bool
pte_rwx pte = not (pte / 2 % 8 == 0)

unfoldable pub pa2pte : ℕ → ℕ
pa2pte pa = pa / 4096 * 1024

unfoldable pub pte2pa : ℕ → ℕ
pte2pa pte = pte / 1024 * 4096 % word_size

-- PGROUNDUP.
unfoldable pub pground_up : ℕ → ℕ
pground_up sz = (sz + 4095) % word_size / 4096 * 4096

unfoldable pub set_word : ℕ → ℕ → ℕ → (ℕ → ℕ → ℕ) → ℕ → ℕ → ℕ
set_word p i value words q j = if q == p && j == i then value else words q j

-- `memset` of a page, by words.
unfoldable pub fill_page : ℕ → ℕ → (ℕ → ℕ → ℕ) → ℕ → ℕ → ℕ
fill_page p value words q j = if q == p then value else words q j

abbrev pub next_of : List ℕ → ℕ
next_of [] = 0
next_of (p ∷ pages) = p

-- kalloc with its junk. 0 is no page.
unfoldable pub take_page : Vm → Vm × ℕ
unfolding fill_page
take_page s =
    let (free, p) = kalloc s.free in
    (
      record {
        words = if p == 0 then s.words else fill_page p 361700864190383365 s.words;
        free = free;
      },
      p,
    )

-- The memory of a page that kalloc gave, after `memset(page, 0, PGSIZE)`.
abbrev pub clear_page : ℕ → Vm → Vm
clear_page p s = record s { words = fill_page p 0 s.words }

-- The page-table pages. `none` is 0, where a page is missing.
module _ (alloc : Bool) (va : ℕ) where
  unfoldable pub walk_from : ℕ → ℕ → Vm → Vm × Option (ℕ × ℕ)
  unfolding px pte2pa pa2pte set_word take_page
  walk_from zero table s = (s, some (table, px 0 va))
  walk_from (suc level) table s =
      let i = px (suc level) va in
      let pte = s.words table i in
      let (t, p) = take_page s in
      let made = record t { words = set_word table i (pa2pte p + 1) (fill_page p 0 t.words) } in
      let below = walk_from level (pte2pa pte) s in
      let fresh = walk_from level p made in
      if pte_v pte
      then below
      else if not alloc
      then (s, none)
      else if p == 0
      then (t, none)
      else fresh

-- Outside, `none` is the panic.
unfoldable pub walk : ℕ → ℕ → Bool → Vm → Option (Vm × Option (ℕ × ℕ))
unfolding walk_from
walk table va alloc s = if leb maxva va then none else some (walk_from alloc va 2 table s)

-- What is at a pointer; 0 is an entry that is not valid.
abbrev pub entry_at : (ℕ → ℕ → ℕ) → Option (ℕ × ℕ) → ℕ
entry_at words none = 0
entry_at words (some (p, i)) = words p i

unfoldable pub walkaddr : ℕ → ℕ → Vm → ℕ
unfolding walk_from
walkaddr table va s =
    let pte = entry_at s.words (walk_from false va 2 table s).1 in
    if leb maxva va then 0 else if pte_v pte && pte_u pte then pte2pa pte else 0

module _ (perm : ℕ) where
  -- The entry is written, where it is not valid yet.
  abbrev pub write_pte : ℕ → Vm → Option (ℕ × ℕ) → Option (Vm × Bool)
  write_pte pa s none = some (s, false)
  write_pte pa s (some (p, i)) =
      if pte_v (s.words p i)
      then none
      else some (record s { words = set_word p i (pa2pte pa + (perm / 2 * 2 + 1)) s.words }, true)

  abbrev pub write_at : ℕ → Option (Vm × Option (ℕ × ℕ)) → Option (Vm × Bool)
  write_at pa none = none
  write_at pa (some (s, there)) = write_pte pa s there

  unfoldable pub map_page : ℕ → ℕ → ℕ → Vm → Option (Vm × Bool)
  unfolding walk pa2pte set_word
  map_page table a pa s = write_at pa (walk table a true s)

  abbrev pub map_rest : (Vm → Option (Vm × Bool)) → Option (Vm × Bool) → Option (Vm × Bool)
  map_rest next none = none
  map_rest next (some (s, false)) = some (s, false)
  map_rest next (some (s, true)) = next s

  -- The loop, over `n` pages.
  unfoldable pub map_from : ℕ → ℕ → ℕ → ℕ → Vm → Option (Vm × Bool)
  unfolding map_page
  map_from table zero a pa s = some (s, true)
  map_from table (suc n) a pa s =
      map_rest (λ t. map_from table n (a + 4096) (pa + 4096) t) (map_page table a pa s)

  -- `true` is 0.
  unfoldable pub mappages : ℕ → ℕ → ℕ → ℕ → Vm → Option (Vm × Bool)
  unfolding map_from
  mappages table va size pa s =
      if not (va % 4096 == 0) || not (size % 4096 == 0) || size == 0
      then none
      else map_from table (size / 4096) va pa s

-- 0 is no memory.
unfoldable pub uvmcreate : Vm → Vm × ℕ
unfolding take_page fill_page
uvmcreate s = let (t, p) = take_page s in (if p == 0 then t else clear_page p t, p)

-- `PTE_R | PTE_U | xperm`.
abbrev pub user_perm : ℕ → ℕ
user_perm xperm =
    let perm = if xperm / 2 % 2 == 1 then xperm else xperm + 2 in
    if perm / 16 % 2 == 1 then perm else perm + 16

-- `end` is the first address after the kernel.
module _ (end : ℕ) where
  abbrev pub returned : ℕ → Vm → Option (List ℕ) → Option Vm
  returned pa s none = none
  returned pa s (some free) = some (record {
    words = set_word pa 0 (next_of s.free) (fill_page pa 72340172838076673 s.words);
    free = free;
  })

  -- kfree with its junk.
  unfoldable pub give_page : ℕ → Vm → Option Vm
  unfolding kfree fill_page set_word
  give_page pa s = returned pa s (kfree end pa s.free)

  abbrev pub clear_entry : ℕ → ℕ → Option Vm → Option Vm
  clear_entry p i none = none
  clear_entry p i (some s) = some (record s { words = set_word p i 0 s.words })

  abbrev pub unmap_at : Bool → Option (Vm × Option (ℕ × ℕ)) → Option Vm
  unmap_at do_free none = none
  unmap_at do_free (some (s, none)) = some s
  unmap_at do_free (some (s, some (p, i))) =
      if pte_v (s.words p i)
      then clear_entry p i (if do_free then give_page (pte2pa (s.words p i)) s else some s)
      else some s

  unfoldable pub unmap_page : Bool → ℕ → ℕ → Vm → Option Vm
  unfolding walk give_page set_word pte2pa
  unmap_page do_free table a s = unmap_at do_free (walk table a false s)

  abbrev pub then_unmap : (Vm → Option Vm) → Option Vm → Option Vm
  then_unmap next none = none
  then_unmap next (some s) = next s

  unfoldable pub unmap_from : Bool → ℕ → ℕ → ℕ → Vm → Option Vm
  unfolding unmap_page
  unmap_from do_free table zero a s = some s
  unmap_from do_free table (suc n) a s =
      then_unmap (λ t. unmap_from do_free table n (a + 4096) t) (unmap_page do_free table a s)

  unfoldable pub uvmunmap : ℕ → ℕ → ℕ → Bool → Vm → Option Vm
  unfolding unmap_from
  uvmunmap table va npages do_free s =
      if not (va % 4096 == 0) then none else unmap_from do_free table npages va s

  abbrev pub with_size : ℕ → Option Vm → Option (Vm × ℕ)
  with_size sz none = none
  with_size sz (some s) = some (s, sz)

  unfoldable pub uvmdealloc : ℕ → ℕ → ℕ → Vm → Option (Vm × ℕ)
  unfolding uvmunmap pground_up
  uvmdealloc table oldsz newsz s =
      let new = pground_up newsz in
      let old = pground_up oldsz in
      if leb oldsz newsz
      then some (s, oldsz)
      else if ltb new old
      then with_size newsz (uvmunmap table new ((old - new) / 4096) true s)
      else some (s, newsz)

  abbrev pub undone : Option (Vm × ℕ) → Option (Vm × ℕ)
  undone none = none
  undone (some (s, sz)) = some (s, 0)

  abbrev pub freed_then : (Vm → Option (Vm × ℕ)) → Option Vm → Option (Vm × ℕ)
  freed_then next none = none
  freed_then next (some s) = next s

  abbrev pub mapped_then :
      (Vm → Option (Vm × ℕ)) → (Vm → Option (Vm × ℕ)) → Option (Vm × Bool) → Option (Vm × ℕ)
  mapped_then next undo none = none
  mapped_then next undo (some (s, ok)) = if ok then next s else undo s

  -- The loop of uvmalloc, with `n` pages to go.
  unfoldable pub grow_from : ℕ → ℕ → ℕ → ℕ → ℕ → ℕ → Vm → Option (Vm × ℕ)
  unfolding mappages take_page fill_page give_page uvmdealloc
  grow_from table perm oldsz newsz zero a s = some (s, newsz)
  grow_from table perm oldsz newsz (suc n) a s =
      let (t, p) = take_page s in
      let undo = undone (uvmdealloc table a oldsz t) in
      let made =
        mapped_then (λ u. grow_from table perm oldsz newsz n (a + 4096) u)
          (λ u. freed_then (λ v. undone (uvmdealloc table a oldsz v)) (give_page p u))
          (mappages perm table a 4096 p (clear_page p t)) in
      if p == 0 then undo else made

  unfoldable pub uvmalloc : ℕ → ℕ → ℕ → ℕ → Vm → Option (Vm × ℕ)
  unfolding grow_from pground_up
  uvmalloc table oldsz newsz xperm s =
      let old = pground_up oldsz in
      if ltb newsz oldsz
      then some (s, oldsz)
      else grow_from table (user_perm xperm) old newsz ((newsz + 4095 - old) / 4096) old s

  abbrev pub free_entry : (ℕ → Vm → Option Vm) → ℕ → ℕ → Vm → Option Vm
  free_entry below table i s =
      let pte = s.words table i in
      if pte_v pte
      then (if pte_rwx pte then none else clear_entry table i (below (pte2pa pte) s))
      else some s

  -- The loop over the entries from `i` on, with `n` to go.
  unfoldable pub free_entries : (ℕ → Vm → Option Vm) → ℕ → ℕ → ℕ → Vm → Option Vm
  unfolding set_word pte2pa
  free_entries below table zero i s = some s
  free_entries below table (suc n) i s =
      then_unmap (λ t. free_entries below table n (suc i) t) (free_entry below table i s)

  -- `level` levels of tables; an entry without R, W and X is not followed below the last of them: it panics as a leaf does.
  unfoldable pub freewalk : ℕ → ℕ → Vm → Option Vm
  unfolding free_entries give_page
  freewalk zero table s = none
  freewalk (suc level) table s =
      then_unmap (give_page table) (free_entries (freewalk level) table 512 0 s)

  unfoldable pub uvmfree : ℕ → ℕ → Vm → Option Vm
  unfolding uvmunmap freewalk pground_up
  uvmfree table sz s =
      then_unmap (freewalk 3 table)
        (if ltb 0 sz then uvmunmap table 0 (pground_up sz / 4096) true s else some s)

-- `~PTE_U`.
abbrev pub without_u : ℕ → ℕ
without_u pte = if pte_u pte then pte - 16 else pte

abbrev pub guard_at : Option (Vm × Option (ℕ × ℕ)) → Option Vm
guard_at none = none
guard_at (some (s, none)) = none
guard_at (some (s, some (p, i))) =
    some (record s { words = set_word p i (without_u (s.words p i)) s.words })

unfoldable pub uvmclear : ℕ → ℕ → Vm → Option Vm
unfolding walk set_word
uvmclear table va s = guard_at (walk table va false s)
