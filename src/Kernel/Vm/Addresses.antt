-- ===== src/Kernel/Vm/Addresses.antt =====
-- vm.c: walkaddr on a page table, and after mappages.
use mp.Prelude.{
  ℕ, ◌+◌, ◌-◌, ◌*◌, ◌/◌, ◌%◌, ◌≤◌, ◌<◌, true, false, ◌&&◌, Option, none, some, ◌==◌, leb, ltb, ◌≡◌,
  ◌∙◌, inl, inr, refl, ap, sym, subst, arith, if◌then◌else◌, Bool-cases,
}
use mp.Kernel.Vm.{Vm, maxva, px, pte_v, pte_u, pte2pa, pa2pte, walkaddr, entry_at, mappages}
use mp.Kernel.Vm.Tree.{node, word_of, Tree}
use mp.Kernel.Vm.Walk.{path, pointer, entry_of, walk_from-find}
use mp.Kernel.Vm.Entries.{pte_for}
use mp.Kernel.Vm.Map.{mapped, mapped-inside, mapped-outside, Mapped, Unmapped, mappages-Mapped}

entry_at-pointer : (w : ℕ → ℕ → ℕ) (o : Option ℕ) (i : ℕ) → entry_at w (pointer i o) ≡ word_of w o i
entry_at-pointer w none i = refl
entry_at-pointer w (some p) i = refl

-- What an entry gives to a user.
abbrev pub user_page : ℕ → ℕ
user_page pte = if pte_v pte && pte_u pte then pte2pa pte else 0

pub walkaddr-entry :
    (root va : ℕ) (s : Vm) → va < maxva → walkaddr root va s ≡ user_page (entry_of root s.words va)
unfolding walkaddr
walkaddr-entry root va s h =
    let e : leb maxva va ≡ false = ground arith in
    let f =
      ap (λ r. entry_at s.words r.1) (walk_from-find va 2 root s)
      ∙ entry_at-pointer s.words (node s.words (path 2 va) (some root)) (px 0 va) in
    rw e (ap user_page f)

user_page-mapped :
    (perm pa : ℕ)
    → perm < 1024
    → (perm / 16 % 2 == 1) ≡ true
    → pa % 4096 ≡ 0
    → pa < 72057594037927936
    → user_page (pte_for perm pa) ≡ pa
unfolding pa2pte pte2pa
user_page-mapped perm pa h u aligned small =
    let v : pte_v (pte_for perm pa) ≡ true = ground arith in
    let w : pte_u (pte_for perm pa) ≡ true = ground arith in
    let p : pte2pa (pte_for perm pa) ≡ pa = omega arith in rw (v, w) p

module _ (root perm va size pa : ℕ) (s t : Vm) where
  walkaddr-Mapped :
      (h : Mapped root perm va pa (size / 4096) s (some (t, true)))
      → perm < 1024
      → (perm / 16 % 2 == 1) ≡ true
      → va % 4096 ≡ 0
      → size % 4096 ≡ 0
      → va + size ≤ maxva
      → pa % 4096 ≡ 0
      → pa + size ≤ 72057594037927936
      → (b : ℕ) → b < maxva
      → walkaddr root b t
        ≡ (if leb va b && ltb b (va + size) then pa + (b - va) / 4096 * 4096 else walkaddr root b s)
  walkaddr-Mapped h small user aligned whole below pa_aligned pa_small b k =
      let is_t : h.after ≡ t = (let e = h.result in cc) in
      let is_ok : h.ok ≡ true = (let e = h.result in cc) in
      let n = h.all is_ok in
      let before = entry_of root s.words b in
      let entry : entry_of root t.words b ≡ mapped root perm va pa (size / 4096) before b =
        ap (λ x. entry_of root x.words b) (sym is_t)
        ∙ h.entries b k
        ∙ ap (λ m. mapped root perm va pa m before b) n in
      walkaddr-entry root b t k
      ∙ ap user_page entry
      ∙ elim (Bool-cases (leb va b && ltb b (va + size))) [
        | inl f ↦
            let page : pa + (b / 4096 - va / 4096) * 4096 ≡ pa + (b - va) / 4096 * 4096 =
              ground arith in
            rw f (
              ap user_page (mapped-inside root perm va pa (size / 4096) before b (ground arith))
              ∙ user_page-mapped perm (pa + (b / 4096 - va / 4096) * 4096) small user (ground arith)
                  (ground arith)
              ∙ page)
        | inr f ↦ rw f (
            ap user_page (mapped-outside root perm va pa (size / 4096) before b (ground arith))
            ∙ sym (walkaddr-entry root b s k))
      ]

  -- In a table whose pages are different ones and not free, where no page of a range of whole pages below
  -- MAXVA is mapped yet, and mappages maps it for users to whole pages of physical memory below 2 ^ 56 and
  -- returns 0: walkaddr finds for each address of the range the page that stands there from `pa` on, and for
  -- every other address below MAXVA what it found before.
  pub walkaddr-mappages :
      Tree s.words root s.free
      → va % 4096 ≡ 0
      → size % 4096 ≡ 0
      → 0 < size
      → va + size ≤ maxva
      → Unmapped root perm va (size / 4096) s
      → perm < 1024
      → (perm / 16 % 2 == 1) ≡ true
      → pa % 4096 ≡ 0
      → pa + size ≤ 72057594037927936
      → mappages perm root va size pa s ≡ some (t, true)
      → (b : ℕ) → b < maxva
      → walkaddr root b t
        ≡ (if leb va b && ltb b (va + size) then pa + (b - va) / 4096 * 4096 else walkaddr root b s)
  walkaddr-mappages tree aligned whole many below unmapped small user pa_aligned pa_small e b k =
      let h = mappages-Mapped root perm va size pa s tree aligned whole many below unmapped in
      walkaddr-Mapped (subst (Mapped root perm va pa (size / 4096) s) e h) small user aligned whole
        below pa_aligned pa_small b k
