-- ===== src/Kernel/Vm/Grow.antt =====
-- vm.c: the pages that a table owns, when mappages maps one more.
use mp.Prelude.{
  ℕ, ◌+◌, ◌-◌, ◌*◌, ◌/◌, ◌%◌, ◌≤◌, ◌<◌, true, false, ◌&&◌, List, ◌==◌, leb, ltb, ◌≡◌, ◌∙◌, ◌⊎◌, inl,
  inr, ap, sym, subst, arith, Bool-cases,
}
use mp.Kernel.Memory.{phystop}
use mp.Kernel.Vm.{Vm, maxva, pte_v, pte2pa, pa2pte, mappages}
use mp.Kernel.Vm.Tree.{Outside}
use mp.Kernel.Vm.Walk.{entry_of}
use mp.Kernel.Vm.Entries.{pte_for}
use mp.Kernel.Vm.Map.{mapped, mapped-inside, mapped-outside, Mapped}
use mp.Kernel.Vm.Owned.{Owns}

pte2pa-pte_for :
    (perm pa : ℕ) → perm < 1024 → pa % 4096 ≡ 0 → pa < phystop → pte2pa (pte_for perm pa) ≡ pa
unfolding pte2pa pa2pte
pte2pa-pte_for perm pa h k l = omega arith

module _ (end root bound perm va pa : ℕ) (bound_below : bound ≤ maxva) (s : Vm)
    (owns : Owns end root bound s.words s.free) (small : perm < 1024) (aligned : pa % 4096 ≡ 0)
    (from_end : end ≤ pa) (below_top : pa < phystop) (outside : Outside pa s.words root s.free)
    (not_mapped : (b : ℕ)
      → b < bound
      → pte_v (entry_of root s.words b) ≡ true
      → (pte2pa (entry_of root s.words b) == pa) ≡ false) where
  -- What an entry is once the page of `va` has been mapped, or not.
  Case : ℕ → ℕ → Type 0
  Case b pte = ((pte ≡ pte_for perm pa) × (b / 4096 ≡ va / 4096)) ⊎ (pte ≡ entry_of root s.words b)

  mapped-Case : (m b : ℕ) → m ≤ 1 → Case b (mapped root perm va pa m (entry_of root s.words b) b)
  unfolding Case
  mapped-Case m b h =
      elim (Bool-cases (leb (va / 4096) (b / 4096) && ltb (b / 4096) (va / 4096 + m))) [
        | inl e ↦
            let same : pa + (b / 4096 - va / 4096) * 4096 ≡ pa = ground arith in
            inl (
              mapped-inside root perm va pa m (entry_of root s.words b) b e
                  ∙ ap (pte_for perm) same,
              ground arith,
            )
        | inr e ↦ inr (mapped-outside root perm va pa m (entry_of root s.words b) b e)
      ]

  module _ (w : ℕ → ℕ → ℕ) (free : List ℕ)
      (cases : (b : ℕ) → b < bound → Case b (entry_of root w b))
      (stays : (p : ℕ) → Outside p s.words root s.free → Outside p w root free) where
    fresh_page :
        (b : ℕ)
        → b < bound
        → pte_v (entry_of root w b) ≡ true
        → Outside (pte2pa (entry_of root w b)) w root free
    unfolding Case
    fresh_page b h e = elim (cases b h) [
      | inl (f, g) ↦
          subst (λ p. Outside p w root free)
            (sym (ap pte2pa f ∙ pte2pa-pte_for perm pa small aligned below_top)) (stays pa outside)
      | inr f ↦
          let v = sym (ap pte_v f) ∙ e in
          subst (λ p. Outside (pte2pa p) w root free) (sym f)
            (stays (pte2pa (entry_of root s.words b)) (owns.in_use b h v, owns.no_table b h v))
    ]

    page_given :
        (b : ℕ)
        → b < bound
        → pte_v (entry_of root w b) ≡ true
        → (pte2pa (entry_of root w b) % 4096 ≡ 0)
          × (end ≤ pte2pa (entry_of root w b))
          × (pte2pa (entry_of root w b) < phystop)
    unfolding Case
    page_given b h e = elim (cases b h) [
      | inl (f, g) ↦
          subst (λ p. (p % 4096 ≡ 0) × (end ≤ p) × (p < phystop))
            (sym (ap pte2pa f ∙ pte2pa-pte_for perm pa small aligned below_top))
            (aligned, from_end, below_top)
      | inr f ↦
          subst (λ p. (pte2pa p % 4096 ≡ 0) × (end ≤ pte2pa p) × (pte2pa p < phystop)) (sym f)
            (owns.given b h (sym (ap pte_v f) ∙ e))
    ]

    pages_apart :
        (a b : ℕ)
        → a < bound
        → b < bound
        → pte_v (entry_of root w a) ≡ true
        → pte_v (entry_of root w b) ≡ true
        → (a / 4096 == b / 4096) ≡ false
        → (pte2pa (entry_of root w a) == pte2pa (entry_of root w b)) ≡ false
    unfolding Case
    pages_apart a b h k e f d = elim (cases a h) [
      | inl (g, g') ↦ elim (cases b k) [
        | inl (l, l') ↦ absurd (ground arith)
        | inr l ↦
            let n = not_mapped b k (sym (ap pte_v l) ∙ f) in
            let is_pa = ap pte2pa g ∙ pte2pa-pte_for perm pa small aligned below_top in
            let is_old = ap pte2pa l in ground arith
      ]
      | inr g ↦ elim (cases b k) [
        | inl (l, l') ↦
            let n = not_mapped a h (sym (ap pte_v g) ∙ e) in
            let is_pa = ap pte2pa l ∙ pte2pa-pte_for perm pa small aligned below_top in
            let is_old = ap pte2pa g in ground arith
        | inr l ↦
            let n = owns.apart a b h k (sym (ap pte_v g) ∙ e) (sym (ap pte_v l) ∙ f) d in
            let is_old = ap pte2pa g in let is_old' = ap pte2pa l in ground arith
      ]
    ]

    owning : Owns end root bound w free
    owning = record {
      given = page_given;
      in_use = λ b h e. (fresh_page b h e).0;
      no_table = λ b h e. (fresh_page b h e).1;
      apart = pages_apart;
    }

  at_most_one : (h : Mapped root perm va pa 1 s (mappages perm root va 4096 pa s)) → h.count ≤ 1
  at_most_one h = elim (Bool-cases h.ok) [
    | inl e ↦ let k = h.all e in omega arith
    | inr e ↦ let k = h.some_left e in omega arith
  ]

  -- A page of the kernel that is not free, no table and not mapped yet is owned once it is mapped.
  pub mappages-Owns :
      (h : Mapped root perm va pa 1 s (mappages perm root va 4096 pa s))
      → Owns end root bound h.after.words h.after.free
  mappages-Owns h =
      owning h.after.words h.after.free
        (λ b k.
          subst (Case b) (sym (h.entries b (omega arith))) (mapped-Case h.count b (at_most_one h)))
        h.outside
