-- ===== src/Kernel/Vm/Uvmalloc.antt =====
-- vm.c: uvmalloc.
use mp.Prelude.{
  ℕ, zero, suc, ◌+◌, ◌-◌, ◌*◌, ◌/◌, ◌%◌, ◌≤◌, ◌<◌, Bool, true, false, Option, some, List, [], ◌∷◌,
  ◌==◌, ltb, ◌≡◌, ◌∙◌, inl, inr, refl, ap, sym, subst, arith, Bool-cases,
}
use mp.Kernel.Memory.{kalloc}
use mp.Kernel.Vm.{
  Vm, maxva, pte_v, take_page, mappages, give_page, pground_up, uvmdealloc, undone, freed_then,
  mapped_then, grow_from, uvmalloc, user_perm,
}
use mp.Kernel.Vm.Tree.{Tree, All}
use mp.Kernel.Vm.Walk.{entry_of, free-cases}
use mp.Kernel.Vm.Map.{Mapped, mappages-Mapped}
use mp.Kernel.Vm.Owned.{Owns}
use mp.Kernel.Vm.Alloc.{taken, taken-entry, taken-Tree}
use mp.Kernel.Vm.Rounds.{
  is_given, grows_at, Growing, Grown, undo-Grown, grown-Growing, back, back_result, back-Growing,
}

module _ (end root bound xperm old newsz : ℕ) where
  grow_from-none :
      (n a : ℕ) (s : Vm)
      → s.free ≡ []
      → grow_from end root xperm old newsz (suc n) a s
        ≡ undone end (uvmdealloc end root a old (record { words = s.words; free = [] }))
  unfolding grow_from take_page kalloc
  grow_from-none n a s e = rw e refl

  abbrev next_round : ℕ → ℕ → ℕ → Option (Vm × Bool) → Option (Vm × ℕ)
  next_round n a p r =
      mapped_then end (λ u. grow_from end root xperm old newsz n (a + 4096) u)
        (λ u. freed_then end (λ v. undone end (uvmdealloc end root a old v)) (give_page end p u)) r

  grow_from-page :
      (n a p : ℕ) (rest : List ℕ) (s : Vm) (tree : Tree s.words root (p ∷ rest))
      (owns : Owns end root bound s.words (p ∷ rest))
      → s.free ≡ p ∷ rest
      → (p == 0) ≡ false
      → grow_from end root xperm old newsz (suc n) a s
        ≡ next_round n a p (
            mappages xperm root a 4096 p
              (record { words = taken end root bound p rest s.words tree owns; free = rest }))
  unfolding grow_from take_page kalloc
  grow_from-page n a p rest s tree owns e f = rw (e, f) refl

  module _ (s0 : Vm) (bound_below : bound ≤ maxva) (positive : 0 < end)
      (old_aligned : old % 4096 ≡ 0) (user : (xperm / 16 % 2 == 1) ≡ true) (small : xperm < 1024)
      (top : ℕ) (top_below : top ≤ bound)
      (unmapped : (b : ℕ)
        → b < maxva
        → grows_at old top b ≡ true
        → pte_v (entry_of root s0.words b) ≡ false) where
    -- A round for which a page is free, and the rounds after it.
    round-Grown :
        (n a p : ℕ) (rest : List ℕ) (s : Vm)
        → a % 4096 ≡ 0
        → old ≤ a
        → a + 4096 ≤ top
        → (g : Growing end root bound xperm old newsz s0 a s)
        → (tree : Tree s.words root (p ∷ rest)) → (owns : Owns end root bound s.words (p ∷ rest))
        → All (is_given end) (p ∷ rest)
        → (m : Mapped root xperm a p 1
            (record { words = taken end root bound p rest s.words tree owns; free = rest })
            (mappages xperm root a 4096 p
              (record { words = taken end root bound p rest s.words tree owns; free = rest })))
        → ((t : Vm)
            → Growing end root bound xperm old newsz s0 (a + 4096) t
            → Grown end root bound xperm old newsz s0 top
                (grow_from end root xperm old newsz n (a + 4096) t))
        → Grown end root bound xperm old newsz s0 top (
            next_round n a p (
              mappages xperm root a 4096 p
                (record { words = taken end root bound p rest s.words tree owns; free = rest })))
    round-Grown n a p rest s aligned from below g tree owns given m rounds =
        elim (Bool-cases m.ok) [
          | inl ok ↦
              subst (Grown end root bound xperm old newsz s0 top)
                (sym (ap (next_round n a p) (m.result ∙ ap (λ c. some (m.after, c)) ok)))
                (rounds m.after (
                  grown-Growing end root bound xperm old newsz s0 bound_below positive old_aligned
                    user small top top_below unmapped a p rest s aligned from below g tree owns
                    given m ok))
          | inr failed ↦
              subst (Grown end root bound xperm old newsz s0 top)
                (sym (
                  ap (next_round n a p) (m.result ∙ ap (λ c. some (m.after, c)) failed)
                  ∙ ap (freed_then end (λ v. undone end (uvmdealloc end root a old v))) (
                      back_result end root bound xperm old newsz s0 bound_below positive old_aligned
                        user small top top_below unmapped a p rest s g tree owns given m failed)))
                (undo-Grown end root bound xperm old newsz s0 bound_below positive old_aligned user
                  small top top_below unmapped a
                  (back end root bound xperm old newsz s0 bound_below positive old_aligned user
                    small top top_below unmapped a p rest s g tree owns given m failed)
                  aligned from (omega arith)
                  (back-Growing end root bound xperm old newsz s0 bound_below positive old_aligned
                    user small top top_below unmapped a p rest s g tree owns given m failed))
        ]

    page-Mapped :
        (a p : ℕ) (rest : List ℕ) (s : Vm)
        → a % 4096 ≡ 0
        → old ≤ a
        → a + 4096 ≤ top
        → Growing end root bound xperm old newsz s0 a s
        → (tree : Tree s.words root (p ∷ rest)) → (owns : Owns end root bound s.words (p ∷ rest))
        → Mapped root xperm a p 1
            (record { words = taken end root bound p rest s.words tree owns; free = rest })
            (mappages xperm root a 4096 p
              (record { words = taken end root bound p rest s.words tree owns; free = rest }))
    page-Mapped a p rest s aligned from below g tree owns =
        mappages-Mapped root xperm a 4096 p
          (record { words = taken end root bound p rest s.words tree owns; free = rest })
          (taken-Tree end root bound p rest s.words tree owns) aligned refl (omega arith)
          (omega arith)
          (λ b h k l.
            ap pte_v
              (taken-entry end root bound p rest s.words tree owns b ∙ g.others b l (ground arith))
            ∙ unmapped b l (ground arith))

    grow_from-Grown :
        (n a : ℕ) (s : Vm)
        → a % 4096 ≡ 0
        → old ≤ a
        → a + n * 4096 ≡ top
        → Growing end root bound xperm old newsz s0 a s
        → Grown end root bound xperm old newsz s0 top (grow_from end root xperm old newsz n a s)
    unfolding grow_from
    grow_from-Grown zero a s aligned from to g =
        let is_top : a ≡ top = omega arith in
        record {
          after = s;
          sz = newsz;
          result = refl;
          tree = g.tree;
          owns = g.owns;
          all_or_none = inl (refl, λ b h e. g.inside b h (ap (λ x. grows_at old x b) is_top ∙ e));
          others = λ b h e. g.others b h (ap (λ x. grows_at old x b) is_top ∙ e);
        }
    grow_from-Grown (suc n) a s aligned from to g = elim (free-cases s.free) [
      | inl e ↦ subst (Grown end root bound xperm old newsz s0 top) (sym (grow_from-none n a s e)) (
          undo-Grown end root bound xperm old newsz s0 bound_below positive old_aligned user small
            top top_below unmapped a (record { words = s.words; free = [] }) aligned from
            (omega arith)
            (record {
              tree = subst (Tree s.words root) e g.tree;
              owns = subst (Owns end root bound s.words) e g.owns;
              given = tt;
              inside = g.inside;
              others = g.others;
            }))
      | inr (p, rest, e) ↦
          let tree = subst (Tree s.words root) e g.tree in
          let owns = subst (Owns end root bound s.words) e g.owns in
          let some_page : (p == 0) ≡ false = (let h = tree.pages.1 in ground arith) in
          subst (Grown end root bound xperm old newsz s0 top)
            (sym (grow_from-page n a p rest s tree owns e some_page))
            (round-Grown n a p rest s aligned from (omega arith) g tree owns
              (subst (All (is_given end)) e g.given)
              (page-Mapped a p rest s aligned from (omega arith) g tree owns)
              (λ t h. grow_from-Grown n (a + 4096) t (omega arith) (omega arith) (omega arith) h))
    ]

round_up :
    (bound oldsz newsz : ℕ)
    → bound % 4096 ≡ 0
    → bound ≤ maxva
    → oldsz ≤ newsz
    → newsz ≤ bound
    → (pground_up oldsz % 4096 ≡ 0)
      × (pground_up oldsz + (newsz + 4095 - pground_up oldsz) / 4096 * 4096 ≡ pground_up newsz)
      × (pground_up newsz ≤ bound)
unfolding pground_up
round_up bound oldsz newsz whole small h k = omega arith

user_perm_bits :
    (xperm : ℕ) → xperm < 1024 → ((user_perm xperm / 16 % 2 == 1) ≡ true) × (user_perm xperm < 1024)
user_perm_bits xperm h = (ground arith, ground arith)

uvmalloc-loop :
    (end root oldsz newsz xperm : ℕ) (s : Vm)
    → oldsz ≤ newsz
    → uvmalloc end root oldsz newsz xperm s
      ≡ grow_from end root
          (user_perm xperm)
          (pground_up oldsz)
          newsz
          ((newsz + 4095 - pground_up oldsz) / 4096)
          (pground_up oldsz)
          s
unfolding uvmalloc
uvmalloc-loop end root oldsz newsz xperm s h =
    let e : ltb newsz oldsz ≡ false = ground arith in rw e refl

-- uvmalloc grows a process in whole or not at all. `bound` is where the pages of the process end, such as
-- TRAPFRAME: a multiple of the page size, at most MAXVA. Nothing is asked of what is mapped from there on.
-- Where the process is to grow to at most `bound`, no page beyond its size is mapped up to the new one, the
-- table owns its pages below `bound`, its tables are different pages and not free, only pages that kfree takes
-- are free, and `xperm` is below 1024: uvmalloc does not panic. Either it returns the new size, and every page
-- up to it is mapped for the user; or it returns 0, and no page beyond the old size is mapped up to the new
-- one. All other entries below MAXVA are as before, and the table owns its pages below `bound` again.
pub uvmalloc-Grown :
    (end root bound oldsz newsz xperm : ℕ) (s : Vm)
    → bound % 4096 ≡ 0
    → bound ≤ maxva
    → 0 < end
    → Tree s.words root s.free
    → Owns end root bound s.words s.free
    → All (is_given end) s.free
    → oldsz ≤ newsz
    → newsz ≤ bound
    → xperm < 1024
    → ((b : ℕ)
        → b < maxva
        → grows_at (pground_up oldsz) (pground_up newsz) b ≡ true
        → pte_v (entry_of root s.words b) ≡ false)
    → Grown end root bound
        (user_perm xperm)
        (pground_up oldsz)
        newsz
        s
        (pground_up newsz)
        (uvmalloc end root oldsz newsz xperm s)
uvmalloc-Grown end root bound oldsz newsz xperm s whole_pages bound_below positive tree owns given
      grows below small unmapped =
    let p = user_perm_bits xperm small in
    let (aligned, whole, top_below) =
      round_up bound oldsz newsz whole_pages bound_below grows below in
    subst (Grown end root bound (user_perm xperm) (pground_up oldsz) newsz s (pground_up newsz))
      (sym (uvmalloc-loop end root oldsz newsz xperm s grows))
      (grow_from-Grown end root bound (user_perm xperm) (pground_up oldsz) newsz s bound_below
        positive aligned p.0 p.1 (pground_up newsz) top_below unmapped
        ((newsz + 4095 - pground_up oldsz) / 4096) (pground_up oldsz) s aligned (omega arith) whole
        (record {
          tree = tree;
          owns = owns;
          given = given;
          inside = λ b h e. absurd (ground arith);
          others = λ b h e. refl;
        }))
