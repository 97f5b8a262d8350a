-- ===== src/Kernel/Vm/Map.antt =====
-- vm.c: what mappages does to the entries of a page table, seen as a map from addresses.
use mp.Prelude.{
  ℕ, zero, suc, ◌+◌, ◌-◌, ◌*◌, ◌/◌, ◌%◌, ◌≤◌, ◌<◌, Bool, true, false, not, ◌&&◌, ◌||◌, Option, none,
  some, [], ◌==◌, leb, ltb, ◌≡◌, ◌∙◌, inl, inr, refl, ap, sym, subst, arith, if◌then◌else◌,
  Bool-cases,
}
use mp.Kernel.Vm.{
  Vm, maxva, px, pte_v, set_word, walk_from, write_pte, write_at, map_page, map_rest, map_from,
  mappages,
}
use mp.Kernel.Vm.Tree.{node, word_of, Tree, All, Outside}
use mp.Kernel.Vm.Walk.{path, entry_of, Walked, walk-Walked}
use mp.Kernel.Vm.Entries.{
  pte_for, walk-below, written_words, Tree-set, Outside-set, entry_of-same, entry_of-other,
}

module _ (root perm : ℕ) where
  -- What a write of the entry of `a` leaves: `ok` says whether it is written.
  record Written (a pa : ℕ) (s : Vm) (r : Option (Vm × Bool)) : Type 0 where
    after : Vm
    ok : Bool
    result : r ≡ some (after, ok)
    tree : Tree after.words root after.free
    outside : (p : ℕ) → Outside p s.words root s.free → Outside p after.words root after.free
    fewer : (P : ℕ → Bool) → All P s.free → All P after.free
    entries :
        (b : ℕ)
        → b < maxva
        → entry_of root after.words b
          ≡ (if ok && b / 4096 == a / 4096 then pte_for perm pa else entry_of root s.words b)

  write_pte-free :
      (a pa p : ℕ) (t : Vm)
      → pte_v (t.words p (px 0 a)) ≡ false
      → write_pte perm pa t (some (p, px 0 a))
        ≡ some (record t { words = set_word p (px 0 a) (pte_for perm pa) t.words }, true)
  write_pte-free a pa p t e = rw e refl

  write_pte-Written :
      (a pa : ℕ) (s : Vm) (r : Vm × Option (ℕ × ℕ))
      → a < maxva
      → pte_v (entry_of root s.words a) ≡ false
      → Walked root a [] 2 s r
      → Written a pa s (write_pte perm pa r.0 r.1)
  write_pte-Written a pa s (t, none) below invalid h = record {
    after = t;
    ok = false;
    result = refl;
    tree = h.tree;
    outside = h.outside;
    fewer = h.fewer;
    entries = λ b k. h.same (path 2 b) (px 0 b) refl;
  }
  write_pte-Written a pa s (t, some (p, i)) below invalid h = elim h.found [
    | inl e ↦ cc
    | inr (q, e, there) ↦
        let is_p : q ≡ p = cc in
        let is_i : px 0 a ≡ i = cc in
        let there' : node t.words (path 2 a) (some root) ≡ some p = there ∙ ap some is_p in
        let free_entry : pte_v (t.words p (px 0 a)) ≡ false =
          ap (λ o. pte_v (word_of t.words o (px 0 a))) (sym there')
          ∙ ap pte_v (h.same (path 2 a) (px 0 a) refl)
          ∙ invalid in
        subst (λ x. Written a pa s (write_pte perm pa t (some (p, x)))) is_i
          (subst (Written a pa s) (sym (write_pte-free a pa p t free_entry)) (record {
            after = record t {
              words = written_words root a (pte_for perm pa) p t.words t.free h.tree below there';
            };
            ok = true;
            result = refl;
            tree = Tree-set root a (pte_for perm pa) p t.words t.free h.tree below there';
            outside = λ q k.
                Outside-set root a (pte_for perm pa) p t.words t.free h.tree below there' q
                  (h.outside q k);
            fewer = h.fewer;
            entries = λ b k. elim (Bool-cases (b / 4096 == a / 4096)) [
              | inl f ↦
                  entry_of-same root a (pte_for perm pa) p t.words t.free h.tree below there' b
                    (ground arith)
                  ∙ ap (λ c. if c then pte_for perm pa else entry_of root s.words b) (sym f)
              | inr f ↦
                  entry_of-other root a (pte_for perm pa) p t.words t.free h.tree below there' b k f
                  ∙ h.same (path 2 b) (px 0 b) refl
                  ∙ ap (λ c. if c then pte_for perm pa else entry_of root s.words b) (sym f)
            ];
          }))
  ]

  map_page-Written :
      (a pa : ℕ) (s : Vm)
      → Tree s.words root s.free
      → a < maxva
      → pte_v (entry_of root s.words a) ≡ false
      → Written a pa s (map_page perm root a pa s)
  unfolding map_page
  map_page-Written a pa s tree below invalid =
      subst (λ x. Written a pa s (write_at perm pa x)) (sym (walk-below root a true s below))
        (write_pte-Written a pa s (walk_from true a 2 root s) below invalid
          (walk-Walked root a s tree))

  -- The entry of `b` after `m` pages from `a` on have been mapped.
  abbrev pub mapped : ℕ → ℕ → ℕ → ℕ → ℕ → ℕ
  mapped a pa m before b =
      if leb (a / 4096) (b / 4096) && ltb (b / 4096) (a / 4096 + m)
      then pte_for perm (pa + (b / 4096 - a / 4096) * 4096)
      else before

  -- `count` pages of `n` are mapped, and all where 0 is returned.
  pub record Mapped (a pa n : ℕ) (s : Vm) (r : Option (Vm × Bool)) : Type 0 where
    pub after : Vm
    pub ok : Bool
    pub count : ℕ
    pub result : r ≡ some (after, ok)
    pub tree : Tree after.words root after.free
    pub outside : (p : ℕ) → Outside p s.words root s.free → Outside p after.words root after.free
    pub fewer : (P : ℕ → Bool) → All P s.free → All P after.free
    pub all : ok ≡ true → count ≡ n
    pub some_left : ok ≡ false → count < n
    pub entries :
        (b : ℕ)
        → b < maxva
        → entry_of root after.words b ≡ mapped a pa count (entry_of root s.words b) b

  -- No page of `n` from `a` on is mapped yet.
  abbrev pub Unmapped : ℕ → ℕ → Vm → Type 0
  Unmapped a n s =
      (b : ℕ)
      → a / 4096 ≤ b / 4096
      → b / 4096 < a / 4096 + n
      → b < maxva
      → pte_v (entry_of root s.words b) ≡ false

  pub mapped-inside :
      (a pa m before b : ℕ)
      → (leb (a / 4096) (b / 4096) && ltb (b / 4096) (a / 4096 + m)) ≡ true
      → mapped a pa m before b ≡ pte_for perm (pa + (b / 4096 - a / 4096) * 4096)
  mapped-inside a pa m before b e = rw e refl

  pub mapped-outside :
      (a pa m before b : ℕ)
      → (leb (a / 4096) (b / 4096) && ltb (b / 4096) (a / 4096 + m)) ≡ false
      → mapped a pa m before b ≡ before
  mapped-outside a pa m before b e = rw e refl

  mapped-suc :
      (a pa m before b : ℕ)
      → mapped (a + 4096) (pa + 4096) m (if b / 4096 == a / 4096 then pte_for perm pa else before) b
        ≡ mapped a pa (suc m) before b
  mapped-suc a pa m before b = elim (Bool-cases (b / 4096 == a / 4096)) [
    | inl e ↦
        let same : pa ≡ pa + (b / 4096 - a / 4096) * 4096 = ground arith in
        mapped-outside (a + 4096) (pa + 4096) m
          (if b / 4096 == a / 4096 then pte_for perm pa else before) b (ground arith)
        ∙ ap (λ c. if c then pte_for perm pa else before) e
        ∙ ap (pte_for perm) same
        ∙ sym (mapped-inside a pa (suc m) before b (ground arith))
    | inr e ↦
        ap (λ c. mapped (a + 4096) (pa + 4096) m (if c then pte_for perm pa else before) b) e
        ∙ elim (Bool-cases (leb (a / 4096) (b / 4096) && ltb (b / 4096) (a / 4096 + suc m))) [
          | inl f ↦
              let same : pa + 4096 + (b / 4096 - (a + 4096) / 4096) * 4096
                  ≡ pa + (b / 4096 - a / 4096) * 4096 =
                ground arith in
              mapped-inside (a + 4096) (pa + 4096) m before b (ground arith)
              ∙ ap (pte_for perm) same
              ∙ sym (mapped-inside a pa (suc m) before b f)
          | inr f ↦
              mapped-outside (a + 4096) (pa + 4096) m before b (ground arith)
              ∙ sym (mapped-outside a pa (suc m) before b f)
        ]
  ]

  stopped-Mapped :
      (n a pa : ℕ) (s t : Vm)
      → Tree t.words root t.free
      → ((p : ℕ) → Outside p s.words root s.free → Outside p t.words root t.free)
      → ((P : ℕ → Bool) → All P s.free → All P t.free)
      → ((b : ℕ) → b < maxva → entry_of root t.words b ≡ entry_of root s.words b)
      → Mapped a pa (suc n) s (some (t, false))
  stopped-Mapped n a pa s t tree outside fewer same = record {
    after = t;
    ok = false;
    count = 0;
    result = refl;
    tree = tree;
    outside = outside;
    fewer = fewer;
    all = λ e. cc;
    some_left = λ e. omega arith;
    entries =
        λ b k. same b k ∙ sym (mapped-outside a pa 0 (entry_of root s.words b) b (ground arith));
  }

  next-Mapped :
      (n a pa : ℕ) (s t : Vm) (r : Option (Vm × Bool))
      → ((p : ℕ) → Outside p s.words root s.free → Outside p t.words root t.free)
      → ((P : ℕ → Bool) → All P s.free → All P t.free)
      → ((b : ℕ)
          → b < maxva
          → entry_of root t.words b
            ≡ (if b / 4096 == a / 4096 then pte_for perm pa else entry_of root s.words b))
      → Mapped (a + 4096) (pa + 4096) n t r
      → Mapped a pa (suc n) s r
  next-Mapped n a pa s t r outside fewer one h = record {
    after = h.after;
    ok = h.ok;
    count = suc h.count;
    result = h.result;
    tree = h.tree;
    outside = λ p k. h.outside p (outside p k);
    fewer = λ P k. h.fewer P (fewer P k);
    all = λ e. ap suc (h.all e);
    some_left = λ e. let k = h.some_left e in omega arith;
    entries = λ b k.
        h.entries b k
        ∙ ap (λ x. mapped (a + 4096) (pa + 4096) h.count x b) (one b k)
        ∙ mapped-suc a pa h.count (entry_of root s.words b) b;
  }

  -- The first page by `one`, and the others by `rest`.
  one-Mapped :
      (n a pa : ℕ) (s t : Vm) (ok : Bool)
      → Tree t.words root t.free
      → ((p : ℕ) → Outside p s.words root s.free → Outside p t.words root t.free)
      → ((P : ℕ → Bool) → All P s.free → All P t.free)
      → ((b : ℕ)
          → b < maxva
          → entry_of root t.words b
            ≡ (if ok && b / 4096 == a / 4096 then pte_for perm pa else entry_of root s.words b))
      → (ok ≡ true
          → Mapped (a + 4096) (pa + 4096) n t (map_from perm root n (a + 4096) (pa + 4096) t))
      → Mapped a pa
          (suc n)
          s
          (map_rest perm (λ u. map_from perm root n (a + 4096) (pa + 4096) u) (some (t, ok)))
  one-Mapped n a pa s t false tree outside fewer one rest =
      stopped-Mapped n a pa s t tree outside fewer one
  one-Mapped n a pa s t true tree outside fewer one rest =
      next-Mapped n a pa s t (map_from perm root n (a + 4096) (pa + 4096) t) outside fewer one
        (rest refl)

  not_this :
      (a pa b : ℕ) (s : Vm) (ok : Bool)
      → (b / 4096 == a / 4096) ≡ false
      → (if ok && b / 4096 == a / 4096 then pte_for perm pa else entry_of root s.words b)
        ≡ entry_of root s.words b
  not_this a pa b s false e = refl
  not_this a pa b s true e = ap (λ c. if c then pte_for perm pa else entry_of root s.words b) e

  map_from-Mapped :
      (n a pa : ℕ) (s : Vm)
      → Tree s.words root s.free
      → a % 4096 ≡ 0
      → a + n * 4096 ≤ maxva
      → Unmapped a n s
      → Mapped a pa n s (map_from perm root n a pa s)
  unfolding map_from
  map_from-Mapped zero a pa s tree aligned below unmapped = record {
    after = s;
    ok = true;
    count = 0;
    result = refl;
    tree = tree;
    outside = λ p h. h;
    fewer = λ P h. h;
    all = λ e. refl;
    some_left = λ e. cc;
    entries = λ b k.
        let e : (leb (a / 4096) (b / 4096) && ltb (b / 4096) (a / 4096 + 0)) ≡ false =
          ground arith in
        ap
          (λ c.
            if c then pte_for perm (pa + (b / 4096 - a / 4096) * 4096) else entry_of root s.words b)
          (sym e);
  }
  map_from-Mapped (suc n) a pa s tree aligned below unmapped =
      let one =
        map_page-Written a pa s tree (omega arith)
          (unmapped a (omega arith) (omega arith) (omega arith)) in
      subst
        (λ r.
          Mapped a pa (suc n) s
            (map_rest perm (λ t. map_from perm root n (a + 4096) (pa + 4096) t) r))
        (sym one.result)
        (one-Mapped n a pa s one.after one.ok one.tree one.outside one.fewer one.entries (λ e.
          map_from-Mapped n (a + 4096) (pa + 4096) one.after one.tree (omega arith) (omega arith)
            (λ b h k l.
              ap pte_v (one.entries b l ∙ not_this a pa b s one.ok (ground arith))
              ∙ unmapped b (omega arith) (omega arith) l)))

  -- In a table whose pages are different ones and not free, where no page of a range of whole pages below
  -- MAXVA is mapped, mappages does not panic: it maps some first pages of the range to the pages from `pa`
  -- on, with the permissions, and leaves every other page as it is; it maps all of them where it returns 0,
  -- and fewer where it returns -1. The pages of the table are again different ones and not free.
  pub mappages-Mapped :
      (va size pa : ℕ) (s : Vm)
      → Tree s.words root s.free
      → va % 4096 ≡ 0
      → size % 4096 ≡ 0
      → 0 < size
      → va + size ≤ maxva
      → Unmapped va (size / 4096) s
      → Mapped va pa (size / 4096) s (mappages perm root va size pa s)
  unfolding mappages
  mappages-Mapped va size pa s tree aligned whole many below unmapped =
      let e : (not (va % 4096 == 0) || not (size % 4096 == 0) || size == 0) ≡ false =
        ground arith in
      rw e (map_from-Mapped (size / 4096) va pa s tree aligned (omega arith) unmapped)
