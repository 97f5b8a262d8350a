-- ===== src/Kernel/Vm/Tree.antt =====
-- vm.c: the tree that a page table is, and what a write into one of its pages does to it.
use mathlib.Core.List.{append_assoc}
use mp.Prelude.{
  Bool, ℕ, ◌+◌, ◌%◌, ◌≤◌, ◌<◌, true, false, ◌&&◌, Option, none, some, List, [], ◌∷◌, ◌++◌, ◌==◌,
  ◌≡◌, ◌∙◌, ◌⊎◌, inl, inr, refl, ap, sym, subst, arith, if◌then◌else◌, Bool-cases, length,
  length-append,
}
use mp.Kernel.Vm.{pte_v, pte2pa, pa2pte}

-- The page below an entry.
abbrev pub step : (ℕ → ℕ → ℕ) → Option ℕ → ℕ → Option ℕ
step w none i = none
step w (some t) i = if pte_v (w t i) then some (pte2pa (w t i)) else none

-- The page behind a path of indices.
unfoldable pub node : (ℕ → ℕ → ℕ) → List ℕ → Option ℕ → Option ℕ
unfolding pte2pa
node w [] o = o
node w (i ∷ is) o = node w is (step w o i)

abbrev pub word_of : (ℕ → ℕ → ℕ) → Option ℕ → ℕ → ℕ
word_of w none j = 0
word_of w (some p) j = w p j

pub node-append :
    (w : ℕ → ℕ → ℕ) (xs ys : List ℕ) (o : Option ℕ) → node w (xs ++ ys) o ≡ node w ys (node w xs o)
unfolding node
node-append w [] ys o = refl
node-append w (x ∷ xs) ys o = node-append w xs ys (step w o x)

pub node-none : (w : ℕ → ℕ → ℕ) (xs : List ℕ) → node w xs none ≡ none
unfolding node
node-none w [] = refl
node-none w (x ∷ xs) = node-none w xs

pub step-valid :
    (w : ℕ → ℕ → ℕ) (t i : ℕ) → pte_v (w t i) ≡ true → step w (some t) i ≡ some (pte2pa (w t i))
step-valid w t i e = ap (λ b. if b then some (pte2pa (w t i)) else none) e

pub step-invalid : (w : ℕ → ℕ → ℕ) (t i : ℕ) → pte_v (w t i) ≡ false → step w (some t) i ≡ none
step-invalid w t i e = ap (λ b. if b then some (pte2pa (w t i)) else none) e

abbrev pub Absent : ℕ → List ℕ → Type 0
Absent p [] = Unit {0}
Absent p (q ∷ qs) = ((p == q) ≡ false) × Absent p qs

-- The free pages are different pages of physical memory.
abbrev pub FreePages : List ℕ → Type 0
FreePages [] = Unit {0}
FreePages (p ∷ ps) = (p % 4096 ≡ 0) × (0 < p) × (p < 72057594037927936) × Absent p ps × FreePages ps

-- The pages of a table are different ones, down to the third level, and none of them is free.
pub record Tree (w : ℕ → ℕ → ℕ) (root : ℕ) (free : List ℕ) : Type 0 where
  pub apart :
      (xs ys : List ℕ) (p : ℕ)
      → length xs ≤ 2
      → length ys ≤ 2
      → node w xs (some root) ≡ some p
      → node w ys (some root) ≡ some p
      → xs ≡ ys
  pub in_use :
      (xs : List ℕ) (p : ℕ) → length xs ≤ 2 → node w xs (some root) ≡ some p → Absent p free
  pub pages : FreePages free

abbrev pub All : (ℕ → Bool) → List ℕ → Type 0
All P [] = Unit {0}
All P (p ∷ ps) = (P p ≡ true) × All P ps

-- A page that is neither a table nor free.
abbrev pub Outside : ℕ → (ℕ → ℕ → ℕ) → ℕ → List ℕ → Type 0
Outside p w root free =
    Absent p free
    × ((xs : List ℕ) (q : ℕ) → length xs ≤ 2 → node w xs (some root) ≡ some q → (q == p) ≡ false)

pub pte2pa-pa2pte : (p : ℕ) → p % 4096 ≡ 0 → p < 72057594037927936 → pte2pa (pa2pte p + 1) ≡ p
unfolding pte2pa pa2pte
pte2pa-pa2pte p h k = omega arith

pa2pte-valid : (p : ℕ) → pte_v (pa2pte p + 1) ≡ true
unfolding pa2pte
pa2pte-valid p = ground arith

pub snoc-length :
    (ys xs : List ℕ) (j : ℕ)
    → length ys + length (j ∷ xs) ≤ 2
    → length (ys ++ j ∷ []) + length xs ≤ 2
snoc-length ys xs j h = let e = length-append ys (j ∷ []) in omega arith

pub node-snoc :
    (w : ℕ → ℕ → ℕ) (ys : List ℕ) (j : ℕ) (o p : Option ℕ)
    → node w ys o ≡ p
    → node w (ys ++ j ∷ []) o ≡ step w p j
unfolding node
node-snoc w ys j o p e = node-append w ys (j ∷ []) o ∙ ap (λ x. step w x j) e

-- A write into a table of the last level leaves the tables as they are.
module _ (w : ℕ → ℕ → ℕ) (root : ℕ) (free : List ℕ) (tree : Tree w root free) (w' : ℕ → ℕ → ℕ)
    (t i : ℕ) (pre : List ℕ) (there : node w pre (some root) ≡ some t) where
  module _ (leaf : length pre ≡ 2) (only : (q j : ℕ) → (q == t) ≡ false → w' q j ≡ w q j) where
    node-leaf_from :
        (ys xs : List ℕ) (o : Option ℕ)
        → node w ys (some root) ≡ o
        → length ys + length xs ≤ 2
        → node w' xs o ≡ node w xs o
    unfolding node
    node-leaf_from ys [] o e h = refl
    node-leaf_from ys (j ∷ xs) none e h = node-none w' xs ∙ sym (node-none w xs)
    node-leaf_from ys (j ∷ xs) (some q) e h = elim (Bool-cases (q == t)) [
      | inl f ↦
          let same : q ≡ t = ground arith in
          let short =
            ap length
              (tree.apart ys pre q (omega arith) (omega arith) e (there ∙ ap some (sym same))) in
          absurd (omega arith)
      | inr f ↦
          ap (λ v. node w' xs (if pte_v v then some (pte2pa v) else none)) (only q j f)
          ∙ node-leaf_from (ys ++ j ∷ []) xs (step w (some q) j)
              (node-snoc w ys j (some root) (some q) e) (snoc-length ys xs j h)
    ]

    pub node-leaf : (xs : List ℕ) → length xs ≤ 2 → node w' xs (some root) ≡ node w xs (some root)
    unfolding node
    node-leaf xs h = node-leaf_from [] xs (some root) refl (omega arith)

    pub Tree-leaf : Tree w' root free
    Tree-leaf = record {
      apart = λ xs ys p h k e f.
          tree.apart xs ys p h k (sym (node-leaf xs h) ∙ e) (sym (node-leaf ys k) ∙ f);
      in_use = λ xs p h e. tree.in_use xs p h (sym (node-leaf xs h) ∙ e);
      pages = tree.pages;
    }

    pub Outside-leaf : (p : ℕ) → Outside p w root free → Outside p w' root free
    Outside-leaf p h = (h.0, λ xs q k e. h.1 xs q k (sym (node-leaf xs k) ∙ e))

    word_of-leaf :
        (xs : List ℕ) (j : ℕ) (o : Option ℕ)
        → length xs ≡ 2
        → (xs ≡ pre → w' t j ≡ w t j)
        → node w xs (some root) ≡ o
        → word_of w' o j ≡ word_of w o j
    word_of-leaf xs j none h same e = refl
    word_of-leaf xs j (some q) h same e = elim (Bool-cases (q == t)) [
      | inl f ↦
          let is_t : q ≡ t = ground arith in
          let k = tree.apart xs pre q (omega arith) (omega arith) e (there ∙ ap some (sym is_t)) in
          ap (λ p. w' p j) is_t ∙ same k ∙ ap (λ p. w p j) (sym is_t)
      | inr f ↦ only q j f
    ]

    -- Another path leads to another table, and so to words that are as before.
    pub word_of-other :
        (xs : List ℕ) (j : ℕ)
        → length xs ≡ 2
        → (xs ≡ pre → w' t j ≡ w t j)
        → word_of w' (node w' xs (some root)) j ≡ word_of w (node w xs (some root)) j
    word_of-other xs j h same =
        ap (λ o. word_of w' o j) (node-leaf xs (omega arith))
        ∙ word_of-leaf xs j (node w xs (some root)) h same refl

    pub word_of-written : (j : ℕ) → word_of w' (node w' pre (some root)) j ≡ w' t j
    word_of-written j = ap (λ o. word_of w' o j) (node-leaf pre (omega arith) ∙ there)

  -- A new page `n` below an entry that was not valid.
  module _ (n : ℕ) (rest : List ℕ) (from_free : free ≡ n ∷ rest) (short : length pre < 2)
      (invalid : pte_v (w t i) ≡ false) (linked : w' t i ≡ pa2pte n + 1)
      (zeros : (j : ℕ) → w' n j ≡ 0)
      (only : (q j : ℕ) → (q == n) ≡ false → (q == t && j == i) ≡ false → w' q j ≡ w q j) where
    new_page : FreePages (n ∷ rest)
    new_page = subst FreePages from_free tree.pages

    not_new :
        (xs : List ℕ) (q : ℕ) → length xs ≤ 2 → node w xs (some root) ≡ some q → Absent q (n ∷ rest)
    not_new xs q h e = subst (Absent q) from_free (tree.in_use xs q h e)

    step-new : step w' (some t) i ≡ some n
    step-new =
        let v = pa2pte-valid n in
        let e = pte2pa-pa2pte n new_page.0 new_page.2 in
        ap (λ x. if pte_v x then some (pte2pa x) else none) linked
        ∙ ap (λ b. if b then some (pte2pa (pa2pte n + 1)) else none) v
        ∙ ap some e

    step-zeros : (j : ℕ) → step w' (some n) j ≡ none
    step-zeros j = ap (λ x. if pte_v x then some (pte2pa x) else none) (zeros j)

    step-old :
        (ys : List ℕ) (q j : ℕ)
        → length ys ≤ 2
        → node w ys (some root) ≡ some q
        → (q == t && j == i) ≡ false
        → step w' (some q) j ≡ step w (some q) j
    step-old ys q j h e f =
        ap (λ v. if pte_v v then some (pte2pa v) else none) (only q j (not_new ys q h e).0 f)

    -- A page that could be reached still can.
    node-stays_from :
        (ys xs : List ℕ) (o : Option ℕ) (p : ℕ)
        → node w ys (some root) ≡ o
        → length ys + length xs ≤ 2
        → node w xs o ≡ some p
        → node w' xs o ≡ some p
    unfolding node
    node-stays_from ys [] o p e h k = k
    node-stays_from ys (j ∷ xs) none p e h k = let g = node-none w xs in cc
    node-stays_from ys (j ∷ xs) (some q) p e h k = elim (Bool-cases (q == t && j == i)) [
      | inl f ↦
          let is_t : (q ≡ t) × (j ≡ i) = ground arith in
          let bad : pte_v (w q j) ≡ false =
            ap (λ x. pte_v (w x j)) is_t.0 ∙ ap (λ x. pte_v (w t x)) is_t.1 ∙ invalid in
          let k' : node w xs none ≡ some p = rw bad at k in let g = node-none w xs in cc
      | inr f ↦
          ap (node w' xs) (step-old ys q j (omega arith) e f)
          ∙ node-stays_from (ys ++ j ∷ []) xs (step w (some q) j) p
              (node-snoc w ys j (some root) (some q) e) (snoc-length ys xs j h) k
    ]

    below-new : (xs : List ℕ) (p : ℕ) → node w' xs (some n) ≡ some p → (xs ≡ []) × (p ≡ n)
    unfolding node
    below-new [] p k = (refl, cc)
    below-new (j ∷ xs) p k = let g = ap (node w' xs) (step-zeros j) ∙ node-none w' xs in cc

    snoc_again :
        (ys xs : List ℕ) (j p : ℕ) (A : Type 0)
        → A ⊎ (((ys ++ j ∷ []) ++ xs ≡ pre ++ i ∷ []) × (p ≡ n))
        → A ⊎ ((ys ++ j ∷ xs ≡ pre ++ i ∷ []) × (p ≡ n))
    snoc_again ys xs j p A (inl a) = inl a
    snoc_again ys xs j p A (inr (e, f)) = inr (sym (append_assoc ys (j ∷ []) xs) ∙ e, f)

    -- And besides only the new page.
    node-new_from :
        (ys xs : List ℕ) (o : Option ℕ) (p : ℕ)
        → node w ys (some root) ≡ o
        → length ys + length xs ≤ 2
        → node w' xs o ≡ some p
        → (node w xs o ≡ some p) ⊎ ((ys ++ xs ≡ pre ++ i ∷ []) × (p ≡ n))
    unfolding node
    node-new_from ys [] o p e h k = inl k
    node-new_from ys (j ∷ xs) none p e h k = let g = node-none w' xs in cc
    node-new_from ys (j ∷ xs) (some q) p e h k = elim (Bool-cases (q == t && j == i)) [
      | inl f ↦
          let is_t : (q ≡ t) × (j ≡ i) = ground arith in
          let moved =
            ap (λ x. step w' (some x) j) is_t.0 ∙ ap (step w' (some t)) is_t.1 ∙ step-new in
          let (last, new) = below-new xs p (sym (ap (node w' xs) moved) ∙ k) in
          let same =
            tree.apart ys pre q (omega arith) (omega arith) e (there ∙ ap some (sym is_t.0)) in
          inr (
            ap (λ x. ys ++ j ∷ x) last
                ∙ ap (λ x. x ++ j ∷ []) same
                ∙ ap (λ x. pre ++ x ∷ []) is_t.1,
            new,
          )
      | inr f ↦ snoc_again ys xs j p (node w xs (step w (some q) j) ≡ some p) (
          node-new_from (ys ++ j ∷ []) xs (step w (some q) j) p
            (node-snoc w ys j (some root) (some q) e) (snoc-length ys xs j h)
            (sym (ap (node w' xs) (step-old ys q j (omega arith) e f)) ∙ k))
    ]

    node-stays :
        (xs : List ℕ) (p : ℕ)
        → length xs ≤ 2
        → node w xs (some root) ≡ some p
        → node w' xs (some root) ≡ some p
    unfolding node
    node-stays xs p h k = node-stays_from [] xs (some root) p refl (omega arith) k

    node-new :
        (xs : List ℕ) (p : ℕ)
        → length xs ≤ 2
        → node w' xs (some root) ≡ some p
        → (node w xs (some root) ≡ some p) ⊎ ((xs ≡ pre ++ i ∷ []) × (p ≡ n))
    unfolding node
    node-new xs p h k = node-new_from [] xs (some root) p refl (omega arith) k

    -- The new page stands where it was linked.
    pub node-linked : node w' (pre ++ i ∷ []) (some root) ≡ some n
    node-linked =
        node-snoc w' pre i (some root) (some t) (node-stays pre t (omega arith) there) ∙ step-new

    apart-new :
        (xs ys : List ℕ) (p : ℕ)
        → length ys ≤ 2
        → (node w xs (some root) ≡ some p) ⊎ ((xs ≡ pre ++ i ∷ []) × (p ≡ n))
        → (node w ys (some root) ≡ some p) ⊎ ((ys ≡ pre ++ i ∷ []) × (p ≡ n))
        → length xs ≤ 2
        → xs ≡ ys
    apart-new xs ys p k (inl e) (inl f) h = tree.apart xs ys p h k e f
    apart-new xs ys p k (inl e) (inr (f, g)) h =
        absurd (let d = (not_new xs p h e).0 in ground arith)
    apart-new xs ys p k (inr (e, g)) (inl f) h =
        absurd (let d = (not_new ys p k f).0 in ground arith)
    apart-new xs ys p k (inr (e, g)) (inr (f, g')) h = e ∙ sym f

    in_use-new :
        (xs : List ℕ) (p : ℕ)
        → length xs ≤ 2
        → (node w xs (some root) ≡ some p) ⊎ ((xs ≡ pre ++ i ∷ []) × (p ≡ n))
        → Absent p rest
    in_use-new xs p h (inl e) = (not_new xs p h e).1
    in_use-new xs p h (inr (e, f)) = subst (λ q. Absent q rest) (sym f) new_page.3

    pub Tree-new : Tree w' root rest
    Tree-new = record {
      apart = λ xs ys p h k e f. apart-new xs ys p k (node-new xs p h e) (node-new ys p k f) h;
      in_use = λ xs p h e. in_use-new xs p h (node-new xs p h e);
      pages = new_page.4;
    }

    other_than :
        (p : ℕ) (xs : List ℕ) (q : ℕ)
        → Outside p w root free
        → length xs ≤ 2
        → (node w xs (some root) ≡ some q) ⊎ ((xs ≡ pre ++ i ∷ []) × (q ≡ n))
        → (q == p) ≡ false
    other_than p xs q h k (inl e) = h.1 xs q k e
    other_than p xs q h k (inr (e, f)) = let d = (subst (Absent p) from_free h.0).0 in ground arith

    pub Outside-new : (p : ℕ) → Outside p w root free → Outside p w' root rest
    Outside-new p h =
        ((subst (Absent p) from_free h.0).1, λ xs q k e. other_than p xs q h k (node-new xs q k e))

    word_of-old :
        (xs : List ℕ) (j : ℕ) (o o' : Option ℕ)
        → length xs ≡ 2
        → node w xs (some root) ≡ o
        → node w' xs (some root) ≡ o'
        → word_of w' o' j ≡ word_of w o j
    word_of-old xs j none none h e f = refl
    word_of-old xs j none (some q) h e f = elim (node-new xs q (omega arith) f) [
      | inl g ↦ cc
      | inr (g, is_n) ↦ ap (λ x. w' x j) is_n ∙ zeros j
    ]
    word_of-old xs j (some q) o' h e f =
        let stays = node-stays xs q (omega arith) e in
        let apart_n = (not_new xs q (omega arith) e).0 in
        ap (λ o. word_of w' o j) (sym f ∙ stays)
        ∙ only q j apart_n (elim (Bool-cases (q == t && j == i)) [
          | inl g ↦
              let is_t : q ≡ t = ground arith in
              let same =
                ap length (
                  tree.apart xs pre q (omega arith) (omega arith) e (there ∙ ap some (sym is_t))) in
              absurd (omega arith)
          | inr g ↦ g
        ])

    -- The last level shows the same words.
    pub word_of-same :
        (xs : List ℕ) (j : ℕ)
        → length xs ≡ 2
        → word_of w' (node w' xs (some root)) j ≡ word_of w (node w xs (some root)) j
    word_of-same xs j h =
        word_of-old xs j (node w xs (some root)) (node w' xs (some root)) h refl refl
