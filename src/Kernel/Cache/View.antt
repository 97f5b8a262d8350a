-- ===== src/Kernel/Cache/View.antt =====
-- bio.c: `bread`, and what each block reads as through the cache.
use mp.Prelude.{
  ℕ, true, false, ◌&&◌, Option, none, some, [], ◌∷◌, ◌++◌, ◌==◌, ◌≡◌, ◌≢◌, ◌∙◌, inl, inr, refl, ap,
  sym, subst, arith, Bool-cases, if◌then◌else◌,
}
use mp.Kernel.Log.{Block}
use mp.Kernel.Cache.{
  Buf, BufRing, is_for, add_ref, recycled, fill, filled, at_buf, buf_at, bget, bread,
}
use mp.Kernel.Cache.Lookup.{NotCached, AllUsed, Got, FoundOr, bget-Got}

abbrev pub All : (Buf → Type 0) → BufRing → Type 0
All P [] = Unit {0}
All P (b ∷ bs) = P b × All P bs

module _ (disk : ℕ → ℕ → Block) where
  -- What a block reads as: from a valid buffer for it, or else from the disk.
  unfoldable pub view : BufRing → ℕ → ℕ → Block
  view [] dev blockno = disk dev blockno
  view (b ∷ bs) dev blockno =
      if is_for dev blockno b && b.valid then b.contents else view bs dev blockno

  abbrev pub IsClean : Buf → Type 0
  IsClean b = (b.refcnt == 0) ≡ true → b.valid ≡ true → b.contents ≡ disk b.dev b.blockno

  abbrev pub Slots : ℕ → BufRing → Type 0
  Slots i bs = All (λ b. (b.slot == i) ≡ false) bs

  -- Slots and blocks are in the ring once; device 0 stands for no device.
  abbrev pub Distinct : BufRing → Type 0
  Distinct [] = Unit {0}
  Distinct (b ∷ bs) = Slots b.slot bs × (b.dev ≢ 0 → NotCached b.dev b.blockno bs) × Distinct bs

  pub record WellFormed (ring : BufRing) : Type 0 where
    pub distinct : Distinct ring
    pub clean : All IsClean ring
    pub real : All (λ b. b.valid ≡ true → b.dev ≢ 0) ring

  pub All-append : (P : Buf → Type 0) (xs ys : BufRing) → All P (xs ++ ys) → All P xs × All P ys
  All-append P [] ys h = (tt, h)
  All-append P (x ∷ xs) ys (p, h) = let (a, b) = All-append P xs ys h in ((p, a), b)

  pub Distinct-drop : (xs ys : BufRing) → Distinct (xs ++ ys) → Distinct ys
  Distinct-drop [] ys d = d
  Distinct-drop (x ∷ xs) ys (s, k, d) = Distinct-drop xs ys d

  -- No buffer in front has the slot of one behind.
  pub Distinct-front : (xs ys : BufRing) (b : Buf) → Distinct (xs ++ b ∷ ys) → Slots b.slot xs
  Distinct-front [] ys b d = tt
  Distinct-front (x ∷ xs) ys b (s, k, d) = (
    ground (arith, (All-append (λ c. (c.slot == x.slot) ≡ false) xs (b ∷ ys) s).1.0),
    Distinct-front xs ys b d,
  )

  pub at_buf-append :
      (i : ℕ) (f : Buf → Buf) (xs ys : BufRing) (b : Buf)
      → Slots i xs
      → i ≡ b.slot
      → at_buf i f (xs ++ b ∷ ys) ≡ xs ++ f b ∷ ys
  unfolding at_buf
  at_buf-append i f [] ys b s e = ground arith
  at_buf-append i f (x ∷ xs) ys b (h, s) e = rw (h, at_buf-append i f xs ys b s e) refl

  pub buf_at-append :
      (i : ℕ) (xs ys : BufRing) (b : Buf)
      → Slots i xs
      → i ≡ b.slot
      → buf_at i (xs ++ b ∷ ys) ≡ some b
  unfolding buf_at
  buf_at-append i [] ys b s e = ground arith
  buf_at-append i (x ∷ xs) ys b (h, s) e = rw (h, buf_at-append i xs ys b s e) refl

  pub view-cong :
      (xs ys zs : BufRing) (d k : ℕ)
      → view ys d k ≡ view zs d k
      → view (xs ++ ys) d k ≡ view (xs ++ zs) d k
  unfolding view
  view-cong [] ys zs d k e = e
  view-cong (x ∷ xs) ys zs d k e = rw (view-cong xs ys zs d k e) refl

  pub view-NotCached : (bs : BufRing) (d k : ℕ) → NotCached d k bs → view bs d k ≡ disk d k
  unfolding view
  view-NotCached [] d k n = refl
  view-NotCached (b ∷ bs) d k (h, n) = rw h (view-NotCached bs d k n)

  -- The block of a buffer, read behind the buffer.
  rest-view :
      (d k : ℕ) (b : Buf) (rest : BufRing)
      → NotCached b.dev b.blockno rest
      → is_for d k b ≡ true
      → (view rest d k ≡ disk d k) × (disk b.dev b.blockno ≡ disk d k)
  rest-view d k b rest n e =
      let p : b.dev ≡ d = ground arith in
      let q : b.blockno ≡ k = ground arith in
      (
        view-NotCached rest d k
            (subst (λ x. NotCached d x rest) q (subst (λ x. NotCached x b.blockno rest) p n)),
        ap (λ x. disk x b.blockno) p ∙ ap (disk d) q,
      )

  hit-view :
      (d k : ℕ) (b : Buf) (rest : BufRing)
      → (b.dev ≢ 0)
      → (b.dev ≢ 0 → NotCached b.dev b.blockno rest)
      → view (fill disk (add_ref b) ∷ rest) d k ≡ view (b ∷ rest) d k
  unfolding view
  hit-view d k b rest real n = elim (Bool-cases (is_for d k b)) [
    | inr e ↦ elim (Bool-cases b.valid) [ inl v ↦ ground arith | inr v ↦ ground arith ]
    | inl e ↦
        let (p, q) = rest-view d k b rest (n real) e in
        elim (Bool-cases b.valid) [ inl v ↦ ground arith | inr v ↦ ground arith ]
  ]

  -- A block that no buffer is for reads from the disk, and so it does from a buffer filled anew.
  fresh-view :
      (dev blockno d k : ℕ) (rest : BufRing)
      → NotCached dev blockno rest
      → (if dev == d && blockno == k then disk dev blockno else view rest d k) ≡ view rest d k
  fresh-view dev blockno d k rest n = elim (Bool-cases (dev == d && blockno == k)) [
    | inl e ↦
        let p : dev ≡ d = ground arith in
        let q : blockno ≡ k = ground arith in
        rw (e, p, q)
          (sym (
            view-NotCached rest d k
              (subst (λ x. NotCached d x rest) q (subst (λ x. NotCached x blockno rest) p n))))
    | inr e ↦ rw e refl
  ]

  recycle-view :
      (dev blockno d k : ℕ) (b : Buf) (rest : BufRing)
      → NotCached dev blockno (b ∷ rest)
      → (b.refcnt == 0) ≡ true
      → IsClean b
      → (b.valid ≡ true → b.dev ≢ 0)
      → (b.dev ≢ 0 → NotCached b.dev b.blockno rest)
      → view (fill disk (recycled dev blockno b) ∷ rest) d k ≡ view (b ∷ rest) d k
  unfolding view
  recycle-view dev blockno d k b rest n unused clean real keys = elim (Bool-cases (is_for d k b)) [
    | inl e ↦ elim (Bool-cases b.valid) [
      | inl v ↦
          let (p, q) = rest-view d k b rest (keys (real v)) e in
          let c = clean unused v in let g = n.0 in ground arith
      | inr v ↦ ground (arith, fresh-view dev blockno d k rest n.1)
    ]
    | inr e ↦ ground (arith, fresh-view dev blockno d k rest n.1)
  ]

  -- What a read of a block gives: a valid buffer for the block, with what the block read as before, and
  -- every block reads as before.
  pub record Reads (dev blockno : ℕ) (ring ring' : BufRing) (i : ℕ) : Type 0 where
    pub found : Buf
    pub at : buf_at i ring' ≡ some found
    pub block : is_for dev blockno found ≡ true
    pub valid : found.valid ≡ true
    pub contents : found.contents ≡ view ring dev blockno
    pub same : (d k : ℕ) → view ring' d k ≡ view ring d k

  view-at :
      (dev blockno : ℕ) (front rest : BufRing) (c : Buf)
      → NotCached dev blockno front
      → is_for dev blockno c ≡ true
      → c.valid ≡ true
      → view (front ++ c ∷ rest) dev blockno ≡ c.contents
  unfolding view
  view-at dev blockno [] rest c n e v = rw (e, v) refl
  view-at dev blockno (x ∷ front) rest c (h, n) e v = rw h (view-at dev blockno front rest c n e v)

  pub NotCached-append :
      (dev blockno : ℕ) (xs ys : BufRing)
      → NotCached dev blockno (xs ++ ys)
      → NotCached dev blockno xs × NotCached dev blockno ys
  NotCached-append dev blockno [] ys n = (tt, n)
  NotCached-append dev blockno (x ∷ xs) ys (h, n) =
      let (a, b) = NotCached-append dev blockno xs ys n in ((h, a), b)

  fill-valid : (c : Buf) → (fill disk c).valid ≡ true
  fill-valid c = elim (Bool-cases c.valid) [ inl v ↦ ground arith | inr v ↦ ground arith ]

  fill-slot : (c : Buf) → (fill disk c).slot ≡ c.slot
  fill-slot c = elim (Bool-cases c.valid) [ inl v ↦ ground arith | inr v ↦ ground arith ]

  fill-is_for :
      (dev blockno : ℕ) (c : Buf) → is_for dev blockno (fill disk c) ≡ is_for dev blockno c
  fill-is_for dev blockno c = elim (Bool-cases c.valid) [
    | inl v ↦ ground arith
    | inr v ↦ ground arith
  ]

  -- The buffer `b` becomes `c`, with the block that is asked for.
  filled-Reads :
      (dev blockno : ℕ) (front rest : BufRing) (b c : Buf)
      → Distinct (front ++ b ∷ rest)
      → NotCached dev blockno front
      → c.slot ≡ b.slot
      → is_for dev blockno (fill disk c) ≡ true
      → ((d k : ℕ) → view (fill disk c ∷ rest) d k ≡ view (b ∷ rest) d k)
      → Reads dev blockno (front ++ b ∷ rest) (at_buf b.slot (fill disk) (front ++ c ∷ rest)) b.slot
  filled-Reads dev blockno front rest b c d n slot block same =
      let apart = Distinct-front front rest b d in
      let f = fill disk c in
      let sure : f.valid ≡ true = fill-valid c in
      let here : at_buf b.slot (fill disk) (front ++ c ∷ rest) ≡ front ++ f ∷ rest =
        at_buf-append b.slot (fill disk) front rest c apart (sym slot) in
      let alike : (x k : ℕ) → view (front ++ f ∷ rest) x k ≡ view (front ++ b ∷ rest) x k =
        λ x k. view-cong front (f ∷ rest) (b ∷ rest) x k (same x k) in
      rw here (record {
        found = f;
        at = buf_at-append b.slot front rest f apart (sym slot ∙ sym (fill-slot c));
        block = block;
        valid = sure;
        contents = sym (view-at dev blockno front rest f n block sure) ∙ alike dev blockno;
        same = alike;
      })

  Got-Reads :
      (dev blockno : ℕ) (ring ring' : BufRing) (i : ℕ)
      → WellFormed ring
      → dev ≢ 0
      → Got dev blockno ring ring' i
      → Reads dev blockno ring (at_buf i (fill disk) ring') i
  Got-Reads dev blockno ring ring' i w real (Got.hits front rest b split same before after slot) =
      let d : Distinct (front ++ b ∷ rest) = rw split at w.distinct in
      let keys = (Distinct-drop front (b ∷ rest) d).1 in
      let dev' : b.dev ≡ dev = ground arith in
      rw (split, after, slot)
        (filled-Reads dev blockno front rest b (add_ref b) d before refl
          (fill-is_for dev blockno (add_ref b) ∙ same)
          (λ x k. hit-view x k b rest (λ z. real (sym dev' ∙ z)) keys))
  Got-Reads dev blockno ring ring' i w real
        (Got.recycles front rest b none_for split unused used after slot) =
      let d : Distinct (front ++ b ∷ rest) = rw split at w.distinct in
      let n = NotCached-append dev blockno front (b ∷ rest) (rw split at none_for) in
      let keys = (Distinct-drop front (b ∷ rest) d).1 in
      let clean = (All-append IsClean front (b ∷ rest) (rw split at w.clean)).1.0 in
      let devs =
        (All-append (λ c. c.valid ≡ true → c.dev ≢ 0) front (b ∷ rest) (rw split at w.real)).1.0 in
      rw (split, after, slot)
        (filled-Reads dev blockno front rest b (recycled dev blockno b) d n.0 refl (ground arith)
          (λ x k. recycle-view dev blockno x k b rest n.1 unused clean devs keys))

  filled-Got :
      (dev blockno : ℕ) (ring : BufRing) (r : Option (BufRing × ℕ))
      → FoundOr (Got dev blockno ring) (NotCached dev blockno ring × AllUsed ring) r
      → (ring' : BufRing) (i : ℕ) → WellFormed ring
      → dev ≢ 0
      → filled disk r ≡ some (ring', i)
      → Reads dev blockno ring ring' i
  filled-Got dev blockno ring none g ring' i w real e = cc
  filled-Got dev blockno ring (some (mid, j)) g ring' i w real e =
      let same : ◌≡◌ {A = BufRing × ℕ} (at_buf j (fill disk) mid, j) (ring', i) = cc in
      rw (sym (ap (λ x. x.0) same), sym (ap (λ x. x.1) same))
        (Got-Reads dev blockno ring mid j w real g)

  -- In a well-formed ring a read of a block of a device gives a valid buffer for it that holds what the
  -- block read as before, from its buffer or from the disk, and every block reads as before, also the
  -- one whose buffer was recycled.
  pub bread-Reads :
      (dev blockno : ℕ) (ring ring' : BufRing) (i : ℕ)
      → WellFormed ring
      → dev ≢ 0
      → bread disk dev blockno ring ≡ some (ring', i)
      → Reads dev blockno ring ring' i
  unfolding bread
  bread-Reads dev blockno ring ring' i w real e =
      filled-Got dev blockno ring (bget dev blockno ring) (bget-Got dev blockno ring) ring' i w real
        e
