-- ===== src/Kernel/Cache/Ring.antt =====
-- bio.c: what `bread` does to a well-formed ring.
use mp.Prelude.{
  ℕ, ◌<◌, true, false, Option, none, some, [], ◌∷◌, ◌++◌, ◌==◌, ◌≡◌, ◌≢◌, ◌∙◌, inl, inr, refl, ap,
  sym, subst, arith, Bool-cases,
}
use mp.Kernel.Log.{Block}
use mp.Kernel.Cache.{Buf, BufRing, is_for, add_ref, recycled, fill, filled, at_buf, bget, bread}
use mp.Kernel.Cache.Lookup.{NotCached, AllUsed, Got, FoundOr, bget-Got}
use mp.Kernel.Cache.View.{
  All, IsClean, Slots, Distinct, WellFormed, All-append, Distinct-drop, Distinct-front,
  at_buf-append, NotCached-append,
}

module _ (disk : ℕ → ℕ → Block) where
  -- No overflow of a count of references.
  abbrev pub Counted : BufRing → Type 0
  Counted ring = All (λ b. b.refcnt < 4294967295) ring

  -- No buffer in front is for the block of `c`.
  abbrev pub Others : Buf → BufRing → Type 0
  Others c xs = All (λ x. x.dev ≢ 0 → is_for x.dev x.blockno c ≡ false) xs

  All-replace :
      (P : Buf → Type 0) (xs ys : BufRing) (b c : Buf)
      → All P (xs ++ b ∷ ys)
      → P c
      → All P (xs ++ c ∷ ys)
  All-replace P [] ys b c (p, h) q = (q, h)
  All-replace P (x ∷ xs) ys b c (p, h) q = (p, All-replace P xs ys b c h q)

  NotCached-replace :
      (dev blockno : ℕ) (xs ys : BufRing) (b c : Buf)
      → NotCached dev blockno (xs ++ b ∷ ys)
      → is_for dev blockno c ≡ false
      → NotCached dev blockno (xs ++ c ∷ ys)
  NotCached-replace dev blockno [] ys b c (p, h) q = (q, h)
  NotCached-replace dev blockno (x ∷ xs) ys b c (p, h) q =
      (p, NotCached-replace dev blockno xs ys b c h q)

  NotCached-at :
      (dev blockno : ℕ) (xs ys : BufRing) (b : Buf)
      → NotCached dev blockno (xs ++ b ∷ ys)
      → is_for dev blockno b ≡ false
  NotCached-at dev blockno [] ys b (p, h) = p
  NotCached-at dev blockno (x ∷ xs) ys b (p, h) = NotCached-at dev blockno xs ys b h

  Distinct-replace :
      (xs ys : BufRing) (b c : Buf)
      → Distinct disk (xs ++ b ∷ ys)
      → c.slot ≡ b.slot
      → Others c xs
      → (c.dev ≢ 0 → NotCached c.dev c.blockno ys)
      → Distinct disk (xs ++ c ∷ ys)
  Distinct-replace [] ys b c (s, k, d) e o n = (subst (λ i. Slots disk i ys) (sym e) s, n, d)
  Distinct-replace (x ∷ xs) ys b c (s, k, d) e (h, o) n = (
    All-replace (λ z. (z.slot == x.slot) ≡ false) xs ys b c s
        (ground (arith, (All-append disk (λ z. (z.slot == x.slot) ≡ false) xs (b ∷ ys) s).1.0)),
    (λ r. NotCached-replace x.dev x.blockno xs ys b c (k r) (h r)),
    Distinct-replace xs ys b c d e o n,
  )

  -- The buffers in front of `b` are for other blocks.
  pub Distinct-Others : (xs ys : BufRing) (b : Buf) → Distinct disk (xs ++ b ∷ ys) → Others b xs
  Distinct-Others [] ys b d = tt
  Distinct-Others (x ∷ xs) ys b (s, k, d) =
      ((λ r. NotCached-at x.dev x.blockno xs ys b (k r)), Distinct-Others xs ys b d)

  NotCached-Others :
      (dev blockno : ℕ) (xs : BufRing) (c : Buf)
      → NotCached dev blockno xs
      → is_for dev blockno c ≡ true
      → Others c xs
  NotCached-Others dev blockno [] c n e = tt
  NotCached-Others dev blockno (x ∷ xs) c (h, n) e =
      ((λ r. ground arith), NotCached-Others dev blockno xs c n e)

  pub Others-same :
      (xs : BufRing) (b c : Buf) → c.dev ≡ b.dev → c.blockno ≡ b.blockno → Others b xs → Others c xs
  Others-same [] b c e f o = tt
  Others-same (x ∷ xs) b c e f (h, o) =
      ((λ r. let g = h r in ground arith), Others-same xs b c e f o)

  -- A buffer is replaced by one for the same block, or by one for a block that had none.
  pub replaced-WellFormed :
      (xs ys : BufRing) (b c : Buf)
      → WellFormed disk (xs ++ b ∷ ys)
      → c.slot ≡ b.slot
      → Others c xs
      → (c.dev ≢ 0 → NotCached c.dev c.blockno ys)
      → IsClean disk c
      → (c.valid ≡ true → c.dev ≢ 0)
      → WellFormed disk (xs ++ c ∷ ys)
  replaced-WellFormed xs ys b c w e o n clean real = record {
    distinct = Distinct-replace xs ys b c w.distinct e o n;
    clean = All-replace (IsClean disk) xs ys b c w.clean clean;
    real = All-replace (λ z. z.valid ≡ true → z.dev ≢ 0) xs ys b c w.real real;
  }

  fill-same :
      (c : Buf)
      → ((fill disk c).slot ≡ c.slot)
        × ((fill disk c).dev ≡ c.dev)
        × ((fill disk c).blockno ≡ c.blockno)
        × ((fill disk c).refcnt ≡ c.refcnt)
  fill-same c = elim (Bool-cases c.valid) [
    | inl v ↦ (ground arith, ground arith, ground arith, ground arith)
    | inr v ↦ (ground arith, ground arith, ground arith, ground arith)
  ]

  Got-WellFormed :
      (dev blockno : ℕ) (ring ring' : BufRing) (i : ℕ)
      → WellFormed disk ring
      → Counted ring
      → dev ≢ 0
      → Got dev blockno ring ring' i
      → WellFormed disk (at_buf i (fill disk) ring')
  Got-WellFormed dev blockno ring ring' i w count real
        (Got.hits front rest b split same before after slot) =
      let v : WellFormed disk (front ++ b ∷ rest) = rw split at w in
      let few =
        (All-append disk (λ z. z.refcnt < 4294967295) front (b ∷ rest) (rw split at count)).1.0 in
      let (s, d, k, r) = fill-same (add_ref b) in
      let c = fill disk (add_ref b) in
      let apart = Distinct-front disk front rest b v.distinct in
      let here : at_buf b.slot (fill disk) (front ++ add_ref b ∷ rest) ≡ front ++ c ∷ rest =
        at_buf-append disk b.slot (fill disk) front rest (add_ref b) apart refl in
      let keys = (Distinct-drop disk front (b ∷ rest) v.distinct).1 in
      let used : (c.refcnt == 0) ≡ false = ground arith in
      let nonzero : c.dev ≢ 0 = λ z. ground arith in
      rw (after, slot, here)
        (replaced-WellFormed front rest b c v s
          (Others-same front b c d k (Distinct-Others front rest b v.distinct))
          (λ z. rw (d, k) (keys (λ y. z (d ∙ y)))) (λ f g. absurd (ground arith)) (λ f. nonzero))
  Got-WellFormed dev blockno ring ring' i w count real
        (Got.recycles front rest b none_for split unused used after slot) =
      let v : WellFormed disk (front ++ b ∷ rest) = rw split at w in
      let (s, d, k, r) = fill-same (recycled dev blockno b) in
      let c = fill disk (recycled dev blockno b) in
      let apart = Distinct-front disk front rest b v.distinct in
      let here : at_buf b.slot (fill disk) (front ++ recycled dev blockno b ∷ rest)
          ≡ front ++ c ∷ rest =
        at_buf-append disk b.slot (fill disk) front rest (recycled dev blockno b) apart refl in
      let (n, m) = NotCached-append disk dev blockno front (b ∷ rest) (rw split at none_for) in
      let asked : is_for dev blockno c ≡ true = ground arith in
      rw (after, slot, here)
        (replaced-WellFormed front rest b c v s (NotCached-Others dev blockno front c n asked)
          (λ z. m.1) (λ f g. refl) (λ f. real))

  filled-WellFormed :
      (dev blockno : ℕ) (ring : BufRing) (r : Option (BufRing × ℕ))
      → FoundOr (Got dev blockno ring) (NotCached dev blockno ring × AllUsed ring) r
      → (ring' : BufRing) (i : ℕ) → WellFormed disk ring
      → Counted ring
      → dev ≢ 0
      → filled disk r ≡ some (ring', i)
      → WellFormed disk ring'
  filled-WellFormed dev blockno ring none g ring' i w count real e = cc
  filled-WellFormed dev blockno ring (some (mid, j)) g ring' i w count real e =
      let same : ◌≡◌ {A = BufRing × ℕ} (at_buf j (fill disk) mid, j) (ring', i) = cc in
      rw (sym (ap (λ x. x.0) same)) (Got-WellFormed dev blockno ring mid j w count real g)

  pub bread-WellFormed :
      (dev blockno : ℕ) (ring ring' : BufRing) (i : ℕ)
      → WellFormed disk ring
      → Counted ring
      → dev ≢ 0
      → bread disk dev blockno ring ≡ some (ring', i)
      → WellFormed disk ring'
  unfolding bread
  bread-WellFormed dev blockno ring ring' i w count real e =
      filled-WellFormed dev blockno ring (bget dev blockno ring) (bget-Got dev blockno ring) ring' i
        w count real e
