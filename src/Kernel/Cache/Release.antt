-- ===== src/Kernel/Cache/Release.antt =====
-- bio.c: `binit` and `brelse` on a well-formed ring, and what each block reads as afterwards.
use mp.Prelude.{
  ℕ, zero, suc, ◌+◌, ◌<◌, true, false, ◌&&◌, none, some, [], ◌∷◌, ◌++◌, ◌==◌, ◌≡◌, ◌≢◌, ◌∙◌, inl,
  inr, refl, ap, sym, arith, Bool-cases,
}
use mp.Kernel.Log.{Block}
use mp.Kernel.Cache.{
  Buf, BufRing, is_for, drop_ref, at_buf, buf_at, unlink, move_first, brelse, blank_buf, binit_from,
  binit,
}
use mp.Kernel.Cache.Lookup.{NotCached}
use mp.Kernel.Cache.View.{
  All, view, IsClean, Slots, Distinct, WellFormed, All-append, Distinct-drop, Distinct-front,
  view-cong, at_buf-append, buf_at-append,
}
use mp.Kernel.Cache.Ring.{Others, Distinct-Others, Others-same, replaced-WellFormed}

module _ (disk : ℕ → ℕ → Block) where
  -- Where the buffer of a slot is.
  pub data Found (i : ℕ) (ring : BufRing) : Type 0 where
    absent : ((f : Buf → Buf) → at_buf i f ring ≡ ring) → buf_at i ring ≡ none → Found i ring
    present :
        (front rest : BufRing) (b : Buf)
        → ring ≡ front ++ b ∷ rest
        → i ≡ b.slot
        → Slots disk i front
        → Found i ring

  find-cons :
      (i : ℕ) (c : Buf) (ring : BufRing) → (c.slot == i) ≡ false → Found i ring → Found i (c ∷ ring)
  unfolding at_buf buf_at
  find-cons i c ring e (absent h k) = absent (λ f. rw e (ap (◌∷◌ c) (h f))) (rw e k)
  find-cons i c ring e (present front rest b s q o) =
      present (c ∷ front) rest b (ap (◌∷◌ c) s) q (e, o)

  find : (i : ℕ) (ring : BufRing) → Found i ring
  unfolding at_buf buf_at
  find i [] = absent (λ f. refl) refl
  find i (c ∷ ring) = elim (Bool-cases (c.slot == i)) [
    | inl e ↦ present [] ring c refl (ground arith) tt
    | inr e ↦ find-cons i c ring e (find i ring)
  ]

  unlink-append :
      (i : ℕ) (xs ys : BufRing) (b : Buf)
      → Slots disk i xs
      → i ≡ b.slot
      → unlink i (xs ++ b ∷ ys) ≡ xs ++ ys
  unfolding unlink
  unlink-append i [] ys b s e = ground arith
  unlink-append i (x ∷ xs) ys b (h, s) e = rw (h, unlink-append i xs ys b s e) refl

  All-join : (P : Buf → Type 0) (xs ys : BufRing) → All P xs → All P ys → All P (xs ++ ys)
  All-join P [] ys h k = k
  All-join P (x ∷ xs) ys (p, h) k = (p, All-join P xs ys h k)

  All-remove :
      (P : Buf → Type 0) (xs ys : BufRing) (b : Buf) → All P (xs ++ b ∷ ys) → P b × All P (xs ++ ys)
  All-remove P [] ys b (p, h) = (p, h)
  All-remove P (x ∷ xs) ys b (p, h) = let (q, g) = All-remove P xs ys b h in (q, (p, g))

  NotCached-remove :
      (dev blockno : ℕ) (xs ys : BufRing) (b : Buf)
      → NotCached dev blockno (xs ++ b ∷ ys)
      → NotCached dev blockno (xs ++ ys)
  NotCached-remove dev blockno [] ys b (p, h) = h
  NotCached-remove dev blockno (x ∷ xs) ys b (p, h) = (p, NotCached-remove dev blockno xs ys b h)

  Distinct-remove :
      (xs ys : BufRing) (b : Buf) → Distinct disk (xs ++ b ∷ ys) → Distinct disk (xs ++ ys)
  Distinct-remove [] ys b (s, k, d) = d
  Distinct-remove (x ∷ xs) ys b (s, k, d) = (
    (All-remove (λ z. (z.slot == x.slot) ≡ false) xs ys b s).1,
    (λ r. NotCached-remove x.dev x.blockno xs ys b (k r)),
    Distinct-remove xs ys b d,
  )

  -- No other buffer is for the block of `c`.
  apart-NotCached :
      (xs ys : BufRing) (c : Buf)
      → c.dev ≢ 0
      → Others disk c xs
      → NotCached c.dev c.blockno ys
      → NotCached c.dev c.blockno (xs ++ ys)
  apart-NotCached [] ys c r o n = n
  apart-NotCached (x ∷ xs) ys c r (h, o) n = (
    elim (Bool-cases (is_for c.dev c.blockno x)) [
      | inl e ↦
          let p : x.dev ≡ c.dev = ground arith in
          let g = h (λ z. r (sym p ∙ z)) in absurd (ground arith)
      | inr e ↦ e
    ],
    apart-NotCached xs ys c r o n,
  )

  moved-WellFormed :
      (xs ys : BufRing) (c : Buf) → WellFormed disk (xs ++ c ∷ ys) → WellFormed disk (c ∷ xs ++ ys)
  moved-WellFormed xs ys c w =
      let keys = Distinct-drop disk xs (c ∷ ys) w.distinct in
      record {
        distinct = (
          All-join (λ z. (z.slot == c.slot) ≡ false) xs ys (Distinct-front disk xs ys c w.distinct)
              keys.0,
          (λ r. apart-NotCached xs ys c r (Distinct-Others disk xs ys c w.distinct) (keys.1 r)),
          Distinct-remove xs ys c w.distinct,
        );
        clean = All-remove (IsClean disk) xs ys c w.clean;
        real = All-remove (λ z. z.valid ≡ true → z.dev ≢ 0) xs ys c w.real;
      }

  -- A valid buffer of a device can move to the front.
  moved-view :
      (xs ys : BufRing) (c : Buf) (d k : ℕ)
      → Others disk c xs
      → (c.valid ≡ true → c.dev ≢ 0)
      → view disk (c ∷ xs ++ ys) d k ≡ view disk (xs ++ c ∷ ys) d k
  unfolding view
  moved-view [] ys c d k o r = refl
  moved-view (x ∷ xs) ys c d k (h, o) r = elim (Bool-cases (is_for d k c && c.valid)) [
    | inr e ↦ let ih = moved-view xs ys c d k o r in rw e (let g = rw e at ih in rw g refl)
    | inl e ↦
        let v : c.valid ≡ true = ground arith in
        let real : c.dev ≢ 0 = r v in
        let ih = moved-view xs ys c d k o r in
        let other : is_for d k x ≡ false = elim (Bool-cases (is_for d k x)) [
          | inl f ↦
              let p : x.dev ≡ c.dev = ground arith in
              let q : x.blockno ≡ c.blockno = ground arith in
              let g = h (λ z. real (sym p ∙ z)) in absurd (ground arith)
          | inr f ↦ f
        ] in
        rw (e, other) (rw e at ih)
  ]

  -- What must hold of a buffer that is released for the last time: it holds what the disk holds.
  abbrev pub Settled : ℕ → BufRing → Type 0
  Settled i ring = (b : Buf) → buf_at i ring ≡ some b → IsClean disk (drop_ref b)

  -- The ring is well formed, and every block reads as in the ring before.
  pub record Same (ring ring' : BufRing) : Type 0 where
    pub sound : WellFormed disk ring'
    pub reads : (d k : ℕ) → view disk ring' d k ≡ view disk ring d k

  abbrev Real : Buf → Type 0
  Real b = b.valid ≡ true → b.dev ≢ 0

  dropped-Same :
      (xs ys : BufRing) (b : Buf)
      → WellFormed disk (xs ++ b ∷ ys)
      → IsClean disk (drop_ref b)
      → Same (xs ++ b ∷ ys) (xs ++ drop_ref b ∷ ys)
  unfolding view
  dropped-Same xs ys b w clean =
      let real : Real b = (All-append disk Real xs (b ∷ ys) w.real).1.0 in
      record {
        sound =
            replaced-WellFormed disk xs ys b (drop_ref b) w refl
              (Others-same disk xs b (drop_ref b) refl refl
                (Distinct-Others disk xs ys b w.distinct))
              (Distinct-drop disk xs (b ∷ ys) w.distinct).1 clean real;
        reads = λ d k. view-cong disk xs (drop_ref b ∷ ys) (b ∷ ys) d k refl;
      }

  move_first-Same :
      (i : ℕ) (xs ys : BufRing) (c : Buf)
      → Slots disk i xs
      → i ≡ c.slot
      → WellFormed disk (xs ++ c ∷ ys)
      → Same (xs ++ c ∷ ys) (move_first i (xs ++ c ∷ ys) (some c))
  move_first-Same i xs ys c s e w = elim (Bool-cases (c.refcnt == 0)) [
    | inr used ↦ rw used (record { sound = w; reads = λ d k. refl })
    | inl free ↦
        let real : Real c = (All-append disk Real xs (c ∷ ys) w.real).1.0 in
        rw (free, unlink-append i xs ys c s e)
          (record {
            sound = moved-WellFormed xs ys c w;
            reads = λ d k. moved-view xs ys c d k (Distinct-Others disk xs ys c w.distinct) real;
          })
  ]

  Same-trans : (a b c : BufRing) → Same a b → Same b c → Same a c
  Same-trans a b c p q = record { sound = q.sound; reads = λ d k. q.reads d k ∙ p.reads d k }

  brelse-Found :
      (i : ℕ) (ring : BufRing)
      → WellFormed disk ring
      → Settled i ring
      → Found i ring
      → Same ring (brelse i ring)
  unfolding brelse
  brelse-Found i ring w clean (absent h k) =
      rw (h drop_ref, k) (record { sound = w; reads = λ d k. refl })
  brelse-Found i ring w clean (present front rest b s e o) =
      let c = drop_ref b in
      let v : WellFormed disk (front ++ b ∷ rest) = rw s at w in
      let here : buf_at i ring ≡ some b = ap (buf_at i) s ∙ buf_at-append disk i front rest b o e in
      let first = dropped-Same front rest b v (clean b here) in
      let there : at_buf i drop_ref (front ++ b ∷ rest) ≡ front ++ c ∷ rest =
        at_buf-append disk i drop_ref front rest b o e in
      let it : buf_at i (front ++ c ∷ rest) ≡ some c = buf_at-append disk i front rest c o e in
      rw (s, there, it)
        (Same-trans (front ++ b ∷ rest) (front ++ c ∷ rest)
          (move_first i (front ++ c ∷ rest) (some c)) first
          (move_first-Same i front rest c o e first.sound))

  pub brelse-Same :
      (i : ℕ) (ring : BufRing) → WellFormed disk ring → Settled i ring → Same ring (brelse i ring)
  brelse-Same i ring w clean = brelse-Found i ring w clean (find i ring)

  -- The slots of a ring are below `n`.
  abbrev Below : ℕ → BufRing → Type 0
  Below n ring = All (λ b. b.slot < n) ring

  Below-Slots : (n : ℕ) (ring : BufRing) → Below n ring → Slots disk n ring × Below (n + 1) ring
  Below-Slots n [] h = (tt, tt)
  Below-Slots n (b ∷ ring) (p, h) =
      let (s, g) = Below-Slots n ring h in ((ground arith, s), (omega arith, g))

  binit_from-WellFormed :
      (left n : ℕ) (ring : BufRing)
      → Below n ring
      → WellFormed disk ring
      → WellFormed disk (binit_from left n ring)
  unfolding binit_from
  binit_from-WellFormed zero n ring h w = w
  binit_from-WellFormed (suc left) n ring h w =
      let (s, g) = Below-Slots n ring h in
      binit_from-WellFormed left (n + 1) (blank_buf n ∷ ring) (omega arith, g)
        (record {
          distinct = (s, (λ r. absurd (r refl)), w.distinct);
          clean = ((λ f e. absurd (ground arith)), w.clean);
          real = ((λ e. absurd (ground arith)), w.real);
        })

  pub binit-WellFormed : WellFormed disk binit
  unfolding binit
  binit-WellFormed =
      binit_from-WellFormed 30 0 [] tt (record { distinct = tt; clean = tt; real = tt })
