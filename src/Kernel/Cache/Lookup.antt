-- ===== src/Kernel/Cache/Lookup.antt =====
-- Which buffer `bget` takes.
use mp.Prelude.{
  ℕ, Bool, true, false, Option, none, some, [], ◌∷◌, ◌++◌, ◌==◌, ◌≡◌, refl, ap, if◌then◌else◌,
}
use mp.Kernel.Cache.{
  Buf, BufRing, is_for, add_ref, recycled, behind, or_else, find_cached, find_lru, bget,
}

-- No buffer is for the block.
abbrev pub NotCached : ℕ → ℕ → BufRing → Type 0
NotCached dev blockno [] = Unit {0}
NotCached dev blockno (b ∷ bs) = (is_for dev blockno b ≡ false) × NotCached dev blockno bs

-- Every buffer is in use.
abbrev pub AllUsed : BufRing → Type 0
AllUsed [] = Unit {0}
AllUsed (b ∷ bs) = ((b.refcnt == 0) ≡ false) × AllUsed bs

-- What `bget` does to the ring: it takes one more reference to the first buffer for the block, or, where
-- there is none, makes the last buffer that is not in use a buffer for it.
pub data Got (dev blockno : ℕ) (ring ring' : BufRing) (i : ℕ) : Type 0 where
  hits :
      (front rest : BufRing) (b : Buf)
      → ring ≡ front ++ b ∷ rest
      → is_for dev blockno b ≡ true
      → NotCached dev blockno front
      → ring' ≡ front ++ add_ref b ∷ rest
      → i ≡ b.slot
      → Got dev blockno ring ring' i
  recycles :
      (front rest : BufRing) (b : Buf)
      → NotCached dev blockno ring
      → ring ≡ front ++ b ∷ rest
      → (b.refcnt == 0) ≡ true
      → AllUsed rest
      → ring' ≡ front ++ recycled dev blockno b ∷ rest
      → i ≡ b.slot
      → Got dev blockno ring ring' i

record Hit (dev blockno : ℕ) (ring ring' : BufRing) (i : ℕ) : Type 0 where
  front : BufRing
  rest : BufRing
  b : Buf
  split : ring ≡ front ++ b ∷ rest
  same : is_for dev blockno b ≡ true
  before : NotCached dev blockno front
  after : ring' ≡ front ++ add_ref b ∷ rest
  slot : i ≡ b.slot

Hit-cons :
    (dev blockno : ℕ) (c : Buf) (ring ring' : BufRing) (i : ℕ)
    → is_for dev blockno c ≡ false
    → Hit dev blockno ring ring' i
    → Hit dev blockno (c ∷ ring) (c ∷ ring') i
Hit-cons dev blockno c ring ring' i n h = record {
  front = c ∷ h.front;
  rest = h.rest;
  b = h.b;
  split = ap (◌∷◌ c) h.split;
  same = h.same;
  before = (n, h.before);
  after = ap (◌∷◌ c) h.after;
  slot = h.slot;
}

-- The two ways a search can end.
abbrev pub FoundOr : (BufRing → ℕ → Type 0) → Type 0 → Option (BufRing × ℕ) → Type 0
FoundOr P Q none = Q
FoundOr P Q (some (ring', i)) = P ring' i

FoundOr-behind :
    (c : Buf) (P P' : BufRing → ℕ → Type 0) (Q Q' : Type 0) (r : Option (BufRing × ℕ))
    → FoundOr P Q r
    → ((ring' : BufRing) (i : ℕ) → P ring' i → P' (c ∷ ring') i)
    → (Q → Q')
    → FoundOr P' Q' (behind c r)
FoundOr-behind c P P' Q Q' none f g h = h f
FoundOr-behind c P P' Q Q' (some (ring', i)) f g h = g ring' i f

FoundOr-if :
    (P : BufRing → ℕ → Type 0) (Q : Type 0) (t : Bool) (x y : Option (BufRing × ℕ))
    → (t ≡ true → FoundOr P Q x)
    → (t ≡ false → FoundOr P Q y)
    → FoundOr P Q (if t then x else y)
FoundOr-if P Q true x y f g = f refl
FoundOr-if P Q false x y f g = g refl

find_cached-Hit :
    (dev blockno : ℕ) (ring : BufRing)
    → FoundOr (Hit dev blockno ring) (NotCached dev blockno ring) (find_cached dev blockno ring)
unfolding find_cached
find_cached-Hit dev blockno [] = tt
find_cached-Hit dev blockno (b ∷ bs) =
    FoundOr-if (Hit dev blockno (b ∷ bs)) (NotCached dev blockno (b ∷ bs)) (is_for dev blockno b) _
      _
      (λ e. record {
        front = [];
        rest = bs;
        b = b;
        split = refl;
        same = e;
        before = tt;
        after = refl;
        slot = refl;
      })
      (λ e.
        FoundOr-behind b (Hit dev blockno bs) (Hit dev blockno (b ∷ bs)) (NotCached dev blockno bs)
          (NotCached dev blockno (b ∷ bs)) (find_cached dev blockno bs)
          (find_cached-Hit dev blockno bs) (λ ring' i h. Hit-cons dev blockno b bs ring' i e h)
          (λ q. (e, q)))

record Recycles (dev blockno : ℕ) (ring ring' : BufRing) (i : ℕ) : Type 0 where
  front : BufRing
  rest : BufRing
  b : Buf
  split : ring ≡ front ++ b ∷ rest
  unused : (b.refcnt == 0) ≡ true
  behind_used : AllUsed rest
  after : ring' ≡ front ++ recycled dev blockno b ∷ rest
  slot : i ≡ b.slot

Recycles-cons :
    (dev blockno : ℕ) (c : Buf) (ring ring' : BufRing) (i : ℕ)
    → Recycles dev blockno ring ring' i
    → Recycles dev blockno (c ∷ ring) (c ∷ ring') i
Recycles-cons dev blockno c ring ring' i r = record {
  front = c ∷ r.front;
  rest = r.rest;
  b = r.b;
  split = ap (◌∷◌ c) r.split;
  unused = r.unused;
  behind_used = r.behind_used;
  after = ap (◌∷◌ c) r.after;
  slot = r.slot;
}

-- A buffer is taken where none behind it is.
lru_here :
    (dev blockno : ℕ) (b : Buf) (bs : BufRing)
    → AllUsed bs
    → FoundOr
        (Recycles dev blockno (b ∷ bs))
        (AllUsed (b ∷ bs))
        (if b.refcnt == 0 then some (recycled dev blockno b ∷ bs, b.slot) else none)
lru_here dev blockno b bs used =
    FoundOr-if (Recycles dev blockno (b ∷ bs)) (AllUsed (b ∷ bs)) (b.refcnt == 0) _ _
      (λ e. record {
        front = [];
        rest = bs;
        b = b;
        split = refl;
        unused = e;
        behind_used = used;
        after = refl;
        slot = refl;
      })
      (λ e. (e, used))

lru_or :
    (dev blockno : ℕ) (b : Buf) (bs : BufRing) (r : Option (BufRing × ℕ))
    → FoundOr (Recycles dev blockno bs) (AllUsed bs) r
    → FoundOr (Recycles dev blockno (b ∷ bs)) (AllUsed (b ∷ bs)) (
        or_else
          (behind b r)
          (if b.refcnt == 0 then some (recycled dev blockno b ∷ bs, b.slot) else none))
lru_or dev blockno b bs none f = lru_here dev blockno b bs f
lru_or dev blockno b bs (some (ring', i)) f = Recycles-cons dev blockno b bs ring' i f

find_lru-Recycles :
    (dev blockno : ℕ) (ring : BufRing)
    → FoundOr (Recycles dev blockno ring) (AllUsed ring) (find_lru dev blockno ring)
unfolding find_lru
find_lru-Recycles dev blockno [] = tt
find_lru-Recycles dev blockno (b ∷ bs) =
    lru_or dev blockno b bs (find_lru dev blockno bs) (find_lru-Recycles dev blockno bs)

Got-or :
    (dev blockno : ℕ) (ring : BufRing) (cached lru : Option (BufRing × ℕ))
    → FoundOr (Hit dev blockno ring) (NotCached dev blockno ring) cached
    → FoundOr (Recycles dev blockno ring) (AllUsed ring) lru
    → FoundOr
        (Got dev blockno ring)
        (NotCached dev blockno ring × AllUsed ring)
        (or_else cached lru)
Got-or dev blockno ring none none f g = (f, g)
Got-or dev blockno ring none (some (ring', i)) f g =
    recycles g.front g.rest g.b f g.split g.unused g.behind_used g.after g.slot
Got-or dev blockno ring (some (ring', i)) lru f g =
    hits f.front f.rest f.b f.split f.same f.before f.after f.slot

-- `bget` finds a buffer for the block and takes a reference to it, all else unchanged; or, where no
-- buffer is for the block, it makes the last unused one of the ring, that is the least recently used, a
-- buffer for it, not valid and with one reference, all else unchanged; and it panics only where no
-- buffer is for the block and all are in use.
pub bget-Got :
    (dev blockno : ℕ) (ring : BufRing)
    → FoundOr
        (Got dev blockno ring)
        (NotCached dev blockno ring × AllUsed ring)
        (bget dev blockno ring)
unfolding bget
bget-Got dev blockno ring =
    Got-or dev blockno ring (find_cached dev blockno ring) (find_lru dev blockno ring)
      (find_cached-Hit dev blockno ring) (find_lru-Recycles dev blockno ring)
