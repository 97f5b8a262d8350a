-- ===== src/Kernel/Cache/Calls.antt =====
-- Any sequence of reads and releases from the start.
use mp.Prelude.{ℕ, zero, suc, ◌+◌, ◌&&◌, arith, true, false, some, [], ◌∷◌, ◌≡◌, ◌≢◌, ◌∙◌, refl}
use mp.Kernel.Log.{Block}
use mp.Kernel.Cache.{Buf, BufRing, is_for, buf_at, bread, brelse, blank_buf, binit_from, binit}
use mp.Kernel.Cache.View.{All, view, WellFormed, bread-Reads}
use mp.Kernel.Cache.Ring.{Counted, bread-WellFormed}
use mp.Kernel.Cache.Release.{Settled, brelse-Same, binit-WellFormed}

module _ (disk : ℕ → ℕ → Block) where
  -- The rings that calls of `bread` and `brelse` lead to: a buffer that is released for the last time
  -- holds what the disk holds.
  pub data Calls : BufRing → Type 0 where
    start : Calls binit
    reads :
        {ring ring' : BufRing} (dev blockno i : ℕ)
        → Calls ring
        → dev ≢ 0
        → Counted disk ring
        → bread disk dev blockno ring ≡ some (ring', i)
        → Calls ring'
    releases : {ring : BufRing} (i : ℕ) → Calls ring → Settled disk i ring → Calls (brelse i ring)

  pub record Faithful (ring : BufRing) : Type 0 where
    pub sound : WellFormed disk ring
    pub same : (d k : ℕ) → view disk ring d k ≡ disk d k

  abbrev Invalid : BufRing → Type 0
  Invalid ring = All (λ b. b.valid ≡ false) ring

  view-Invalid : (ring : BufRing) → Invalid ring → (d k : ℕ) → view disk ring d k ≡ disk d k
  unfolding view
  view-Invalid [] h d k = refl
  view-Invalid (b ∷ ring) (e, h) d k =
      let f : (is_for d k b && b.valid) ≡ false = ground arith in rw f (view-Invalid ring h d k)

  binit_from-Invalid :
      (left n : ℕ) (ring : BufRing) → Invalid ring → Invalid (binit_from left n ring)
  unfolding binit_from
  binit_from-Invalid zero n ring h = h
  binit_from-Invalid (suc left) n ring h =
      binit_from-Invalid left (n + 1) (blank_buf n ∷ ring) (refl, h)

  binit-view : (d k : ℕ) → view disk binit d k ≡ disk d k
  unfolding binit
  binit-view d k = view-Invalid (binit_from 30 0 []) (binit_from-Invalid 30 0 [] tt) d k

  Calls-Faithful : (ring : BufRing) → Calls ring → Faithful ring
  Calls-Faithful ring start = record { sound = binit-WellFormed disk; same = binit-view }
  Calls-Faithful ring' (reads {ring} dev blockno i p real count e) =
      let f = Calls-Faithful ring p in
      let r = bread-Reads disk dev blockno ring ring' i f.sound real e in
      record {
        sound = bread-WellFormed disk dev blockno ring ring' i f.sound count real e;
        same = λ d k. r.same d k ∙ f.same d k;
      }
  Calls-Faithful ring' (releases {ring} i p settled) =
      let f = Calls-Faithful ring p in
      let s = brelse-Same disk i ring f.sound settled in
      record { sound = s.sound; same = λ d k. s.reads d k ∙ f.same d k }

  -- From the start, whatever blocks are read and released before, where a buffer that is released for the
  -- last time holds what the disk holds: a read of a block of a device gives a valid buffer for it
  -- that holds what the disk holds.
  pub bread-disk :
      (dev blockno : ℕ) (ring ring' : BufRing) (i : ℕ)
      → Calls ring
      → dev ≢ 0
      → bread disk dev blockno ring ≡ some (ring', i)
      → (found : Buf) × (buf_at i ring' ≡ some found)
        × (is_for dev blockno found ≡ true)
        × (found.valid ≡ true)
        × (found.contents ≡ disk dev blockno)
  bread-disk dev blockno ring ring' i p real e =
      let f = Calls-Faithful ring p in
      let r = bread-Reads disk dev blockno ring ring' i f.sound real e in
      (r.found, r.at, r.block, r.valid, r.contents ∙ f.same dev blockno)
