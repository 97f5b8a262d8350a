-- ===== src/Kernel/Cache/Tests.antt =====
-- The theorems of the buffer cache at concrete inputs: a ring of two buffers, the first in use.
use mp.Prelude.{ℕ, zero, suc, ◌+◌, true, Option, none, some, [], ◌∷◌, ◌≡◌, refl, arith}
use mp.Kernel.Log.{Block}
use mp.Kernel.Cache.{Buf, BufRing, blank_buf, binit_from, binit, is_for, buf_at, bread, brelse}
use mp.Kernel.Cache.View.{WellFormed}
use mp.Kernel.Cache.Ring.{Counted}
use mp.Kernel.Cache.Release.{Settled}
use mp.Kernel.Cache.Calls.{Calls, bread-disk}

abbrev disk : ℕ → ℕ → Block
disk dev blockno = blockno ∷ []

abbrev in_use : Buf
in_use = record (blank_buf 1) { dev = 1; blockno = 5; valid = true; refcnt = 1; contents = 9 ∷ [] }

abbrev left_over : Buf
left_over = record (blank_buf 0) { dev = 1; blockno = 6; valid = true; contents = 6 ∷ [] }

abbrev ring : BufRing
ring = in_use ∷ left_over ∷ []

-- Block 7 takes the buffer of block 6.
abbrev ring_after : BufRing
ring_after = in_use ∷ record left_over { blockno = 7; contents = 7 ∷ []; refcnt = 1 } ∷ []

takes_last : bread disk 1 7 ring ≡ some (ring_after, 0)
unfolding bread
takes_last = refl

ring-WellFormed : WellFormed disk ring
ring-WellFormed = record {
  distinct = ((refl, tt), (λ h. (refl, tt)), (tt, (λ h. tt), tt));
  clean = ((λ h. cc), ((λ h g. refl), tt));
  real = ((λ h e. ground arith), ((λ h e. ground arith), tt));
}

abbrev ring_of : Option (BufRing × ℕ) → BufRing
ring_of none = []
ring_of (some (ring, i)) = ring

-- Block 7 is read and released, and block 8 is read.
abbrev once : BufRing
once = ring_of (bread disk 1 7 binit)

abbrev again : BufRing
again = brelse 0 once

abbrev twice : BufRing
twice = ring_of (bread disk 1 8 again)

reads_first : bread disk 1 7 binit ≡ some (once, 0)
unfolding bread binit
reads_first = refl

reads_next : bread disk 1 8 again ≡ some (twice, 1)
unfolding bread binit brelse
reads_next = refl

once-Settled : Settled disk 0 once
unfolding bread binit buf_at
once-Settled b e f v =
    let same : record (blank_buf 0) {
      dev = 1;
      blockno = 7;
      valid = true;
      refcnt = 1;
      contents = 7 ∷ [];
    }
        ≡ b =
      cc in
    rw (← same) refl

few : (n left : ℕ) (ring : BufRing) → Counted disk ring → Counted disk (binit_from left n ring)
unfolding binit_from
few n zero ring h = h
few n (suc left) ring h = few (n + 1) left (blank_buf n ∷ ring) (omega arith, h)

binit-Counted : Counted disk binit
unfolding binit
binit-Counted = few 0 30 [] tt

quiet : Calls disk again
quiet =
    Calls.releases 0
      (Calls.reads {ring = binit} {ring' = once} 1 7 0 Calls.start (λ e. omega arith) binit-Counted
        reads_first)
      once-Settled

bread-disk_example :
    (found : Buf) × (buf_at 1 twice ≡ some found)
    × (is_for 1 8 found ≡ true)
    × (found.valid ≡ true)
    × (found.contents ≡ disk 1 8)
bread-disk_example = bread-disk disk 1 8 again twice 1 quiet (λ e. omega arith) reads_next
