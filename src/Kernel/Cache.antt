-- ===== src/Kernel/Cache.antt =====
-- xv6/kernel/bio.c: the buffer cache. The ring of the buffers, from `head.next`, the most recently used,
-- to `head.prev`, is a list; a `struct buf *` is the number of its slot in `bcache.buf`. A call holds
-- `bcache.lock` and is one step; the sleep lock of a buffer and the disk driver are not modelled: `disk`
-- says what a read of a block of a device gives.
pub mod Lookup
pub mod View
pub mod Ring
pub mod Release
pub mod Calls
mod Tests
use mp.Prelude.{
  ℕ, zero, suc, ◌+◌, ◌-◌, Bool, true, false, not, ◌&&◌, ◌||◌, Option, none, some, List, [], ◌∷◌,
  ◌++◌, ◌==◌, if◌then◌else◌,
}
use mp.Kernel.Proc.{u32}
use mp.Kernel.Log.{Block}

pub record Buf : Type 0 where
  pub slot : ℕ
  pub dev : ℕ
  pub blockno : ℕ
  pub valid : Bool
  pub refcnt : ℕ
  pub contents : Block

abbrev pub BufRing : Type 0
BufRing = List Buf

-- The static array before `binit`, slot `i` first.
abbrev pub blank_buf : ℕ → Buf
blank_buf i = record { slot = i; dev = 0; blockno = 0; valid = false; refcnt = 0; contents = [] }

-- The loop of `binit` over `left` buffers from slot `i` on: each becomes the first of the ring.
unfoldable pub binit_from : ℕ → ℕ → BufRing → BufRing
binit_from zero i ring = ring
binit_from (suc left) i ring = binit_from left (i + 1) (blank_buf i ∷ ring)

unfoldable pub binit : BufRing
unfolding binit_from
binit = binit_from 30 0 []

abbrev pub is_for : ℕ → ℕ → Buf → Bool
is_for dev blockno b = b.dev == dev && b.blockno == blockno

abbrev pub add_ref : Buf → Buf
add_ref b = record b { refcnt = u32 (b.refcnt + 1) }

abbrev pub drop_ref : Buf → Buf
drop_ref b = record b { refcnt = u32 (b.refcnt + 4294967295) }

-- Puts a buffer back before the result of the search behind it.
abbrev pub behind : Buf → Option (BufRing × ℕ) → Option (BufRing × ℕ)
behind b none = none
behind b (some (bs, i)) = some (b ∷ bs, i)

-- The first loop of `bget`.
unfoldable pub find_cached : ℕ → ℕ → BufRing → Option (BufRing × ℕ)
find_cached dev blockno [] = none
find_cached dev blockno (b ∷ bs) =
    if is_for dev blockno b
    then some (add_ref b ∷ bs, b.slot)
    else behind b (find_cached dev blockno bs)

abbrev pub recycled : ℕ → ℕ → Buf → Buf
recycled dev blockno b = record b { dev = dev; blockno = blockno; valid = false; refcnt = 1 }

abbrev pub or_else : Option (BufRing × ℕ) → Option (BufRing × ℕ) → Option (BufRing × ℕ)
or_else none r = r
or_else (some x) r = some x

-- The second loop, which comes from the other end: a buffer is taken only if none behind it is.
unfoldable pub find_lru : ℕ → ℕ → BufRing → Option (BufRing × ℕ)
find_lru dev blockno [] = none
find_lru dev blockno (b ∷ bs) =
    or_else (behind b (find_lru dev blockno bs))
      (if b.refcnt == 0 then some (recycled dev blockno b ∷ bs, b.slot) else none)

-- `none` is the panic.
unfoldable pub bget : ℕ → ℕ → BufRing → Option (BufRing × ℕ)
unfolding find_cached find_lru
bget dev blockno ring = or_else (find_cached dev blockno ring) (find_lru dev blockno ring)

-- Applies a function to the buffer of a slot.
unfoldable pub at_buf : ℕ → (Buf → Buf) → BufRing → BufRing
at_buf i f [] = []
at_buf i f (b ∷ bs) = if b.slot == i then f b ∷ bs else b ∷ at_buf i f bs

abbrev pub fill : (ℕ → ℕ → Block) → Buf → Buf
fill disk b = if not b.valid then record b { contents = disk b.dev b.blockno; valid = true } else b

abbrev pub filled : (ℕ → ℕ → Block) → Option (BufRing × ℕ) → Option (BufRing × ℕ)
filled disk none = none
filled disk (some (ring, i)) = some (at_buf i (fill disk) ring, i)

unfoldable pub bread : (ℕ → ℕ → Block) → ℕ → ℕ → BufRing → Option (BufRing × ℕ)
unfolding bget at_buf
bread disk dev blockno ring = filled disk (bget dev blockno ring)

-- The ring without a buffer, and the buffer.
unfoldable pub unlink : ℕ → BufRing → BufRing
unlink i [] = []
unlink i (b ∷ bs) = if b.slot == i then bs else b ∷ unlink i bs

unfoldable pub buf_at : ℕ → BufRing → Option Buf
buf_at i [] = none
buf_at i (b ∷ bs) = if b.slot == i then some b else buf_at i bs

abbrev pub move_first : ℕ → BufRing → Option Buf → BufRing
move_first i ring none = ring
move_first i ring (some b) = if b.refcnt == 0 then b ∷ unlink i ring else ring

-- `brelse`, by a process that holds the buffer.
unfoldable pub brelse : ℕ → BufRing → BufRing
unfolding at_buf unlink buf_at
brelse i ring = let dropped = at_buf i drop_ref ring in move_first i dropped (buf_at i dropped)

unfoldable pub bpin : ℕ → BufRing → BufRing
unfolding at_buf
bpin i ring = at_buf i add_ref ring

unfoldable pub bunpin : ℕ → BufRing → BufRing
unfolding at_buf
bunpin i ring = at_buf i drop_ref ring
