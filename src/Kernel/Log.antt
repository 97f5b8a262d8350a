-- ===== src/Kernel/Log.antt =====
-- xv6/kernel/log.c: the redo log of the file system. A block is the list of its 256 words, as the cast
-- to `struct logheader` reads it. `disk` is what a block holds after a loss of power; `cached` is what
-- `bread` returns. `bwrite` writes one block at a time, `power` times in all: later writes are lost.
pub mod Words
pub mod Install
pub mod Crash
pub mod Commit
pub mod Atomic
pub mod Space
mod Tests
use mp.Prelude.{
  ℕ, zero, suc, ◌+◌, ◌-◌, ◌*◌, Bool, true, false, not, ◌||◌, Option, none, some, List, [], ◌∷◌,
  ◌++◌, ltb, leb, ◌==◌, if◌then◌else◌, length,
}
use mp.Kernel.Proc.{is_neg}

abbrev pub Block : Type 0
Block = List ℕ

abbrev pub logblocks : ℕ
logblocks = 30

abbrev pub maxopblocks : ℕ
maxopblocks = 10

-- `blocks` is `lh.block[0..lh.n)`; `pins` counts what bpin and bunpin do to each block's buffer.
pub record Log : Type 0 where
  pub start : ℕ
  pub outstanding : ℕ
  pub committing : Bool
  pub ncommit : ℕ
  pub blocks : List ℕ
  pub disk : ℕ → Block
  pub cached : ℕ → Block
  pub pins : ℕ → ℕ
  pub power : ℕ

abbrev pub update {ℓ} : {A : Type ℓ} → (ℕ → A) → ℕ → A → ℕ → A
update f i v j = if j == i then v else f j

-- `bwrite` of the buffer of block `b`.
unfoldable pub bwrite : ℕ → Log → Log
bwrite b s =
    if s.power == 0
    then s
    else record s { disk = update s.disk b (s.cached b); power = s.power - 1 }

-- `memmove(to->data, from->data, BSIZE)` on the buffers of two blocks, and `bwrite(to)`.
unfoldable pub copy_block : ℕ → ℕ → Log → Log
unfolding bwrite
copy_block to from s = bwrite to (record s { cached = update s.cached to (s.cached from) })

unfoldable pub unpin : Bool → ℕ → Log → Log
unpin recovering b s = if recovering then s else record s { pins = update s.pins b (s.pins b - 1) }

-- The loop of `install_trans`, from the log block `from` on.
unfoldable pub install_from : Bool → ℕ → List ℕ → Log → Log
unfolding copy_block unpin
install_from recovering from [] s = s
install_from recovering from (b ∷ bs) s =
    install_from recovering (from + 1) bs (unpin recovering b (copy_block b from s))

unfoldable pub install_trans : Bool → Log → Log
unfolding install_from
install_trans recovering s = install_from recovering (s.start + 1) s.blocks s

-- The loop of `write_log`.
unfoldable pub write_from : ℕ → List ℕ → Log → Log
unfolding copy_block
write_from to [] s = s
write_from to (b ∷ bs) s = write_from (to + 1) bs (copy_block to b s)

unfoldable pub write_log : Log → Log
unfolding write_from
write_log s = write_from (s.start + 1) s.blocks s

-- The first `n` words; `none` is a read past the end.
unfoldable pub read_words : ℕ → List ℕ → Option (List ℕ)
read_words zero ws = some []
read_words (suc n) [] = none
read_words (suc n) (w ∷ ws) = elim (read_words n ws) [ none ↦ none | some vs ↦ some (w ∷ vs) ]

-- The block numbers of a header; `none` is a write past the end of `log.lh.block`. A negative `n`
-- reads none.
unfoldable pub read_header : Block → Option (List ℕ)
unfolding read_words
read_header [] = none
read_header (n ∷ ws) =
    if is_neg n then some [] else if ltb logblocks n then none else read_words n ws

-- The words with the first ones replaced.
unfoldable pub set_words : List ℕ → List ℕ → List ℕ
set_words [] ws = ws
set_words (v ∷ vs) [] = []
set_words (v ∷ vs) (w ∷ ws) = v ∷ set_words vs ws

unfoldable pub write_head : Log → Log
unfolding bwrite set_words
write_head s =
    let head = set_words (length s.blocks ∷ s.blocks) (s.cached s.start) in
    bwrite s.start (record s { cached = update s.cached s.start head })

abbrev pub with_header : Log → Option (List ℕ) → Option Log
with_header s none = none
with_header s (some bs) = some (record s { blocks = bs })

unfoldable pub read_head : Log → Option Log
unfolding read_header
read_head s = with_header s (read_header (s.cached s.start))

-- What `recover_from_log` does once it has read the header.
unfoldable pub redo : Log → Log
unfolding install_trans write_head
redo s = write_head (record (install_trans true s) { blocks = [] })

abbrev pub redo_read : Option Log → Option Log
redo_read none = none
redo_read (some s) = some (redo s)

unfoldable pub recover_from_log : Log → Option Log
unfolding read_head redo
recover_from_log s = redo_read (read_head s)

-- `logstart` is that of the super block.
unfoldable pub initlog : ℕ → Log → Option Log
unfolding recover_from_log
initlog logstart s = recover_from_log (record s { start = logstart })

unfoldable pub commit : Log → Log
unfolding write_log write_head install_trans
commit s =
    if ltb 0 (length s.blocks)
    then write_head (record (install_trans false (write_head (write_log s))) { blocks = [] })
    else s

-- A round of the loop of `begin_op`: the new state, or `none` where it sleeps on the log.
unfoldable pub begin_op : Log → Option Log
begin_op s =
    if s.committing || ltb logblocks (length s.blocks + (s.outstanding + 1) * maxopblocks)
    then none
    else some (record s { outstanding = s.outstanding + 1 })

-- `end_op`, with the commit where it was the last operation; `none` is the panic. Some operation is
-- outstanding.
unfoldable pub end_op : Log → Option Log
unfolding commit
end_op s =
    let last = record s { outstanding = s.outstanding - 1; committing = true } in
    if s.committing
    then none
    else some (
        if s.outstanding == 1
        then record (commit last) { committing = false; ncommit = s.ncommit + 1 }
        else record s { outstanding = s.outstanding - 1 })

unfoldable pub contains : ℕ → List ℕ → Bool
contains b [] = false
contains b (x ∷ xs) = x == b || contains b xs

-- `none` is a panic. The search that ends at `lh.n` appends the block and pins its buffer.
unfoldable pub log_write : ℕ → Log → Option Log
unfolding contains
log_write b s =
    if leb logblocks (length s.blocks) || ltb s.outstanding 1
    then none
    else some (
        if contains b s.blocks
        then s
        else record s { blocks = s.blocks ++ b ∷ []; pins = update s.pins b (s.pins b + 1) })

-- The `ncommit` that `sys_sync` waits for, if it waits; it sleeps on the log until `sync_done`.
unfoldable pub sync_target : Log → Option ℕ
sync_target s = if s.committing || ltb 0 s.outstanding then some (s.ncommit + 1) else none

unfoldable pub sync_done : ℕ → Log → Bool
sync_done n s = not (ltb s.ncommit n)

-- After a loss of power: the buffers are empty, so `bread` returns what the disk holds.
unfoldable pub reboot : ℕ → Log → Log
reboot power s = record s {
  outstanding = 0;
  committing = false;
  blocks = [];
  cached = s.disk;
  pins = λ b. 0;
  power = power;
}
