-- ===== src/Kernel/Pipe.antt =====
-- xv6/kernel/pipe.c: pipeclose, pipewrite and piperead, each from where it holds the lock up to where
-- it returns or registers to sleep. What `copyin` and `copyout` answer for each byte is an argument; a
-- list of bytes that were copied stands for the count `i`. An outcome other than `refused` and the
-- reader's `waiting` comes with a wakeup of the other side.
pub mod Fifo
use mp.Prelude.{
  ℕ, zero, suc, ◌+◌, ◌%◌, Bool, true, false, not, ◌&&◌, ◌||◌, Option, none, some, List, [], ◌∷◌,
  ◌++◌, ◌==◌, if◌then◌else◌, length, get_elem?, modify,
}
use mp.Kernel.Proc.{u32}

pub record Pipe : Type 0 where
  pub data_bytes : List ℕ
  pub nread : ℕ
  pub nwrite : ℕ
  pub readopen : Bool
  pub writeopen : Bool

-- `true` says that the page of the pipe is freed.
unfoldable pub pipeclose : Bool → Pipe → Pipe × Bool
pipeclose writable pi =
    let closed =
      if writable then record pi { writeopen = false } else record pi { readopen = false } in
    (closed, not closed.readopen && not closed.writeopen)

-- `refused` is -1 for a closed reader or a killed process, `failed` is -1 for a copy that failed at
-- once, `done` returns the count, and `waiting` sleeps.
pub data Outcome : Type 0 where
  refused failed done waiting : Outcome

abbrev pub is_full : Pipe → Bool
is_full pi = pi.nwrite == u32 (pi.nread + 512)

abbrev pub is_empty : Pipe → Bool
is_empty pi = pi.nread == pi.nwrite

unfoldable pub put_byte : ℕ → Pipe → Pipe
put_byte ch pi = record pi {
  data_bytes = modify pi.data_bytes (pi.nwrite % 512) (λ _. ch);
  nwrite = u32 (pi.nwrite + 1);
}

abbrev pub stopped : List ℕ → Outcome
stopped [] = Outcome.failed
stopped (c ∷ cs) = Outcome.done

-- The loop, with the bytes written before; `input` is what `copyin` gives for the bytes that are left.
unfoldable pub write_from : Bool → List ℕ → List (Option ℕ) → Pipe → Pipe × List ℕ × Outcome
unfolding put_byte
write_from killed sent [] pi = (pi, sent, Outcome.done)
write_from killed sent (none ∷ input) pi =
    if not pi.readopen || killed
    then (pi, sent, Outcome.refused)
    else if is_full pi
    then (pi, sent, Outcome.waiting)
    else (pi, sent, stopped sent)
write_from killed sent (some ch ∷ input) pi =
    let rest = write_from killed (sent ++ ch ∷ []) input (put_byte ch pi) in
    if not pi.readopen || killed
    then (pi, sent, Outcome.refused)
    else if is_full pi
    then (pi, sent, Outcome.waiting)
    else rest

unfoldable pub pipewrite : Bool → List (Option ℕ) → Pipe → Pipe × List ℕ × Outcome
unfolding write_from
pipewrite killed input pi = write_from killed [] input pi

abbrev pub read_byte :
    Pipe → List ℕ → (ℕ → Pipe × List ℕ × Outcome) → Option ℕ → Pipe × List ℕ × Outcome
read_byte pi got next none = (pi, got, Outcome.failed)
read_byte pi got next (some ch) = next ch

-- The copy loop of `piperead`, with the bytes read before; a read outside the array, which cannot
-- happen in a pipe (Pipe/Fifo), ends it.
unfoldable pub read_from : List ℕ → List Bool → Pipe → Pipe × List ℕ × Outcome
read_from got [] pi = (pi, got, Outcome.done)
read_from got (false ∷ copies) pi = (pi, got, if is_empty pi then Outcome.done else stopped got)
read_from got (true ∷ copies) pi =
    let next : ℕ → Pipe × List ℕ × Outcome =
      λ ch. read_from (got ++ ch ∷ []) copies (record pi { nread = u32 (pi.nread + 1) }) in
    if is_empty pi
    then (pi, got, Outcome.done)
    else read_byte pi got next (get_elem? pi.data_bytes (pi.nread % 512))

-- A stretch of `piperead` between sleeps.
unfoldable pub piperead : Bool → List Bool → Pipe → Pipe × List ℕ × Outcome
unfolding read_from
piperead killed copies pi =
    if is_empty pi && pi.writeopen
    then (pi, [], if killed then Outcome.refused else Outcome.waiting)
    else read_from [] copies pi
