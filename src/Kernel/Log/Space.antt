-- ===== src/Kernel/Log/Space.antt =====
-- log.c: the room in the log over sequences of begin_op, log_write and end_op.
use mp.Prelude.{
  ℕ, suc, ◌+◌, ◌-◌, ◌*◌, ◌≤◌, ◌<◌, true, false, some, List, [], ◌∷◌, ◌++◌, ◌==◌, ◌≡◌, ◌∙◌, inl, inr,
  refl, arith, ap, length, length-append, Bool-cases, Option-cases,
}
use mp.Kernel.Log.{
  Log, begin_op, end_op, log_write, commit, write_head, bwrite, copy_block, unpin, install_from,
  install_trans, write_from, write_log,
}

-- The operations that are outstanding, each with the number of blocks it has written, and the log.
pub record Situation : Type 0 where
  pub ops : List ℕ
  pub log : Log

-- What the operations do, each as one step: an operation begins, one that has written fewer than 10
-- blocks writes one more, and one ends, with the commit if it is the last.
pub data Step (a b : Situation) : Type 0 where
  begins : begin_op a.log ≡ some b.log → b.ops ≡ 0 ∷ a.ops → Step a b
  writes :
      (xs ys : List ℕ) (used block : ℕ)
      → used < 10
      → a.ops ≡ xs ++ used ∷ ys
      → log_write block a.log ≡ some b.log
      → b.ops ≡ xs ++ (used + 1) ∷ ys
      → Step a b
  ends :
      (xs ys : List ℕ) (used : ℕ)
      → a.ops ≡ xs ++ used ∷ ys
      → end_op a.log ≡ some b.log
      → b.ops ≡ xs ++ ys
      → Step a b

pub data Reach (a : Situation) : Situation → Type 0 where
  here : Reach a a
  next : {b c : Situation} → Reach a b → Step b c → Reach a c

-- The blocks that the operations may still write.
abbrev pub reserve : List ℕ → ℕ
reserve [] = 0
reserve (used ∷ ops) = (10 - used) + reserve ops

-- There is room in the log for these.
pub record HasRoom (a : Situation) : Type 0 where
  pub count : a.log.outstanding ≡ length a.ops
  pub room : length a.log.blocks + reserve a.ops ≤ 30
  pub idle : a.log.committing ≡ false

reserve-append : (xs ys : List ℕ) → reserve (xs ++ ys) ≡ reserve xs + reserve ys
reserve-append [] ys = omega arith
reserve-append (x ∷ xs) ys = omega (arith, reserve-append xs ys)

reserve-le : (xs : List ℕ) → reserve xs ≤ length xs * 10
reserve-le [] = omega arith
reserve-le (x ∷ xs) = omega (arith, reserve-le xs)

commit-blocks : (s : Log) → length (commit s).blocks ≡ 0
unfolding commit write_head bwrite
commit-blocks s = ground arith

install_from-outstanding :
    (a : ℕ) (bs : List ℕ) (s : Log) → (install_from false a bs s).outstanding ≡ s.outstanding
unfolding install_from copy_block unpin bwrite
install_from-outstanding a [] s = refl
install_from-outstanding a (b ∷ bs) s =
    install_from-outstanding (a + 1) bs (unpin false b (copy_block b a s)) ∙ ground arith

write_from-outstanding :
    (a : ℕ) (bs : List ℕ) (s : Log) → (write_from a bs s).outstanding ≡ s.outstanding
unfolding write_from copy_block bwrite
write_from-outstanding a [] s = refl
write_from-outstanding a (b ∷ bs) s =
    write_from-outstanding (a + 1) bs (copy_block a b s) ∙ ground arith

write_head-outstanding : (s : Log) → (write_head s).outstanding ≡ s.outstanding
unfolding write_head bwrite
write_head-outstanding s = ground arith

commit-outstanding : (s : Log) → (commit s).outstanding ≡ s.outstanding
unfolding commit write_log install_trans
commit-outstanding s =
    let w = write_from (s.start + 1) s.blocks s in
    let h = write_head w in
    let t = install_from false (h.start + 1) h.blocks h in
    ground (
      arith,
      write_head-outstanding (record t { blocks = [] }),
      install_from-outstanding (h.start + 1) h.blocks h,
      write_head-outstanding w,
      write_from-outstanding (s.start + 1) s.blocks s,
    )

record Begun (s t : Log) : Type 0 where
  outstanding : t.outstanding ≡ s.outstanding + 1
  blocks : length t.blocks ≡ length s.blocks
  committing : t.committing ≡ s.committing
  fits : length s.blocks + (s.outstanding + 1) * 10 ≤ 30

begin_op-Begun : (s t : Log) → begin_op s ≡ some t → Begun s t
unfolding begin_op
begin_op-Begun s t e = ground arith

begin_op-HasRoom :
    (a b : Situation) → HasRoom a → begin_op a.log ≡ some b.log → b.ops ≡ 0 ∷ a.ops → HasRoom b
begin_op-HasRoom a b r e f =
    let t = begin_op-Begun a.log b.log e in
    let n : length b.ops ≡ suc (length a.ops) = ap length f in
    let k : reserve b.ops ≡ 10 + reserve a.ops = ap reserve f in
    record {
      count = omega (arith, n, r.count, t.outstanding);
      room = omega (arith, k, r.count, t.blocks, t.fits, reserve-le a.ops);
      idle = t.committing ∙ r.idle;
    }

record Written (s t : Log) : Type 0 where
  outstanding : t.outstanding ≡ s.outstanding
  blocks : length t.blocks ≤ length s.blocks + 1
  committing : t.committing ≡ s.committing

log_write-Written : (block : ℕ) (s t : Log) → log_write block s ≡ some t → Written s t
unfolding log_write
log_write-Written block s t e = ground (arith, length-append s.blocks (block ∷ []))

split-length : (xs ys : List ℕ) (u : ℕ) → length (xs ++ u ∷ ys) ≡ suc (length (xs ++ ys))
split-length xs ys u = omega (arith, length-append xs (u ∷ ys), length-append xs ys)

split-reserve : (xs ys : List ℕ) (u : ℕ) → reserve (xs ++ u ∷ ys) ≡ (10 - u) + reserve (xs ++ ys)
split-reserve xs ys u = omega (arith, reserve-append xs (u ∷ ys), reserve-append xs ys)

log_write-HasRoom :
    (a b : Situation) (xs ys : List ℕ) (used block : ℕ)
    → HasRoom a
    → used < 10
    → a.ops ≡ xs ++ used ∷ ys
    → log_write block a.log ≡ some b.log
    → b.ops ≡ xs ++ (used + 1) ∷ ys
    → HasRoom b
log_write-HasRoom a b xs ys used block r lt e f g =
    let t = log_write-Written block a.log b.log f in
    let n = ap length e ∙ split-length xs ys used in
    let n' = ap length g ∙ split-length xs ys (used + 1) in
    let k = ap reserve e ∙ split-reserve xs ys used in
    let k' = ap reserve g ∙ split-reserve xs ys (used + 1) in
    record {
      count = omega (arith, n, n', t.outstanding, r.count);
      room = omega (arith, k, k', t.blocks, r.room);
      idle = t.committing ∙ r.idle;
    }

record Ended (s t : Log) : Type 0 where
  outstanding : t.outstanding ≡ s.outstanding - 1
  blocks : length t.blocks ≤ length s.blocks
  committing : t.committing ≡ false

end_op-Ended : (s t : Log) → s.committing ≡ false → end_op s ≡ some t → Ended s t
unfolding end_op
end_op-Ended s t h e = elim (Bool-cases (s.outstanding == 1)) [
  | inl one ↦
      let last = record s { outstanding = s.outstanding - 1; committing = true } in
      let done : record (commit last) { committing = false; ncommit = s.ncommit + 1 } ≡ t =
        ground arith in
      rw (← done) (record {
        outstanding = commit-outstanding last;
        blocks = omega (arith, commit-blocks last);
        committing = refl;
      })
  | inr more ↦
      let done : record s { outstanding = s.outstanding - 1 } ≡ t = ground arith in
      rw (← done) (record { outstanding = refl; blocks = omega arith; committing = h })
]

end_op-HasRoom :
    (a b : Situation) (xs ys : List ℕ) (used : ℕ)
    → HasRoom a
    → a.ops ≡ xs ++ used ∷ ys
    → end_op a.log ≡ some b.log
    → b.ops ≡ xs ++ ys
    → HasRoom b
end_op-HasRoom a b xs ys used r e f g =
    let t = end_op-Ended a.log b.log r.idle f in
    let n = ap length e ∙ split-length xs ys used in
    let n' = ap length g in
    let k = ap reserve e ∙ split-reserve xs ys used in
    let k' = ap reserve g in
    record {
      count = omega (arith, n, n', t.outstanding, r.count);
      room = omega (arith, k, k', t.blocks, r.room);
      idle = t.committing;
    }

Step-HasRoom : {a b : Situation} → Step a b → HasRoom a → HasRoom b
Step-HasRoom {a} {b} (begins e f) r = begin_op-HasRoom a b r e f
Step-HasRoom {a} {b} (writes xs ys used block lt e f g) r =
    log_write-HasRoom a b xs ys used block r lt e f g
Step-HasRoom {a} {b} (ends xs ys used e f g) r = end_op-HasRoom a b xs ys used r e f g

Reach-HasRoom : {a b : Situation} → HasRoom a → Reach a b → HasRoom b
Reach-HasRoom r here = r
Reach-HasRoom r (next p st) = Step-HasRoom st (Reach-HasRoom r p)

log_write-returns :
    (block : ℕ) (s : Log)
    → length s.blocks < 30
    → 0 < s.outstanding
    → (t : Log) × (log_write block s ≡ some t)
unfolding log_write
log_write-returns block s h k = elim (Option-cases (log_write block s)) [
  | inl e ↦ absurd (ground arith)
  | inr (t, e) ↦ (t, e)
]

end_op-returns : (s : Log) → s.committing ≡ false → (t : Log) × (end_op s ≡ some t)
unfolding end_op
end_op-returns s h = elim (Option-cases (end_op s)) [
  | inl e ↦ absurd (ground arith)
  | inr (t, e) ↦ (t, e)
]

-- From an empty log with no operation outstanding, whatever operations begin, write and end: an
-- operation that has written fewer than 10 blocks can write one more, and one can end, without a
-- panic, and the log never holds more than 30 blocks.
pub Reach-log_write :
    (a b : Situation)
    → a.ops ≡ []
    → a.log.outstanding ≡ 0
    → a.log.blocks ≡ []
    → a.log.committing ≡ false
    → Reach a b
    → ((xs ys : List ℕ) (used block : ℕ)
        → b.ops ≡ xs ++ used ∷ ys
        → used < 10
        → (t : Log) × (log_write block b.log ≡ some t))
      × ((xs ys : List ℕ) (used : ℕ)
          → b.ops ≡ xs ++ used ∷ ys
          → (t : Log) × (end_op b.log ≡ some t))
      × (length b.log.blocks ≤ 30)
Reach-log_write a b none_out idle empty quiet p =
    let none_left : length a.ops ≡ 0 = ap length none_out in
    let nothing : reserve a.ops ≡ 0 = ap reserve none_out in
    let no_block : length a.log.blocks ≡ 0 = ap length empty in
    let r = Reach-HasRoom (record { count = omega arith; room = omega arith; idle = quiet }) p in
    (
      (λ xs ys used block e lt.
          let n : length b.ops ≡ suc (length (xs ++ ys)) = ap length e ∙ split-length xs ys used in
          let k : reserve b.ops ≡ (10 - used) + reserve (xs ++ ys) =
            ap reserve e ∙ split-reserve xs ys used in
          log_write-returns block b.log (omega (arith, r.room)) (omega (arith, r.count))),
      (λ xs ys used e. end_op-returns b.log r.idle),
      omega (arith, r.room),
    )
