-- ===== src/Kernel/Mlfq/Slice.antt =====
-- Time slices: what one timer tick does to the process that is charged, and what a run of ticks does.
use mathlib.Core.Option
use mp.Prelude.{
  ℕ, zero, suc, ◌+◌, ◌-◌, ◌%◌, ◌≤◌, ◌<◌, Bool, Option, some, List, [], ◌∷◌, ◌≡◌, refl, ◌∙◌, arith,
  ltb, ◌==◌, if◌then◌else◌, length, get_elem?, subst,
}
use native.Mathlib.Nat.{zero-add}
use mp.Kernel.Proc.{Proc}
use mp.Kernel.Mlfq.{mlfq_slice, charge_slice, charge}

-- The slice of each queue, in ticks.
abbrev pub quantum : ℕ → ℕ
quantum zero = 1
quantum (suc zero) = 4
quantum (suc (suc zero)) = 8
quantum (suc (suc (suc pri))) = 16

pub quantum-slice : (pri : ℕ) → pri ≤ 3 → get_elem? mlfq_slice pri ≡ some (quantum pri)
unfolding mlfq_slice
quantum-slice zero h = refl
quantum-slice (suc zero) h = refl
quantum-slice (suc (suc zero)) h = refl
quantum-slice (suc (suc (suc zero))) h = refl
quantum-slice (suc (suc (suc (suc pri)))) h = absurd (omega arith)

pub quantum-pos : (pri : ℕ) → 0 < quantum pri
quantum-pos zero = omega arith
quantum-pos (suc zero) = omega arith
quantum-pos (suc (suc zero)) = omega arith
quantum-pos (suc (suc (suc pri))) = omega arith

-- A process is in one of the four queues, and has not used up the slice of its queue.
pub record InSlice (p : Proc) : Type 0 where
  pub queue : p.priority ≤ 3
  pub within : p.slice_used < quantum p.priority

pub charge-eq :
    (now : ℕ) (p : Proc) → InSlice p → charge now p ≡ some (charge_slice now p (quantum p.priority))
unfolding charge
charge-eq now p h = rw (quantum-slice p.priority h.queue)

charge_slice-InSlice :
    (now : ℕ) (p : Proc) → InSlice p → InSlice (charge_slice now p (quantum p.priority)).0
unfolding charge_slice
charge_slice-InSlice now p h =
    ground (arith, h.queue, h.within, quantum-pos (p.priority + 1), quantum-pos p.priority)

-- The process after a tick: one queue lower but not below 3, with a fresh slice and entered now,
-- where the tick is the last of its slice; else one tick further in its slice.
abbrev pub charged : ℕ → Proc → Proc
charged now p =
    if p.slice_used + 1 == quantum p.priority
    then record p {
      priority = if p.priority == 3 then 3 else p.priority + 1;
      slice_used = 0;
      enq_time = now;
    }
    else record p { slice_used = p.slice_used + 1 }

-- Charging a tick reads inside the array of slices, and keeps the process in a queue and within the
-- slice of it. The slice expires exactly where this tick is its last, and only then the queue, the
-- slice and the entry tick change: one queue lower, but not below 3, with a fresh slice, entered now.
pub charge-InSlice :
    (now : ℕ) (p : Proc)
    → InSlice p
    → (q : Proc) × (charge now p ≡ some (q, p.slice_used + 1 == quantum p.priority))
      × InSlice q
      × (q ≡ charged now p)
charge-InSlice now p h = (
  (charge_slice now p (quantum p.priority)).0,
  (charge-eq now p h ∙ unfold charge_slice in ground (arith, h.within)),
  charge_slice-InSlice now p h,
  unfold charge_slice in ground (arith, h.within, h.queue),
)

-- A process that is charged at each of a list of ticks, and keeps the CPU or gets it back between.
pub charges : List ℕ → Proc → Option Proc
charges [] p = some p
charges (now ∷ nows) p = Option.bind (charge now p) (λ r. charges nows r.0)

-- The queue and the ticks used in it after `n` ticks from a fresh slice in queue 0.
unfoldable pub level : ℕ → ℕ
level n = if ltb n 1 then 0 else if ltb n 5 then 1 else if ltb n 13 then 2 else 3

unfoldable pub used : ℕ → ℕ
used n = if ltb n 1 then n else if ltb n 5 then n - 1 else if ltb n 13 then n - 5 else (n - 13) % 16

-- The closed form is within its slice, and goes one step as a charge does.
level-within : (n : ℕ) → used n < quantum (level n)
unfolding level used
level-within n = ground arith

level-suc :
    (n : ℕ)
    → (level (n + 1) ≡ (
        if used n + 1 == quantum (level n)
        then (if level n == 3 then 3 else level n + 1)
        else level n))
      × (used (n + 1) ≡ (if used n + 1 == quantum (level n) then 0 else used n + 1))
unfolding level used
level-suc n = ground arith

record AtLevel (n : ℕ) (p : Proc) : Type 0 where
  queue : p.priority ≡ level n
  spent : p.slice_used ≡ used n

level-le : (n : ℕ) → level n ≤ 3
unfolding level
level-le n = ground arith

AtLevel-InSlice : (n : ℕ) (p : Proc) → AtLevel n p → InSlice p
AtLevel-InSlice n p a = record {
  queue = omega (arith, a.queue, level-le n);
  within = rw (a.queue, a.spent) (level-within n);
}

-- The slice of this queue expires at this tick.
expires : Proc → Bool
expires p = p.slice_used + 1 == quantum p.priority

AtLevel-expires : (n : ℕ) (p : Proc) → AtLevel n p → expires p ≡ (used n + 1 == quantum (level n))
unfolding expires
AtLevel-expires n p a = rw (a.queue, a.spent)

charge-AtLevel :
    (now n : ℕ) (p : Proc)
    → AtLevel n p
    → (q : Proc) × (b : Bool) × (charge now p ≡ some (q, b)) × AtLevel (n + 1) q
unfolding expires
charge-AtLevel now n p a =
    let (q, e, _, shape) = charge-InSlice now p (AtLevel-InSlice n p a) in
    let same : expires p ≡ (used n + 1 == quantum (level n)) = AtLevel-expires n p a in
    (
      q,
      p.slice_used + 1 == quantum p.priority,
      e,
      record {
        queue = ground (arith, shape, same, level-suc n, a.queue, a.spent);
        spent = ground (arith, shape, same, level-suc n, a.queue, a.spent);
      },
    )

charges-AtLevel :
    (nows : List ℕ) (n : ℕ) (p : Proc)
    → AtLevel n p
    → (q : Proc) × (charges nows p ≡ some q) × AtLevel (n + length nows) q
unfolding charges Option.bind
charges-AtLevel [] n p a = (p, refl, subst (λ k. AtLevel k p) (omega arith) a)
charges-AtLevel (now ∷ nows) n p a =
    let (q, b, e, a') = charge-AtLevel now n p a in
    let (r, e', a'') = charges-AtLevel nows (n + 1) q a' in
    (r, rw e e', subst (λ k. AtLevel k r) (omega arith) a'')

-- A process that starts with a fresh slice in queue 0 and is charged for any `n` ticks is then in
-- queue 0 for no tick, 1 for the next four, 2 for the next eight and 3 from the thirteenth on, and
-- has used of its slice the ticks since it entered that queue, or in queue 3 since the last multiple
-- of sixteen. No read of the array of slices is out of its bounds.
pub charges-level :
    (nows : List ℕ) (p : Proc)
    → p.priority ≡ 0
    → p.slice_used ≡ 0
    → (q : Proc) × (charges nows p ≡ some q)
      × (q.priority ≡ level (length nows))
      × (q.slice_used ≡ used (length nows))
charges-level nows p h k =
    let (q, e, a) =
      charges-AtLevel nows 0 p (record { queue = unfold level in h; spent = unfold used in k }) in
    (q, e, rw zero-add at a.queue, rw zero-add at a.spent)
