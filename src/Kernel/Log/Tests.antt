-- ===== src/Kernel/Log/Tests.antt =====
-- The theorems of the log at concrete inputs: a log at block 2, and transactions on blocks 40 and 41.
use mathlib.Core.Option
use mp.Prelude.{
  ℕ, zero, suc, ◌≤◌, ◌<◌, false, Option, some, List, [], ◌∷◌, ◌++◌, ◌==◌, ◌≡◌, inr, inl, refl,
  arith, length, if◌then◌else◌, Bool-cases,
}
use mp.Kernel.Log.{
  Block, Log, begin_op, end_op, log_write, commit, read_header, contains, recover_from_log, reboot,
}
use mp.Kernel.Log.Crash.{Clean}
use mp.Kernel.Log.Commit.{Ready}
use mp.Kernel.Log.Atomic.{boots, commit-boots}
use mp.Kernel.Log.Space.{Situation, Step, Reach, Reach-log_write}

abbrev zeros : ℕ → List ℕ
zeros zero = []
zeros (suc n) = 0 ∷ zeros n

abbrev old_disk : ℕ → Block
old_disk x = zeros 40

abbrev new_disk : ℕ → Block
new_disk x = if x == 40 then 7 ∷ zeros 39 else zeros 40

abbrev idle : Log
idle = record {
  start = 2;
  outstanding = 0;
  committing = false;
  ncommit = 0;
  blocks = [];
  disk = old_disk;
  cached = old_disk;
  pins = λ x. 0;
  power = 100;
}

-- A transaction of one block, with power for `power` writes.
abbrev changed : ℕ → Log
changed power = record idle { blocks = 40 ∷ []; cached = new_disk; power = power }

changed-Ready : (power : ℕ) → Ready 2 (40 ∷ []) old_disk new_disk (changed power)
unfolding read_header contains
changed-Ready power = record {
  at = refl;
  all = refl;
  clean = record { header = refl; size = omega arith; home = λ x h. refl };
  head = omega arith;
  buffers = λ x h. refl;
  others =
      λ x h e. elim (Bool-cases (x == 40)) [ inl f ↦ absurd (ground arith) | inr f ↦ rw f refl ];
}

-- The header is the second write; the recovery that follows fails as well, and the one after it is whole.
commit-boots_example :
    (t : Log) × (boots ((1 ∷ []) ++ 5 ∷ []) (commit (changed 2)) ≡ some t)
    × (2 ≤ length {A = ℕ} (40 ∷ []) → Clean 2 old_disk t.disk)
    × (length {A = ℕ} (40 ∷ []) < 2 → Clean 2 new_disk t.disk)
commit-boots_example =
    commit-boots 2 (40 ∷ []) old_disk new_disk (1 ∷ []) 5 (changed 2) (inr (omega arith), tt)
      (omega arith) (changed-Ready 2) (omega arith)

abbrev recovered : Option (Block × Block)
recovered = Option.map (λ t. (t.disk 40, t.disk 2)) (boots (1 ∷ 5 ∷ []) (commit (changed 2)))

after_crash : recovered ≡ some (7 ∷ zeros 39, 0 ∷ 40 ∷ zeros 38)
unfolding boots Option.bind recover_from_log reboot commit
after_crash = refl

-- An operation begins, writes two blocks and one of them again; a second one begins, and the first ends.
abbrev started : Log
started = record idle { outstanding = 1 }

abbrev wrote : Log
wrote = record started { blocks = 40 ∷ []; pins = λ b. if b == 40 then 1 else 0 }

abbrev both : Log
both = record wrote { outstanding = 2 }

abbrev one_left : Log
one_left = record both { outstanding = 1 }

abbrev at_rest : Situation
at_rest = record { ops = []; log = idle }

abbrev at_end : Situation
at_end = record { ops = 0 ∷ []; log = one_left }

busy : Reach at_rest at_end
unfolding begin_op log_write end_op
busy =
    Reach.next {b = record { ops = 0 ∷ 2 ∷ []; log = both }}
      (Reach.next {b = record { ops = 2 ∷ []; log = wrote }}
        (Reach.next {b = record { ops = 1 ∷ []; log = wrote }}
          (Reach.next {b = record { ops = 0 ∷ []; log = started }}
            (Reach.next {b = at_rest} Reach.here (Step.begins refl refl))
            (Step.writes [] [] 0 40 (omega arith) refl refl refl))
          (Step.writes [] [] 1 40 (omega arith) refl refl refl))
        (Step.begins refl refl))
      (Step.ends (0 ∷ []) [] 2 refl refl refl)

Reach-log_write_example :
    ((xs ys : List ℕ) (used block : ℕ)
      → at_end.ops ≡ xs ++ used ∷ ys
      → used < 10
      → (t : Log) × (log_write block at_end.log ≡ some t))
    × ((xs ys : List ℕ) (used : ℕ)
        → at_end.ops ≡ xs ++ used ∷ ys
        → (t : Log) × (end_op at_end.log ≡ some t))
    × (length at_end.log.blocks ≤ 30)
Reach-log_write_example = Reach-log_write at_rest at_end refl refl refl refl busy
