-- ===== src/Kernel/Log/Atomic.antt =====
-- Any crashes of a commit and of the recoveries after it.
use mathlib.Core.Option
use mp.Prelude.{
  ℕ, ◌≤◌, ◌<◌, Option, some, List, [], ◌∷◌, ◌++◌, ◌≡◌, ◌∙◌, ltb, Bool-cases, inl, inr, refl, arith,
  length,
}
use mp.Kernel.Log.{Block, Log, commit, recover_from_log, reboot}
use mp.Kernel.Log.Install.{AllHome}
use mp.Kernel.Log.Crash.{Clean, IsDone, recover-IsDone}
use mp.Kernel.Log.Commit.{Ready, commit-start, commit-outcome}

-- Boots after a loss of power, each with the number of writes that it has power for.
unfoldable pub boots : List ℕ → Log → Option Log
boots [] s = some s
boots (p ∷ ps) s = Option.bind (recover_from_log (reboot p s)) (boots ps)

module _ (start : ℕ) (blocks : List ℕ) (new : ℕ → Block) (homes : AllHome start blocks)
    (few : length blocks ≤ 30) where
  boots-Clean :
      (ps : List ℕ) (p : ℕ) (s : Log)
      → s.start ≡ start
      → IsDone start blocks new s.disk
      → length blocks < p
      → (t : Log) × (boots (ps ++ p ∷ []) s ≡ some t) × Clean start new t.disk
  unfolding boots Option.bind
  boots-Clean [] p s at d h =
      let (t, e, at', d', whole) = recover-IsDone start blocks new homes few p s at d in
      (t, rw e refl, whole h)
  boots-Clean (q ∷ ps) p s at d h =
      let (t, e, at', d', whole) = recover-IsDone start blocks new homes few q s at d in
      rw e (boots-Clean ps p t at' d' h)

-- The power lasts for `s.power` disk writes of a commit of `n` blocks, for some writes in each of the
-- boots after that, and for more than `n` in the last one. Then the last boot completes, the log on the
-- disk is empty, and the blocks outside the log are as before the transaction where the commit had power
-- for `n` writes at most, and as the transaction wants them where it had power for more.
pub commit-boots :
    (start : ℕ) (blocks : List ℕ) (old new : ℕ → Block) (ps : List ℕ) (p : ℕ) (s : Log)
    → AllHome start blocks
    → length blocks ≤ 30
    → Ready start blocks old new s
    → length blocks < p
    → (t : Log) × (boots (ps ++ p ∷ []) (commit s) ≡ some t)
      × (s.power ≤ length blocks → Clean start old t.disk)
      × (length blocks < s.power → Clean start new t.disk)
commit-boots start blocks old new ps p s homes few ready h =
    let (before, after, all) = commit-outcome start blocks new homes few old s ready in
    let at : (commit s).start ≡ start = commit-start s ∙ ready.at in
    elim (Bool-cases (ltb (length blocks) s.power)) [
      | inl e ↦
          let (t, b, c) =
            boots-Clean start blocks new homes few ps p (commit s) at (after (ground arith)) h in
          (t, b, (λ q. absurd (ground arith)), (λ q. c))
      | inr e ↦
          let (t, b, c) =
            boots-Clean start [] old tt (omega arith) ps p (commit s) at
              (inl (before (ground arith))) (omega arith) in
          (t, b, (λ q. c), (λ q. absurd (ground arith)))
    ]
