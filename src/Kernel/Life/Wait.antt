-- ===== src/Kernel/Life/Wait.antt =====
-- xv6/kernel/proc.c: `kwait` and `kwaitx`, by rounds of their loops.
use mathlib.Core.Option
use mp.Prelude.{
  ℕ, ◌+◌, ◌-◌, Bool, true, false, not, ◌||◌, Option, none, some, [], ◌∷◌, if◌then◌else◌, modify,
}
use mp.Kernel.Proc.{Proc, Table, Machine, u32, minus_one, is_neg, is_zombie}
use mp.Kernel.Sleep.{sleep_prepare, killed}
use mp.Kernel.Life.{free_proc, is_slot}

-- What a scan of the children of `me` finds: whether there are any, and the first zombie.
unfoldable pub find_child : ℕ → ℕ → Table → Bool × Option (ℕ × Proc)
find_child me i [] = (false, none)
find_child me i (p ∷ ps) =
    let (any, zombie) = find_child me (i + 1) ps in
    if is_slot me p.parent
    then (true, if is_zombie p.state then some (i, p) else zombie)
    else (any, zombie)

-- What `kwaitx` copies out of a child, as bit patterns of `int`: the ticks that it ran, those that it
-- waited, and those up to its first run.
unfoldable pub stats : Proc → ℕ × ℕ × ℕ
stats p =
    let turn = u32 (p.etime + 4294967296 - p.ctime) in
    let wtime = u32 (turn + 4294967296 - p.rtime) in
    (
      p.rtime,
      (if is_neg wtime then 0 else wtime),
      (if is_neg p.first_run then minus_one else u32 (p.first_run + 4294967296 - p.ctime)),
    )

-- A round of the loop of `kwait`: the pid of the child that is reaped with what is copied out of it,
-- -1, or the registration for a wakeup, behind which `sleep` comes and the next round.
pub data Waited (A : Type 0) : Type 0 where
  reaped : ℕ → A → Waited A
  failed waiting : Waited A

unfoldable pub reap_proc : Proc → Proc
unfolding free_proc
reap_proc p = free_proc (record p { parent = none })

abbrev pub no_zombie : {A : Type 0} → Machine → Bool → Option Table → Option (Machine × Waited A)
no_zombie m true t = some (m, Waited.failed)
no_zombie m false none = none
no_zombie m false (some t) = some (record m { procs = t }, Waited.waiting)

-- `out` is what of a child is copied out, and `copied` whether that succeeds.
module _ {A : Type 0} (out : Proc → A) (copied : A → Bool) (address : ℕ → ℕ) where
  unfoldable pub wait_at : ℕ → Machine → Bool × Option (ℕ × Proc) → Option (Machine × Waited A)
  unfolding killed sleep_prepare reap_proc
  wait_at me m (any, some (i, p)) =
      if copied (out p)
      then some (record m { procs = modify m.procs i reap_proc }, Waited.reaped p.pid (out p))
      else some (m, Waited.failed)
  wait_at me m (any, none) =
      Option.bind (killed me m.procs)
        (λ dead. no_zombie m (not any || dead) (sleep_prepare me (address me) m.procs))

  unfoldable pub wait_round : ℕ → Machine → Option (Machine × Waited A)
  unfolding find_child wait_at
  wait_round me m = wait_at me m (find_child me 0 m.procs)

unfoldable pub kwait : (ℕ → Bool) → (ℕ → ℕ) → ℕ → Machine → Option (Machine × Waited ℕ)
unfolding wait_round
kwait copied address = wait_round (λ p. p.xstate) copied address

unfoldable pub kwaitx :
    (ℕ × ℕ × ℕ × ℕ → Bool) → (ℕ → ℕ) → ℕ → Machine → Option (Machine × Waited (ℕ × ℕ × ℕ × ℕ))
unfolding wait_round stats
kwaitx copied address =
    wait_round (λ p. let (r, w, f) = stats p in (p.xstate, r, w, f)) copied address
