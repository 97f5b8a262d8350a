-- ===== src/Kernel/Sleep.antt =====
-- xv6/kernel/proc.c: `sleep_prepare`, `sleep`, `wakeup`, `kkill`, `setkilled` and `killed`. A loop
-- over the table is one step. A channel is an address, and 0 is no channel.
pub mod Wakeup
use mathlib.Core.Option
use mp.Prelude.{
  ℕ, ◌+◌, Bool, true, false, not, Option, none, some, [], ◌∷◌, map, ◌==◌, if◌then◌else◌, get_elem?,
  modify,
}
use mp.Kernel.Proc.{State, Proc, Table, is_sleeping}

unfoldable pub prepare_proc : ℕ → Proc → Proc
prepare_proc chan p = record p { chan = chan }

-- `none` is the panic on a zero channel.
unfoldable pub sleep_prepare : ℕ → ℕ → Table → Option Table
unfolding prepare_proc
sleep_prepare me chan t = if chan == 0 then none else some (modify t me (prepare_proc chan))

unfoldable pub sleep_proc : Proc → Proc
sleep_proc p = if not (p.chan == 0) then record p { state = State.sleeping } else p

abbrev pub waits : Option Proc → Bool
waits none = false
waits (some p) = not (p.chan == 0)

-- `sleep` up to `sched()`; the flag says that the process hands the CPU to the scheduler.
unfoldable pub sleep : ℕ → Table → Table × Bool
unfolding sleep_proc
sleep me t = (modify t me sleep_proc, waits (get_elem? t me))

unfoldable pub wake_proc : ℕ → Proc → Proc
wake_proc chan p =
    if p.chan == chan
    then record p { chan = 0; state = if is_sleeping p.state then State.runnable else p.state }
    else p

unfoldable pub wakeup : ℕ → Table → Table
unfolding wake_proc
wakeup chan t = map (wake_proc chan) t

-- The first slot with the given pid, from slot `i` on.
unfoldable pub find_pid : ℕ → ℕ → Table → Option ℕ
find_pid pid i [] = none
find_pid pid i (p ∷ ps) = if p.pid == pid then some i else find_pid pid (i + 1) ps

unfoldable pub kill_proc : Proc → Proc
kill_proc p = record p {
  killed = true;
  state = if is_sleeping p.state then State.runnable else p.state;
}

abbrev pub kill_at : Table → Option ℕ → Table × Bool
kill_at t none = (t, false)
kill_at t (some i) = (modify t i kill_proc, true)

-- The flag is the result: `true` for 0, `false` for -1.
unfoldable pub kkill : ℕ → Table → Table × Bool
unfolding find_pid kill_proc
kkill pid t = kill_at t (find_pid pid 0 t)

unfoldable pub setkilled : ℕ → Table → Table
setkilled i t = modify t i (λ p. record p { killed = true })

unfoldable pub killed : ℕ → Table → Option Bool
killed i t = Option.map (λ p. p.killed) (get_elem? t i)
