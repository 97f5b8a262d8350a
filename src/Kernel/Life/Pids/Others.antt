-- ===== src/Kernel/Life/Pids/Others.antt =====
-- Wakeups, kills, ticks and the scheduler leave each pid as it is.
use mp.Prelude.{
  ℕ, ◌+◌, Bool, true, ◌&&◌, Option, none, some, [], ◌∷◌, ◌≡◌, ◌∙◌, inl, inr, refl, arith,
  if◌then◌else◌, Bool-cases,
}
use mp.Kernel.Proc.{Proc, Table, Machine, is_runnable}
use mp.Kernel.Mlfq.{boost_proc, time_proc}
use mp.Kernel.Scheduler.{
  beats, mlfq_before, scan, enqueue, mlfq_pick, run_proc, dispatch, schedule_mlfq,
}
use mp.Kernel.Sleep.{kill_proc, kill_at, find_pid, setkilled}
use mp.Kernel.Sleep.Wakeup.{Other, happen}
use mp.Kernel.Life.Pids.{KeepsAll, pids, pids-map, pids-modify, all_same}
use mp.Kernel.Life.Pids.Calls.{wakeup-pids}

pub kill_at-pids : (t : Table) (found : Option ℕ) → pids (kill_at t found).0 ≡ pids t
kill_at-pids t none = refl
kill_at-pids t (some i) = pids-modify kill_proc (λ p. unfold kill_proc in refl) t i

pub happen-pids : (o : Other) (t : Table) → pids (happen o t) ≡ pids t
unfolding happen
happen-pids (Other.wakes chan) t = wakeup-pids chan t
happen-pids (Other.kills pid) t = kill_at-pids t (find_pid pid 0 t)
happen-pids (Other.sets_killed i) t =
    unfold setkilled in pids-modify (λ p. record p { killed = true }) (λ p. refl) t i
happen-pids Other.times t = pids-map time_proc (λ p. unfold time_proc in ground arith) t
happen-pids Other.boosts t = pids-map boost_proc (λ p. unfold boost_proc in ground arith) t

pub passed :
    (pass : Proc → Proc)
    → ((p : Proc) → (pass p).pid ≡ p.pid)
    → (p : Proc) → (if is_runnable p.state then pass p else p).pid ≡ p.pid
passed pass h p = elim (Bool-cases (is_runnable p.state)) [ inl e ↦ rw e (h p) | inr e ↦ rw e refl ]

pub scan-pids :
    (pass : Proc → Proc) (before : Proc → Proc → Bool)
    → ((p : Proc) → (pass p).pid ≡ p.pid)
    → (t : Table) (i : ℕ) (best : Option (ℕ × Proc)) → pids (scan pass before i best t).0 ≡ pids t
unfolding scan
scan-pids pass before h [] i best = refl
scan-pids pass before h (p ∷ t) i best =
    let q : Proc = if is_runnable p.state then pass p else p in
    let same : q.pid ≡ p.pid = passed pass h p in
    rw
      (
        same,
        scan-pids pass before h t (i + 1)
            (if is_runnable p.state && beats before q best then some (i, q) else best),
      )
      refl

pub dispatch-pids :
    (m : Machine) (r : Table × Option (ℕ × Proc))
    → pids r.0 ≡ pids m.procs
    → KeepsAll m (dispatch m r).0
unfolding dispatch
dispatch-pids m (t, none) e = all_same m _ refl e
dispatch-pids m (t, some (i, p)) e =
    all_same m _ refl (pids-modify (run_proc m.ticks) (λ p. unfold run_proc in refl) t i ∙ e)

pub schedule_mlfq-KeepsAll : (m : Machine) → KeepsAll m (schedule_mlfq m).0
unfolding schedule_mlfq mlfq_pick
schedule_mlfq-KeepsAll m =
    dispatch-pids m (mlfq_pick m.ticks m.procs)
      (scan-pids (enqueue m.ticks) mlfq_before (λ p. unfold enqueue in ground arith) m.procs 0 none)
