-- ===== src/Shell/Jobs/Reports.antt =====
-- d1d2.c: the end of each job's leader is reported once.
use mp.Prelude.{
  ℕ, none, some, zero, suc, ◌+◌, Bool, true, false, not, ◌&&◌, List, [], ◌∷◌, ◌++◌, map, ◌≡◌, inl,
  inr, refl, arith, ◌==◌, if◌then◌else◌, length, modify, Bool-cases,
}
use mp.Shell.Token.{Token}
use mp.Shell.Jobs.{
  Job, Jobs, add_job, Status, Report, note_status, reap, reap_all, sweep_job, trace_exit,
  note_traced_exit, new_job,
}
use mp.Shell.Jobs.Stable.{Event, handle, handle_all}
use mp.Shell.Jobs.Ends.{all_ends, ReportsOf, handle_all-ReportsOf}
use mp.Shell.Jobs.Noticed.{AllNoticed, signals-AllNoticed}

module _ (named : List ℕ → ℕ → Bool) where
  -- The jobs of some names and pids whose leader has ended, and the reports of such names and pids.
  abbrev pub count_done : Jobs → ℕ
  count_done [] = 0
  count_done (j ∷ js) = (if j.leader_done && named j.name j.pid then 1 else 0) + count_done js

  abbrev pub count_reports : List Report → ℕ
  count_reports [] = 0
  count_reports (r ∷ rs) = (if named r.name r.pid then 1 else 0) + count_reports rs

  abbrev done_one : Job → ℕ
  done_one j = if j.leader_done && named j.name j.pid then 1 else 0

  count_reports-append :
      (rs qs : List Report) → count_reports (rs ++ qs) ≡ count_reports rs + count_reports qs
  count_reports-append [] qs = omega arith
  count_reports-append (r ∷ rs) qs = omega (arith, count_reports-append rs qs)

  note_status-done :
      (status : Status) (j : Job)
      → done_one (note_status status j).0 ≡ done_one j + count_reports (note_status status j).1
  unfolding note_status
  note_status-done status j = ground arith

  trace_exit-done :
      (gone : ℕ → Bool) (normal : Bool) (j : Job)
      → j.leader_done ≡ false
      → done_one (trace_exit gone normal j).0
        ≡ done_one j + count_reports (trace_exit gone normal j).1
  unfolding trace_exit
  trace_exit-done gone normal j h = ground arith

  sweep_job-done : (gone : ℕ → Bool) (j : Job) → done_one (sweep_job gone j) ≡ done_one j
  unfolding sweep_job
  sweep_job-done gone j = ground arith

  reap-done :
      (pid : ℕ) (status : Status) (js : Jobs)
      → count_done (reap pid status js).0 ≡ count_done js + count_reports (reap pid status js).1
  unfolding reap
  reap-done pid status [] = refl
  reap-done pid status (j ∷ js) = elim (Bool-cases (j.live && j.pid == pid)) [
    | inl e ↦ rw e (omega (arith, note_status-done status j))
    | inr e ↦ rw e (omega (arith, reap-done pid status js))
  ]

  reap_all-done :
      (events : List (ℕ × Status)) (js : Jobs)
      → count_done (reap_all events js).0 ≡ count_done js + count_reports (reap_all events js).1
  unfolding reap_all
  reap_all-done [] js = omega arith
  reap_all-done ((pid, status) ∷ events) js = omega (
    arith,
    reap-done pid status js,
    reap_all-done events (reap pid status js).0,
    count_reports-append (reap pid status js).1 (reap_all events (reap pid status js).0).1,
  )

  count_done-map :
      (f : Job → Job)
      → ((j : Job) → done_one (f j) ≡ done_one j)
      → (js : Jobs) → count_done (map f js) ≡ count_done js
  count_done-map f h [] = refl
  count_done-map f h (j ∷ js) = omega (arith, h j, count_done-map f h js)

  count_done-modify :
      (f : Job → Job)
      → ((j : Job) → done_one (f j) ≡ done_one j)
      → (js : Jobs) (i : ℕ) → count_done (modify js i f) ≡ count_done js
  count_done-modify f h [] i = refl
  count_done-modify f h (j ∷ js) zero = omega (arith, h j)
  count_done-modify f h (j ∷ js) (suc i) = omega (arith, count_done-modify f h js i)

  count_done-append : (js ks : Jobs) → count_done (js ++ ks) ≡ count_done js + count_done ks
  count_done-append [] ks = omega arith
  count_done-append (j ∷ js) ks = omega (arith, count_done-append js ks)

  note_traced_exit-done :
      (gone : ℕ → Bool) (pid : ℕ) (normal : Bool) (js : Jobs)
      → count_done (note_traced_exit gone pid normal js).0
        ≡ count_done js + count_reports (note_traced_exit gone pid normal js).1
  unfolding note_traced_exit
  note_traced_exit-done gone pid normal [] = refl
  note_traced_exit-done gone pid normal (j ∷ js) =
      elim (Bool-cases (j.live && (j.pid == pid && not j.leader_done))) [
        | inl e ↦ rw e (omega (arith, trace_exit-done gone normal j (ground arith)))
        | inr e ↦ rw e (omega (arith, note_traced_exit-done gone pid normal js))
      ]

  new_job-done :
      (pid : ℕ) (stopped : Bool) (tokens : List Token)
      → count_done (new_job pid stopped tokens ∷ []) ≡ 0
  unfolding new_job
  new_job-done pid stopped tokens = refl

  add_job-done :
      (pid : ℕ) (stopped : Bool) (tokens : List Token) (js : Jobs)
      → count_done (add_job pid stopped tokens js).0 ≡ count_done js
  add_job-done pid stopped tokens js = elim (Bool-cases (length js == 1024)) [
    | inl e ↦ unfold add_job in rw e refl
    | inr e ↦
        let nothing = new_job-done pid stopped tokens in
        let grown = count_done-append js (new_job pid stopped tokens ∷ []) in
        unfold add_job in rw e (omega (arith, nothing, grown))
  ]

  handle-done :
      (e : Event) (js : Jobs)
      → count_done (handle e js).0 ≡ count_done js + count_reports (handle e js).1
  unfolding handle
  handle-done (Event.stops pgid tokens) js = omega (arith, add_job-done pgid true tokens js)
  handle-done (Event.starts none tokens) js = omega arith
  handle-done (Event.starts (some child) tokens) js =
      omega (arith, add_job-done child false tokens js)
  handle-done (Event.signals gone events) js = omega (
    arith,
    reap_all-done events js,
    count_done-map (sweep_job gone) (sweep_job-done gone) (reap_all events js).0,
  )
  handle-done (Event.traces gone pid normal) js = note_traced_exit-done gone pid normal js
  handle-done (Event.sets_stopped i value) js =
      omega (arith, count_done-modify (λ j. record j { stopped = value }) (λ j. refl) js i)
  handle-done (Event.finishes i) js =
      omega (
        arith,
        count_done-modify (λ j. record j { live = false; stopped = false }) (λ j. refl) js i,
      )

  handle_all-count :
      (es : List Event) (js : Jobs)
      → count_done (handle_all es js).0 ≡ count_done js + count_reports (handle_all es js).1
  unfolding handle_all
  handle_all-count [] js = omega arith
  handle_all-count (e ∷ es) js = omega (
    arith,
    handle-done e js,
    handle_all-count es (handle e js).0,
    count_reports-append (handle e js).1 (handle_all es (handle e js).0).1,
  )

-- Whatever happens to the table of jobs, and for any names and pids: the number of reports that bear one of
-- them is the number of jobs that bear one of them and whose leader was noted as ended in the meantime, so
-- that each such job is reported once, by its own name and pid, and no other is. In their order the
-- reports are about some of the ends that the kernel told of, each about another one, with the pid of the
-- end and whether the exit was normal. And at a signal after that, for each end that the kernel tells of then,
-- the leader of the first job that is live with its pid is noted as ended, by then or before.
pub handle_all-done :
    (named : List ℕ → ℕ → Bool) (es : List Event) (js : Jobs) (gone : ℕ → Bool)
    (events : List (ℕ × Status))
    → (count_done named (handle_all es js).0
        ≡ count_done named js + count_reports named (handle_all es js).1)
      × ReportsOf (handle_all es js).1 (all_ends es)
      × AllNoticed events
          (handle_all es js).0
          (handle (Event.signals gone events) (handle_all es js).0).0
handle_all-done named es js gone events = (
  handle_all-count named es js,
  handle_all-ReportsOf es js,
  signals-AllNoticed gone events (handle_all es js).0,
)
