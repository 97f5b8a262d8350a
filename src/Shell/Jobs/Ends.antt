-- ===== src/Shell/Jobs/Ends.antt =====
-- d1d2.c: the ends that the kernel tells of, and the reports about them.
use mp.Prelude.{
  ℕ, not, ◌&&◌, List, [], ◌∷◌, ◌++◌, ◌≡◌, inl, inr, refl, arith, ◌==◌, Bool, Bool-cases,
}
use mp.Shell.Jobs.{
  Job, Jobs, Status, Report, note_status, reap, reap_all, trace_exit, note_traced_exit,
}
use mp.Shell.Jobs.Stable.{Event, handle, handle_all}

-- The ends that the kernel tells of, each as a pid and whether the exit was normal.
abbrev pub ends_of : List (ℕ × Status) → List (ℕ × Bool)
ends_of [] = []
ends_of ((pid, Status.stopped) ∷ events) = ends_of events
ends_of ((pid, Status.continued) ∷ events) = ends_of events
ends_of ((pid, Status.ended normal) ∷ events) = (pid, normal) ∷ ends_of events

abbrev pub all_ends : List Event → List (ℕ × Bool)
all_ends [] = []
all_ends (Event.signals gone events ∷ es) = ends_of events ++ all_ends es
all_ends (Event.traces gone pid normal ∷ es) = (pid, normal) ∷ all_ends es
all_ends (Event.stops pgid tokens ∷ es) = all_ends es
all_ends (Event.starts child tokens ∷ es) = all_ends es
all_ends (Event.sets_stopped i value ∷ es) = all_ends es
all_ends (Event.finishes i ∷ es) = all_ends es

-- The reports are about some of the ends, in their order, each about another one.
pub data ReportsOf : List Report → List (ℕ × Bool) → Type 0 where
  done : ReportsOf [] []
  passes :
      {rs : List Report} {ends : List (ℕ × Bool)} (e : ℕ × Bool)
      → ReportsOf rs ends
      → ReportsOf rs (e ∷ ends)
  reports :
      {rs : List Report} {ends : List (ℕ × Bool)} (r : Report) (e : ℕ × Bool)
      → r.pid ≡ e.0
      → r.normal ≡ e.1
      → ReportsOf rs ends
      → ReportsOf (r ∷ rs) (e ∷ ends)

ReportsOf-append :
    {rs qs : List Report} {ends more : List (ℕ × Bool)}
    → ReportsOf rs ends
    → ReportsOf qs more
    → ReportsOf (rs ++ qs) (ends ++ more)
ReportsOf-append ReportsOf.done k = k
ReportsOf-append (ReportsOf.passes e h) k = ReportsOf.passes e (ReportsOf-append h k)
ReportsOf-append (ReportsOf.reports r e p n h) k = ReportsOf.reports r e p n (ReportsOf-append h k)

silent_end : (e : ℕ × Bool) → ReportsOf [] (e ∷ [])
silent_end e = ReportsOf.passes e ReportsOf.done

note_status-ReportsOf :
    (pid : ℕ) (status : Status) (j : Job)
    → j.pid ≡ pid
    → ReportsOf (note_status status j).1 (ends_of ((pid, status) ∷ []))
unfolding note_status
note_status-ReportsOf pid Status.stopped j h = ReportsOf.done
note_status-ReportsOf pid Status.continued j h = ReportsOf.done
note_status-ReportsOf pid (Status.ended normal) j h = elim (Bool-cases j.leader_done) [
  | inl e ↦ rw e (silent_end (pid, normal))
  | inr e ↦ rw e (
      ReportsOf.reports (record { name = j.name; pid = j.pid; normal = normal }) (pid, normal) h
        refl ReportsOf.done)
]

none-ReportsOf : (pid : ℕ) (status : Status) → ReportsOf [] (ends_of ((pid, status) ∷ []))
none-ReportsOf pid Status.stopped = ReportsOf.done
none-ReportsOf pid Status.continued = ReportsOf.done
none-ReportsOf pid (Status.ended normal) = silent_end (pid, normal)

reap-ReportsOf :
    (pid : ℕ) (status : Status) (js : Jobs)
    → ReportsOf (reap pid status js).1 (ends_of ((pid, status) ∷ []))
unfolding reap
reap-ReportsOf pid status [] = none-ReportsOf pid status
reap-ReportsOf pid status (j ∷ js) = elim (Bool-cases (j.live && j.pid == pid)) [
  | inl e ↦ rw e (note_status-ReportsOf pid status j (ground arith))
  | inr e ↦ rw e (reap-ReportsOf pid status js)
]

ends_of-cons :
    (pid : ℕ) (status : Status) (events : List (ℕ × Status))
    → ends_of ((pid, status) ∷ events) ≡ ends_of ((pid, status) ∷ []) ++ ends_of events
ends_of-cons pid Status.stopped events = refl
ends_of-cons pid Status.continued events = refl
ends_of-cons pid (Status.ended normal) events = refl

reap_all-ReportsOf :
    (events : List (ℕ × Status)) (js : Jobs) → ReportsOf (reap_all events js).1 (ends_of events)
unfolding reap_all
reap_all-ReportsOf [] js = ReportsOf.done
reap_all-ReportsOf ((pid, status) ∷ events) js = rw (ends_of-cons pid status events) (
    ReportsOf-append (reap-ReportsOf pid status js)
      (reap_all-ReportsOf events (reap pid status js).0))

note_traced_exit-ReportsOf :
    (gone : ℕ → Bool) (pid : ℕ) (normal : Bool) (js : Jobs)
    → ReportsOf (note_traced_exit gone pid normal js).1 ((pid, normal) ∷ [])
unfolding note_traced_exit trace_exit
note_traced_exit-ReportsOf gone pid normal [] = silent_end (pid, normal)
note_traced_exit-ReportsOf gone pid normal (j ∷ js) =
    elim (Bool-cases (j.live && (j.pid == pid && not j.leader_done))) [
      | inl e ↦ rw e (
          ReportsOf.reports (record { name = j.name; pid = j.pid; normal = normal }) (pid, normal)
            (ground arith) refl ReportsOf.done)
      | inr e ↦ rw e (note_traced_exit-ReportsOf gone pid normal js)
    ]

pub handle_all-ReportsOf :
    (es : List Event) (js : Jobs) → ReportsOf (handle_all es js).1 (all_ends es)
unfolding handle_all handle
handle_all-ReportsOf [] js = ReportsOf.done
handle_all-ReportsOf (Event.signals gone events ∷ es) js =
    ReportsOf-append (reap_all-ReportsOf events js)
      (handle_all-ReportsOf es (handle (Event.signals gone events) js).0)
handle_all-ReportsOf (Event.traces gone pid normal ∷ es) js =
    ReportsOf-append (note_traced_exit-ReportsOf gone pid normal js)
      (handle_all-ReportsOf es (handle (Event.traces gone pid normal) js).0)
handle_all-ReportsOf (Event.stops pgid tokens ∷ es) js =
    handle_all-ReportsOf es (handle (Event.stops pgid tokens) js).0
handle_all-ReportsOf (Event.starts child tokens ∷ es) js =
    handle_all-ReportsOf es (handle (Event.starts child tokens) js).0
handle_all-ReportsOf (Event.sets_stopped i value ∷ es) js =
    handle_all-ReportsOf es (handle (Event.sets_stopped i value) js).0
handle_all-ReportsOf (Event.finishes i ∷ es) js =
    handle_all-ReportsOf es (handle (Event.finishes i) js).0
