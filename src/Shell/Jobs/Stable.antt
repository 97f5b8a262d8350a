-- ===== src/Shell/Jobs/Stable.antt =====
-- d1d2.c: what stays of a job whatever happens.
use mp.Prelude.{
  ℕ, zero, suc, ◌≤◌, ◌<◌, Bool, true, false, not, ◌&&◌, Option, none, some, List, [], ◌∷◌, ◌++◌,
  map, ◌≡◌, ◌⊎◌, inl, inr, refl, ◌∙◌, subst, arith, ◌==◌, length, get_elem?, modify, Bool-cases,
}
use mp.Shell.Token.{Token}
use mp.Shell.Jobs.{
  Job, Jobs, add_job, add_stopped_job, runbuff, Status, Report, note_status, reap, reap_all,
  sweep_job, handle_sigchld, trace_exit, note_traced_exit, set_job_stopped, finish_job, find_job,
}

-- What changes the table of jobs: the calls of the shell's other parts, and the signal handler, with
-- what the kernel answers it.
pub data Event : Type 0 where
  stops : ℕ → List Token → Event
  starts : Option ℕ → List Token → Event
  signals : (ℕ → Bool) → List (ℕ × Status) → Event
  traces : (ℕ → Bool) → ℕ → Bool → Event
  sets_stopped : ℕ → Bool → Event
  finishes : ℕ → Event

-- The table after it, and what is reported.
unfoldable pub handle : Event → Jobs → Jobs × List Report
unfolding add_stopped_job runbuff handle_sigchld note_traced_exit set_job_stopped finish_job
handle (Event.stops pgid tokens) jobs = ((add_stopped_job pgid tokens jobs).0, [])
handle (Event.starts child tokens) jobs = ((runbuff child tokens jobs).0, [])
handle (Event.signals gone events) jobs = handle_sigchld gone events jobs
handle (Event.traces gone pid normal) jobs = note_traced_exit gone pid normal jobs
handle (Event.sets_stopped i value) jobs = (set_job_stopped i value jobs, [])
handle (Event.finishes i) jobs = (finish_job i jobs, [])

-- The same job later: its identity and its command stay, it does not live again, and a leader that
-- has ended stays ended.
pub record Later (j k : Job) : Type 0 where
  pub pid : k.pid ≡ j.pid
  pub name : k.name ≡ j.name
  pub command : k.command ≡ j.command
  pub dead : j.live ≡ false → k.live ≡ false
  pub done : j.leader_done ≡ true → k.leader_done ≡ true

Later-refl : (j : Job) → Later j j
Later-refl j = record { pid = refl; name = refl; command = refl; dead = λ h. h; done = λ h. h }

Later-trans : (i j k : Job) → Later i j → Later j k → Later i k
Later-trans i j k a b = record {
  pid = b.pid ∙ a.pid;
  name = b.name ∙ a.name;
  command = b.command ∙ a.command;
  dead = λ h. b.dead (a.dead h);
  done = λ h. b.done (a.done h);
}

-- Every job of the first table stands at its index in the second, later.
abbrev pub Extends : Jobs → Jobs → Type 0
Extends [] ks = Unit
Extends (j ∷ js) [] = ⊥
Extends (j ∷ js) (k ∷ ks) = Later j k × Extends js ks

Extends-refl : (js : Jobs) → Extends js js
Extends-refl [] = tt
Extends-refl (j ∷ js) = (Later-refl j, Extends-refl js)

Extends-trans : (js ks ls : Jobs) → Extends js ks → Extends ks ls → Extends js ls
Extends-trans [] ks ls a b = tt
Extends-trans (j ∷ js) [] ls a b = absurd a
Extends-trans (j ∷ js) (k ∷ ks) [] a b = absurd b
Extends-trans (j ∷ js) (k ∷ ks) (l ∷ ls) a b =
    (Later-trans j k l a.0 b.0, Extends-trans js ks ls a.1 b.1)

Extends-append : (js ks : Jobs) → Extends js (js ++ ks)
Extends-append [] ks = tt
Extends-append (j ∷ js) ks = (Later-refl j, Extends-append js ks)

pub Extends-map :
    (f : Job → Job) → ((j : Job) → Later j (f j)) → (js : Jobs) → Extends js (map f js)
Extends-map f h [] = tt
Extends-map f h (j ∷ js) = (h j, Extends-map f h js)

Extends-modify :
    (f : Job → Job) → ((j : Job) → Later j (f j)) → (js : Jobs) (i : ℕ) → Extends js (modify js i f)
Extends-modify f h [] i = tt
Extends-modify f h (j ∷ js) zero = (h j, Extends-refl js)
Extends-modify f h (j ∷ js) (suc i) = (Later-refl j, Extends-modify f h js i)

note_status-Later : (status : Status) (j : Job) → Later j (note_status status j).0
unfolding note_status
note_status-Later status j = ground arith

pub sweep_job-Later : (gone : ℕ → Bool) (j : Job) → Later j (sweep_job gone j)
unfolding sweep_job
sweep_job-Later gone j = ground arith

trace_exit-Later :
    (gone : ℕ → Bool) (normal : Bool) (j : Job) → Later j (trace_exit gone normal j).0
unfolding trace_exit
trace_exit-Later gone normal j = ground arith

reap-Extends : (pid : ℕ) (status : Status) (js : Jobs) → Extends js (reap pid status js).0
unfolding reap
reap-Extends pid status [] = tt
reap-Extends pid status (j ∷ js) = elim (Bool-cases (j.live && j.pid == pid)) [
  | inl e ↦ rw e (note_status-Later status j, Extends-refl js)
  | inr e ↦ rw e (Later-refl j, reap-Extends pid status js)
]

pub reap_all-Extends : (events : List (ℕ × Status)) (js : Jobs) → Extends js (reap_all events js).0
unfolding reap_all
reap_all-Extends [] js = Extends-refl js
reap_all-Extends ((pid, status) ∷ events) js =
    Extends-trans js (reap pid status js).0 _ (reap-Extends pid status js)
      (reap_all-Extends events (reap pid status js).0)

note_traced_exit-Extends :
    (gone : ℕ → Bool) (pid : ℕ) (normal : Bool) (js : Jobs)
    → Extends js (note_traced_exit gone pid normal js).0
unfolding note_traced_exit
note_traced_exit-Extends gone pid normal [] = tt
note_traced_exit-Extends gone pid normal (j ∷ js) =
    elim (Bool-cases (j.live && (j.pid == pid && not j.leader_done))) [
      | inl e ↦ rw e (trace_exit-Later gone normal j, Extends-refl js)
      | inr e ↦ rw e (Later-refl j, note_traced_exit-Extends gone pid normal js)
    ]

add_job-Extends :
    (pid : ℕ) (stopped : Bool) (tokens : List Token) (js : Jobs)
    → Extends js (add_job pid stopped tokens js).0
unfolding add_job
add_job-Extends pid stopped tokens js = elim (Bool-cases (length js == 1024)) [
  | inl e ↦ rw e (Extends-refl js)
  | inr e ↦ rw e (Extends-append js _)
]

handle-Extends : (e : Event) (js : Jobs) → Extends js (handle e js).0
unfolding handle
handle-Extends (Event.stops pgid tokens) js = add_job-Extends pgid true tokens js
handle-Extends (Event.starts none tokens) js = Extends-refl js
handle-Extends (Event.starts (some child) tokens) js = add_job-Extends child false tokens js
handle-Extends (Event.signals gone events) js =
    Extends-trans js (reap_all events js).0 _ (reap_all-Extends events js)
      (Extends-map (sweep_job gone) (sweep_job-Later gone) (reap_all events js).0)
handle-Extends (Event.traces gone pid normal) js = note_traced_exit-Extends gone pid normal js
handle-Extends (Event.sets_stopped i value) js =
    Extends-modify _
      (λ j. record { pid = refl; name = refl; command = refl; dead = λ h. h; done = λ h. h }) js i
handle-Extends (Event.finishes i) js =
    Extends-modify _
      (λ j. record { pid = refl; name = refl; command = refl; dead = λ h. refl; done = λ h. h }) js
      i

-- Any events, from first to last, with all that they report.
unfoldable pub handle_all : List Event → Jobs → Jobs × List Report
unfolding handle
handle_all [] js = (js, [])
handle_all (e ∷ es) js =
    let (js', here) = handle e js in let (js'', later) = handle_all es js' in (js'', here ++ later)

handle_all-Extends : (es : List Event) (js : Jobs) → Extends js (handle_all es js).0
unfolding handle_all
handle_all-Extends [] js = Extends-refl js
handle_all-Extends (e ∷ es) js =
    Extends-trans js (handle e js).0 _ (handle-Extends e js) (handle_all-Extends es (handle e js).0)

Extends-get :
    (js ks : Jobs) (i : ℕ) (j : Job)
    → Extends js ks
    → get_elem? js i ≡ some j
    → (k : Job) × (get_elem? ks i ≡ some k) × Later j k
Extends-get [] ks i j x e = cc
Extends-get (a ∷ js) [] i j x e = absurd x
Extends-get (a ∷ js) (b ∷ ks) zero j x e =
    let same : a ≡ j = cc in (b, refl, subst (λ y. Later y b) same x.0)
Extends-get (a ∷ js) (b ∷ ks) (suc i) j x e = Extends-get js ks i j x.1 e

get-below : (js : Jobs) (i : ℕ) → i < length js → (j : Job) × (get_elem? js i ≡ some j)
get-below [] i h = absurd (omega arith)
get-below (j ∷ js) zero h = (j, refl)
get-below (j ∷ js) (suc i) h = get-below js i (omega arith)

-- Whatever happens to the table of jobs, a job number that was given out never names another process
-- group: later it finds no live job, or it finds what it found before.
pub find_job_stable :
    (es : List Event) (js : Jobs) (n : ℕ)
    → n ≤ length js
    → (find_job n (handle_all es js).0 ≡ none) ⊎ (find_job n (handle_all es js).0 ≡ find_job n js)
unfolding find_job
find_job_stable es js zero h = inl refl
find_job_stable es js (suc i) h =
    let (j, at) = get-below js i (omega arith) in
    let (k, there, l) = Extends-get js (handle_all es js).0 i j (handle_all-Extends es js) at in
    rw (at, there) (ground (arith, l.pid, l.dead))
