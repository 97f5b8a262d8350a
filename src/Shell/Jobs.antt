-- ===== src/Shell/Jobs.antt =====
-- c-shell/src/d1d2.c: the table of jobs. A job's number is its index plus one. The process ids, the
-- wait statuses and whether a process group is gone (`kill(-pgid, 0) != 0`) come from the kernel: they
-- are arguments. The signal mask, the terminal and the processes themselves are not modelled.
pub mod Text
pub mod Stable
pub mod Ends
pub mod Noticed
pub mod Reports
use mp.Prelude.{
  ℕ, zero, suc, ◌+◌, ◌-◌, Bool, true, false, not, ◌&&◌, Option, none, some, List, [], ◌∷◌, ◌++◌,
  map, ltb, leb, ◌==◌, if◌then◌else◌, length, get_elem?, modify,
}
use mp.Shell.Token.{Token}

pub record Job : Type 0 where
  pub pid : ℕ
  pub name : List ℕ
  pub live : Bool
  pub stopped : Bool
  pub leader_done : Bool
  pub command : List ℕ

-- `job_count` is the length.
abbrev pub Jobs : Type 0
Jobs = List Job

abbrev pub max_jobs : ℕ
max_jobs = 1024

-- `for(j=0; text[j]!='\0' && pos<255; j++)` on what has been written so far.
unfoldable pub copy_text : List ℕ → List ℕ → List ℕ
copy_text out [] = out
copy_text out (c ∷ cs) = copy_text (if ltb (length out) 255 then out ++ c ∷ [] else out) cs

unfoldable pub copy_blank : List ℕ → List ℕ
copy_blank out = if ltb 0 (length out) && ltb (length out) 255 then out ++ b' ' ∷ [] else out

unfoldable pub copy_texts : List ℕ → List (List ℕ) → List ℕ
copy_texts out [] = out
copy_texts out (t ∷ ts) =
    let more = copy_texts (copy_text (copy_blank out) t) ts in
    if ltb (length out) 255 then more else out

unfoldable pub save_command : List Token → List ℕ
unfolding copy_texts copy_text copy_blank
save_command tokens = copy_texts [] (map (λ k. k.text) tokens)

abbrev pub skip_percent : List ℕ → List ℕ
skip_percent [] = []
skip_percent (c ∷ cs) = if c == b'%' then cs else c ∷ cs

unfoldable pub first_bytes : ℕ → List ℕ → List ℕ
first_bytes zero cs = []
first_bytes (suc n) [] = []
first_bytes (suc n) (c ∷ cs) = c ∷ first_bytes n cs

abbrev pub first_text : List Token → List ℕ
first_text [] = b'u' ∷ b'n' ∷ b'k' ∷ b'n' ∷ b'o' ∷ b'w' ∷ b'n' ∷ []
first_text (k ∷ ks) = k.text

unfoldable pub new_job : ℕ → Bool → List Token → Job
unfolding first_bytes save_command
new_job pid stopped tokens = record {
  pid = pid;
  name = first_bytes 31 (skip_percent (first_text tokens));
  live = true;
  stopped = stopped;
  leader_done = false;
  command = save_command tokens;
}

-- The new table, and the number of the job; `none` where the table is full.
unfoldable pub add_job : ℕ → Bool → List Token → Jobs → Jobs × Option ℕ
unfolding new_job
add_job pid stopped tokens jobs =
    if length jobs == max_jobs
    then (jobs, none)
    else (jobs ++ new_job pid stopped tokens ∷ [], some (length jobs + 1))

unfoldable pub add_stopped_job : ℕ → List Token → Jobs → Jobs × Option ℕ
unfolding add_job
add_stopped_job pgid tokens jobs = add_job pgid true tokens jobs

-- The part of `runbuff` in the shell: `none` is a child that could not be started.
unfoldable pub runbuff : Option ℕ → List Token → Jobs → Jobs × Option ℕ
unfolding add_job
runbuff none tokens jobs = (jobs, none)
runbuff (some child) tokens jobs = add_job child false tokens jobs

-- A status of `waitpid`. `ended` is told apart by `WIFEXITED`.
pub data Status : Type 0 where
  stopped continued : Status
  ended : Bool → Status

-- A line that `report` writes: the name, the pid, and whether the exit was normal.
pub record Report : Type 0 where
  pub name : List ℕ
  pub pid : ℕ
  pub normal : Bool

-- The body of the loop over the jobs at the job that is found.
unfoldable pub note_status : Status → Job → Job × List Report
note_status Status.stopped j = (record j { stopped = true }, [])
note_status Status.continued j = (record j { stopped = false }, [])
note_status (Status.ended normal) j =
    if not j.leader_done
    then (
      record j { leader_done = true },
      (record { name = j.name; pid = j.pid; normal = normal }) ∷ [],
    )
    else (j, [])

-- The first live job with the pid.
unfoldable pub reap : ℕ → Status → Jobs → Jobs × List Report
unfolding note_status
reap pid status [] = ([], [])
reap pid status (j ∷ js) =
    let (js', reports) = reap pid status js in
    let (j', here) = note_status status j in
    if j.live && j.pid == pid then (j' ∷ js, here) else (j ∷ js', reports)

unfoldable pub reap_all : List (ℕ × Status) → Jobs → Jobs × List Report
unfolding reap
reap_all [] jobs = (jobs, [])
reap_all ((pid, status) ∷ events) jobs =
    let (jobs', here) = reap pid status jobs in
    let (jobs'', later) = reap_all events jobs' in (jobs'', here ++ later)

module _ (gone : ℕ → Bool) where
  unfoldable pub sweep_job : Job → Job
  sweep_job j =
      if j.live && (j.leader_done && gone j.pid)
      then record j { live = false; stopped = false }
      else j

  -- `events` is what `waitpid` returns until there is no more.
  unfoldable pub handle_sigchld : List (ℕ × Status) → Jobs → Jobs × List Report
  unfolding reap_all sweep_job
  handle_sigchld events jobs =
      let (jobs', reports) = reap_all events jobs in (map sweep_job jobs', reports)

  -- `note_traced_exit` at the job that is found.
  unfoldable pub trace_exit : Bool → Job → Job × List Report
  trace_exit normal j = (
    (if gone j.pid
        then record j { leader_done = true; live = false; stopped = false }
        else record j { leader_done = true }),
    (record { name = j.name; pid = j.pid; normal = normal }) ∷ [],
  )

  unfoldable pub note_traced_exit : ℕ → Bool → Jobs → Jobs × List Report
  unfolding trace_exit
  note_traced_exit pid normal [] = ([], [])
  note_traced_exit pid normal (j ∷ js) =
      let (js', reports) = note_traced_exit pid normal js in
      let (j', here) = trace_exit normal j in
      if j.live && (j.pid == pid && not j.leader_done) then (j' ∷ js, here) else (j ∷ js', reports)

unfoldable pub has_stopped_jobs : Jobs → Bool
has_stopped_jobs [] = false
has_stopped_jobs (j ∷ js) = if j.live && j.stopped then true else has_stopped_jobs js

abbrev pub live_pid : ℕ → Option Job → Option (ℕ × ℕ)
live_pid i none = none
live_pid i (some j) = if j.live then some (i, j.pid) else none

-- The index and the process group of a live job by its number, which is not negative here.
unfoldable pub find_job : ℕ → Jobs → Option (ℕ × ℕ)
find_job zero jobs = none
find_job (suc i) jobs = live_pid i (get_elem? jobs i)

unfoldable pub set_job_stopped : ℕ → Bool → Jobs → Jobs
set_job_stopped i value jobs = modify jobs i (λ j. record j { stopped = value })

unfoldable pub finish_job : ℕ → Jobs → Jobs
finish_job i jobs = modify jobs i (λ j. record j { live = false; stopped = false })

abbrev pub info_of : Option Job → Option (ℕ × List ℕ × Bool)
info_of none = none
info_of (some j) = some (j.pid, j.name, j.live)

-- What `getjobinfo` writes; `none` is -1. The index is not negative here.
unfoldable pub getjobinfo : ℕ → Jobs → Option (ℕ × List ℕ × Bool)
getjobinfo i jobs = info_of (get_elem? jobs i)

abbrev pub command_of : Option Job → List ℕ
command_of none = []
command_of (some j) = j.command

unfoldable pub job_command_text : ℕ → Jobs → List ℕ
job_command_text i jobs = command_of (get_elem? jobs i)

-- A live job has the given process group.
unfoldable pub has_group : ℕ → Jobs → Bool
has_group group [] = false
has_group group (j ∷ js) = if j.live && j.pid == group then true else has_group group js

-- `none` is a failure of `getpgid`.
unfoldable pub is_tracked_pid : Option ℕ → Jobs → Bool
unfolding has_group
is_tracked_pid none jobs = false
is_tracked_pid (some group) jobs = has_group group jobs

-- The process groups that `shutdown_jobs` sends SIGHUP and then SIGCONT.
unfoldable pub shutdown_jobs : Jobs → List ℕ
shutdown_jobs [] = []
shutdown_jobs (j ∷ js) = let rest = shutdown_jobs js in if j.live then j.pid ∷ rest else rest
