-- ===== src/Shell/Jobs/Noticed.antt =====
-- d1d2.c: handle_sigchld notes the end of a leader that the kernel tells of.
use mp.Prelude.{
  ℕ, true, false, ◌&&◌, Bool, List, [], ◌∷◌, ◌≡◌, inl, inr, refl, arith, ◌==◌, map, if◌then◌else◌,
  Bool-cases,
}
use mp.Shell.Jobs.{Job, Jobs, Status, note_status, reap, reap_all, sweep_job}
use mp.Shell.Jobs.Stable.{Event, handle, Extends, Extends-map, sweep_job-Later, reap_all-Extends}

-- The first job that is live with the pid has its leader noted as ended in the later table `ks`.
abbrev pub Noticed : ℕ → Jobs → Jobs → Type 0
Noticed p [] ks = Unit {0}
Noticed p (j ∷ js) [] = ⊥
Noticed p (j ∷ js) (k ∷ ks) =
    let rest = Noticed p js ks in if j.live && j.pid == p then k.leader_done ≡ true else rest

abbrev pub AllNoticed : List (ℕ × Status) → Jobs → Jobs → Type 0
AllNoticed [] js ks = Unit {0}
AllNoticed ((p, Status.stopped) ∷ events) js ks = AllNoticed events js ks
AllNoticed ((p, Status.continued) ∷ events) js ks = AllNoticed events js ks
AllNoticed ((p, Status.ended normal) ∷ events) js ks = Noticed p js ks × AllNoticed events js ks

-- A leader that has ended stays ended.
Noticed-Extends : (p : ℕ) (js ks ls : Jobs) → Noticed p js ks → Extends ks ls → Noticed p js ls
Noticed-Extends p [] ks ls h e = tt
Noticed-Extends p (j ∷ js) [] ls h e = absurd h
Noticed-Extends p (j ∷ js) (k ∷ ks) [] h e = absurd e
Noticed-Extends p (j ∷ js) (k ∷ ks) (l ∷ ls) h e = elim (Bool-cases (j.live && j.pid == p)) [
  | inl f ↦ rw f (e.0.done (rw f at h))
  | inr f ↦ rw f (Noticed-Extends p js ks ls (rw f at h) e.1)
]

note_status-ended :
    (normal : Bool) (j : Job) → (note_status (Status.ended normal) j).0.leader_done ≡ true
unfolding note_status
note_status-ended normal j = ground arith

Noticed-here :
    (p : ℕ) (j k : Job) (js ks : Jobs)
    → (j.live && j.pid == p) ≡ true
    → k.leader_done ≡ true
    → Noticed p (j ∷ js) (k ∷ ks)
Noticed-here p j k js ks e h = rw e h

Noticed-further :
    (p : ℕ) (j k : Job) (js ks : Jobs)
    → (j.live && j.pid == p) ≡ false
    → Noticed p js ks
    → Noticed p (j ∷ js) (k ∷ ks)
Noticed-further p j k js ks e h = rw e h

reap-Noticed :
    (p : ℕ) (normal : Bool) (js : Jobs) → Noticed p js (reap p (Status.ended normal) js).0
unfolding reap
reap-Noticed p normal [] = tt
reap-Noticed p normal (j ∷ js) = elim (Bool-cases (j.live && j.pid == p)) [
  | inl e ↦ rw e (
      Noticed-here p j (note_status (Status.ended normal) j).0 js js e (note_status-ended normal j))
  | inr e ↦
      rw e
        (Noticed-further p j j js (reap p (Status.ended normal) js).0 e (reap-Noticed p normal js))
]

-- Whether a job is live and its pid stay.
note_status-live :
    (status : Status) (j : Job) (p : ℕ)
    → ((note_status status j).0.live && (note_status status j).0.pid == p) ≡ (j.live && j.pid == p)
unfolding note_status
note_status-live Status.stopped j p = refl
note_status-live Status.continued j p = refl
note_status-live (Status.ended normal) j p = elim (Bool-cases j.leader_done) [
  | inl e ↦ rw e refl
  | inr e ↦ rw e refl
]

Noticed-reap :
    (p q : ℕ) (status : Status) (js ls : Jobs) → Noticed p (reap q status js).0 ls → Noticed p js ls
unfolding reap
Noticed-reap p q status [] ls h = tt
Noticed-reap p q status (j ∷ js) [] h = elim (Bool-cases (j.live && j.pid == q)) [
  | inl e ↦ rw e at h
  | inr e ↦ rw e at h
]
Noticed-reap p q status (j ∷ js) (l ∷ ls) h = elim (Bool-cases (j.live && j.pid == q)) [
  | inl e ↦ let k = rw e at h in rw (note_status-live status j p) at k
  | inr e ↦
      let k = rw e at h in
      elim (Bool-cases (j.live && j.pid == p)) [
        | inl f ↦ rw f (rw f at k)
        | inr f ↦ rw f (Noticed-reap p q status js ls (rw f at k))
      ]
]

AllNoticed-reap :
    (events : List (ℕ × Status)) (q : ℕ) (status : Status) (js ls : Jobs)
    → AllNoticed events (reap q status js).0 ls
    → AllNoticed events js ls
AllNoticed-reap [] q status js ls h = tt
AllNoticed-reap ((p, Status.stopped) ∷ events) q status js ls h =
    AllNoticed-reap events q status js ls h
AllNoticed-reap ((p, Status.continued) ∷ events) q status js ls h =
    AllNoticed-reap events q status js ls h
AllNoticed-reap ((p, Status.ended normal) ∷ events) q status js ls h =
    (Noticed-reap p q status js ls h.0, AllNoticed-reap events q status js ls h.1)

reap_all-AllNoticed :
    (events : List (ℕ × Status)) (js ls : Jobs)
    → Extends (reap_all events js).0 ls
    → AllNoticed events js ls
unfolding reap_all
reap_all-AllNoticed [] js ls h = tt
reap_all-AllNoticed ((p, Status.stopped) ∷ events) js ls h =
    AllNoticed-reap events p Status.stopped js ls
      (reap_all-AllNoticed events (reap p Status.stopped js).0 ls h)
reap_all-AllNoticed ((p, Status.continued) ∷ events) js ls h =
    AllNoticed-reap events p Status.continued js ls
      (reap_all-AllNoticed events (reap p Status.continued js).0 ls h)
reap_all-AllNoticed ((p, Status.ended normal) ∷ events) js ls h =
    let after = (reap p (Status.ended normal) js).0 in
    (
      Noticed-Extends p js (reap_all events after).0 ls
          (Noticed-Extends p js after (reap_all events after).0 (reap-Noticed p normal js)
            (reap_all-Extends events after))
          h,
      AllNoticed-reap events p (Status.ended normal) js ls (reap_all-AllNoticed events after ls h),
    )

pub signals-AllNoticed :
    (gone : ℕ → Bool) (events : List (ℕ × Status)) (js : Jobs)
    → AllNoticed events js (handle (Event.signals gone events) js).0
unfolding handle
signals-AllNoticed gone events js =
    reap_all-AllNoticed events js (map (sweep_job gone) (reap_all events js).0)
      (Extends-map (sweep_job gone) (sweep_job-Later gone) (reap_all events js).0)
