-- ===== src/Kernel/Sleep/Wakeup.antt =====
-- No wakeup is lost: a process that registers on a channel and then sleeps is not asleep after a
-- wakeup of that channel, whenever the wakeup came.
use mathlib.Core.Option
use mp.Prelude.{
  ℕ, Bool, true, false, not, ◌||◌, some, List, [], ◌∷◌, map, ◌≡◌, ◌≢◌, ◌∙◌, ◌⊎◌, inl, inr, refl, ap,
  arith, ◌==◌, if◌then◌else◌, get_elem?, modify, get_elem?-map, get_elem?-modify_self,
  get_elem?-modify_ne, Bool-cases, Option-cases,
}
use native.Mathlib.Decide.{ℕ_discrete}
use mp.Kernel.Proc.{Proc, Table, is_sleeping}
use mp.Kernel.Mlfq.{boost_proc, time_proc}
use mp.Kernel.Sleep.{
  prepare_proc, sleep_prepare, sleep_proc, sleep, wake_proc, wakeup, kill_proc, kkill, find_pid,
  setkilled,
}

-- What other CPUs and interrupts may do to the table in the meantime, in any order and number.
pub data Other : Type 0 where
  wakes : ℕ → Other
  kills : ℕ → Other
  sets_killed : ℕ → Other
  times : Other
  boosts : Other

unfoldable pub happen : Other → Table → Table
unfolding wakeup kkill setkilled time_proc boost_proc
happen (Other.wakes chan) t = wakeup chan t
happen (Other.kills pid) t = (kkill pid t).0
happen (Other.sets_killed i) t = setkilled i t
happen Other.times t = map time_proc t
happen Other.boosts t = map boost_proc t

unfoldable pub happens : List Other → Table → Table
happens [] t = t
happens (o ∷ os) t = happens os (happen o t)

abbrev pub is_wake : ℕ → Other → Bool
is_wake chan (Other.wakes c) = c == chan
is_wake chan _ = false

-- There is a wakeup of the channel among these.
abbrev pub woken : ℕ → List Other → Bool
woken chan [] = false
woken chan (o ∷ os) = is_wake chan o || woken chan os

-- A process that waits on `chan`; or the wait has ended: its channel is cleared and it is not asleep.
abbrev pub Waits : ℕ → Bool → Proc → Type 0
Waits chan ended p =
    (p.chan ≡ (if ended then 0 else chan)) × (ended ≡ true → is_sleeping p.state ≡ false)

abbrev pub WaitsAt : ℕ → ℕ → Bool → Table → Type 0
WaitsAt me chan ended t = (p : Proc) × (get_elem? t me ≡ some p) × Waits chan ended p

modify-keeps :
    (t : Table) (me i : ℕ) (f : Proc → Proc) (p : Proc)
    → get_elem? t me ≡ some p
    → (get_elem? (modify t i f) me ≡ some (f p)) ⊎ (get_elem? (modify t i f) me ≡ some p)
modify-keeps t me i f p at = elim (ℕ_discrete i me) [
  | yes e ↦ inl (rw e (get_elem?-modify_self t me f ∙ ap (Option.map f) at))
  | no ne ↦ inr (get_elem?-modify_ne t i me f ne ∙ at)
]

map-at :
    (t : Table) (me : ℕ) (f : Proc → Proc) (p : Proc)
    → get_elem? t me ≡ some p
    → get_elem? (map f t) me ≡ some (f p)
map-at t me f p at = get_elem?-map f t me ∙ ap (Option.map f) at

wake_proc-Waits :
    (chan c : ℕ) (ended : Bool) (p : Proc)
    → Waits chan ended p
    → Waits chan (ended || c == chan) (wake_proc c p)
unfolding wake_proc
wake_proc-Waits chan c ended p w = ground arith

kill_proc-Waits :
    (chan : ℕ) (ended : Bool) (p : Proc) → Waits chan ended p → Waits chan ended (kill_proc p)
unfolding kill_proc
kill_proc-Waits chan ended p w = ground arith

time_proc-Waits :
    (chan : ℕ) (ended : Bool) (p : Proc) → Waits chan ended p → Waits chan ended (time_proc p)
unfolding time_proc
time_proc-Waits chan ended p w = ground arith

boost_proc-Waits :
    (chan : ℕ) (ended : Bool) (p : Proc) → Waits chan ended p → Waits chan ended (boost_proc p)
unfolding boost_proc
boost_proc-Waits chan ended p w = ground arith

or_false : (b : Bool) → (b || false) ≡ b
or_false true = refl
or_false false = refl

modify-WaitsAt :
    (me i chan : ℕ) (ended : Bool) (f : Proc → Proc) (t : Table)
    → ((p : Proc) → Waits chan ended p → Waits chan ended (f p))
    → WaitsAt me chan ended t
    → WaitsAt me chan ended (modify t i f)
modify-WaitsAt me i chan ended f t keeps (p, at, w) = elim (modify-keeps t me i f p at) [
  | inl e ↦ (f p, e, keeps p w)
  | inr e ↦ (p, e, w)
]

kkill-WaitsAt :
    (me pid chan : ℕ) (ended : Bool) (t : Table)
    → WaitsAt me chan ended t
    → WaitsAt me chan ended (kkill pid t).0
kkill-WaitsAt me pid chan ended t w = elim (Option-cases (find_pid pid 0 t)) [
  | inl e ↦ unfold kkill in rw e w
  | inr (i, e) ↦
      let next = modify-WaitsAt me i chan ended kill_proc t (kill_proc-Waits chan ended) w in
      unfold kkill in rw e next
]

happen-WaitsAt :
    (me chan : ℕ) (ended : Bool) (o : Other) (t : Table)
    → WaitsAt me chan ended t
    → WaitsAt me chan (ended || is_wake chan o) (happen o t)
unfolding happen
happen-WaitsAt me chan ended (Other.wakes c) t (p, at, w) =
    (wake_proc c p, map-at t me (wake_proc c) p at, wake_proc-Waits chan c ended p w)
happen-WaitsAt me chan ended (Other.kills pid) t w =
    rw (or_false ended) (kkill-WaitsAt me pid chan ended t w)
happen-WaitsAt me chan ended (Other.sets_killed i) t w =
    rw (or_false ended)
      (modify-WaitsAt me i chan ended (λ p. record p { killed = true }) t (λ p h. h) w)
happen-WaitsAt me chan ended Other.times t (p, at, w) =
    rw (or_false ended) (time_proc p, map-at t me time_proc p at, time_proc-Waits chan ended p w)
happen-WaitsAt me chan ended Other.boosts t (p, at, w) =
    rw (or_false ended) (boost_proc p, map-at t me boost_proc p at, boost_proc-Waits chan ended p w)

or_assoc : (a b c : Bool) → ((a || b) || c) ≡ (a || (b || c))
or_assoc true b c = refl
or_assoc false b c = refl

happens-WaitsAt :
    (me chan : ℕ) (os : List Other) (ended : Bool) (t : Table)
    → WaitsAt me chan ended t
    → WaitsAt me chan (ended || woken chan os) (happens os t)
unfolding happens
happens-WaitsAt me chan [] ended t w = rw (or_false ended) w
happens-WaitsAt me chan (o ∷ os) ended t w =
    rw (← or_assoc ended (is_wake chan o) (woken chan os)) (
      happens-WaitsAt me chan os (ended || is_wake chan o) (happen o t)
        (happen-WaitsAt me chan ended o t w))

sleep-WaitsAt :
    (me chan : ℕ) (ended : Bool) (t : Table)
    → chan ≢ 0
    → WaitsAt me chan ended t
    → ((sleep me t).1 ≡ not ended) × WaitsAt me chan ended (sleep me t).0
unfolding sleep
sleep-WaitsAt me chan ended t nz (p, at, w) = (
  rw at (ground arith),
  (
    sleep_proc p,
    (get_elem?-modify_self t me sleep_proc ∙ ap (Option.map sleep_proc) at),
    unfold sleep_proc in ground arith,
  ),
)

sleep_prepare-some :
    (me chan : ℕ) (t t' : Table)
    → sleep_prepare me chan t ≡ some t'
    → (chan ≢ 0) × (t' ≡ modify t me (prepare_proc chan))
unfolding sleep_prepare
sleep_prepare-some me chan t t' h = elim (Bool-cases (chan == 0)) [
  | inl e ↦ cc (rw e at h)
  | inr e ↦
      let h' : some (modify t me (prepare_proc chan)) ≡ some t' = rw e at h in (ground arith, cc)
]

-- A process registers on a channel; then any events `os` happen, the process calls `sleep`, and any
-- events `os'` follow. It goes to sleep exactly if the channel was not woken up among `os`. And if it
-- was woken up among `os` or `os'`, then the process is not asleep after them: no wakeup is lost.
pub no_lost_wakeup :
    (me chan : ℕ) (t t' : Table) (p : Proc) (os os' : List Other)
    → get_elem? t me ≡ some p
    → is_sleeping p.state ≡ false
    → sleep_prepare me chan t ≡ some t'
    → ((sleep me (happens os t')).1 ≡ not (woken chan os))
      × ((woken chan os || woken chan os') ≡ true
          → (q : Proc) × (get_elem? (happens os' (sleep me (happens os t')).0) me ≡ some q)
            × (is_sleeping q.state ≡ false))
no_lost_wakeup me chan t t' p os os' at awake prepared =
    let (nz, e) = sleep_prepare-some me chan t t' prepared in
    let start : WaitsAt me chan false t' = (
      record p { chan = chan },
      rw e (
          get_elem?-modify_self t me (prepare_proc chan)
          ∙ unfold prepare_proc in ap (Option.map (prepare_proc chan)) at),
      (refl, λ h. awake),
    ) in
    let (asleep, w) =
      sleep-WaitsAt me chan (woken chan os) (happens os t') nz
        (happens-WaitsAt me chan os false t' start) in
    let (q, here, (_, woke)) =
      happens-WaitsAt me chan os' (woken chan os) (sleep me (happens os t')).0 w in
    (asleep, λ h. (q, here, woke h))
