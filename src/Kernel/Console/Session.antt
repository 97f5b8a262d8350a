-- ===== src/Kernel/Console/Session.antt =====
-- Any sequence of keys and reads.
use mp.Prelude.{
  ℕ, suc, ◌+◌, ◌≤◌, Bool, true, false, List, [], ◌∷◌, ◌++◌, ◌==◌, ◌≡◌, inl, inr, refl, arith,
  length, Bool-cases,
}
use mp.Kernel.Proc.{u32}
use mp.Kernel.Console.{Console, consoleintr, Reading, is_empty, read_from, consoleread}
use mp.Kernel.Console.Line.{Text, press, take_ready, Shows}
use mp.Kernel.Console.Keys.{consoleintr-Shows}

-- What a read leaves and gives, beside what it should.
record Took (line : List ℕ) (x : Console × List ℕ × Reading) (y : List ℕ × List ℕ × Reading)
    : Type 0 where
  shows : Shows x.0 (record { ready = y.0; line = line })
  got : x.1 ≡ y.1
  reading : x.2 ≡ y.2

abbrev next_byte : Console → Console
next_byte s = record s { read_index = u32 (s.read_index + 1) }

next_byte-Shows :
    (s : Console) (c : ℕ) (ready line : List ℕ)
    → Shows s (record { ready = c ∷ ready; line = line })
    → Shows (next_byte s) (record { ready = ready; line = line })
next_byte-Shows s c ready line h = record {
  ring = h.ring.1;
  size = h.size;
  fits = omega (arith, h.fits);
  counter = omega arith;
  written = omega (arith, h.written);
  edited = omega (arith, h.edited);
  open_line = h.open_line;
}

none_ready :
    (s : Console) (line : List ℕ)
    → Shows s (record { ready = []; line = line })
    → (s.read_index == s.write_index) ≡ true
none_ready s line h = let a = h.written in let b = h.counter in ground arith

some_ready :
    (s : Console) (c : ℕ) (ready line : List ℕ)
    → Shows s (record { ready = c ∷ ready; line = line })
    → (s.read_index == s.write_index) ≡ false
some_ready s c ready line h =
    let a = h.written in
    let b = h.counter in let f : suc (length ready) + length line ≤ 128 = h.fits in ground arith

read_from-Took :
    (killed : Bool) (got : List ℕ) (copies : List Bool) (s : Console) (ready line : List ℕ)
    → Shows s (record { ready = ready; line = line })
    → Took line (read_from killed got copies s) (take_ready killed got copies ready)
unfolding read_from take_ready
read_from-Took killed got [] s ready line h = record { shows = h; got = refl; reading = refl }
read_from-Took killed got (ok ∷ copies) s [] line h =
    rw (none_ready s line h) (record { shows = h; got = refl; reading = refl })
read_from-Took killed got (ok ∷ copies) s (c ∷ ready) line h =
    let after = next_byte-Shows s c ready line h in
    let later = read_from-Took killed (got ++ c ∷ []) copies (next_byte s) ready line after in
    rw (some_ready s c ready line h, h.ring.0)
      (elim (Bool-cases (c == 4)) [
        | inl d ↦ elim (Bool-cases (is_empty got)) [
          | inl e ↦ rw (d, e) (record { shows = after; got = refl; reading = refl })
          | inr e ↦ rw (d, e) (record { shows = h; got = refl; reading = refl })
        ]
        | inr d ↦ elim (Bool-cases ok) [
          | inr e ↦ rw (d, e) (record { shows = after; got = refl; reading = refl })
          | inl e ↦ elim (Bool-cases (c == 10)) [
            | inl f ↦ rw (d, e, f) (record { shows = after; got = refl; reading = refl })
            | inr f ↦ rw (d, e, f) later
          ]
        ]
      ])

-- A key, or a stretch of a read that has copied some bytes before.
pub data Event : Type 0 where
  key : ℕ → Event
  reads : Bool → List ℕ → List Bool → Event

-- What a process sees of each read.
abbrev pub Seen : Type 0
Seen = List (List ℕ × Reading)

unfoldable pub run_console : List Event → Console → Seen
run_console [] s = []
run_console (key c ∷ events) s = run_console events (consoleintr c s)
run_console (reads killed got copies ∷ events) s =
    let (s', got', r) = consoleread killed got copies s in (got', r) ∷ run_console events s'

unfoldable pub run_text : List Event → Text → Seen
run_text [] t = []
run_text (key c ∷ events) t = run_text events (press c t)
run_text (reads killed got copies ∷ events) t =
    let (ready', got', r) = take_ready killed got copies t.ready in
    (got', r) ∷ run_text events (record { ready = ready'; line = t.line })

-- Whatever is typed and read, and however the indices wrap: each read gives what it gives of the text
-- that the console shows, where a key edits the last line until it is ready, and a read takes
-- from the ready bytes.
pub run_console-refines :
    (events : List Event) (s : Console) (t : Text)
    → Shows s t
    → run_console events s ≡ run_text events t
unfolding run_console run_text consoleread
run_console-refines [] s t h = refl
run_console-refines (key c ∷ events) s t h =
    run_console-refines events (consoleintr c s) (press c t) (consoleintr-Shows c s t h)
run_console-refines (reads killed got copies ∷ events) s t h =
    let k = read_from-Took killed got copies s t.ready t.line h in
    let rest =
      run_console-refines events (read_from killed got copies s).0
        (record { ready = (take_ready killed got copies t.ready).0; line = t.line }) k.shows in
    rw (k.got, k.reading, rest) refl
