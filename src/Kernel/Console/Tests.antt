-- ===== src/Kernel/Console/Tests.antt =====
-- The theorems of the console at concrete inputs.
use mp.Prelude.{ℕ, zero, suc, true, false, List, [], ◌∷◌, ◌≡◌, refl, arith}
use mp.Kernel.Console.{Console, kills, kill_line, Reading}
use mp.Kernel.Console.Line.{Text, Shows}
use mp.Kernel.Console.Keys.{kill_line-stops}
use mp.Kernel.Console.Session.{Event, Seen, run_console, run_text, run_console-refines}

abbrev zeros : ℕ → List ℕ
zeros zero = []
zeros (suc n) = 0 ∷ zeros n

-- An empty console whose indices wrap at the next byte.
abbrev quiet : Console
quiet = record {
  buf = zeros 128;
  read_index = 4294967295;
  write_index = 4294967295;
  edit_index = 4294967295;
  echo = [];
}

abbrev nothing : Text
nothing = record { ready = []; line = [] }

quiet-Shows : Shows quiet nothing
quiet-Shows = record {
  ring = tt;
  size = refl;
  fits = omega arith;
  counter = omega arith;
  written = refl;
  edited = refl;
  open_line = tt;
}

-- `xx`, ^U, `ab`, backspace, `c`, return, ^D, and reads of two bytes each.
abbrev typing : List Event
typing =
    Event.key b'x'
    ∷ Event.key b'x'
    ∷ Event.key 21
    ∷ Event.key b'a'
    ∷ Event.key b'b'
    ∷ Event.key 8
    ∷ Event.key b'c'
    ∷ Event.reads false [] (true ∷ true ∷ [])
    ∷ Event.key 13
    ∷ Event.key 4
    ∷ Event.reads false [] (true ∷ true ∷ [])
    ∷ Event.reads false [] (true ∷ true ∷ [])
    ∷ Event.reads false [] (true ∷ true ∷ [])
    ∷ Event.reads true [] (true ∷ true ∷ [])
    ∷ []

abbrev seen : Seen
seen =
    ([], Reading.waiting)
    ∷ (b'a' ∷ b'c' ∷ [], Reading.returned)
    ∷ (10 ∷ [], Reading.returned)
    ∷ ([], Reading.returned)
    ∷ ([], Reading.refused)
    ∷ []

sees : run_console typing quiet ≡ seen
unfolding run_console mp.Kernel.Console.consoleintr mp.Kernel.Console.consoleread
sees = refl

run_console-refines_example : run_console typing quiet ≡ run_text typing nothing
run_console-refines_example = run_console-refines typing quiet nothing quiet-Shows

kill_line-stops_example : kills (kill_line (record quiet { edit_index = 5 })) ≡ false
kill_line-stops_example =
    kill_line-stops (record quiet { edit_index = 5 }) (omega arith) (omega arith)
