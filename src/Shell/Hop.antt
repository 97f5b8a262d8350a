-- ===== src/Shell/Hop.antt =====
-- c-shell/src/func.c: `hop`, and the file of visited directories. A directory is a number; `path_of` is what
-- getcwd gives in it and `chdir` where a path leads from it. `decimal` and `strtoll` are the formats of numbers,
-- which are not negative in a file that save_visits has written; a count or a stamp has no upper bound
-- here. The history is what the file holds, if it
-- can be opened; memory is granted.
pub mod Saved
pub mod Best
pub mod Preferred
pub mod Back
mod Tests
use mp.Prelude.{
  ℕ, suc, ◌+◌, Bool, true, false, not, ◌&&◌, ◌||◌, Option, none, some, List, [], ◌∷◌, ◌++◌, ◌==◌,
  ltb, if◌then◌else◌,
}
use mp.Shell.Token.{Token, is_word}
use mp.Shell.Builtin.{same_text, text_before, has_text, split_at, arguments_of}

pub record Visit : Type 0 where
  pub path : List ℕ
  pub count : ℕ
  pub stamp : ℕ

pub record History : Type 0 where
  pub visits : List Visit
  pub sequence : ℕ

-- The lines that getline gives, without their newlines; the bytes of the first have been read.
unfoldable pub split_lines : List ℕ → List ℕ → List (List ℕ)
split_lines [] [] = []
split_lines (c ∷ line) [] = (c ∷ line) ∷ []
split_lines line (c ∷ file) =
    let next = line ∷ split_lines [] file in
    let longer = split_lines (line ++ c ∷ []) file in if c == 10 then next else longer

abbrev pub tab : ℕ
tab = 9

abbrev pub later : ℕ → ℕ → ℕ
later a b = if ltb b a then a else b

module _ (strtoll : List ℕ → ℕ) where
  abbrev pub visit_of : List ℕ → Option (List ℕ × List ℕ) → Option Visit
  visit_of count none = none
  visit_of count (some (last, path)) =
      some (record { path = path; count = strtoll count; stamp = strtoll last })

  abbrev pub fields_of : Option (List ℕ × List ℕ) → Option Visit
  fields_of none = none
  fields_of (some (count, rest)) = visit_of count (split_at tab rest)

  unfoldable pub parse_visit : List ℕ → Option Visit
  unfolding split_at
  parse_visit line = fields_of (split_at tab line)

  abbrev pub add_parsed : History → Option Visit → History
  add_parsed h none = h
  add_parsed h (some v) = record {
    visits = h.visits ++ v ∷ [];
    sequence = later v.stamp h.sequence;
  }

  unfoldable pub load_lines : List (List ℕ) → History → History
  unfolding parse_visit
  load_lines [] h = h
  load_lines (line ∷ lines) h = load_lines lines (add_parsed h (parse_visit line))

  abbrev pub no_history : History
  no_history = record { visits = []; sequence = 0 }

  -- The file, if it can be opened.
  unfoldable pub load_visits : Option (List ℕ) → History
  unfolding load_lines split_lines
  load_visits none = no_history
  load_visits (some file) = load_lines (split_lines [] file) no_history

module _ (decimal : ℕ → List ℕ) where
  abbrev pub print_visit : Visit → List ℕ
  print_visit v = decimal v.count ++ tab ∷ (decimal v.stamp ++ tab ∷ (v.path ++ 10 ∷ []))

  unfoldable pub save_visits : List Visit → List ℕ
  save_visits [] = []
  save_visits (v ∷ visits) = print_visit v ++ save_visits visits

-- The loop of record_visit: the first entry of the path, or a new one.
unfoldable pub visit_path : List ℕ → ℕ → List Visit → List Visit
unfolding same_text
visit_path path now [] = record { path = path; count = 1; stamp = now } ∷ []
visit_path path now (v ∷ visits) =
    let rest = visit_path path now visits in
    if same_text v.path path
    then record v { count = v.count + 1; stamp = now } ∷ visits
    else v ∷ rest

-- `writable` says whether the file can be opened to be written.
unfoldable pub record_visit :
    (ℕ → List ℕ) → (List ℕ → ℕ) → Bool → List ℕ → Option (List ℕ) → Option (List ℕ)
unfolding load_visits visit_path save_visits
record_visit decimal strtoll writable path file =
    let h = load_visits strtoll file in
    if writable
    then some (save_visits decimal (visit_path path (h.sequence + 1) h.visits))
    else file

-- The test of find_visit against the best one so far.
unfoldable pub is_better : Visit → Visit → Bool
unfolding text_before
is_better v best =
    ltb best.count v.count
    || (v.count == best.count && ltb best.stamp v.stamp)
    || (v.count == best.count && v.stamp == best.stamp && text_before v.path best.path)

abbrev pub better_of : Visit → Option Visit → Visit
better_of v none = v
better_of v (some best) = if is_better v best then v else best

-- `exists` is what access answers.
abbrev pub eligible : (List ℕ → Bool) → List ℕ → Visit → Bool
eligible exists name v = exists v.path && has_text name v.path

unfoldable pub best_from : (List ℕ → Bool) → List ℕ → Option Visit → List Visit → Option Visit
unfolding is_better has_text
best_from exists name best [] = best
best_from exists name best (v ∷ visits) =
    best_from exists name (if eligible exists name v then some (better_of v best) else best) visits

unfoldable pub find_visit : (List ℕ → ℕ) → (List ℕ → Bool) → List ℕ → Option (List ℕ) → Option Visit
unfolding load_visits best_from
find_visit strtoll exists name file = best_from exists name none (load_visits strtoll file).visits

-- `current` is the working directory.
pub record ShellState : Type 0 where
  pub current : ℕ
  pub previous_dir : Option (List ℕ)
  pub home_dir : List ℕ
  pub history : Option (List ℕ)

module _ (decimal : ℕ → List ℕ) (strtoll : List ℕ → ℕ) (writable : Bool) (exists : List ℕ → Bool)
    (path_of : ℕ → Option (List ℕ)) (chdir : ℕ → List ℕ → Option ℕ) where
  -- The rest of change_directory, on the paths before and after.
  abbrev pub moved_to : ShellState → List ℕ → Option (List ℕ) → ShellState × Bool
  moved_to s old none = (s, false)
  moved_to s old (some new) =
      if not (same_text old new)
      then (
        record s {
          previous_dir = some old;
          history = record_visit decimal strtoll writable new s.history;
        },
        true,
      )
      else (s, true)

  abbrev pub change_from : ShellState → Option (List ℕ) → Option ℕ → ShellState × Bool
  change_from s none there = (s, false)
  change_from s (some old) none = (s, false)
  change_from s (some old) (some there) =
      moved_to (record s { current = there }) old (path_of there)

  -- `true` is 0. Without a path of its own directory the shell does not try.
  unfoldable pub change_directory : List ℕ → ShellState → ShellState × Bool
  unfolding record_visit same_text
  change_directory path s = change_from s (path_of s.current) (chdir s.current path)

  abbrev pub hop_to : Option (List ℕ) → ShellState → ShellState × Bool
  hop_to none s = (s, true)
  hop_to (some path) s = change_directory path s

  abbrev pub hop_found : Option Visit → ShellState → ShellState × Bool
  hop_found none s = (s, false)
  hop_found (some v) s = change_directory v.path s

  abbrev pub hop_else : List ℕ → ShellState × Bool → ShellState × Bool
  hop_else name (s, ok) =
      if ok then (s, true) else hop_found (find_visit strtoll exists name s.history) s

  unfoldable pub do_hop : List ℕ → ShellState → ShellState × Bool
  unfolding change_directory find_visit same_text
  do_hop argument s =
      if same_text argument (b'~' ∷ [])
      then change_directory s.home_dir s
      else if same_text argument (b'.' ∷ [])
      then (s, true)
      else if same_text argument (b'-' ∷ [])
      then hop_to s.previous_dir s
      else hop_else argument (change_directory argument s)

  -- The loop of run_hop: the shell, and how many errors are printed.
  unfoldable pub hop_all : List Token → ShellState → ShellState × ℕ
  unfolding do_hop
  hop_all [] s = (s, 0)
  hop_all (k ∷ ks) s =
      let (s', ok) = do_hop k.text s in
      let (s'', errors) = hop_all ks s' in
      if is_word k.type then (s'', if ok then errors else suc errors) else (s, 0)

  abbrev pub hop_arguments : Option (List Token) → ShellState → Option (ShellState × ℕ)
  hop_arguments none s = none
  hop_arguments (some []) s = let (s', ok) = do_hop (b'~' ∷ []) s in some (s', if ok then 0 else 1)
  hop_arguments (some (k ∷ ks)) s = some (hop_all (k ∷ ks) s)

  -- `none` is 0: another command.
  unfoldable pub run_hop : List Token → ShellState → Option (ShellState × ℕ)
  unfolding hop_all arguments_of do_hop
  run_hop tokens s = hop_arguments (arguments_of (b'h' ∷ b'o' ∷ b'p' ∷ []) tokens) s
