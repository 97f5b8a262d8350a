-- ===== src/Kernel/Console.antt =====
-- xv6/kernel/console.c: the line discipline of the console. A call of `consoleintr`, and a stretch of
-- `consoleread` between two sleeps, hold the lock and are one step each. What `either_copyout` answers
-- for each byte is an argument; `echo` is what `consputc` has sent, and the wakeups are left out.
pub mod Line
pub mod Keys
pub mod Session
mod Tests
use mp.Prelude.{
  ℕ, zero, suc, ◌+◌, ◌-◌, ◌%◌, Bool, true, false, not, ◌&&◌, ◌||◌, Option, none, some, List, [],
  ◌∷◌, ◌++◌, ◌==◌, ltb, if◌then◌else◌, get_elem?, modify,
}
use mp.Kernel.Proc.{u32}

pub record Console : Type 0 where
  pub buf : List ℕ
  pub read_index : ℕ
  pub write_index : ℕ
  pub edit_index : ℕ
  pub echo : List ℕ

abbrev pub backspace : ℕ
backspace = 256

abbrev pub consputc : ℕ → List ℕ
consputc c = if c == backspace then 8 ∷ 32 ∷ 8 ∷ [] else c ∷ []

-- `cons.e--` with the echo of a backspace.
unfoldable pub erase : Console → Console
erase s = record s {
  edit_index = u32 (s.edit_index + 4294967295);
  echo = s.echo ++ consputc backspace;
}

-- A read outside the buffer, which cannot happen (Console/Line), ends the loop.
abbrev pub is_newline : Option ℕ → Bool
is_newline none = true
is_newline (some c) = c == 10

-- The test of the loop of `^U`.
abbrev pub kills : Console → Bool
kills s =
    not (s.edit_index == s.write_index)
    && not (is_newline (get_elem? s.buf (u32 (s.edit_index + 4294967295) % 128)))

-- At most `n` rounds of the loop.
unfoldable pub kill_from : ℕ → Console → Console
unfolding erase
kill_from zero s = s
kill_from (suc n) s = let rest = kill_from n (erase s) in if kills s then rest else s

-- It stops at `cons.w` at the latest.
unfoldable pub kill_line : Console → Console
unfolding kill_from
kill_line s = kill_from (u32 (s.edit_index + (4294967296 - s.write_index))) s

abbrev pub translated : ℕ → ℕ
translated c = if c == 13 then 10 else c

-- The bytes from `cons.r` to `cons.e`.
abbrev pub held : Console → ℕ
held s = u32 (s.edit_index + (4294967296 - s.read_index))

unfoldable pub store : ℕ → Console → Console
store c s =
    let t = record s {
      buf = modify s.buf (s.edit_index % 128) (λ _. c);
      edit_index = u32 (s.edit_index + 1);
      echo = s.echo ++ consputc c;
    } in
    if c == 10 || c == 4 || held t == 128 then record t { write_index = t.edit_index } else t

unfoldable pub consoleintr : ℕ → Console → Console
unfolding kill_line erase store
consoleintr c s =
    if c == 16
    then s
    else if c == 21
    then kill_line s
    else if c == 8 || c == 127
    then (if not (s.edit_index == s.write_index) then erase s else s)
    else if not (c == 0) && ltb (held s) 128
    then store (translated c) s
    else s

-- `refused` is -1 for a killed process, `returned` returns the count, and `waiting` sleeps, to go on with the
-- bytes read so far.
pub data Reading : Type 0 where
  refused returned waiting : Reading

abbrev pub is_empty : List ℕ → Bool
is_empty [] = true
is_empty (c ∷ cs) = false

-- A byte that has been taken from the buffer, with the bytes copied before; `next` is the next round.
abbrev pub take_byte :
    Bool
    → List ℕ
    → Console
    → Console
    → Console × List ℕ × Reading
    → Option ℕ
    → Console × List ℕ × Reading
take_byte ok got s after next none = (after, got, Reading.returned)
take_byte ok got s after next (some c) =
    if c == 4
    then ((if is_empty got then after else s), got, Reading.returned)
    else if not ok
    then (after, got, Reading.returned)
    else if c == 10
    then (after, got ++ c ∷ [], Reading.returned)
    else next

abbrev pub byte_of : Option ℕ → ℕ
byte_of none = 0
byte_of (some c) = c

-- The loop, on the answers for the bytes that are still wanted.
unfoldable pub read_from : Bool → List ℕ → List Bool → Console → Console × List ℕ × Reading
read_from killed got [] s = (s, got, Reading.returned)
read_from killed got (ok ∷ copies) s =
    let c = get_elem? s.buf (s.read_index % 128) in
    let after = record s { read_index = u32 (s.read_index + 1) } in
    let next = read_from killed (got ++ byte_of c ∷ []) copies after in
    if s.read_index == s.write_index
    then (s, got, if killed then Reading.refused else Reading.waiting)
    else take_byte ok got s after next c

-- A stretch of `consoleread`, which has copied the bytes `got` before it slept.
unfoldable pub consoleread : Bool → List ℕ → List Bool → Console → Console × List ℕ × Reading
unfolding read_from
consoleread killed got copies s = read_from killed got copies s
