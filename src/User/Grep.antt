-- ===== src/User/Grep.antt =====
-- xv6/user/grep.c: the matcher, and the loop over what is read. A text is the list of its bytes before the NUL.
pub mod Language
pub mod Lines
use mp.Prelude.{
  ℕ, zero, suc, ◌+◌, ◌-◌, Bool, true, false, ◌&&◌, ◌||◌, List, [], ◌∷◌, ◌++◌, ◌==◌, leb, length,
  take, if◌then◌else◌,
}

-- The loop of `matchstar`, on what `matchhere` says of the rest of the pattern.
unfoldable pub matchstar : ℕ → (List ℕ → Bool) → List ℕ → Bool
matchstar c here [] = here []
matchstar c here (t ∷ ts) =
    let rest = matchstar c here ts in
    if here (t ∷ ts) then true else if t == c || c == b'.' then rest else false

abbrev pub is_end : List ℕ → Bool
is_end [] = true
is_end (t ∷ ts) = false

-- The last test of `matchhere`: one byte, and then the rest of the pattern.
abbrev pub match_byte : ℕ → (List ℕ → Bool) → List ℕ → Bool
match_byte c here [] = false
match_byte c here (t ∷ ts) = if c == b'.' || c == t then here ts else false

unfoldable pub matchhere : List ℕ → List ℕ → Bool
unfolding matchstar
matchhere [] text = true
matchhere (c ∷ []) text = if c == b'$' then is_end text else match_byte c (λ t. true) text
matchhere (c ∷ d ∷ re) text =
    let star = matchstar c (matchhere re) text in
    let plain = match_byte c (matchhere (d ∷ re)) text in if d == b'*' then star else plain

-- The loop of `match`.
unfoldable pub search_from : List ℕ → List ℕ → Bool
unfolding matchhere
search_from re [] = matchhere re []
search_from re (t ∷ ts) =
    let rest = search_from re ts in if matchhere re (t ∷ ts) then true else rest

unfoldable pub match : List ℕ → List ℕ → Bool
unfolding search_from matchhere
match [] text = search_from [] text
match (c ∷ re) text = if c == b'^' then matchhere re text else search_from (c ∷ re) text

unfoldable pub newline : ℕ
newline = 10

-- What is written for a line.
abbrev pub shown : List ℕ → List ℕ → List ℕ
shown pattern line = if match pattern line then line ++ newline ∷ [] else []

-- The loop over the lines of the buffer, with the bytes of the line that `strchr` has passed: what is
-- written, and what is moved to the front of the buffer. `strchr` finds nothing behind a NUL.
unfoldable pub scan_lines : List ℕ → List ℕ → List ℕ → List ℕ × List ℕ
unfolding match newline
scan_lines pattern line [] = ([], line)
scan_lines pattern line (c ∷ cs) =
    let (out, left) = scan_lines pattern [] cs in
    let longer = scan_lines pattern (line ++ c ∷ []) cs in
    if c == newline
    then (shown pattern line ++ out, left)
    else if c == 0
    then ([], line ++ c ∷ cs)
    else longer

unfoldable pub drop : ℕ → List ℕ → List ℕ
drop zero xs = xs
drop (suc n) [] = []
drop (suc n) (x ∷ xs) = drop n xs

-- The bytes that a `read` into the rest of the buffer gives, where it could give `n`.
abbrev pub read_size : ℕ → List ℕ → ℕ
read_size n buf = if leb n (1023 - length buf) then n else 1023 - length buf

-- The reads give `sizes` bytes where there is room for them, and then the file ends: what is written.
unfoldable pub grep_from : List ℕ → List ℕ → List ℕ → List ℕ → List ℕ
unfolding scan_lines drop
grep_from pattern buf [] input = []
grep_from pattern buf (n ∷ sizes) input =
    let k = read_size n buf in
    let chunk = take k input in
    let (out, left) = scan_lines pattern [] (buf ++ chunk) in
    let rest = grep_from pattern left sizes (drop k input) in
    if length chunk == 0 then [] else out ++ rest

unfoldable pub grep : List ℕ → List ℕ → List ℕ → List ℕ
unfolding grep_from
grep pattern sizes input = grep_from pattern [] sizes input
