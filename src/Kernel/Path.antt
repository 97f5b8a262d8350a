-- ===== src/Kernel/Path.antt =====
-- xv6/kernel/fs.c: directories and path names. A directory is the list of its entries, a name is the list
-- of its bytes before the NUL, at most DIRSIZ; an inode is its number, and the counts of references to it
-- (idup, iput) are left out.
pub mod Elements
pub mod Walk
pub mod Link
mod Tests
use mathlib.Core.Option
use mp.Prelude.{
  ℕ, zero, suc, ◌+◌, ◌%◌, Bool, true, false, not, ◌&&◌, ◌||◌, Option, none, some, List, [], ◌∷◌,
  ◌++◌, ◌==◌, if◌then◌else◌, length, take,
}

abbrev pub dirsiz : ℕ
dirsiz = 14

pub record Dirent : Type 0 where
  pub inum : ℕ
  pub name : List ℕ

pub record Inode : Type 0 where
  pub is_dir : Bool
  pub nlink : ℕ
  pub entries : List Dirent

-- `strncmp(s, t, n) == 0`, on strings.
unfoldable pub same_name : ℕ → List ℕ → List ℕ → Bool
same_name zero s t = true
same_name (suc n) [] [] = true
same_name (suc n) [] (d ∷ t) = false
same_name (suc n) (c ∷ s) [] = false
same_name (suc n) (c ∷ s) (d ∷ t) = let rest = same_name n s t in if c == d then rest else false

unfoldable pub namecmp : List ℕ → List ℕ → Bool
unfolding same_name
namecmp s t = same_name dirsiz s t

-- The loop of `dirlookup` from the offset `off` on: the number of the inode, and `*poff`.
unfoldable pub lookup_from : List ℕ → ℕ → List Dirent → Option (ℕ × ℕ)
unfolding namecmp
lookup_from name off [] = none
lookup_from name off (de ∷ entries) =
    let rest = lookup_from name (off + 16) entries in
    if de.inum == 0 then rest else if namecmp name de.name then some (de.inum, off) else rest

unfoldable pub dirlookup : List ℕ → List Dirent → Option (ℕ × ℕ)
unfolding lookup_from
dirlookup name entries = lookup_from name 0 entries

-- The entry in place of the first empty one, or behind all.
unfoldable pub fill_slot : Dirent → List Dirent → List Dirent
fill_slot new [] = new ∷ []
fill_slot new (de ∷ entries) =
    let rest = fill_slot new entries in if de.inum == 0 then new ∷ entries else de ∷ rest

abbrev pub link_absent : Dirent → Bool → List Dirent → Option (ℕ × ℕ) → Option (List Dirent)
link_absent new written entries (some found) = none
link_absent new written entries none = if written then some (fill_slot new entries) else none

-- `written` says whether `writei` writes the whole entry; `none` is -1.
unfoldable pub dirlink : List ℕ → ℕ → Bool → List Dirent → Option (List Dirent)
unfolding dirlookup fill_slot
dirlink name inum written entries =
    let new : Dirent = record { inum = inum % 65536; name = take dirsiz name } in
    link_absent new written entries (dirlookup name entries)

abbrev pub is_slash : ℕ → Bool
is_slash c = c == b'/'

unfoldable pub skip_slashes : List ℕ → List ℕ
skip_slashes [] = []
skip_slashes (c ∷ path) = let rest = skip_slashes path in if is_slash c then rest else c ∷ path

-- The bytes up to the next slash, and what is from there on.
unfoldable pub element : List ℕ → List ℕ
element [] = []
element (c ∷ path) = let rest = element path in if is_slash c then [] else c ∷ rest

unfoldable pub after_element : List ℕ → List ℕ
after_element [] = []
after_element (c ∷ path) = let rest = after_element path in if is_slash c then c ∷ path else rest

-- The next element of a path that begins with none of its slashes.
abbrev pub next_element : List ℕ → Option (List ℕ × List ℕ)
next_element [] = none
next_element (c ∷ path) =
    some (take dirsiz (element (c ∷ path)), skip_slashes (after_element (c ∷ path)))

-- The name, and the rest of the path.
unfoldable pub skipelem : List ℕ → Option (List ℕ × List ℕ)
unfolding skip_slashes element after_element
skipelem path = next_element (skip_slashes path)

abbrev pub ends : List ℕ → Bool
ends [] = true
ends (c ∷ path) = false

abbrev pub step_down :
    (ℕ → List ℕ → List ℕ → Option (ℕ × List ℕ))
    → List ℕ
    → List ℕ
    → Option (ℕ × ℕ)
    → Option (ℕ × List ℕ)
step_down again elem rest none = none
step_down again elem rest (some (next, off)) = again next rest elem

-- A round of the loop of `namex`, on what `skipelem` gives, where `again` is the next round.
abbrev pub namex_round :
    (ℕ → Inode)
    → Bool
    → ℕ
    → List ℕ
    → (ℕ → List ℕ → List ℕ → Option (ℕ × List ℕ))
    → Option (List ℕ × List ℕ)
    → Option (ℕ × List ℕ)
namex_round inodes parent ip name again none = if parent then none else some (ip, name)
namex_round inodes parent ip name again (some (elem, rest)) =
    if not (inodes ip).is_dir
    then none
    else if (inodes ip).nlink == 0
    then none
    else if parent && ends rest
    then some (ip, elem)
    else step_down again elem rest (dirlookup elem (inodes ip).entries)

-- The loop, at most `n` rounds, on the inodes of the file system: the inode that is returned and the last
-- name.
unfoldable pub namex_from : ℕ → (ℕ → Inode) → Bool → ℕ → List ℕ → List ℕ → Option (ℕ × List ℕ)
unfolding skipelem dirlookup
namex_from zero inodes parent ip path name = none
namex_from (suc n) inodes parent ip path name =
    namex_round inodes parent ip name (namex_from n inodes parent) (skipelem path)

abbrev pub start_of : ℕ → ℕ → List ℕ → ℕ
start_of root cwd [] = cwd
start_of root cwd (c ∷ path) = if is_slash c then root else cwd

-- A round takes at least a byte of the path.
unfoldable pub namex : (ℕ → Inode) → ℕ → ℕ → Bool → List ℕ → List ℕ → Option (ℕ × List ℕ)
unfolding namex_from
namex inodes root cwd parent path name =
    namex_from (suc (length path)) inodes parent (start_of root cwd path) path name

unfoldable pub namei : (ℕ → Inode) → ℕ → ℕ → List ℕ → Option (ℕ × List ℕ)
unfolding namex
namei inodes root cwd path = namex inodes root cwd false path []

unfoldable pub nameiparent : (ℕ → Inode) → ℕ → ℕ → List ℕ → Option (ℕ × List ℕ)
unfolding namex
nameiparent inodes root cwd path = namex inodes root cwd true path []
