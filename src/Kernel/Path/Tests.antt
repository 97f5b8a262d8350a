-- ===== src/Kernel/Path/Tests.antt =====
-- The theorems on paths at concrete inputs: inode 1 is the root, with the directory `b` (2), where `c` is (3).
use mathlib.Core.Option
use mp.Prelude.{ℕ, true, false, Option, some, List, [], ◌∷◌, ◌≡◌, ◌==◌, refl, arith, if◌then◌else◌}
use mp.Kernel.Path.{
  Dirent, Inode, namecmp, dirlookup, dirlink, skipelem, start_of, namei, nameiparent,
}
use mp.Kernel.Path.Elements.{elements}
use mp.Kernel.Path.Walk.{walk, walk_parent, namei-walk}
use mp.Kernel.Path.Link.{dirlookup-dirlink}

abbrev entry : ℕ → ℕ → Dirent
entry inum c = record { inum = inum; name = c ∷ [] }

abbrev inodes : ℕ → Inode
inodes ip =
    if ip == 1
    then record { is_dir = true; nlink = 1; entries = entry 0 b'x' ∷ entry 2 b'b' ∷ [] }
    else if ip == 2
    then record { is_dir = true; nlink = 1; entries = entry 3 b'c' ∷ [] }
    else record { is_dir = false; nlink = 1; entries = [] }

-- `//b/c/`.
abbrev path : List ℕ
path = b'/' ∷ b'/' ∷ b'b' ∷ b'/' ∷ b'c' ∷ b'/' ∷ []

abbrev left_over : Option (List ℕ × List ℕ)
left_over = some (b'a' ∷ [], b'b' ∷ b'b' ∷ [])

skips : skipelem (b'/' ∷ b'/' ∷ b'a' ∷ b'/' ∷ b'/' ∷ b'b' ∷ b'b' ∷ []) ≡ left_over
unfolding skipelem
skips = refl

abbrev found : Option (ℕ × List ℕ)
found = some (3, b'c' ∷ [])

finds : namei inodes 1 5 path ≡ found
unfolding namei dirlookup
finds = refl

namei-walk_example :
    (Option.map (λ r. r.0) (namei inodes 1 5 path)
      ≡ walk inodes (start_of 1 5 path) (elements path))
    × (nameiparent inodes 1 5 path ≡ walk_parent inodes (start_of 1 5 path) (elements path))
namei-walk_example = namei-walk inodes 1 5 path

linked : dirlink (b'd' ∷ []) 9 true (inodes 1).entries ≡ some (entry 9 b'd' ∷ entry 2 b'b' ∷ [])
unfolding dirlink dirlookup
linked = refl

dirlookup-dirlink_example :
    (Option.map (λ found. found.0) (dirlookup (b'd' ∷ []) (entry 9 b'd' ∷ entry 2 b'b' ∷ []))
      ≡ some 9)
    × ((other : List ℕ)
        → namecmp other (b'd' ∷ []) ≡ false
        → dirlookup other (entry 9 b'd' ∷ entry 2 b'b' ∷ []) ≡ dirlookup other (inodes 1).entries)
dirlookup-dirlink_example =
    dirlookup-dirlink (b'd' ∷ []) 9 true (inodes 1).entries (entry 9 b'd' ∷ entry 2 b'b' ∷ [])
      (omega arith) (omega arith) linked
