-- ===== src/Kernel/Path/Link.antt =====
-- fs.c: `dirlink`, and what `dirlookup` finds after it.
use mathlib.Core.Option
use mp.Prelude.{
  ℕ, zero, suc, ◌+◌, ◌%◌, ◌<◌, Bool, true, false, none, some, List, [], ◌∷◌, ◌==◌, ◌≡◌, ◌∙◌, inl,
  inr, refl, ap, sym, arith, take, if◌then◌else◌, Bool-cases, Option-cases,
}
use mp.Kernel.Path.{dirsiz, Dirent, same_name, namecmp, lookup_from, dirlookup, fill_slot, dirlink}

same_name-take : (n : ℕ) (s t : List ℕ) → same_name n s (take n t) ≡ same_name n s t
unfolding same_name
same_name-take zero s t = refl
same_name-take (suc n) [] [] = refl
same_name-take (suc n) [] (d ∷ t) = refl
same_name-take (suc n) (c ∷ s) [] = refl
same_name-take (suc n) (c ∷ s) (d ∷ t) = rw (same_name-take n s t) refl

same_name_refl : (n : ℕ) (s : List ℕ) → same_name n s s ≡ true
unfolding same_name
same_name_refl zero s = refl
same_name_refl (suc n) [] = refl
same_name_refl (suc n) (c ∷ s) = let e : (c == c) ≡ true = ground arith in rw e (same_name_refl n s)

lookup_from-used :
    (name : List ℕ) (off : ℕ) (de : Dirent) (entries : List Dirent)
    → (de.inum == 0) ≡ false
    → lookup_from name off (de ∷ entries)
      ≡ (if namecmp name de.name then some (de.inum, off) else lookup_from name (off + 16) entries)
unfolding lookup_from
lookup_from-used name off de entries e = rw e refl

fill_slot-used :
    (new de : Dirent) (entries : List Dirent)
    → (de.inum == 0) ≡ false
    → fill_slot new (de ∷ entries) ≡ de ∷ fill_slot new entries
unfolding fill_slot
fill_slot-used new de entries e = rw e refl

abbrev new_entry : List ℕ → ℕ → Dirent
new_entry name inum = record { inum = inum % 65536; name = take dirsiz name }

dirlink-absent :
    (name : List ℕ) (inum : ℕ) (written : Bool) (entries : List Dirent)
    → dirlookup name entries ≡ none
    → dirlink name inum written entries
      ≡ (if written then some (fill_slot (new_entry name inum) entries) else none)
unfolding dirlink
dirlink-absent name inum written entries e = rw e refl

dirlink-present :
    (name : List ℕ) (inum : ℕ) (written : Bool) (entries : List Dirent) (found : ℕ × ℕ)
    → dirlookup name entries ≡ some found
    → dirlink name inum written entries ≡ none
unfolding dirlink
dirlink-present name inum written entries found e = rw e refl

-- An entry in use is found by the name that it was given, and by no other.
module _ (new : Dirent) (used : (new.inum == 0) ≡ false) where
  lookup_from-other :
      (name : List ℕ) (off : ℕ) (entries : List Dirent)
      → namecmp name new.name ≡ false
      → lookup_from name off (fill_slot new entries) ≡ lookup_from name off entries
  unfolding lookup_from fill_slot
  lookup_from-other name off [] h = rw (used, h) refl
  lookup_from-other name off (de ∷ entries) h = elim (Bool-cases (de.inum == 0)) [
    | inl e ↦ rw (e, used, h) refl
    | inr e ↦
        ap (lookup_from name off) (fill_slot-used new de entries e)
        ∙ lookup_from-used name off de (fill_slot new entries) e
        ∙ ap (λ r. if namecmp name de.name then some (de.inum, off) else r)
            (lookup_from-other name (off + 16) entries h)
        ∙ sym (lookup_from-used name off de entries e)
  ]

  lookup_from-new :
      (name : List ℕ) (off : ℕ) (entries : List Dirent)
      → namecmp name new.name ≡ true
      → lookup_from name off entries ≡ none
      → Option.map (λ found. found.0) (lookup_from name off (fill_slot new entries)) ≡ some new.inum
  unfolding lookup_from fill_slot
  lookup_from-new name off [] h n = rw (used, h) refl
  lookup_from-new name off (de ∷ entries) h n = elim (Bool-cases (de.inum == 0)) [
    | inl e ↦ rw (e, used, h) refl
    | inr e ↦ elim (Bool-cases (namecmp name de.name)) [
      | inl f ↦ absurd (let g : some (de.inum, off) ≡ none = rw (e, f) at n in cc)
      | inr f ↦
          ap (λ r. Option.map (λ found. found.0) r)
            (ap (lookup_from name off) (fill_slot-used new de entries e)
              ∙ lookup_from-used name off de (fill_slot new entries) e
              ∙ rw f refl)
          ∙ lookup_from-new name (off + 16) entries h (rw (e, f) at n)
    ]
  ]

found_after :
    (name : List ℕ) (inum : ℕ) (entries : List Dirent)
    → 0 < inum
    → inum < 65536
    → dirlookup name entries ≡ none
    → (Option.map (λ found. found.0) (dirlookup name (fill_slot (new_entry name inum) entries))
        ≡ some inum)
      × ((other : List ℕ)
          → namecmp other name ≡ false
          → dirlookup other (fill_slot (new_entry name inum) entries) ≡ dirlookup other entries)
unfolding dirlookup namecmp
found_after name inum entries pos low f =
    let new = new_entry name inum in
    let used : (new.inum == 0) ≡ false = ground arith in
    let number : new.inum ≡ inum = omega arith in
    let itself : namecmp name new.name ≡ true =
      same_name-take dirsiz name name ∙ same_name_refl dirsiz name in
    (
      lookup_from-new new used name 0 entries itself f ∙ ap some number,
      λ other h. lookup_from-other new used other 0 entries (same_name-take dirsiz other name ∙ h),
    )

-- Where `dirlink` succeeds with an inode number from 1 to 65535, `dirlookup` finds this number under the
-- name, and under every name that differs in its first 14 bytes what it found before.
pub dirlookup-dirlink :
    (name : List ℕ) (inum : ℕ) (written : Bool) (entries entries' : List Dirent)
    → 0 < inum
    → inum < 65536
    → dirlink name inum written entries ≡ some entries'
    → (Option.map (λ found. found.0) (dirlookup name entries') ≡ some inum)
      × ((other : List ℕ)
          → namecmp other name ≡ false
          → dirlookup other entries' ≡ dirlookup other entries)
dirlookup-dirlink name inum written entries entries' pos low e =
    elim (Option-cases (dirlookup name entries)) [
      | inr (found, f) ↦ absurd (let g = dirlink-present name inum written entries found f in cc)
      | inl f ↦
          let g = dirlink-absent name inum written entries f in
          elim (Bool-cases written) [
            | inr w ↦
                absurd (let h : dirlink name inum written entries ≡ none = g ∙ rw w refl in cc)
            | inl w ↦
                let h : dirlink name inum written entries
                    ≡ some (fill_slot (new_entry name inum) entries) =
                  g ∙ rw w refl in
                let there : fill_slot (new_entry name inum) entries ≡ entries' = cc in
                rw (← there) (found_after name inum entries pos low f)
          ]
    ]
