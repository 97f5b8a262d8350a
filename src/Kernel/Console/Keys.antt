-- ===== src/Kernel/Console/Keys.antt =====
-- console.c: `consoleintr`, key by key.
use mathlib.Core.List.{append_assoc, append-nil}
use mp.Prelude.{
  ℕ, zero, suc, ◌+◌, ◌-◌, ◌%◌, ◌≤◌, ◌<◌, true, false, not, ◌&&◌, ◌||◌, some, List, [], ◌∷◌, ◌++◌,
  ◌==◌, ltb, ◌≡◌, ◌∙◌, inl, inr, refl, ap, sym, arith, length, length-append, length-modify,
  if◌then◌else◌, get_elem?, modify, Bool-cases,
}
use mp.Kernel.Proc.{u32}
use mp.Kernel.Console.{
  Console, erase, is_newline, kills, kill_from, kill_line, translated, held, store, consoleintr,
}
use mp.Kernel.Console.Line.{
  Text, all_but_last, enter, press, Ring, Shows, Ring-put, Ring-front, Ring-last, all_but_last-snoc,
  NoNewline-append, NoNewline-split, last-cases,
}

abbrev text_of : List ℕ → List ℕ → Text
text_of ready line = record { ready = ready; line = line }

at_end : (ready ys : List ℕ) (y : ℕ) → ready ++ (ys ++ y ∷ []) ≡ (ready ++ ys) ++ y ∷ []
at_end ready ys y = sym (append_assoc ready ys (y ∷ []))

snoc-length : (ys : List ℕ) (y : ℕ) → length (ys ++ y ∷ []) ≡ suc (length ys)
snoc-length ys y = omega (arith, length-append ys (y ∷ []))

erase-Shows :
    (s : Console) (ready ys : List ℕ) (y : ℕ)
    → Shows s (text_of ready (ys ++ y ∷ []))
    → Shows (erase s) (text_of ready ys)
unfolding erase
erase-Shows s ready ys y h = record {
  ring = Ring-front s.buf s.read_index (ready ++ ys) (y ∷ []) (rw (at_end ready ys y) at h.ring);
  size = h.size;
  fits = omega (arith, h.fits, snoc-length ys y);
  counter = h.counter;
  written = h.written;
  edited = omega (arith, h.edited, snoc-length ys y);
  open_line = (NoNewline-split ys (y ∷ []) h.open_line).0;
}

last_index :
    (s : Console) (ready ys : List ℕ) (y : ℕ)
    → Shows s (text_of ready (ys ++ y ∷ []))
    → u32 (s.read_index + length (ready ++ ys)) % 128 ≡ u32 (s.edit_index + 4294967295) % 128
last_index s ready ys y h = omega (arith, h.edited, snoc-length ys y, length-append ready ys)

last_byte :
    (s : Console) (ready ys : List ℕ) (y : ℕ)
    → Shows s (text_of ready (ys ++ y ∷ []))
    → get_elem? s.buf (u32 (s.edit_index + 4294967295) % 128) ≡ some y
last_byte s ready ys y h =
    ap (get_elem? s.buf) (sym (last_index s ready ys y h))
    ∙ Ring-last s.buf s.read_index (ready ++ ys) y (rw (at_end ready ys y) at h.ring)

same-nil :
    (s : Console) (ready : List ℕ)
    → Shows s (text_of ready [])
    → (s.edit_index == s.write_index) ≡ true
same-nil s ready h = let a = h.written in let b = h.edited in ground arith

apart-cons :
    (s : Console) (ready ys : List ℕ) (y : ℕ)
    → Shows s (text_of ready (ys ++ y ∷ []))
    → (s.edit_index == s.write_index) ≡ false
apart-cons s ready ys y h =
    let a = h.written in
    let b = h.edited in let l = snoc-length ys y in let f = h.fits in ground arith

kills-nil : (s : Console) (ready : List ℕ) → Shows s (text_of ready []) → kills s ≡ false
kills-nil s ready h = rw (same-nil s ready h) refl

kills-cons :
    (s : Console) (ready ys : List ℕ) (y : ℕ)
    → Shows s (text_of ready (ys ++ y ∷ []))
    → kills s ≡ true
kills-cons s ready ys y h =
    rw
      (
        apart-cons s ready ys y h,
        last_byte s ready ys y h,
        (NoNewline-split ys (y ∷ []) h.open_line).1.0,
      )
      refl

kill_from-Shows :
    (n : ℕ) (s : Console) (ready line : List ℕ)
    → length line ≤ n
    → Shows s (text_of ready line)
    → Shows (kill_from n s) (text_of ready [])
unfolding kill_from
kill_from-Shows zero s ready [] l h = h
kill_from-Shows zero s ready (x ∷ line) l h = absurd (omega arith)
kill_from-Shows (suc n) s ready line l h = elim (last-cases line) [
  | inl e ↦ let g : Shows s (text_of ready []) = rw e at h in rw (kills-nil s ready g) g
  | inr (ys, y, e) ↦
      let g : Shows s (text_of ready (ys ++ y ∷ [])) = rw e at h in
      let fewer : length line ≡ suc (length ys) = ap length e ∙ snoc-length ys y in
      rw (kills-cons s ready ys y g)
        (kill_from-Shows n (erase s) ready ys (omega arith) (erase-Shows s ready ys y g))
]

kill_line-Shows :
    (s : Console) (ready line : List ℕ)
    → Shows s (text_of ready line)
    → Shows (kill_line s) (text_of ready [])
unfolding kill_line
kill_line-Shows s ready line h =
    kill_from-Shows (u32 (s.edit_index + (4294967296 - s.write_index))) s ready line
      (omega (arith, h.written, h.edited, h.fits)) h

-- Backspace.
back-Shows :
    (s : Console) (ready line : List ℕ)
    → Shows s (text_of ready line)
    → Shows
        (if not (s.edit_index == s.write_index) then erase s else s)
        (text_of ready (all_but_last line))
back-Shows s ready line h = elim (last-cases line) [
  | inl e ↦ let g : Shows s (text_of ready []) = rw e at h in rw (e, same-nil s ready g) g
  | inr (ys, y, e) ↦
      let g : Shows s (text_of ready (ys ++ y ∷ [])) = rw e at h in
      rw (e, apart-cons s ready ys y g, all_but_last-snoc ys y) (erase-Shows s ready ys y g)
]

held-length :
    (s : Console) (ready line : List ℕ)
    → Shows s (text_of ready line)
    → held s ≡ length (ready ++ line)
held-length s ready line h = omega (arith, h.edited, h.fits, h.counter, length-append ready line)

abbrev stored : ℕ → Console → Console
stored c s = record s {
  buf = modify s.buf (s.edit_index % 128) (λ _. c);
  edit_index = u32 (s.edit_index + 1);
  echo = s.echo ++ mp.Kernel.Console.consputc c;
}

-- The byte goes into the buffer.
stored-ring :
    (c : ℕ) (s : Console) (ready line : List ℕ)
    → length (ready ++ line) < 128
    → Shows s (text_of ready line)
    → Ring (stored c s).buf s.read_index (ready ++ (line ++ c ∷ []))
stored-ring c s ready line lt h = rw (at_end ready line c) (
    Ring-put s.buf s.read_index (ready ++ line) c (s.edit_index % 128) h.size lt
      (omega (arith, h.edited, length-append ready line)) h.ring)

held-stored :
    (c : ℕ) (s : Console) (ready line : List ℕ)
    → length (ready ++ line) < 128
    → Shows s (text_of ready line)
    → held (stored c s) ≡ length (ready ++ (line ++ c ∷ []))
held-stored c s ready line lt h = omega (
  arith,
  h.edited,
  h.fits,
  h.counter,
  length-append ready line,
  length-append ready (line ++ c ∷ []),
  snoc-length line c,
)

store-Shows :
    (c : ℕ) (s : Console) (ready line : List ℕ)
    → length (ready ++ line) < 128
    → Shows s (text_of ready line)
    → Shows (store c s) (enter c (text_of ready line))
unfolding store enter
store-Shows c s ready line lt h =
    let l = snoc-length line c in
    let m = length-append ready line in
    let k = length-append ready (line ++ c ∷ []) in
    let wide : length (stored c s).buf ≡ 128 =
      length-modify s.buf (s.edit_index % 128) (λ _. c) ∙ h.size in
    rw (held-stored c s ready line lt h)
      (elim (Bool-cases (c == 10 || c == 4 || length (ready ++ (line ++ c ∷ [])) == 128)) [
        | inl e ↦ rw e (record {
          ring = rw (append-nil (ready ++ (line ++ c ∷ []))) (stored-ring c s ready line lt h);
          size = wide;
          fits = omega (arith, k, l, m);
          counter = h.counter;
          written = omega (arith, k, l, m, h.edited);
          edited = omega (arith, k, l, m, h.edited);
          open_line = tt;
        })
        | inr e ↦ rw e (record {
          ring = stored-ring c s ready line lt h;
          size = wide;
          fits = omega (arith, k, l, m);
          counter = h.counter;
          written = h.written;
          edited = omega (arith, k, l, m, h.edited);
          open_line = NoNewline-append line (c ∷ []) h.open_line (ground arith, tt);
        })
      ])

-- A key does to the console what it does to the text that it shows.
pub consoleintr-Shows :
    (c : ℕ) (s : Console) (t : Text) → Shows s t → Shows (consoleintr c s) (press c t)
unfolding consoleintr press
consoleintr-Shows c s t h = elim (Bool-cases (c == 16)) [
  | inl a ↦ rw a h
  | inr a ↦ elim (Bool-cases (c == 21)) [
    | inl b ↦ rw (a, b) (kill_line-Shows s t.ready t.line h)
    | inr b ↦ elim (Bool-cases (c == 8 || c == 127)) [
      | inl d ↦ rw (a, b, d) (back-Shows s t.ready t.line h)
      | inr d ↦ elim (Bool-cases (not (c == 0) && ltb (length (t.ready ++ t.line)) 128)) [
        | inl e ↦
            rw (a, b, d, held-length s t.ready t.line h, e)
              (store-Shows (translated c) s t.ready t.line (ground arith) h)
        | inr e ↦ rw (a, b, d, held-length s t.ready t.line h, e) h
      ]
    ]
  ]
]

stops :
    (n : ℕ) (s : Console)
    → s.edit_index < 4294967296
    → s.write_index < 4294967296
    → u32 (s.edit_index + (4294967296 - s.write_index)) ≡ n
    → kills (kill_from n s) ≡ false
unfolding kill_from erase
stops zero s a b e = let f : (s.edit_index == s.write_index) ≡ true = ground arith in rw f refl
stops (suc n) s a b e = elim (Bool-cases (kills s)) [
  | inl k ↦ rw k (stops n (erase s) (omega arith) b (omega arith))
  | inr k ↦ rw k k
]

-- The loop of `^U` has ended when `kill_line` returns, whatever the buffer holds: it takes no more
-- rounds than there are bytes between the two indices.
pub kill_line-stops :
    (s : Console)
    → s.edit_index < 4294967296
    → s.write_index < 4294967296
    → kills (kill_line s) ≡ false
unfolding kill_line
kill_line-stops s a b = stops (u32 (s.edit_index + (4294967296 - s.write_index))) s a b refl
