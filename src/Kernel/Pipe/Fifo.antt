-- ===== src/Kernel/Pipe/Fifo.antt =====
-- A pipe is a queue of bytes.
use mathlib.Core.List.{append_assoc, append-nil}
use mp.Prelude.{
  ℕ, zero, suc, ◌+◌, ◌%◌, ◌≤◌, ◌<◌, Bool, true, false, not, ◌&&◌, ◌||◌, Option, none, some, List,
  [], ◌∷◌, ◌++◌, ◌≡◌, ◌∙◌, inl, inr, refl, ap, sym, arith, length, length-append, length-modify,
  get_elem?, modify, get_elem?-modify_ne, Bool-cases,
}
use mp.Kernel.Proc.{u32}
use mp.Kernel.Pipe.{Pipe, is_full, is_empty, put_byte, write_from, pipewrite, read_from, piperead}

-- The bytes of the ring from the counter `r` on.
abbrev pub Ring : List ℕ → ℕ → List ℕ → Type 0
Ring xs r [] = Unit {0}
Ring xs r (c ∷ cs) = (get_elem? xs (r % 512) ≡ some c) × Ring xs (u32 (r + 1)) cs

-- The pipe holds the bytes `cs`, the first to be read first.
pub record Queue (pi : Pipe) (cs : List ℕ) : Type 0 where
  pub ring : Ring pi.data_bytes pi.nread cs
  pub size : length pi.data_bytes ≡ 512
  pub fits : length cs ≤ 512
  pub counter : pi.nread < 4294967296
  pub ahead : pi.nwrite ≡ u32 (pi.nread + length cs)

modify-there :
    (xs : List ℕ) (i ch : ℕ) → i < length xs → get_elem? (modify xs i (λ _. ch)) i ≡ some ch
modify-there [] i ch h = absurd (omega arith)
modify-there (x ∷ xs) zero ch h = refl
modify-there (x ∷ xs) (suc i) ch h = modify-there xs i ch (omega arith)

Ring-put :
    (xs : List ℕ) (r : ℕ) (cs : List ℕ) (ch w : ℕ)
    → length xs ≡ 512
    → length cs < 512
    → w ≡ u32 (r + length cs) % 512
    → Ring xs r cs
    → Ring (modify xs w (λ _. ch)) r (cs ++ ch ∷ [])
Ring-put xs r [] ch w size lt e h =
    let same : w ≡ r % 512 = omega arith in (rw (← same) (modify-there xs w ch (omega arith)), tt)
Ring-put xs r (c ∷ cs) ch w size lt e h = (
  get_elem?-modify_ne xs w (r % 512) (λ _. ch) (λ f. omega arith) ∙ h.0,
  Ring-put xs (u32 (r + 1)) cs ch w size (omega arith) (omega arith) h.1,
)

not_full : (pi : Pipe) (cs : List ℕ) → Queue pi cs → is_full pi ≡ false → length cs < 512
not_full pi cs q h = let a = q.ahead in let f = q.fits in let c = q.counter in ground arith

put_byte-Queue :
    (ch : ℕ) (pi : Pipe) (cs : List ℕ)
    → Queue pi cs
    → is_full pi ≡ false
    → Queue (put_byte ch pi) (cs ++ ch ∷ [])
unfolding put_byte
put_byte-Queue ch pi cs q h = record {
  ring =
      Ring-put pi.data_bytes pi.nread cs ch (pi.nwrite % 512) q.size (not_full pi cs q h)
        (ap (λ n. n % 512) q.ahead) q.ring;
  size = length-modify pi.data_bytes (pi.nwrite % 512) (λ _. ch) ∙ q.size;
  fits = omega (arith, length-append cs (ch ∷ []), not_full pi cs q h);
  counter = q.counter;
  ahead = omega (arith, length-append cs (ch ∷ []), q.ahead);
}

nothing_more :
    (pi : Pipe) (sent cs : List ℕ)
    → Queue pi cs
    → (more : List ℕ) × (sent ≡ sent ++ more) × Queue pi (cs ++ more)
nothing_more pi sent cs q = ([], sym (append-nil sent), rw (append-nil cs) q)

-- What a write leaves: the bytes that were sent follow those that the pipe held.
write_from-Queue :
    (killed : Bool) (input : List (Option ℕ)) (sent cs : List ℕ) (pi : Pipe)
    → Queue pi cs
    → (more : List ℕ) × ((write_from killed sent input pi).1 ≡ sent ++ more)
      × Queue (write_from killed sent input pi).0 (cs ++ more)
unfolding write_from
write_from-Queue killed [] sent cs pi q = (nothing_more pi sent cs q)
write_from-Queue killed (none ∷ input) sent cs pi q =
    elim (Bool-cases (not pi.readopen || killed)) [
      | inl e ↦ rw e (nothing_more pi sent cs q)
      | inr e ↦ elim (Bool-cases (is_full pi)) [
        | inl f ↦ rw (e, f) (nothing_more pi sent cs q)
        | inr f ↦ rw (e, f) (nothing_more pi sent cs q)
      ]
    ]
write_from-Queue killed (some ch ∷ input) sent cs pi q =
    elim (Bool-cases (not pi.readopen || killed)) [
      | inl e ↦ rw e (nothing_more pi sent cs q)
      | inr e ↦ elim (Bool-cases (is_full pi)) [
        | inl f ↦ rw (e, f) (nothing_more pi sent cs q)
        | inr f ↦
            let (more, a, b) =
              write_from-Queue killed input (sent ++ ch ∷ []) (cs ++ ch ∷ []) (put_byte ch pi)
                (put_byte-Queue ch pi cs q f) in
            rw (e, f)
              (
                ch ∷ more,
                a ∙ append_assoc sent (ch ∷ []) more,
                rw (append_assoc cs (ch ∷ []) more) at b,
              )
      ]
    ]

nothing_left :
    (pi : Pipe) (got cs : List ℕ)
    → Queue pi cs
    → (more left : List ℕ) × (got ≡ got ++ more) × (cs ≡ more ++ left) × Queue pi left
nothing_left pi got cs q = ([], cs, sym (append-nil got), refl, q)

take_byte-Queue :
    (pi : Pipe) (c : ℕ) (cs : List ℕ)
    → Queue pi (c ∷ cs)
    → Queue (record pi { nread = u32 (pi.nread + 1) }) cs
take_byte-Queue pi c cs q = record {
  ring = q.ring.1;
  size = q.size;
  fits = omega (arith, q.fits);
  counter = omega arith;
  ahead = omega (arith, q.ahead);
}

is_empty-nil : (pi : Pipe) → Queue pi [] → is_empty pi ≡ true
is_empty-nil pi q = let a = q.ahead in let c = q.counter in ground arith

is_empty-cons : (pi : Pipe) (c : ℕ) (cs : List ℕ) → Queue pi (c ∷ cs) → is_empty pi ≡ false
is_empty-cons pi c cs q =
    let a : pi.nwrite ≡ u32 (pi.nread + suc (length cs)) = q.ahead in
    let f : suc (length cs) ≤ 512 = q.fits in let b = q.counter in ground arith

read_from-Queue :
    (copies : List Bool) (got cs : List ℕ) (pi : Pipe)
    → Queue pi cs
    → (more left : List ℕ) × ((read_from got copies pi).1 ≡ got ++ more)
      × (cs ≡ more ++ left)
      × Queue (read_from got copies pi).0 left
unfolding read_from
read_from-Queue [] got cs pi q = nothing_left pi got cs q
read_from-Queue (false ∷ copies) got cs pi q = nothing_left pi got cs q
read_from-Queue (true ∷ copies) got [] pi q = rw (is_empty-nil pi q) (nothing_left pi got [] q)
read_from-Queue (true ∷ copies) got (c ∷ cs) pi q =
    let (more, left, a, b, d) =
      read_from-Queue copies (got ++ c ∷ []) cs (record pi { nread = u32 (pi.nread + 1) })
        (take_byte-Queue pi c cs q) in
    rw (is_empty-cons pi c cs q, q.ring.0)
      (c ∷ more, left, a ∙ append_assoc got (c ∷ []) more, ap (◌∷◌ c) b, d)

read_after :
    (copies : List Bool) (killed : Bool) (pi : Pipe) (cs : List ℕ)
    → Queue pi cs
    → (left : List ℕ) × (cs ≡ (piperead killed copies pi).1 ++ left)
      × Queue (piperead killed copies pi).0 left
unfolding piperead
read_after copies killed pi cs q = elim (Bool-cases (is_empty pi && pi.writeopen)) [
  | inl e ↦ rw e (cs, refl, q)
  | inr e ↦ let (more, left, a, b, d) = read_from-Queue copies [] cs pi q in rw e (left, rw a b, d)
]

-- A pipe is a queue: what `pipewrite` says it has written is put behind the bytes that the pipe held,
-- and what `piperead` then hands out is the front of these, in order; the pipe holds the rest, at most
-- 512 bytes, whatever copies fail, whether the writer is killed or the pipe full, and although the
-- counters wrap.
pub piperead-pipewrite :
    (pi : Pipe) (cs : List ℕ) (input : List (Option ℕ)) (copies : List Bool) (dead killed : Bool)
    → Queue pi cs
    → (left : List ℕ) × (cs ++ (pipewrite dead input pi).1
        ≡ (piperead killed copies (pipewrite dead input pi).0).1 ++ left)
      × Queue (piperead killed copies (pipewrite dead input pi).0).0 left
unfolding piperead pipewrite
piperead-pipewrite pi cs input copies dead killed q =
    let (more, a, b) = write_from-Queue dead input [] cs pi q in
    read_after copies killed (write_from dead [] input pi).0 (cs ++ (write_from dead [] input pi).1)
      (rw a b)
