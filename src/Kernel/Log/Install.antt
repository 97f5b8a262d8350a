-- ===== src/Kernel/Log/Install.antt =====
-- What the two copying loops of the log do to the disk and to the buffers.
use mp.Prelude.{
  ℕ, ◌+◌, ◌-◌, ◌≤◌, ◌<◌, Bool, true, List, [], ◌∷◌, ◌==◌, ◌≡◌, ◌∙◌, ◌⊎◌, inl, inr, refl, ap, sym,
  arith, length, if◌then◌else◌, Bool-cases,
}
use mp.Kernel.Log.{Block, Log, bwrite, copy_block, unpin, install_from, write_from, contains}

-- The blocks from `a` on hold what `new` says of the listed blocks.
abbrev pub Holds : (ℕ → Block) → ℕ → List ℕ → (ℕ → Block) → Type 0
Holds view a [] new = Unit {0}
Holds view a (b ∷ bs) new = (view a ≡ new b) × Holds view (a + 1) bs new

-- None of the listed blocks is one of the log: its header at `start`, and 30 blocks behind it.
abbrev pub Home : ℕ → ℕ → Type 0
Home start b = (b < start) ⊎ (start + 30 < b)

abbrev pub AllHome : ℕ → List ℕ → Type 0
AllHome start [] = Unit {0}
AllHome start (b ∷ bs) = Home start b × AllHome start bs

-- A block of the log.
pub record InLog (start x : ℕ) : Type 0 where
  pub low : start ≤ x
  pub high : x ≤ start + 30

copy_block-cached :
    (to from : ℕ) (s : Log) (x : ℕ)
    → (copy_block to from s).cached x ≡ (if x == to then s.cached from else s.cached x)
unfolding copy_block bwrite
copy_block-cached to from s x = ground arith

copy_block-disk :
    (to from : ℕ) (s : Log) (x : ℕ)
    → (copy_block to from s).disk x
      ≡ (if s.power == 0 then s.disk x else if x == to then s.cached from else s.disk x)
unfolding copy_block bwrite
copy_block-disk to from s x = ground arith

copy_block-power : (to from : ℕ) (s : Log) → (copy_block to from s).power ≡ s.power - 1
unfolding copy_block bwrite
copy_block-power to from s = ground arith

copy_block-start : (to from : ℕ) (s : Log) → (copy_block to from s).start ≡ s.start
unfolding copy_block bwrite
copy_block-start to from s = ground arith

pub Holds-cong :
    (start : ℕ) (v w : ℕ → Block) (a : ℕ) (bs : List ℕ) (new : ℕ → Block)
    → ((x : ℕ) → InLog start x → w x ≡ v x)
    → start < a
    → a + length bs ≤ start + 31
    → Holds v a bs new
    → Holds w a bs new
Holds-cong start v w a [] new e l h k = tt
Holds-cong start v w a (b ∷ bs) new e l h k = (
  e a (record { low = omega arith; high = omega arith }) ∙ k.0,
  Holds-cong start v w (a + 1) bs new e (omega arith) (omega arith) k.1,
)

pub Holds-above :
    (start : ℕ) (v w : ℕ → Block) (a : ℕ) (bs : List ℕ) (new : ℕ → Block)
    → ((x : ℕ) → start < x → w x ≡ v x)
    → start < a
    → Holds v a bs new
    → Holds w a bs new
Holds-above start v w a [] new e l k = tt
Holds-above start v w a (b ∷ bs) new e l k =
    (e a l ∙ k.0, Holds-above start v w (a + 1) bs new e (omega arith) k.1)

module _ (recovering : Bool) (start : ℕ) (new : ℕ → Block) where
  abbrev step : ℕ → ℕ → Log → Log
  step a b s = unpin recovering b (copy_block b a s)

  step-cached :
      (a b : ℕ) (s : Log) (x : ℕ)
      → (step a b s).cached x ≡ (if x == b then s.cached a else s.cached x)
  unfolding unpin
  step-cached a b s x = ground (arith, copy_block-cached b a s x)

  step-disk :
      (a b : ℕ) (s : Log) (x : ℕ)
      → (step a b s).disk x
        ≡ (if s.power == 0 then s.disk x else if x == b then s.cached a else s.disk x)
  unfolding unpin
  step-disk a b s x = ground (arith, copy_block-disk b a s x)

  step-power : (a b : ℕ) (s : Log) → (step a b s).power ≡ s.power - 1
  unfolding unpin
  step-power a b s = ground (arith, copy_block-power b a s)

  step-cached_log :
      (a b : ℕ) (s : Log) (x : ℕ)
      → InLog start x
      → Home start b
      → (step a b s).cached x ≡ s.cached x
  step-cached_log a b s x l h = ground (arith, step-cached a b s x)

  step-disk_log :
      (a b : ℕ) (s : Log) (x : ℕ) → InLog start x → Home start b → (step a b s).disk x ≡ s.disk x
  step-disk_log a b s x l h = ground (arith, step-disk a b s x)

  pub install_from-cached :
      (a : ℕ) (bs : List ℕ) (s : Log) (x : ℕ)
      → AllHome start bs
      → InLog start x
      → (install_from recovering a bs s).cached x ≡ s.cached x
  unfolding install_from
  install_from-cached a [] s x h l = refl
  install_from-cached a (b ∷ bs) s x h l =
      install_from-cached (a + 1) bs (step a b s) x h.1 l ∙ step-cached_log a b s x l h.0

  pub install_from-disk_log :
      (a : ℕ) (bs : List ℕ) (s : Log) (x : ℕ)
      → AllHome start bs
      → InLog start x
      → (install_from recovering a bs s).disk x ≡ s.disk x
  unfolding install_from
  install_from-disk_log a [] s x h l = refl
  install_from-disk_log a (b ∷ bs) s x h l =
      install_from-disk_log (a + 1) bs (step a b s) x h.1 l ∙ step-disk_log a b s x l h.0

  pub install_from-power :
      (a : ℕ) (bs : List ℕ) (s : Log) → (install_from recovering a bs s).power ≡ s.power - length bs
  unfolding install_from
  install_from-power a [] s = omega arith
  install_from-power a (b ∷ bs) s =
      omega (arith, install_from-power (a + 1) bs (step a b s), step-power a b s)

  Holds-step :
      (a b : ℕ) (s : Log) (bs : List ℕ)
      → Home start b
      → start < a
      → a + 1 + length bs ≤ start + 31
      → Holds s.cached (a + 1) bs new
      → Holds (step a b s).cached (a + 1) bs new
  Holds-step a b s bs h l k d =
      Holds-cong start s.cached (step a b s).cached (a + 1) bs new
        (λ y m. step-cached_log a b s y m h) (omega arith) (omega arith) d

  step-new_written :
      (a b : ℕ) (s : Log) (x : ℕ)
      → s.cached a ≡ new b
      → 0 < s.power
      → x ≡ b
      → (step a b s).disk x ≡ new x
  step-new_written a b s x d p e =
      let here = step-disk a b s x in let same : new b ≡ new x = ap new (sym e) in ground arith

  step-new :
      (a b : ℕ) (s : Log) (x : ℕ)
      → s.cached a ≡ new b
      → ((step a b s).disk x ≡ s.disk x) ⊎ ((b == x ≡ true) × ((step a b s).disk x ≡ new x))
  step-new a b s x d = elim (Bool-cases (b == x)) [
    | inl e ↦ elim (Bool-cases (s.power == 0)) [
      | inl z ↦ inl (ground (arith, step-disk a b s x))
      | inr p ↦ inr (e, step-new_written a b s x d (ground arith) (ground arith))
    ]
    | inr e ↦ inl (ground (arith, step-disk a b s x))
  ]

  step-start : (a b : ℕ) (s : Log) → (step a b s).start ≡ s.start
  unfolding unpin
  step-start a b s = ground (arith, copy_block-start b a s)

  pub install_from-start :
      (a : ℕ) (bs : List ℕ) (s : Log) → (install_from recovering a bs s).start ≡ s.start
  unfolding install_from
  install_from-start a [] s = refl
  install_from-start a (b ∷ bs) s = install_from-start (a + 1) bs (step a b s) ∙ step-start a b s

  -- A block of the disk keeps its content, or is a listed one and has its new content.
  pub install_from-disk :
      (a : ℕ) (bs : List ℕ) (s : Log) (x : ℕ)
      → AllHome start bs
      → start < a
      → a + length bs ≤ start + 31
      → Holds s.cached a bs new
      → ((install_from recovering a bs s).disk x ≡ s.disk x)
        ⊎ ((contains x bs ≡ true) × ((install_from recovering a bs s).disk x ≡ new x))
  unfolding install_from contains
  install_from-disk a [] s x h l k d = inl refl
  install_from-disk a (b ∷ bs) s x h l k d =
      let here = step-new a b s x d.0 in
      let there =
        install_from-disk (a + 1) bs (step a b s) x h.1 (omega arith) (omega arith)
          (Holds-step a b s bs h.0 (omega arith) (omega arith) d.1) in
      ground arith

  -- With no power the disk stays.
  pub install_from-dead :
      (a : ℕ) (bs : List ℕ) (s : Log) (x : ℕ)
      → s.power ≡ 0
      → (install_from recovering a bs s).disk x ≡ s.disk x
  unfolding install_from
  install_from-dead a [] s x z = refl
  install_from-dead a (b ∷ bs) s x z =
      install_from-dead (a + 1) bs (step a b s) x (omega (arith, step-power a b s))
      ∙ ground (arith, step-disk a b s x)

  -- With power for all writes, the listed blocks have their new content.
  pub install_from-new :
      (a : ℕ) (bs : List ℕ) (s : Log) (x : ℕ)
      → AllHome start bs
      → start < a
      → a + length bs ≤ start + 31
      → Holds s.cached a bs new
      → length bs ≤ s.power
      → contains x bs ≡ true
      → (install_from recovering a bs s).disk x ≡ new x
  unfolding install_from contains
  install_from-new a [] s x h l k d p m = cc
  install_from-new a (b ∷ bs) s x h l k d p m =
      let d' = Holds-step a b s bs h.0 (omega arith) (omega arith) d.1 in
      elim (Bool-cases (b == x)) [
        | inl e ↦
            let here : (step a b s).disk x ≡ new x =
              step-new_written a b s x d.0 (omega arith) (ground arith) in
            elim (install_from-disk (a + 1) bs (step a b s) x h.1 (omega arith) (omega arith) d') [
              | inl same ↦ same ∙ here
              | inr (i, now) ↦ now
            ]
        | inr e ↦
            install_from-new (a + 1) bs (step a b s) x h.1 (omega arith) (omega arith) d'
              (omega (arith, step-power a b s)) (ground arith)
      ]

-- The blocks of the log from `to` on are written, and no other.
module _ (start : ℕ) where
  abbrev save : ℕ → ℕ → Log → Log
  save to b s = copy_block to b s

  pub write_from-cached :
      (to : ℕ) (bs : List ℕ) (s : Log) (x : ℕ)
      → (x < to) ⊎ (to + length bs ≤ x)
      → (write_from to bs s).cached x ≡ s.cached x
  unfolding write_from
  write_from-cached to [] s x h = refl
  write_from-cached to (b ∷ bs) s x h =
      write_from-cached (to + 1) bs (save to b s) x (ground arith)
      ∙ ground (arith, copy_block-cached to b s x)

  pub write_from-disk :
      (to : ℕ) (bs : List ℕ) (s : Log) (x : ℕ)
      → (x < to) ⊎ (to + length bs ≤ x)
      → (write_from to bs s).disk x ≡ s.disk x
  unfolding write_from
  write_from-disk to [] s x h = refl
  write_from-disk to (b ∷ bs) s x h =
      write_from-disk (to + 1) bs (save to b s) x (ground arith)
      ∙ ground (arith, copy_block-disk to b s x)

  pub write_from-power :
      (to : ℕ) (bs : List ℕ) (s : Log) → (write_from to bs s).power ≡ s.power - length bs
  unfolding write_from
  write_from-power to [] s = omega arith
  write_from-power to (b ∷ bs) s =
      omega (arith, write_from-power (to + 1) bs (save to b s), copy_block-power to b s)

  saved-Home :
      (to b : ℕ) (s : Log) (new : ℕ → Block) (x : ℕ)
      → start < to
      → to ≤ start + 30
      → Home start x
      → s.cached x ≡ new x
      → (save to b s).cached x ≡ new x
  saved-Home to b s new x l k h e = ground (arith, copy_block-cached to b s x)

  -- The buffers of the log blocks hold what the listed blocks held; the disk does where the power
  -- lasted.
  pub write_from-Holds :
      (to : ℕ) (bs : List ℕ) (s : Log) (new : ℕ → Block)
      → start < to
      → to + length bs ≤ start + 31
      → AllHome start bs
      → ((x : ℕ) → Home start x → s.cached x ≡ new x)
      → Holds (write_from to bs s).cached to bs new
        × (length bs ≤ s.power → Holds (write_from to bs s).disk to bs new)
  unfolding write_from
  write_from-Holds to [] s new l k h e = (tt, λ p. tt)
  write_from-Holds to (b ∷ bs) s new l k h e =
      let t = save to b s in
      let e' : (x : ℕ) → Home start x → t.cached x ≡ new x =
        λ x g. saved-Home to b s new x l (omega arith) g (e x g) in
      let (c, d) = write_from-Holds (to + 1) bs t new (omega arith) (omega arith) h.1 e' in
      (
        (
          write_from-cached (to + 1) bs t to (inl (omega arith))
              ∙ ground (arith, copy_block-cached to b s to)
              ∙ e b h.0,
          c,
        ),
        λ p. (
          write_from-disk (to + 1) bs t to (inl (omega arith))
              ∙ ground (arith, copy_block-disk to b s to)
              ∙ e b h.0,
          d (omega (arith, copy_block-power to b s)),
        ),
      )

  pub write_from-start : (to : ℕ) (bs : List ℕ) (s : Log) → (write_from to bs s).start ≡ s.start
  unfolding write_from
  write_from-start to [] s = refl
  write_from-start to (b ∷ bs) s =
      write_from-start (to + 1) bs (save to b s) ∙ copy_block-start to b s

  pub write_from-blocks : (to : ℕ) (bs : List ℕ) (s : Log) → (write_from to bs s).blocks ≡ s.blocks
  unfolding write_from copy_block bwrite
  write_from-blocks to [] s = refl
  write_from-blocks to (b ∷ bs) s = write_from-blocks (to + 1) bs (save to b s) ∙ ground arith
