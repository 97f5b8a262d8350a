-- ===== src/Kernel/Log/Crash.antt =====
-- What a recovery does to a disk whose log is empty, or is committed: it may lose its power and be done
-- again.
use mathlib.Core.Path.{fun_ext}
use mp.Prelude.{
  ℕ, ◌+◌, ◌-◌, ◌≤◌, ◌<◌, Bool, true, false, some, List, [], ◌∷◌, ◌==◌, ◌≡◌, ◌∙◌, ◌⊎◌, inl, inr,
  refl, ap, arith, length, if◌then◌else◌, Bool-cases,
}
use mp.Kernel.Log.{
  Block, Log, bwrite, install_from, install_trans, write_head, read_header, set_words, redo,
  read_head, recover_from_log, contains, reboot,
}
use mp.Kernel.Log.Words.{length-set_words, read_header-set_words}
use mp.Kernel.Log.Install.{
  Holds, Home, AllHome, InLog, Holds-cong, install_from-cached, install_from-disk,
  install_from-disk_log, install_from-new, install_from-power, install_from-start,
}

-- The log on the disk is empty, and the blocks outside it hold `new`.
pub record Clean (start : ℕ) (new disk : ℕ → Block) : Type 0 where
  pub header : read_header (disk start) ≡ some []
  pub size : 30 < length (disk start)
  pub home : (x : ℕ) → Home start x → disk x ≡ new x

-- The log on the disk holds the listed blocks of `new`, and the others outside it hold `new`.
pub record Committed (start : ℕ) (blocks : List ℕ) (new disk : ℕ → Block) : Type 0 where
  pub header : read_header (disk start) ≡ some blocks
  pub size : 30 < length (disk start)
  pub held : Holds disk (start + 1) blocks new
  pub home : (x : ℕ) → Home start x → contains x blocks ≡ false → disk x ≡ new x

abbrev pub IsDone : ℕ → List ℕ → (ℕ → Block) → (ℕ → Block) → Type 0
IsDone start blocks new disk = Clean start new disk ⊎ Committed start blocks new disk

pub write_head-disk :
    (s : Log) (x : ℕ)
    → (write_head s).disk x ≡ (
        if s.power == 0
        then s.disk x
        else if x == s.start
        then set_words (length s.blocks ∷ s.blocks) (s.cached s.start)
        else s.disk x)
unfolding write_head bwrite
write_head-disk s x = ground arith

pub write_head-keeps : (s : Log) → s.power ≡ 0 → (x : ℕ) → (write_head s).disk x ≡ s.disk x
write_head-keeps s z x = ground (arith, write_head-disk s x)

-- The header of an empty log is written, if there is power for it.
clear_head-Clean :
    (start : ℕ) (s : Log) (new : ℕ → Block)
    → s.start ≡ start
    → 30 < length (s.cached start)
    → ((x : ℕ) → Home start x → s.disk x ≡ new x)
    → 0 < s.power
    → Clean start new (write_head (record s { blocks = [] })).disk
clear_head-Clean start s new e size home p =
    let t = record s { blocks = [] } in
    let at : (write_head t).disk start ≡ set_words (0 ∷ []) (s.cached start) =
      ground (arith, write_head-disk t start) in
    record {
      header = ap read_header at ∙ read_header-set_words [] (s.cached start) (omega arith) size;
      size = rw at (omega (arith, length-set_words (0 ∷ []) (s.cached start), size));
      home = λ x h. ground (arith, write_head-disk t x, home x h);
    }

module _ (start : ℕ) (blocks : List ℕ) (new : ℕ → Block) (homes : AllHome start blocks)
    (few : length blocks ≤ 30) where
  -- The disk after the blocks have been installed, from a log that holds them.
  installed-Committed :
      (recovering : Bool) (s : Log)
      → Holds s.cached (start + 1) blocks new
      → Committed start blocks new s.disk
      → Committed start blocks new (install_from recovering (start + 1) blocks s).disk
  installed-Committed recovering s held c =
      let t = install_from recovering (start + 1) blocks s in
      let same : (x : ℕ) → InLog start x → t.disk x ≡ s.disk x =
        λ x l. install_from-disk_log recovering start new (start + 1) blocks s x homes l in
      let at : t.disk start ≡ s.disk start =
        same start (record { low = omega arith; high = omega arith }) in
      record {
        header = ap read_header at ∙ c.header;
        size = rw at c.size;
        held =
            Holds-cong start s.disk t.disk (start + 1) blocks new same (omega arith) (omega arith)
              c.held;
        home = λ x h out.
            elim (install_from-disk recovering start new (start + 1) blocks s x homes (omega arith)
              (omega arith) held) [ inl e ↦ e ∙ c.home x h out | inr (i, e) ↦ e ];
      }

  -- All of it is installed where the power lasts.
  installed-Home :
      (recovering : Bool) (s : Log)
      → Holds s.cached (start + 1) blocks new
      → ((x : ℕ) → Home start x → contains x blocks ≡ false → s.disk x ≡ new x)
      → length blocks ≤ s.power
      → (x : ℕ) → Home start x
      → (install_from recovering (start + 1) blocks s).disk x ≡ new x
  installed-Home recovering s held home p x h = elim (Bool-cases (contains x blocks)) [
    | inl i ↦
        install_from-new recovering start new (start + 1) blocks s x homes (omega arith)
          (omega arith) held p i
    | inr out ↦
        elim (install_from-disk recovering start new (start + 1) blocks s x homes (omega arith)
          (omega arith) held) [ inl e ↦ e ∙ home x h out | inr (i, e) ↦ e ]
  ]

  Committed-cong :
      (d e : ℕ → Block)
      → ((x : ℕ) → e x ≡ d x)
      → Committed start blocks new d
      → Committed start blocks new e
  Committed-cong d e f c = rw (fun_ext f) c

  pub install_trans_at :
      (recovering : Bool) (s : Log)
      → s.start ≡ start
      → s.blocks ≡ blocks
      → install_trans recovering s ≡ install_from recovering (start + 1) blocks s
  unfolding install_trans
  install_trans_at recovering s e f =
      ap (λ x. install_from recovering (x + 1) s.blocks s) e
      ∙ ap (λ x. install_from recovering (start + 1) x s) f

  -- The blocks of a log are installed, and the log is erased.
  pub install-IsDone :
      (recovering : Bool) (s : Log)
      → s.start ≡ start
      → s.blocks ≡ blocks
      → 30 < length (s.cached start)
      → Holds s.cached (start + 1) blocks new
      → Committed start blocks new s.disk
      → IsDone start blocks new
          (write_head (record (install_trans recovering s) { blocks = [] })).disk
        × (length blocks < s.power
            → Clean start new
                (write_head (record (install_trans recovering s) { blocks = [] })).disk)
  install-IsDone recovering s at all size held c =
      let t = install_from recovering (start + 1) blocks s in
      let start' : t.start ≡ start =
        install_from-start recovering start new (start + 1) blocks s ∙ at in
      let left : t.power ≡ s.power - length blocks =
        install_from-power recovering start new (start + 1) blocks s in
      let size' : 30 < length (t.cached start) =
        rw
          (install_from-cached recovering start new (start + 1) blocks s start homes
            (record { low = omega arith; high = omega arith }))
          size in
      let whole : 0 < t.power → Clean start new (write_head (record t { blocks = [] })).disk = λ p.
        clear_head-Clean start t new start' size'
          (installed-Home recovering s held c.home (omega arith)) p in
      rw (install_trans_at recovering s at all) (
        (elim (Bool-cases (t.power == 0)) [
          | inl z ↦ inr (
              Committed-cong t.disk (write_head (record t { blocks = [] })).disk
                (write_head-keeps (record t { blocks = [] }) (ground arith))
                (installed-Committed recovering s held c))
          | inr p ↦ inl (whole (ground arith))
        ]),
        λ p. whole (omega arith),
      )

  -- The header is read, and what it says is done again.
  redo-IsDone :
      (s : Log)
      → s.start ≡ start
      → 30 < length (s.cached start)
      → s.blocks ≡ blocks
      → Holds s.cached (start + 1) blocks new
      → Committed start blocks new s.disk
      → IsDone start blocks new (redo s).disk
        × (length blocks < s.power → Clean start new (redo s).disk)
  unfolding redo
  redo-IsDone s at size all held c = install-IsDone true s at all size held c

  redo-Clean :
      (s : Log)
      → s.start ≡ start
      → s.blocks ≡ []
      → 30 < length (s.cached start)
      → Clean start new s.disk
      → Clean start new (redo s).disk
  unfolding redo install_trans
  redo-Clean s at none_left size c = rw none_left (elim (Bool-cases (s.power == 0)) [
    | inl z ↦ rw (fun_ext (write_head-keeps (record s { blocks = [] }) (ground arith))) c
    | inr p ↦ clear_head-Clean start s new at size c.home (ground arith)
  ])

  redo-start : (s : Log) → (redo s).start ≡ s.start
  unfolding redo install_trans write_head bwrite
  redo-start s = let e = install_from-start true start new (s.start + 1) s.blocks s in ground arith

  pub recover-IsDone :
      (p : ℕ) (s : Log)
      → s.start ≡ start
      → IsDone start blocks new s.disk
      → (t : Log) × (recover_from_log (reboot p s) ≡ some t)
        × (t.start ≡ start)
        × IsDone start blocks new t.disk
        × (length blocks < p → Clean start new t.disk)
  unfolding recover_from_log read_head reboot
  recover-IsDone p s at (inl c) =
      let r = record (reboot p s) { blocks = [] } in
      let d = redo-Clean r at refl c.size c in
      (redo r, rw (at, c.header) refl, redo-start r ∙ at, inl d, λ _. d)
  recover-IsDone p s at (inr c) =
      let r = record (reboot p s) { blocks = blocks } in
      let (d, whole) = redo-IsDone r at c.size refl c.held c in
      (redo r, rw (at, c.header) refl, redo-start r ∙ at, d, whole)
