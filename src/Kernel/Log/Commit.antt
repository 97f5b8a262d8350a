-- ===== src/Kernel/Log/Commit.antt =====
-- log.c: `commit`, with a loss of power at any of its writes.
use mathlib.Core.Path.{fun_ext}
use mp.Prelude.{
  ℕ, ◌+◌, ◌-◌, ◌≤◌, ◌<◌, false, List, [], ◌∷◌, ◌==◌, ltb, ◌≡◌, ◌≢◌, ◌∙◌, inl, inr, refl, ap, arith,
  length, if◌then◌else◌, Bool-cases,
}
use mp.Kernel.Log.{
  Block, Log, bwrite, install_from, install_trans, write_from, write_log, write_head, read_header,
  set_words, commit, contains,
}
use mp.Kernel.Log.Words.{length-set_words, read_header-set_words}
use mp.Kernel.Log.Install.{
  Holds, Home, AllHome, install_from-power, install_from-start, install_from-dead, Holds-above,
  write_from-start, write_from-blocks, write_from-cached, write_from-disk, write_from-power,
  write_from-Holds,
}
use mp.Kernel.Log.Crash.{
  Clean, Committed, IsDone, write_head-disk, write_head-keeps, install_trans_at, install-IsDone,
}

-- What a commit starts from: the log on the disk is empty, the disk holds `old`, and the buffers hold
-- `new`, which differs from it in the listed blocks only.
pub record Ready (start : ℕ) (blocks : List ℕ) (old new : ℕ → Block) (s : Log) : Type 0 where
  pub at : s.start ≡ start
  pub all : s.blocks ≡ blocks
  pub clean : Clean start old s.disk
  pub head : 30 < length (s.cached start)
  pub buffers : (x : ℕ) → Home start x → s.cached x ≡ new x
  pub others : (x : ℕ) → Home start x → contains x blocks ≡ false → old x ≡ new x

contains_none : (x : ℕ) (bs : List ℕ) → length bs ≡ 0 → contains x bs ≡ false
unfolding contains
contains_none x [] e = refl
contains_none x (b ∷ bs) e = absurd (omega arith)

module _ (start : ℕ) (blocks : List ℕ) (new : ℕ → Block) (homes : AllHome start blocks)
    (few : length blocks ≤ 30) where
  write_log_at :
      (s : Log)
      → s.start ≡ start
      → s.blocks ≡ blocks
      → write_log s ≡ write_from (start + 1) blocks s
  unfolding write_log
  write_log_at s e f =
      ap (λ x. write_from (x + 1) s.blocks s) e ∙ ap (λ x. write_from (start + 1) x s) f

  write_head-cached :
      (s : Log) (x : ℕ)
      → (write_head s).cached x ≡ (
          if x == s.start
          then set_words (length s.blocks ∷ s.blocks) (s.cached s.start)
          else s.cached x)
  unfolding write_head bwrite
  write_head-cached s x = ground arith

  write_head-power : (s : Log) → (write_head s).power ≡ s.power - 1
  unfolding write_head bwrite
  write_head-power s = ground arith

  write_head-start : (s : Log) → (write_head s).start ≡ s.start
  unfolding write_head bwrite
  write_head-start s = ground arith

  write_head-blocks : (s : Log) → (write_head s).blocks ≡ s.blocks
  unfolding write_head bwrite
  write_head-blocks s = ground arith

  -- The blocks are in the log, and then the header is written.
  module _ (old : ℕ → Block) (s : Log) (ready : Ready start blocks old new s) where
    abbrev logged : Log
    logged = write_from (start + 1) blocks s

    logged-start : logged.start ≡ start
    logged-start = write_from-start start (start + 1) blocks s ∙ ready.at

    logged-blocks : logged.blocks ≡ blocks
    logged-blocks = write_from-blocks start (start + 1) blocks s ∙ ready.all

    logged-Home : (x : ℕ) → Home start x → logged.disk x ≡ old x
    logged-Home x h =
        write_from-disk start (start + 1) blocks s x (ground arith) ∙ ready.clean.home x h

    logged-head_cached : logged.cached start ≡ s.cached start
    logged-head_cached = write_from-cached start (start + 1) blocks s start (inl (omega arith))

    logged-head : logged.disk start ≡ s.disk start
    logged-head = write_from-disk start (start + 1) blocks s start (inl (omega arith))

    logged-Clean : Clean start old logged.disk
    logged-Clean = record {
      header = ap read_header logged-head ∙ ready.clean.header;
      size = rw logged-head ready.clean.size;
      home = logged-Home;
    }

    abbrev headed : Log
    headed = write_head logged

    head_words :
        set_words (length logged.blocks ∷ logged.blocks) (logged.cached logged.start)
        ≡ set_words (length blocks ∷ blocks) (s.cached start)
    head_words =
        ap (λ bs. set_words (length bs ∷ bs) (logged.cached logged.start)) logged-blocks
        ∙ ap (λ x. set_words (length blocks ∷ blocks) (logged.cached x)) logged-start
        ∙ ap (set_words (length blocks ∷ blocks)) logged-head_cached

    new_head : headed.cached start ≡ set_words (length blocks ∷ blocks) (s.cached start)
    new_head = ground (arith, write_head-cached logged start, head_words, logged-start)

    logged-power : logged.power ≡ s.power - length blocks
    logged-power = write_from-power start (start + 1) blocks s

    headed-disk_head :
        length blocks < s.power
        → headed.disk start ≡ set_words (length blocks ∷ blocks) (s.cached start)
    headed-disk_head p =
        ground (arith, write_head-disk logged start, head_words, logged-start, logged-power)

    headed-disk_other : (x : ℕ) → x ≢ start → headed.disk x ≡ logged.disk x
    headed-disk_other x ne = ground (arith, write_head-disk logged x, logged-start)

    headed-cached_other : (x : ℕ) → x ≢ start → headed.cached x ≡ logged.cached x
    headed-cached_other x ne = ground (arith, write_head-cached logged x, logged-start)

    saved :
        Holds logged.cached (start + 1) blocks new
        × (length blocks ≤ s.power → Holds logged.disk (start + 1) blocks new)
    saved =
        write_from-Holds start (start + 1) blocks s new (omega arith) (omega arith) homes
          ready.buffers

    headed-Committed : length blocks < s.power → Committed start blocks new headed.disk
    headed-Committed p = record {
      header =
          ap read_header (headed-disk_head p)
          ∙ read_header-set_words blocks (s.cached start) few ready.head;
      size =
          rw (headed-disk_head p)
            (omega (arith, length-set_words (length blocks ∷ blocks) (s.cached start), ready.head));
      held =
          Holds-above start logged.disk headed.disk (start + 1) blocks new
            (λ x h. headed-disk_other x (λ e. omega arith)) (omega arith) (saved.1 (omega arith));
      home = λ x h out.
          headed-disk_other x (λ e. ground arith) ∙ logged-Home x h ∙ ready.others x h out;
    }

    headed-Holds : Holds headed.cached (start + 1) blocks new
    headed-Holds =
        Holds-above start logged.cached headed.cached (start + 1) blocks new
          (λ x h. headed-cached_other x (λ e. omega arith)) (omega arith) saved.0

    headed-size : 30 < length (headed.cached start)
    headed-size =
        rw new_head
          (omega (arith, length-set_words (length blocks ∷ blocks) (s.cached start), ready.head))

    abbrev erased : Log
    erased = write_head (record (install_trans false headed) { blocks = [] })

    headed-start : headed.start ≡ start
    headed-start = write_head-start logged ∙ logged-start

    headed-blocks : headed.blocks ≡ blocks
    headed-blocks = write_head-blocks logged ∙ logged-blocks

    headed-power : headed.power ≡ s.power - length blocks - 1
    headed-power = omega (arith, write_head-power logged, logged-power)

    -- Without power for the header nothing but the log has changed.
    erased-disk : s.power ≤ length blocks → (x : ℕ) → erased.disk x ≡ logged.disk x
    erased-disk p x =
        let z : logged.power ≡ 0 = omega (arith, logged-power) in
        let z' : headed.power ≡ 0 = omega (arith, headed-power) in
        let t = install_from false (start + 1) blocks headed in
        rw (install_trans_at start blocks new homes few false headed headed-start headed-blocks) (
          write_head-keeps (record t { blocks = [] })
            (omega (arith, install_from-power false start new (start + 1) blocks headed)) x
          ∙ install_from-dead false start new (start + 1) blocks headed x z'
          ∙ write_head-keeps logged z x)

    erased-outcome :
        (s.power ≤ length blocks → Clean start old erased.disk)
        × (length blocks < s.power → IsDone start blocks new erased.disk)
        × (length blocks + length blocks + 1 < s.power → Clean start new erased.disk)
    erased-outcome = (
      λ p. rw (fun_ext (erased-disk p)) logged-Clean,
      λ p.
          (install-IsDone start blocks new homes few false headed headed-start headed-blocks
            headed-size headed-Holds (headed-Committed p)).0,
      λ p.
          (install-IsDone start blocks new homes few false headed headed-start headed-blocks
              headed-size headed-Holds (headed-Committed (omega arith))).1
            (omega (arith, headed-power)),
    )

  tested : (s : Log) → s.blocks ≡ blocks → ltb 0 (length s.blocks) ≡ ltb 0 (length blocks)
  tested s e = ap (λ bs. ltb 0 (length bs)) e

  contains-nil : ltb 0 (length blocks) ≡ false → (x : ℕ) → contains x blocks ≡ false
  contains-nil e x = contains_none x blocks (ground arith)

  -- A transaction of no block.
  nothing_new :
      (old : ℕ → Block) (s : Log)
      → Ready start blocks old new s
      → ((x : ℕ) → contains x blocks ≡ false)
      → Clean start new s.disk
  nothing_new old s r out = record {
    header = r.clean.header;
    size = r.clean.size;
    home = λ x h. r.clean.home x h ∙ r.others x h (out x);
  }

  pub commit-outcome :
      (old : ℕ → Block) (s : Log)
      → Ready start blocks old new s
      → (s.power ≤ length blocks → Clean start old (commit s).disk)
        × (length blocks < s.power → IsDone start blocks new (commit s).disk)
        × (length blocks + length blocks + 1 < s.power → Clean start new (commit s).disk)
  unfolding commit
  commit-outcome old s r = elim (Bool-cases (ltb 0 (length blocks))) [
    | inl some_blocks ↦
        rw (tested s r.all, some_blocks, write_log_at s r.at r.all) (erased-outcome old s r)
    | inr no_block ↦
        let whole : Clean start new s.disk = nothing_new old s r (contains-nil no_block) in
        rw (tested s r.all, no_block) ((λ p. r.clean), (λ p. inl whole), (λ p. whole))
  ]

pub commit-start : (s : Log) → (commit s).start ≡ s.start
unfolding commit write_log install_trans write_head bwrite
commit-start s =
    let w = write_from (s.start + 1) s.blocks s in
    let a : w.start ≡ s.start = write_from-start 0 (s.start + 1) s.blocks s in
    let h = write_head w in
    let b : h.start ≡ w.start = ground arith in
    let c = install_from-start false 0 w.disk (h.start + 1) h.blocks h in ground arith
