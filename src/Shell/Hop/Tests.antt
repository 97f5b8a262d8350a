-- ===== src/Shell/Hop/Tests.antt =====
-- `hop` at concrete inputs.
use mp.Prelude.{
  ℕ, zero, suc, true, ◌==◌, Option, none, some, List, [], ◌∷◌, ◌≡◌, refl, ap, if◌then◌else◌,
}
use mp.Shell.Token.{TokenType, Token}
use mp.Shell.Hop.{
  Visit, ShellState, load_visits, save_visits, record_visit, find_visit, do_hop, run_hop,
}
use mp.Shell.Hop.Saved.{Lacks, load_visits-save_visits}
use mp.Shell.Hop.Preferred.{Found, find_visit-Found}
use mp.Shell.Hop.Back.{do_hop-back}

-- A format of numbers: as many strokes.
unfoldable strokes : ℕ → List ℕ
strokes zero = []
strokes (suc n) = b'1' ∷ strokes n

unfoldable count_strokes : List ℕ → ℕ
count_strokes [] = 0
count_strokes (c ∷ cs) = suc (count_strokes cs)

no_tab : (n : ℕ) → Lacks 9 (strokes n)
unfolding strokes
no_tab zero = tt
no_tab (suc n) = (refl, no_tab n)

no_newline : (n : ℕ) → Lacks 10 (strokes n)
unfolding strokes
no_newline zero = tt
no_newline (suc n) = (refl, no_newline n)

reads_back : (n : ℕ) → count_strokes (strokes n) ≡ n
unfolding strokes count_strokes
reads_back zero = refl
reads_back (suc n) = ap suc (reads_back n)

abbrev path_a : List ℕ
path_a = b'/' ∷ b'a' ∷ []

-- A path with a tab.
abbrev path_b : List ℕ
path_b = b'/' ∷ 9 ∷ b'a' ∷ []

abbrev two_visits : List Visit
two_visits =
    record { path = path_a; count = 1; stamp = 2 }
    ∷ record { path = path_b; count = 1; stamp = 1 }
    ∷ []

load_visits-save_visits_example :
    load_visits count_strokes (some (save_visits strokes two_visits))
    ≡ record { visits = two_visits; sequence = 2 }
load_visits-save_visits_example =
    load_visits-save_visits strokes count_strokes no_tab no_newline reads_back two_visits
      ((refl, (refl, tt)), ((refl, (refl, (refl, tt))), tt))

-- Two visits of directories whose paths hold `a`, as often: the later one is found.
abbrev file : Option (List ℕ)
file = some (save_visits strokes two_visits)

find_visit-Found_example :
    Found
      (λ path. true)
      (b'a' ∷ [])
      (load_visits count_strokes file).visits
      (find_visit count_strokes (λ path. true) (b'a' ∷ []) file)
find_visit-Found_example = find_visit-Found (λ path. true) (b'a' ∷ []) count_strokes file

finds_later :
    find_visit count_strokes (λ path. true) (b'a' ∷ []) file
    ≡ some (record { path = path_a; count = 1; stamp = 2 })
unfolding find_visit save_visits strokes count_strokes
finds_later = refl

-- Two directories: 0 is `/a`, and 1 is `/b`.
abbrev path_of : ℕ → Option (List ℕ)
path_of zero = some path_a
path_of (suc n) = some path_b

abbrev chdir : ℕ → List ℕ → Option ℕ
chdir n [] = none
chdir n (c ∷ []) = none
chdir n (c ∷ d ∷ path) = some (if d == b'a' then 0 else 1)

abbrev at_a : ShellState
at_a = record { current = 0; previous_dir = none; home_dir = path_a; history = none }

do_hop-back_example :
    do_hop strokes count_strokes true
      (λ path. true)
      path_of
      chdir
      (b'-' ∷ [])
      (do_hop strokes count_strokes true (λ path. true) path_of chdir path_b at_a).0
    ≡ (
      record (do_hop strokes count_strokes true (λ path. true) path_of chdir path_b at_a).0 {
        current = 0;
        previous_dir = some path_b;
        history =
            record_visit strokes count_strokes true path_a
              (do_hop strokes count_strokes true
                (λ path. true)
                path_of
                chdir
                path_b
                at_a).0.history;
      },
      true,
    )
unfolding do_hop
do_hop-back_example =
    do_hop-back strokes count_strokes true (λ path. true) path_of chdir path_b at_a path_a path_b
      refl refl refl refl refl

-- `hop /<tab>a -`: both directories are in the file, each once, in the order of the visits.
abbrev word_of : List ℕ → Token
word_of text = record { type = TokenType.word; text = text }

records_both :
    run_hop strokes count_strokes true
      (λ path. true)
      path_of
      chdir
      (word_of (b'h' ∷ b'o' ∷ b'p' ∷ []) ∷ word_of path_b ∷ word_of (b'-' ∷ []) ∷ [])
      at_a
    ≡ some (
      record {
        current = 0;
        previous_dir = some path_b;
        home_dir = path_a;
        history = some (
            save_visits strokes (
              record { path = path_b; count = 1; stamp = 1 }
              ∷ record { path = path_a; count = 1; stamp = 2 }
              ∷ []));
      },
      0,
    )
unfolding run_hop strokes count_strokes
records_both = refl
