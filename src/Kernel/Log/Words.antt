-- ===== src/Kernel/Log/Words.antt =====
-- The words of a log header: what is written is read back.
use mp.Prelude.{ℕ, ◌≤◌, ◌<◌, some, List, [], ◌∷◌, ◌≡◌, refl, arith, length}
use mp.Kernel.Log.{Block, read_words, read_header, set_words}

pub length-set_words : (vs ws : List ℕ) → length (set_words vs ws) ≡ length ws
unfolding set_words
length-set_words [] ws = refl
length-set_words (v ∷ vs) [] = refl
length-set_words (v ∷ vs) (w ∷ ws) = omega (arith, length-set_words vs ws)

read_words-set_words :
    (vs ws : List ℕ) → length vs ≤ length ws → read_words (length vs) (set_words vs ws) ≡ some vs
unfolding read_words set_words
read_words-set_words [] ws h = refl
read_words-set_words (v ∷ vs) [] h = absurd (omega arith)
read_words-set_words (v ∷ vs) (w ∷ ws) h = rw (read_words-set_words vs ws (omega arith)) refl

pub read_header-set_words :
    (bs : List ℕ) (head : Block)
    → length bs ≤ 30
    → 30 < length head
    → read_header (set_words (length bs ∷ bs) head) ≡ some bs
unfolding read_header set_words
read_header-set_words bs [] h k = absurd (omega arith)
read_header-set_words bs (w ∷ ws) h k = ground (arith, read_words-set_words bs ws (omega arith))
