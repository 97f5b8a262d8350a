-- ===== src/Kernel/Strings/Tests.antt =====
-- The theorems of the string functions at concrete inputs.
use mp.Prelude.{ℕ, zero, suc, ◌+◌, List, [], ◌∷◌, ◌≡◌, inr, refl, arith}
use mp.Kernel.Strings.{Memory, memmove, strncmp, strncpy, safestrcpy, memset}
use mp.Kernel.Strings.Moves.{moved, memmove-moved}
use mp.Kernel.Strings.Copies.{Copied, safestrcpy-Copied}

-- `abcd` at address 10, and `abx` at 20.
abbrev memory : Memory
memory = memset 12 b'c' 1 (
    memset 13 b'd' 1 (
      memset 11 b'b' 1
        (memset 10 b'a' 1 (memset 20 b'a' 1 (memset 21 b'b' 1 (memset 22 b'x' 1 (λ x. 0)))))))

abbrev bytes_at : ℕ → ℕ → Memory → List ℕ
bytes_at a zero m = []
bytes_at a (suc n) m = m a ∷ bytes_at (a + 1) n m

moves_up : bytes_at 10 6 (memmove 12 10 4 memory) ≡ b'a' ∷ b'b' ∷ b'a' ∷ b'b' ∷ b'c' ∷ b'd' ∷ []
unfolding memmove memset
moves_up = refl

less : strncmp 10 20 14 memory ≡ 4294967275
unfolding strncmp memset
less = refl

pads : bytes_at 10 5 (strncpy 10 20 5 (memset 13 b'd' 1 memory)) ≡ b'a' ∷ b'b' ∷ b'x' ∷ 0 ∷ 0 ∷ []
unfolding strncpy memset
pads = refl

memmove-moved_example : memmove 12 10 4 memory 13 ≡ moved 12 10 4 memory 13
memmove-moved_example = memmove-moved 12 10 4 memory 13

safestrcpy-Copied_example : Copied 30 10 2 memory (safestrcpy 30 10 3 memory)
safestrcpy-Copied_example = safestrcpy-Copied 30 10 2 memory (inr (omega arith))
