-- ===== src/Kernel/Strings.antt =====
-- xv6/kernel/string.c. A memory is a function from addresses to bytes, and a pointer is an address; no
-- object wraps around the end of the memory. Lengths are the values of the parameter `n`, and a signed one
-- that is negative is 0 here: it makes no loop run.
pub mod Moves
pub mod Copies
mod Tests
use mp.Prelude.{ℕ, zero, suc, ◌+◌, ◌-◌, ◌%◌, Bool, true, false, not, ◌&&◌, ltb, ◌==◌, if◌then◌else◌}
use mp.Kernel.Proc.{u32}

abbrev pub Memory : Type 0
Memory = ℕ → ℕ

abbrev pub put : ℕ → ℕ → Memory → Memory
put p v m x = if x == p then v else m x

unfoldable pub memset : ℕ → ℕ → ℕ → Memory → Memory
memset dst c zero m = m
memset dst c (suc n) m = memset (dst + 1) c n (put dst (c % 256) m)

-- The result is that of `int`, on its bit pattern.
unfoldable pub memcmp : ℕ → ℕ → ℕ → Memory → ℕ
memcmp p q zero m = 0
memcmp p q (suc n) m =
    let rest = memcmp (p + 1) (q + 1) n m in
    if not (m p == m q) then u32 (m p + (4294967296 - m q)) else rest

-- `*d++ = *s++`, and `*--d = *--s` from the ends `d` and `s` on.
unfoldable pub copy_up : ℕ → ℕ → ℕ → Memory → Memory
copy_up d s zero m = m
copy_up d s (suc n) m = copy_up (d + 1) (s + 1) n (put d (m s) m)

unfoldable pub copy_down : ℕ → ℕ → ℕ → Memory → Memory
copy_down d s zero m = m
copy_down d s (suc n) m = copy_down d s n (put (d + n) (m (s + n)) m)

unfoldable pub memmove : ℕ → ℕ → ℕ → Memory → Memory
unfolding copy_up copy_down
memmove dst src n m =
    if ltb src dst && ltb dst (src + n) then copy_down dst src n m else copy_up dst src n m

unfoldable pub strncmp : ℕ → ℕ → ℕ → Memory → ℕ
strncmp p q zero m = 0
strncmp p q (suc n) m =
    let rest = strncmp (p + 1) (q + 1) n m in
    if not (m p == 0) && m p == m q then rest else u32 (m p + (4294967296 - m q))

-- The second loop of `strncpy`.
unfoldable pub pad : ℕ → ℕ → Memory → Memory
pad s zero m = m
pad s (suc n) m = pad (s + 1) n (put s 0 m)

unfoldable pub strncpy : ℕ → ℕ → ℕ → Memory → Memory
unfolding pad
strncpy s t zero m = m
strncpy s t (suc n) m =
    let copied = put s (m t) m in
    let rest = strncpy (s + 1) (t + 1) n copied in if m t == 0 then pad (s + 1) n copied else rest

-- The loop of `safestrcpy`, `n` being what `--n` leaves, and the NUL behind it.
unfoldable pub safe_from : ℕ → ℕ → ℕ → Memory → Memory
safe_from s t zero m = put s 0 m
safe_from s t (suc n) m =
    let copied = put s (m t) m in
    let rest = safe_from (s + 1) (t + 1) n copied in if m t == 0 then put (s + 1) 0 copied else rest

unfoldable pub safestrcpy : ℕ → ℕ → ℕ → Memory → Memory
unfolding safe_from
safestrcpy s t zero m = m
safestrcpy s t (suc n) m = safe_from s t n m
