-- ===== src/Memory.antt =====
-- src/memory/memory.c: `memset`, `memcmp` and `memcpy`, over a memory of bytes by address.
pub mod Laws
mod Tests
use maer_os.Common.{ℕ, zero, suc, ◌+◌, ◌%◌, ◌==◌, if◌then◌else◌, ltb, u32, u8, ℤ, pos, negsuc}

-- Every address holds a byte.
abbrev pub Memory : Type 0
Memory = ℕ → ℕ

abbrev pub write : Memory → ℕ → ℕ → Memory
write m p v q = if p == q then v else m q

-- The loop at index `i`, with `left` bytes to go.
pub memset_loop : ℕ → ℕ → ℕ → ℕ → Memory → Memory
memset_loop zero i ptr c m = m
memset_loop (suc left) i ptr c m = memset_loop left (i + 1) ptr c (write m (u32 (ptr + i)) (u8 c))

pub memset : ℕ → ℕ → ℕ → Memory → Memory
memset ptr c size m = memset_loop size 0 ptr c m

-- `char` is signed here: the order of two bytes as `char`s.
abbrev pub char_lt : ℕ → ℕ → ℤ
char_lt a b = if ltb ((a + 128) % 256) ((b + 128) % 256) then negsuc 0 else pos 1

pub memcmp : ℕ → ℕ → ℕ → Memory → ℤ
memcmp s1 s2 zero m = pos 0
memcmp s1 s2 (suc count) m =
    let later = memcmp (u32 (s1 + 1)) (u32 (s2 + 1)) count m in
    if m s1 == m s2 then later else char_lt (m s1) (m s2)

-- A negative `len` does not stop the loop of the source; here it is at least 0.
pub memcpy : ℕ → ℕ → ℕ → Memory → Memory
memcpy dest src zero m = m
memcpy dest src (suc len) m = memcpy (u32 (dest + 1)) (u32 (src + 1)) len (write m dest (m src))
