-- ===== src/Memory.antt =====
-- src/memory/memory.c: `memset`, `memcmp` and `memcpy` on byte arrays. A pointer is the list of the
-- bytes from it on; `none` is an access past the end of that list. The loop of `memset` counts in an
-- `int`, so sizes are below 2^31 here.
pub mod Laws
mod Examples
use white_os.Base.{
  ℕ, zero, suc, ◌+◌, ◌%◌, ◌^◌, Bool, List, Option, none, some, ltb, ◌==◌, if◌then◌else◌, get_elem?,
  store, ◌>>=◌,
}
use white_os.Base.Int.{ℤ, pos, negsuc}

-- The loop of `memset` at index `i`, with `left` rounds to go. `(char) c` keeps the low byte.
memset_loop : ℕ → ℕ → ℕ → List ℕ → Option (List ℕ)
memset_loop zero i c buf = some buf
memset_loop (suc left) i c buf = do buf' ← store buf i (c % 2 ^ 8); memset_loop left (i + 1) c buf'

unfoldable pub memset : List ℕ → ℕ → ℕ → Option (List ℕ)
unfolding memset_loop
memset buf c size = memset_loop size 0 c buf

-- `(char) a < (char) b`: a byte from 128 on is a negative `char`.
abbrev pub char_lt : ℕ → ℕ → Bool
char_lt a b = ltb ((a + 128) % 2 ^ 8) ((b + 128) % 2 ^ 8)

memcmp_loop : ℕ → ℕ → List ℕ → List ℕ → Option ℤ
memcmp_loop zero i ptr1 ptr2 = some (pos 0)
memcmp_loop (suc left) i ptr1 ptr2 =
    let rest = memcmp_loop left (i + 1) ptr1 ptr2 in
    do
      a ← get_elem? ptr1 i
      b ← get_elem? ptr2 i
      if a == b then rest else some (if char_lt a b then negsuc 0 else pos 1)

unfoldable pub memcmp : List ℕ → List ℕ → ℕ → Option ℤ
unfolding memcmp_loop
memcmp ptr1 ptr2 size = memcmp_loop size 0 ptr1 ptr2

memcpy_loop : ℕ → ℕ → List ℕ → List ℕ → Option (List ℕ)
memcpy_loop zero i dest src = some dest
memcpy_loop (suc left) i dest src = do
  b ← get_elem? src i
  dest' ← store dest i b
  memcpy_loop left (i + 1) dest' src

unfoldable pub memcpy : List ℕ → List ℕ → ℕ → Option (List ℕ)
unfolding memcpy_loop
memcpy dest src len = memcpy_loop len 0 dest src
