-- ===== src/Vfs/Modes.antt =====
-- `file_get_mode_by_string` reads one byte.
use white_os.Base.{
  ℕ, ◌<◌, ◌≡◌, refl, ◌≢◌, false, some, List, [], ◌∷◌, arith, ℕ_discrete, ◌==◌, if◌then◌else◌,
}
use white_os.Base.Int.{◌-ℤ◌}
use white_os.Strings.{strncmp, char_value}
use white_os.Vfs.{
  FileMode, read, write, append, directory, invalid, file_get_mode_by_string, is_match,
}

-- The modes by their first byte.
abbrev pub mode_of : ℕ → FileMode
mode_of c =
    if c == b'r'
    then read
    else (if c == b'w'
        then write
        else (if c == b'a' then append else (if c == b'd' then directory else invalid)))

differ :
    (a b : ℕ) → a < 256 → b < 256 → a ≢ b → is_match (some (char_value a -ℤ char_value b)) ≡ false
unfolding ◌-ℤ◌
differ a b h k n = ground arith

one_byte :
    (c b : ℕ) (s t : List ℕ)
    → c < 256
    → b < 256
    → b ≢ 0
    → is_match (strncmp (c ∷ s) (b ∷ t) 1) ≡ (c == b)
unfolding strncmp
one_byte c b s t h k z = elim (ℕ_discrete c b) [
  | yes e ↦ ground arith
  | no n ↦ ground (arith, differ c b h k n)
]

-- The mode depends on the first byte alone, also for "dir": "d" and every other text in `d` name
-- the directory mode, and a byte other than r, w, a, d is invalid.
pub file_get_mode_by_string_lem :
    (c : ℕ) (rest : List ℕ) → c < 256 → file_get_mode_by_string (c ∷ rest) ≡ mode_of c
unfolding file_get_mode_by_string
file_get_mode_by_string_lem c rest h =
    rw
      (
        one_byte c b'r' rest (0 ∷ []) h (omega arith) (omega arith),
        one_byte c b'w' rest (0 ∷ []) h (omega arith) (omega arith),
        one_byte c b'a' rest (0 ∷ []) h (omega arith) (omega arith),
        one_byte c b'd' rest (b'i' ∷ b'r' ∷ 0 ∷ []) h (omega arith) (omega arith),
      )
      refl
