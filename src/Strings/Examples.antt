-- ===== src/Strings/Examples.antt =====
-- The string functions on small texts.
use white_os.Base.{ℕ, ◌≡◌, refl, some, List, [], ◌∷◌, ◌++◌, arith, replicate}
use white_os.Base.Int.{pos, negsuc}
use white_os.Strings.{
  istrncmp, to_string_hex, copy_digits, digits_loop, to_int_loop, to_string, to_int,
}
use white_os.Strings.Numbers.{to_int-to_string}
use white_os.Strings.Hex.{hex_digits, hex_value, to_string_hex_lem}

istrncmp_runs : istrncmp (b'A' ∷ b'b' ∷ 0 ∷ []) (b'a' ∷ b'B' ∷ 0 ∷ []) 5 ≡ some (pos 0)
unfolding istrncmp
istrncmp_runs = refl

to_int-to_string_example :
    (str : List ℕ) × (to_string (pos 2147483647) (replicate 12 7) ≡ some str)
    × (to_int str ≡ some (pos 2147483647))
to_int-to_string_example = to_int-to_string 2147483647 (replicate 12 7) (omega arith) (omega arith)

to_string_runs : to_string (negsuc 41) (7 ∷ 7 ∷ 7 ∷ 7 ∷ []) ≡ some (b'-' ∷ b'4' ∷ b'2' ∷ 0 ∷ [])
unfolding to_string copy_digits digits_loop
to_string_runs = refl

-- The sign is read as a digit of value -3.
to_int_sign : to_int (b'-' ∷ b'5' ∷ 0 ∷ []) ≡ some (negsuc 24)
unfolding to_int to_int_loop
to_int_sign = refl

to_string_hex_lem_example :
    (to_string_hex 48879 (replicate 12 7) ≡ some (b'0' ∷ b'x' ∷ (hex_digits 8 48879 ++ 0 ∷ 7 ∷ [])))
    × (hex_value (hex_digits 8 48879) 0 ≡ 48879)
to_string_hex_lem_example = to_string_hex_lem 48879 (replicate 12 7) (omega arith) (omega arith)

to_string_hex_runs :
    to_string_hex 48879 (replicate 11 7)
    ≡ some (b'0' ∷ b'x' ∷ b'0' ∷ b'0' ∷ b'0' ∷ b'0' ∷ b'B' ∷ b'E' ∷ b'E' ∷ b'F' ∷ 0 ∷ [])
unfolding to_string_hex
to_string_hex_runs = refl
