-- ===== src/Strings.antt =====
-- src/whitelib/string/string.c: C strings. A `char*` is the list of the bytes from it on, and `none`
-- is an access past the end of that list.
pub mod Length
pub mod Numbers
pub mod Hex
pub mod Terminator
mod Examples
use white_os.Base.{
  ℕ, zero, suc, ◌+◌, ◌-◌, ◌*◌, ◌/◌, ◌%◌, ◌^◌, ◌≤◌, ◌<◌, bit_and, bit_or, ◌≡◌, refl, sym, ap, ap₂,
  ◌∙◌, subst, ◌≢◌, ◌↔◌, ◌⊎◌, inl, inr, Bool, true, false, not, ◌&&◌, ◌||◌, Option, none, some, List,
  [], ◌∷◌, ◌++◌, map, append-nil, append_assoc, arith, dec_lt, dec_le, ℕ_discrete, ltb, leb, ◌==◌,
  if◌then◌else◌, ltb→lt, lt→ltb, leb→le, ==_iff, Bool-cases, Option-cases, length, get_elem?, set,
  get_or, take, drop, replicate, length-append, length-set, get_elem?-set_self, get_elem?-set_ne,
  take-append-drop, length-take, length-drop, length-replicate, length-map, ◌>>=◌, store,
  set-append, store-append, store_of_lt, get_elem?-append, get_or-append_left, get_or-append_right,
  snoc-append, length-snoc, get_elem?-drop, take_self, drop_self, replicate-add, get_or-set_self,
  get_or-set_ne, get_or-snoc, get_elem?-eq-get_or,
}
use white_os.Base.Int.{ℤ, pos, negsuc, sub_ℕ, ◌-ℤ◌, ◌+ℤ◌, ◌*ℤ◌}

pub strlen_loop : List ℕ → ℕ → Option ℕ
strlen_loop [] i = none
strlen_loop (c ∷ str) i = if c == 0 then some i else strlen_loop str (i + 1)

unfoldable pub strlen : List ℕ → Option ℕ
unfolding strlen_loop
strlen str = strlen_loop str 0

pub strnlen_loop : List ℕ → (i limit : ℕ) → Option ℕ
strnlen_loop [] i limit = none
strnlen_loop (c ∷ str) i limit =
    let rest = strnlen_loop str (i + 1) limit in
    if c == 0 then some i else (if i == limit then some 0 else rest)

-- 0 for a string longer than the limit
unfoldable pub strnlen : List ℕ → ℕ → Option ℕ
unfolding strnlen_loop
strnlen str limit = strnlen_loop str 0 limit

pub terminator_loop : List ℕ → (i limit terminator : ℕ) → Option ℕ
terminator_loop [] i limit terminator = none
terminator_loop (c ∷ str) i limit terminator =
    let rest = terminator_loop str (i + 1) limit terminator in
    if not (c == 0) || not (c == terminator) then (if i == limit then some 0 else rest) else some i

unfoldable pub strnlen_terminator : List ℕ → (limit terminator : ℕ) → Option ℕ
unfolding terminator_loop
strnlen_terminator str limit terminator = terminator_loop str 0 limit terminator

-- A byte from 128 on is a negative `char`, and is no digit either way.
unfoldable pub isdigit : ℕ → Bool
isdigit c = leb c b'9' && leb b'0' c

-- A byte as a signed `char`.
abbrev pub char_value : ℕ → ℤ
char_value c = if ltb c 128 then pos c else sub_ℕ c 256

unfoldable pub tolower : ℕ → ℕ
tolower c = if leb b'A' c && leb c b'Z' then c - b'A' + b'a' else c

-- The loops recur on the rounds left; `pos 0` is the answer for equal prefixes.
unfoldable pub strncmp : List ℕ → List ℕ → ℕ → Option ℤ
unfolding ◌-ℤ◌
strncmp str1 str2 zero = some (pos 0)
strncmp [] str2 (suc n) = none
strncmp (a ∷ str1) [] (suc n) = none
strncmp (a ∷ str1) (b ∷ str2) (suc n) =
    let rest = strncmp str1 str2 n in
    if not (a == b)
    then some (char_value a -ℤ char_value b)
    else (if a == 0 then some (pos 0) else rest)

unfoldable pub istrncmp : List ℕ → List ℕ → ℕ → Option ℤ
unfolding ◌-ℤ◌ tolower
istrncmp str1 str2 zero = some (pos 0)
istrncmp [] str2 (suc n) = none
istrncmp (a ∷ str1) [] (suc n) = none
istrncmp (a ∷ str1) (b ∷ str2) (suc n) =
    let rest = istrncmp str1 str2 n in
    if not (a == b) && not (tolower a == tolower b)
    then some (char_value a -ℤ char_value b)
    else (if a == 0 then some (pos 0) else rest)

-- The digits of a number in `tmpBuff`, the one written last at the head.
pub digits_loop : (fuel number : ℕ) → List ℕ → List ℕ
digits_loop zero number tmp = tmp
digits_loop (suc fuel) number tmp =
    let again = digits_loop fuel in
    if number == 0 then tmp else again (number / 10) ((b'0' + number % 10) ∷ tmp)

-- The copy from `tmpBuff` into the buffer from `left` on, and the terminator.
pub copy_digits : List ℕ → (left : ℕ) → List ℕ → Option (List ℕ)
copy_digits [] left buff = store buff left 0
copy_digits (c ∷ tmp) left buff = do buff' ← store buff left c; copy_digits tmp (left + 1) buff'

-- For numbers above -2^31, whose absolute value is an `int` of at most 10 digits.
unfoldable pub to_string : ℤ → List ℕ → Option (List ℕ)
to_string (pos zero) buff = do buff' ← store buff 0 b'0'; store buff' 1 0
to_string (pos (suc n)) buff = copy_digits (digits_loop 10 (suc n) []) 0 buff
to_string (negsuc n) buff = do
  buff' ← store buff 0 b'-'
  copy_digits (digits_loop 10 (suc n) []) 1 buff'

-- `'0' * (d < 10) + ('A' - 10) * (d >= 10) + d`
abbrev pub hex_digit : ℕ → ℕ
hex_digit d = b'0' * (if ltb d 10 then 1 else 0) + (b'A' - 10) * (if leb 10 d then 1 else 0) + d

-- The loop of `toStringHex`: the digits with indices from `left + 1` down to 2.
pub hex_loop : (left number : ℕ) → List ℕ → Option (List ℕ)
hex_loop zero number buff = some buff
hex_loop (suc left) number buff = do
  buff' ← store buff (left + 2) (hex_digit (number % 16))
  hex_loop left (number / 16) buff'

unfoldable pub to_string_hex : ℕ → List ℕ → Option (List ℕ)
unfolding hex_loop
to_string_hex number buff = do
  buff1 ← store buff 0 b'0'
  buff2 ← store buff1 1 b'x'
  buff3 ← store buff2 10 0
  hex_loop 8 number buff3

-- While the value is in the range of an `int`.
pub to_int_loop : List ℕ → ℤ → Option ℤ
unfolding ◌-ℤ◌ ◌+ℤ◌ ◌*ℤ◌
to_int_loop [] val = none
to_int_loop (c ∷ str) val =
    let rest = to_int_loop str (val *ℤ pos 10 +ℤ (char_value c -ℤ pos b'0')) in
    if c == 0 then some val else rest

unfoldable pub to_int : List ℕ → Option ℤ
to_int str = to_int_loop str (pos 0)

-- From index `i` of the destination on.
pub strcpy_loop : List ℕ → (i : ℕ) → List ℕ → Option (List ℕ)
strcpy_loop [] i dest = none
strcpy_loop (c ∷ src) i dest =
    let rest = strcpy_loop src (i + 1) in
    if c == 0 then store dest i 0 else (store dest i c >>= λ dest'. rest dest')

unfoldable pub strcpy : (dest src : List ℕ) → Option (List ℕ)
strcpy dest src = strcpy_loop src 0 dest
