-- ===== src/Memory/Examples.antt =====
-- The memory functions on small arrays.
use white_os.Base.{ℕ, ◌≡◌, refl, none, some, List, [], ◌∷◌}
use white_os.Base.Int.{pos}
use white_os.Memory.{memset, memcmp}

abbrev five : List ℕ
five = 1 ∷ 2 ∷ 3 ∷ 4 ∷ 5 ∷ []

abbrev three : List ℕ
three = 1 ∷ 2 ∷ 200 ∷ []

memset_past_end : memset three 0 4 ≡ none
unfolding memset
memset_past_end = refl

-- the byte 200 is a negative `char`
memcmp_signed : memcmp five three 3 ≡ some (pos 1)
unfolding memcmp
memcmp_signed = refl
