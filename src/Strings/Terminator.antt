-- ===== src/Strings/Terminator.antt =====
-- `strnlen_terminator`, whose test holds for every byte.
use white_os.Base.{
  ℕ, ◌+◌, ◌≤◌, ◌≡◌, ap, ◌∙◌, ◌≢◌, none, some, List, [], ◌∷◌, arith, ltb, if◌then◌else◌, length,
  ℕ_discrete,
}
use white_os.Strings.{strnlen_terminator, terminator_loop}

terminator_loop_lem :
    (str : List ℕ) (i limit terminator : ℕ)
    → terminator ≢ 0
    → i ≤ limit
    → terminator_loop str i limit terminator ≡ (if ltb limit (i + length str) then some 0 else none)
unfolding terminator_loop
terminator_loop_lem [] i limit terminator n l = ground arith
terminator_loop_lem (c ∷ str) i limit terminator n l = elim (ℕ_discrete i limit) [
  | yes e ↦ ground arith
  | no e ↦ ground (arith, terminator_loop_lem str (i + 1) limit terminator)
]

-- With a terminator other than the null byte `strnlen_terminator` stops at neither: it returns 0
-- where more bytes than the limit are there, and reads past the end of every other array.
pub strnlen_terminator_lem :
    (str : List ℕ) (limit terminator : ℕ)
    → terminator ≢ 0
    → strnlen_terminator str limit terminator ≡ (if ltb limit (length str) then some 0 else none)
unfolding strnlen_terminator
strnlen_terminator_lem str limit terminator n =
    terminator_loop_lem str 0 limit terminator n (omega arith)
    ∙ ap (λ n. if ltb limit n then some 0 else none) (omega arith)
