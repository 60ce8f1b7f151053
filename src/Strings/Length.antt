-- ===== src/Strings/Length.antt =====
-- `strlen` and `strnlen` on a terminated string.
use white_os.Base.{
  ℕ, ◌+◌, ◌≤◌, ◌≡◌, ap, ◌∙◌, ◌≢◌, some, List, [], ◌∷◌, ◌++◌, arith, ℕ_discrete, leb, if◌then◌else◌,
  length,
}
use white_os.Strings.{strlen, strlen_loop, strnlen, strnlen_loop}

-- No byte of the text is the terminator.
abbrev pub NoZero : List ℕ → Type 0
NoZero [] = Unit
NoZero (c ∷ s) = (c ≢ 0) × NoZero s

pub NoZero-append : (s t : List ℕ) → NoZero s → NoZero t → NoZero (s ++ t)
NoZero-append [] t h k = k
NoZero-append (c ∷ s) t h k = (h.0, NoZero-append s t h.1 k)

strlen_loop-text :
    (s rest : List ℕ) (i : ℕ) → NoZero s → strlen_loop (s ++ 0 ∷ rest) i ≡ some (i + length s)
unfolding strlen_loop
strlen_loop-text [] rest i h = ap some (omega arith)
strlen_loop-text (c ∷ s) rest i h = ground (arith, strlen_loop-text s rest (i + 1) h.1)

-- `strlen` counts the bytes in front of the first terminator.
pub strlen_lem : (s rest : List ℕ) → NoZero s → strlen (s ++ 0 ∷ rest) ≡ some (length s)
unfolding strlen
strlen_lem s rest h = strlen_loop-text s rest 0 h ∙ ap some (omega arith)

strnlen_loop-text :
    (s rest : List ℕ) (i limit : ℕ)
    → NoZero s
    → i ≤ limit
    → strnlen_loop (s ++ 0 ∷ rest) i limit
      ≡ some (if leb (i + length s) limit then i + length s else 0)
unfolding strnlen_loop
strnlen_loop-text [] rest i limit h l = ground arith
strnlen_loop-text (c ∷ s) rest i limit h l = elim (ℕ_discrete i limit) [
  | yes e ↦ ground arith
  | no n ↦ ground (arith, strnlen_loop-text s rest (i + 1) limit h.1)
]

-- `strnlen` gives the length of a string that is no longer than the limit, and 0 for a longer one.
pub strnlen_lem :
    (s rest : List ℕ) (limit : ℕ)
    → NoZero s
    → strnlen (s ++ 0 ∷ rest) limit ≡ some (if leb (length s) limit then length s else 0)
unfolding strnlen
strnlen_lem s rest limit h =
    strnlen_loop-text s rest 0 limit h (omega arith)
    ∙ ap (λ n. some (if leb n limit then n else 0)) (omega arith)
