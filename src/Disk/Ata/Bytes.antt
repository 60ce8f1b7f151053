-- ===== src/Disk/Ata/Bytes.antt =====
-- The bytes of words in a buffer.
use white_os.Base.{
  ℕ, zero, suc, ◌+◌, ◌*◌, ◌/◌, ◌%◌, ◌≤◌, ◌<◌, ◌≡◌, refl, sym, ap, ap₂, ◌∙◌, List, [], ◌∷◌, ◌++◌,
  arith, length, drop, some, store, store-append, snoc-append, length-snoc, append_assoc, ◌≢◌, ◌==◌,
  if◌then◌else◌, get_or, take,
}
use white_os.Disk.Ata.{bytes_of}

pub length-bytes_of : (f : ℕ → ℕ) (k n : ℕ) → length (bytes_of f k n) ≡ 2 * n
length-bytes_of f k zero = refl
length-bytes_of f k (suc n) = omega (arith, length-bytes_of f (k + 1) n)

pub bytes_of_same :
    (f g : ℕ → ℕ) (k n : ℕ) → ((j : ℕ) → f j ≡ g j) → bytes_of f k n ≡ bytes_of g k n
bytes_of_same f g k zero h = refl
bytes_of_same f g k (suc n) h = rw (h k, bytes_of_same f g (k + 1) n h) refl

bytes_of-add :
    (f : ℕ → ℕ) (k n m : ℕ) → bytes_of f k (n + m) ≡ bytes_of f k n ++ bytes_of f (k + n) m
bytes_of-add f k zero m = ap₂ (bytes_of f) (omega arith) (omega arith)
bytes_of-add f k (suc n) m =
    ap (bytes_of f k) first
    ∙ ap (λ t. (f k % 256) ∷ (f k / 256 % 256) ∷ t)
        (bytes_of-add f (k + 1) n m ∙ ap (λ j. bytes_of f (k + 1) n ++ bytes_of f j m) further)
  where
    first : suc n + m ≡ suc (n + m)
    first = omega arith

    further : k + 1 + n ≡ k + suc n
    further = omega arith

drop-drop : (n m : ℕ) (xs : List ℕ) → drop n (drop m xs) ≡ drop (m + n) xs
drop-drop n zero xs = ap (λ k. drop k xs) (omega arith)
drop-drop n (suc m) [] = nothing n ∙ sym (nothing (suc m + n))
  where
    nothing : (k : ℕ) → drop {A = ℕ} k [] ≡ []
    nothing zero = refl
    nothing (suc k) = refl
drop-drop n (suc m) (x ∷ xs) = drop-drop n m xs ∙ ap (λ k. drop k (x ∷ xs)) further
  where
    further : suc (m + n) ≡ suc m + n
    further = omega arith

pub store_next :
    (pre : List ℕ) (a y b : ℕ) (rest : List ℕ) (i : ℕ)
    → length pre ≡ i
    → store (pre ++ a ∷ y ∷ rest) (i + 1) b ≡ some (pre ++ a ∷ b ∷ rest)
store_next pre a y b rest i e =
    ap (λ xs. store xs (i + 1) b) (sym (snoc-append pre a (y ∷ rest)))
    ∙ store-append (pre ++ a ∷ []) y rest b (i + 1) (omega (arith, length-snoc pre a))
    ∙ ap some (snoc-append pre a (b ∷ rest))

-- The bytes of a sector, and of those behind it.
pub joined :
    (f g h : ℕ → ℕ) (k k1 k2 left : ℕ) (rest : List ℕ)
    → ((j : ℕ) → g j ≡ f j)
    → ((j : ℕ) → h j ≡ f j)
    → k1 ≡ k
    → k2 ≡ k + 256
    → bytes_of g k1 256 ++ (bytes_of h k2 (left * 256) ++ drop (2 * (left * 256)) (drop 512 rest))
      ≡ bytes_of f k (suc left * 256) ++ drop (2 * (suc left * 256)) rest
joined f g h k k1 k2 left rest p q e e2 =
    ap₂ (λ bs cs. bs ++ (cs ++ drop (2 * (left * 256)) (drop 512 rest)))
      (bytes_of_same g f k1 256 p ∙ ap (λ j. bytes_of f j 256) e)
      (bytes_of_same h f k2 (left * 256) q ∙ ap (λ j. bytes_of f j (left * 256)) e2)
    ∙ sym (
        append_assoc (bytes_of f k 256) (bytes_of f (k + 256) (left * 256))
          (drop (2 * (left * 256)) (drop 512 rest)))
    ∙ ap₂ (λ bs cs. bs ++ cs) (sym (bytes_of-add f k 256 (left * 256)) ∙ ap (bytes_of f k) whole)
        (drop-drop (2 * (left * 256)) 512 rest ∙ ap (λ n. drop n rest) twice)
  where
    whole : 256 + left * 256 ≡ suc left * 256
    whole = omega arith

    twice : 512 + 2 * (left * 256) ≡ 2 * (suc left * 256)
    twice = omega arith

abbrev pub AreBytes : List ℕ → Type 0
AreBytes [] = Unit
AreBytes (c ∷ cs) = (c < 256) × AreBytes cs

-- The `i`-th `short` of a buffer.
abbrev pub word_at : List ℕ → ℕ → ℕ
word_at buf i = get_or buf (2 * i) 0 + 256 * get_or buf (2 * i + 1) 0

pub get_or-lt : (buf : List ℕ) (i : ℕ) → AreBytes buf → get_or buf i 0 < 256
get_or-lt [] i h = omega arith
get_or-lt (c ∷ buf) zero h = h.0
get_or-lt (c ∷ buf) (suc i) h = get_or-lt buf i h.1

-- Words that are those of a buffer give its bytes.
pub bytes_of-word_at :
    (f : ℕ → ℕ) (n k : ℕ) (buf : List ℕ)
    → AreBytes buf
    → 2 * n ≤ length buf
    → ((j : ℕ) → j < n → f (k + j) ≡ word_at buf j)
    → bytes_of f k n ≡ take (2 * n) buf
bytes_of-word_at f zero k buf b l h = refl
bytes_of-word_at f (suc n) k [] b l h = absurd (omega arith)
bytes_of-word_at f (suc n) k (x ∷ []) b l h = absurd (omega arith)
bytes_of-word_at f (suc n) k (x ∷ y ∷ buf) b l h =
    ap₂ (λ c d. c ∷ d ∷ bytes_of f (k + 1) n) low high
    ∙ ap (λ t. x ∷ y ∷ t)
        (bytes_of-word_at f n (k + 1) buf b.1.1 (omega arith)
          (λ j p. behind j (h (suc j) (omega arith))))
    ∙ ap (λ m. take m (x ∷ y ∷ buf)) more
  where
    first : f k ≡ x + 256 * y
    first = ap f start ∙ h 0 (omega arith)
      where
        start : k ≡ k + 0
        start = omega arith

    low : f k % 256 ≡ x
    low = omega (arith, first, b.0, b.1.0)

    high : f k / 256 % 256 ≡ y
    high = omega (arith, first, b.0, b.1.0)

    more : suc (suc (2 * n)) ≡ 2 * suc n
    more = omega arith

    behind : (j : ℕ) → f (k + suc j) ≡ word_at (x ∷ y ∷ buf) (suc j) → f (k + 1 + j) ≡ word_at buf j
    behind j e =
        ap f at
        ∙ e
        ∙ ap₂ (λ m m'. get_or (x ∷ y ∷ buf) m 0 + 256 * get_or (x ∷ y ∷ buf) m' 0) even odd
      where
        at : k + 1 + j ≡ k + suc j
        at = omega arith

        even : 2 * suc j ≡ suc (suc (2 * j))
        even = omega arith

        odd : 2 * suc j + 1 ≡ suc (suc (2 * j + 1))
        odd = omega arith

pub hit : (w old k n : ℕ) → k ≡ n → (if k == n then w else old) ≡ w
hit w old k n e = ground arith

pub miss : (w old k n : ℕ) → k ≢ n → (if k == n then w else old) ≡ old
miss w old k n e = ground arith
