-- ===== src/Strings/Hex.antt =====
-- Hexadecimal numbers.
use white_os.Base.{
  ℕ, zero, suc, ◌+◌, ◌-◌, ◌*◌, ◌/◌, ◌%◌, ◌^◌, ◌≤◌, ◌<◌, ◌≡◌, refl, sym, ap, ◌∙◌, some, List, [],
  ◌∷◌, ◌++◌, arith, leb, if◌then◌else◌, length, drop, store-append, snoc-append, length-snoc,
  length-append, append_assoc, take, length-drop, length-take, take-append-drop,
}
use native.Mathlib.Nat.{pow-suc}
use white_os.Strings.{hex_digit, hex_loop, to_string_hex}

-- The `k` hexadecimal digits of a number, the first one for the highest place.
abbrev pub hex_digits : (k number : ℕ) → List ℕ
hex_digits zero number = []
hex_digits (suc k) number = hex_digits k (number / 16) ++ hex_digit (number % 16) ∷ []

-- The value of a hexadecimal digit as it is read.
abbrev pub digit_value : ℕ → ℕ
digit_value c = if leb c b'9' then c - b'0' else c - b'A' + 10

abbrev pub hex_value : List ℕ → ℕ → ℕ
hex_value [] v = v
hex_value (c ∷ cs) v = hex_value cs (v * 16 + digit_value c)

digit_value-hex_digit : (d : ℕ) → d < 16 → digit_value (hex_digit d) ≡ d
digit_value-hex_digit d h = ground arith

hex_value-append : (cs ds : List ℕ) (v : ℕ) → hex_value (cs ++ ds) v ≡ hex_value ds (hex_value cs v)
hex_value-append [] ds v = refl
hex_value-append (c ∷ cs) ds v = hex_value-append cs ds (v * 16 + digit_value c)

hex_value-hex_digits : (k number : ℕ) → number < 16 ^ k → hex_value (hex_digits k number) 0 ≡ number
hex_value-hex_digits zero number h = omega arith
hex_value-hex_digits (suc k) number h =
    hex_value-append (hex_digits k (number / 16)) (hex_digit (number % 16) ∷ []) 0
    ∙ ap (λ v. v * 16 + digit_value (hex_digit (number % 16)))
        (hex_value-hex_digits k (number / 16) (omega (arith, pow-suc 16 k)))
    ∙ ap (λ v. number / 16 * 16 + v) (digit_value-hex_digit (number % 16) (omega arith))
    ∙ omega arith

pub length-hex_digits : (k number : ℕ) → length (hex_digits k number) ≡ k
length-hex_digits zero number = refl
length-hex_digits (suc k) number = omega (
  arith,
  length-snoc (hex_digits k (number / 16)) (hex_digit (number % 16)),
  length-hex_digits k (number / 16),
)

-- The last element of a list.
last_of :
    (k : ℕ) (xs : List ℕ)
    → length xs ≡ suc k
    → (init : List ℕ) × (x : ℕ) × (xs ≡ init ++ x ∷ []) × (length init ≡ k)
last_of k [] e = absurd (omega arith)
last_of zero (x ∷ []) e = ([], x, refl, refl)
last_of (suc k) (x ∷ []) e = absurd (omega arith)
last_of zero (x ∷ y ∷ xs) e = absurd (omega arith)
last_of (suc k) (x ∷ y ∷ xs) e =
    let (init, z, s, l) = last_of k (y ∷ xs) (omega arith) in
    (x ∷ init, z, ap (λ t. x ∷ t) s, ap suc l)

hex_loop_lem :
    (k number : ℕ) (pre mid rest : List ℕ)
    → length pre ≡ 2
    → length mid ≡ k
    → hex_loop k number (pre ++ (mid ++ rest)) ≡ some (pre ++ (hex_digits k number ++ rest))
unfolding hex_loop
hex_loop_lem zero number pre [] rest e f = refl
hex_loop_lem zero number pre (x ∷ mid) rest e f = absurd (omega arith)
hex_loop_lem (suc k) number pre mid rest e f =
    let (init, x, s, l) = last_of k mid f in
    ap (hex_loop (suc k) number) (regroup mid init x s)
    ∙ rw
        (store-append (pre ++ init) x rest digit (k + 2) (omega (arith, length-append pre init, l)))
        (ap (hex_loop k (number / 16)) (append_assoc pre init (digit ∷ rest))
          ∙ hex_loop_lem k (number / 16) pre init (digit ∷ rest) e l
          ∙ ap (λ t. some (pre ++ t)) (sym (snoc-append (hex_digits k (number / 16)) digit rest)))
  where
    digit : ℕ
    digit = hex_digit (number % 16)

    regroup :
        (mid init : List ℕ) (x : ℕ)
        → mid ≡ init ++ x ∷ []
        → pre ++ (mid ++ rest) ≡ (pre ++ init) ++ x ∷ rest
    regroup mid init x s =
        rw s (ap (λ t. pre ++ t) (snoc-append init x rest) ∙ sym (append_assoc pre init (x ∷ rest)))

drop-suc :
    (n : ℕ) (xs : List ℕ) (z : ℕ) (rest : List ℕ) → drop n xs ≡ z ∷ rest → drop (suc n) xs ≡ rest
drop-suc zero [] z rest e = cc
drop-suc zero (x ∷ xs) z rest e = cc
drop-suc (suc n) [] z rest e = cc
drop-suc (suc n) (x ∷ xs) z rest e = drop-suc n xs z rest e

some_head : (xs : List ℕ) → 0 < length xs → (x : ℕ) × (r : List ℕ) × (xs ≡ x ∷ r)
some_head [] h = absurd (omega arith)
some_head (x ∷ xs) h = (x, xs, refl)

stores :
    (number x y z : ℕ) (mid rest : List ℕ)
    → length mid ≡ 8
    → to_string_hex number (x ∷ y ∷ (mid ++ z ∷ rest))
      ≡ some (b'0' ∷ b'x' ∷ (hex_digits 8 number ++ 0 ∷ rest))
unfolding to_string_hex
stores number x y z mid rest l =
    rw
      (
        store-append [] x (y ∷ (mid ++ z ∷ rest)) b'0' 0 refl,
        store-append (b'0' ∷ []) y (mid ++ z ∷ rest) b'x' 1 refl,
        store-append (b'0' ∷ b'x' ∷ mid) z rest 0 10 (omega arith),
      )
      (hex_loop_lem 8 number (b'0' ∷ b'x' ∷ []) mid (0 ∷ rest) refl l)

-- A 32-bit number is written into a buffer of 11 bytes or more as "0x", eight digits and the
-- terminator, with the bytes behind these as they were, and the digits read back as the number.
pub to_string_hex_lem :
    (number : ℕ) (buff : List ℕ)
    → number < 2 ^ 32
    → 11 ≤ length buff
    → (to_string_hex number buff ≡ some (b'0' ∷ b'x' ∷ (hex_digits 8 number ++ 0 ∷ drop 11 buff)))
      × (hex_value (hex_digits 8 number) 0 ≡ number)
to_string_hex_lem number [] h l = absurd (omega arith)
to_string_hex_lem number (x ∷ []) h l = absurd (omega arith)
to_string_hex_lem number (x ∷ y ∷ buff) h l =
    let (z, rest, e) = some_head (drop 8 buff) (omega (arith, length-drop 8 buff)) in
    (
      ap (λ t. to_string_hex number (x ∷ y ∷ t)) (split z rest e)
          ∙ stores number x y z (take 8 buff) rest (omega (arith, length-take 8 buff))
          ∙ ap (λ t. some (b'0' ∷ b'x' ∷ (hex_digits 8 number ++ 0 ∷ t))) (behind z rest e),
      hex_value-hex_digits 8 number (omega arith),
    )
  where
    split : (z : ℕ) (rest : List ℕ) → drop 8 buff ≡ z ∷ rest → buff ≡ take 8 buff ++ z ∷ rest
    split z rest e = sym (take-append-drop 8 buff) ∙ ap (λ t. take 8 buff ++ t) e

    behind : (z : ℕ) (rest : List ℕ) → drop 8 buff ≡ z ∷ rest → rest ≡ drop 9 buff
    behind z rest e = sym (drop-suc 8 buff z rest e)
