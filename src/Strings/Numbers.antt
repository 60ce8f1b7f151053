-- ===== src/Strings/Numbers.antt =====
-- Printing and reading numbers, and copying strings.
use white_os.Base.{
  ℕ, zero, suc, ◌+◌, ◌-◌, ◌*◌, ◌/◌, ◌%◌, ◌^◌, ◌≤◌, ◌<◌, ◌≡◌, refl, sym, ap, ◌∙◌, subst, ◌≢◌, inl,
  inr, false, some, List, [], ◌∷◌, ◌++◌, arith, ℕ_discrete, ◌==◌, Bool-cases, length, drop,
  store-append, snoc-append, length-snoc,
}
use white_os.Base.Int.{pos, ◌-ℤ◌, ◌+ℤ◌, ◌*ℤ◌}
use white_os.Strings.{
  char_value, digits_loop, copy_digits, to_string, to_int_loop, to_int, strcpy_loop, strcpy,
}
use white_os.Strings.Length.{NoZero}

-- The value of decimal digits behind a value.
abbrev pub value : List ℕ → ℕ → ℕ
value [] v = v
value (c ∷ cs) v = value cs (v * 10 + (c - b'0'))

abbrev pub AreDigits : List ℕ → Type 0
AreDigits [] = Unit
AreDigits (c ∷ cs) = (b'0' ≤ c) × (c ≤ b'9') × AreDigits cs

-- Numbers of at most `fuel` digits.
abbrev Fits : (fuel n : ℕ) → Type 0
Fits zero n = n ≡ 0
Fits (suc fuel) n = Fits fuel (n / 10)

value-digits_loop :
    (fuel n : ℕ) (tmp : List ℕ) → Fits fuel n → value (digits_loop fuel n tmp) 0 ≡ value tmp n
unfolding digits_loop
value-digits_loop zero n tmp h = ap (value tmp) (sym h)
value-digits_loop (suc fuel) n tmp h = elim (ℕ_discrete n 0) [
  | yes e ↦ rw e refl
  | no e ↦
      rw (other n e)
        (value-digits_loop fuel (n / 10) ((b'0' + n % 10) ∷ tmp) h ∙ ap (value tmp) whole)
]
  where
    other : (n : ℕ) → n ≢ 0 → (n == 0) ≡ false
    other n e = ground arith

    whole : n / 10 * 10 + (48 + n % 10 - 48) ≡ n
    whole = omega arith

digits_loop-AreDigits :
    (fuel n : ℕ) (tmp : List ℕ) → AreDigits tmp → AreDigits (digits_loop fuel n tmp)
unfolding digits_loop
digits_loop-AreDigits zero n tmp h = h
digits_loop-AreDigits (suc fuel) n tmp h = elim (Bool-cases (n == 0)) [
  | inl e ↦ rw e h
  | inr e ↦
      rw e
        (digits_loop-AreDigits fuel (n / 10) ((b'0' + n % 10) ∷ tmp) (omega arith, omega arith, h))
]

length-digits_loop :
    (fuel n : ℕ) (tmp : List ℕ) → length (digits_loop fuel n tmp) ≤ fuel + length tmp
unfolding digits_loop
length-digits_loop zero n tmp = omega arith
length-digits_loop (suc fuel) n tmp = elim (Bool-cases (n == 0)) [
  | inl e ↦ rw e (omega arith)
  | inr e ↦ rw e (omega (arith, length-digits_loop fuel (n / 10) ((b'0' + n % 10) ∷ tmp)))
]

-- The copy into a buffer with room.
copy_digits_lem :
    (ds pre rest : List ℕ) (left : ℕ)
    → length pre ≡ left
    → length ds < length rest
    → (tail : List ℕ) × (copy_digits ds left (pre ++ rest) ≡ some (pre ++ (ds ++ 0 ∷ tail)))
unfolding copy_digits
copy_digits_lem ds pre [] left e h = absurd (omega arith)
copy_digits_lem [] pre (x ∷ rest) left e h = (rest, store-append pre x rest 0 left e)
copy_digits_lem (c ∷ ds) pre (x ∷ rest) left e h =
    let (tail, r) =
      copy_digits_lem ds (pre ++ c ∷ []) rest (left + 1) (length-snoc pre c ∙ ap (λ n. n + 1) e)
        (omega arith) in
    (
      tail,
      rw (store-append pre x rest c left e) (
          subst (λ xs. copy_digits ds (left + 1) xs ≡ some (pre ++ (c ∷ ds ++ 0 ∷ tail)))
            (snoc-append pre c rest) (r ∙ ap some (snoc-append pre c (ds ++ 0 ∷ tail)))),
    )

int_step :
    (c v : ℕ)
    → b'0' ≤ c
    → c ≤ b'9'
    → pos v *ℤ pos 10 +ℤ (char_value c -ℤ pos b'0') ≡ pos (v * 10 + (c - b'0'))
unfolding ◌-ℤ◌ ◌+ℤ◌ ◌*ℤ◌
int_step c v h k = ground arith

pub to_int_loop_lem :
    (ds tail : List ℕ) (v : ℕ)
    → AreDigits ds
    → to_int_loop (ds ++ 0 ∷ tail) (pos v) ≡ some (pos (value ds v))
unfolding to_int_loop
to_int_loop_lem [] tail v h = refl
to_int_loop_lem (c ∷ ds) tail v h =
    rw (other c (omega (arith, h.0)), int_step c v h.0 h.1)
      (to_int_loop_lem ds tail (v * 10 + (c - b'0')) h.2)
  where
    other : (n : ℕ) → n ≢ 0 → (n == 0) ≡ false
    other n e = ground arith

-- A number that is not negative is printed as a terminated text, without a byte outside a buffer of
-- 11, and `to_int` reads the number back.
pub to_int-to_string :
    (n : ℕ) (buff : List ℕ)
    → n < 2 ^ 31
    → 11 ≤ length buff
    → (str : List ℕ) × (to_string (pos n) buff ≡ some str) × (to_int str ≡ some (pos n))
unfolding to_string to_int
to_int-to_string zero [] h l = absurd (omega arith)
to_int-to_string zero (x ∷ []) h l = absurd (omega arith)
to_int-to_string zero (x ∷ y ∷ rest) h l =
    (b'0' ∷ 0 ∷ rest, zero_store, to_int_loop_lem (b'0' ∷ []) rest 0 (omega arith, omega arith, tt))
  where
    zero_store : to_string (pos 0) (x ∷ y ∷ rest) ≡ some (b'0' ∷ 0 ∷ rest)
    zero_store =
        rw (store-append [] x (y ∷ rest) b'0' 0 refl) (store-append (b'0' ∷ []) y rest 0 1 refl)
to_int-to_string (suc n) buff h l =
    let (tail, r) =
      copy_digits_lem (digits_loop 10 (suc n) []) [] buff 0 refl
        (omega (arith, length-digits_loop 10 (suc n) [])) in
    (
      digits_loop 10 (suc n) [] ++ 0 ∷ tail,
      r,
      to_int_loop_lem (digits_loop 10 (suc n) []) tail 0 (digits_loop-AreDigits 10 (suc n) [] tt)
          ∙ ap (λ v. some (pos v)) (value-digits_loop 10 (suc n) [] (omega arith)),
    )

strcpy_loop_lem :
    (text rest pre dest : List ℕ) (i : ℕ)
    → NoZero text
    → length pre ≡ i
    → length text < length dest
    → strcpy_loop (text ++ 0 ∷ rest) i (pre ++ dest)
      ≡ some (pre ++ (text ++ 0 ∷ drop (suc (length text)) dest))
unfolding strcpy_loop
strcpy_loop_lem text rest pre [] i n e h = absurd (omega arith)
strcpy_loop_lem [] rest pre (x ∷ dest) i n e h = store-append pre x dest 0 i e
strcpy_loop_lem (c ∷ text) rest pre (x ∷ dest) i n e h =
    rw (other c n.0, store-append pre x dest c i e)
      (subst
        (λ xs.
          strcpy_loop (text ++ 0 ∷ rest) (i + 1) xs
          ≡ some (pre ++ (c ∷ text ++ 0 ∷ drop (suc (length text)) dest)))
        (snoc-append pre c dest)
        (strcpy_loop_lem text rest (pre ++ c ∷ []) dest (i + 1) n.1
            (length-snoc pre c ∙ ap (λ n. n + 1) e) (omega arith)
          ∙ ap some (snoc-append pre c (text ++ 0 ∷ drop (suc (length text)) dest))))
  where
    other : (n : ℕ) → n ≢ 0 → (n == 0) ≡ false
    other n e = ground arith

-- `strcpy` into an array with room for the text and its terminator writes exactly these.
pub strcpy_lem :
    (dest text rest : List ℕ)
    → NoZero text
    → length text < length dest
    → strcpy dest (text ++ 0 ∷ rest) ≡ some (text ++ 0 ∷ drop (suc (length text)) dest)
unfolding strcpy
strcpy_lem dest text rest n h = strcpy_loop_lem text rest [] dest 0 n refl h
