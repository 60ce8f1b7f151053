-- ===== src/Base/Store.antt =====
-- Arrays with faults: a read or a write outside the array is `none`.
use white_os.Base.Tests.{ltb, if◌then◌else◌, lt→ltb}
use white_os.Base.Lists.{length, get_elem?, get_or, set, take, drop, replicate, length-append}
use Prim.Native.Nat.{ℕ, zero, suc, ◌+◌, ◌<◌}
use mathlib.Core.Path.{◌≡◌, refl, ap, ◌∙◌}
use mathlib.Core.Option.{Option, none, some}
use mathlib.Core.List.{List, [], ◌∷◌, ◌++◌}
use native.Mathlib.Omega.{arith}

infixl 5 ◌>>=◌
abbrev pub ◌>>=◌ {ℓ κ} : {A : Type ℓ} {B : Type κ} → Option A → (A → Option B) → Option B
none >>= f = none
some a >>= f = f a

module _ {ℓ} {A : Type ℓ} where
  abbrev pub store : List A → ℕ → A → Option (List A)
  store xs i v = if ltb i (length xs) then some (set xs i v) else none

  pub set-append :
      (pre : List A) (x : A) (ys : List A) (v : A)
      → set (pre ++ x ∷ ys) (length pre) v ≡ pre ++ v ∷ ys
  set-append [] x ys v = refl
  set-append (p ∷ pre) x ys v = ap (λ t. p ∷ t) (set-append pre x ys v)

  pub store-append :
      (pre : List A) (x : A) (ys : List A) (v : A) (i : ℕ)
      → length pre ≡ i
      → store (pre ++ x ∷ ys) i v ≡ some (pre ++ v ∷ ys)
  store-append pre x ys v i e = rw (← e) (
      rw (lt→ltb (length pre) (length (pre ++ x ∷ ys)) (omega (arith, length-append pre (x ∷ ys))))
        (ap some (set-append pre x ys v)))

  pub store_of_lt : (xs : List A) (i : ℕ) (v : A) → i < length xs → store xs i v ≡ some (set xs i v)
  store_of_lt xs i v h = rw (lt→ltb i (length xs) h)

  pub get_elem?-append :
      (pre : List A) (x : A) (ys : List A) (i : ℕ)
      → length pre ≡ i
      → get_elem? (pre ++ x ∷ ys) i ≡ some x
  get_elem?-append [] x ys zero e = refl
  get_elem?-append [] x ys (suc i) e = absurd (omega arith)
  get_elem?-append (p ∷ pre) x ys zero e = absurd (omega arith)
  get_elem?-append (p ∷ pre) x ys (suc i) e = get_elem?-append pre x ys i (omega arith)

  pub get_or-append_left :
      (xs ys : List A) (k : ℕ) (d : A) → k < length xs → get_or (xs ++ ys) k d ≡ get_or xs k d
  get_or-append_left [] ys k d h = absurd (omega arith)
  get_or-append_left (x ∷ xs) ys zero d h = refl
  get_or-append_left (x ∷ xs) ys (suc k) d h = get_or-append_left xs ys k d (omega arith)

  pub get_or-append_right :
      (xs ys : List A) (k : ℕ) (d : A) → get_or (xs ++ ys) (length xs + k) d ≡ get_or ys k d
  get_or-append_right [] ys k d = ap (λ i. get_or ys i d) (omega arith)
  get_or-append_right (x ∷ xs) ys k d =
      ap (λ i. get_or (x ∷ (xs ++ ys)) i d) e ∙ get_or-append_right xs ys k d
    where
      e : suc (length xs) + k ≡ suc (length xs + k)
      e = omega arith

  -- Appending one element on the right.
  pub snoc-append : (pre : List A) (x : A) (ys : List A) → (pre ++ x ∷ []) ++ ys ≡ pre ++ x ∷ ys
  snoc-append [] x ys = refl
  snoc-append (p ∷ pre) x ys = ap (λ t. p ∷ t) (snoc-append pre x ys)

  pub length-snoc : (pre : List A) (x : A) → length (pre ++ x ∷ []) ≡ length pre + 1
  length-snoc pre x = omega (arith, length-append pre (x ∷ []))

  pub get_elem?-drop :
      (xs : List A) (i : ℕ) (x : A) (r : List A) → drop i xs ≡ x ∷ r → get_elem? xs i ≡ some x
  get_elem?-drop [] zero x r e = absurd (cc)
  get_elem?-drop [] (suc i) x r e = absurd (cc)
  get_elem?-drop (y ∷ xs) zero x r e = cc
  get_elem?-drop (y ∷ xs) (suc i) x r e = get_elem?-drop xs i x r e

  pub take_self : (xs : List A) → take (length xs) xs ≡ xs
  take_self [] = refl
  take_self (x ∷ xs) = ap (λ t. x ∷ t) (take_self xs)

  pub drop_self : (xs : List A) → drop (length xs) xs ≡ []
  drop_self [] = refl
  drop_self (x ∷ xs) = drop_self xs

  pub replicate-add : (n m : ℕ) (a : A) → replicate (n + m) a ≡ replicate n a ++ replicate m a
  replicate-add zero m a = ap (λ k. replicate k a) (omega arith)
  replicate-add (suc n) m a = ap (λ k. replicate k a) e ∙ ap (λ t. a ∷ t) (replicate-add n m a)
    where
      e : suc n + m ≡ suc (n + m)
      e = omega arith

  pub get_or-set_self :
      (xs : List A) (i : ℕ) (v d : A) → i < length xs → get_or (set xs i v) i d ≡ v
  get_or-set_self [] i v d h = absurd (omega arith)
  get_or-set_self (x ∷ xs) zero v d h = refl
  get_or-set_self (x ∷ xs) (suc i) v d h = get_or-set_self xs i v d (omega arith)

  pub get_or-set_ne :
      (xs : List A) (i j : ℕ) (v d : A) → ¬ (i ≡ j) → get_or (set xs i v) j d ≡ get_or xs j d
  get_or-set_ne [] i j v d h = refl
  get_or-set_ne (x ∷ xs) zero zero v d h = absurd (h refl)
  get_or-set_ne (x ∷ xs) zero (suc j) v d h = refl
  get_or-set_ne (x ∷ xs) (suc i) zero v d h = refl
  get_or-set_ne (x ∷ xs) (suc i) (suc j) v d h = get_or-set_ne xs i j v d (λ e. h (ap suc e))

  pub get_or-snoc : (xs : List A) (x d : A) → get_or (xs ++ x ∷ []) (length xs) d ≡ x
  get_or-snoc [] x d = refl
  get_or-snoc (y ∷ xs) x d = get_or-snoc xs x d

  pub get_elem?-eq-get_or :
      (xs : List A) (i : ℕ) (d : A) → i < length xs → get_elem? xs i ≡ some (get_or xs i d)
  get_elem?-eq-get_or [] i d h = absurd (omega arith)
  get_elem?-eq-get_or (x ∷ xs) zero d h = refl
  get_elem?-eq-get_or (x ∷ xs) (suc i) d h = get_elem?-eq-get_or xs i d (omega arith)
