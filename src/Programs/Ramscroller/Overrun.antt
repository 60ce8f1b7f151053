-- ===== src/Programs/Ramscroller/Overrun.antt =====
-- More digits than `numstr_buff` has room for.
use white_os.Base.{
  ℕ, ◌+◌, ◌-◌, ◌%◌, ◌≤◌, ◌≡◌, refl, sym, ap, ◌∙◌, inl, inr, none, List, [], ◌∷◌, ◌++◌, arith,
  Bool-cases, length, store, length-append, length-snoc, snoc-append, store-append,
}
use white_os.Base.Runs.{fault, access}
use white_os.Terminal.{Terminal, terminal_writechar}
use white_os.Terminal.Cursor.{IsScreen}
use white_os.Programs.Ramscroller.{Scroller, getinput_loop, getinput_number}
use white_os.Programs.Ramscroller.Draws.{IsScroller}
use white_os.Programs.Ramscroller.Input.{
  is_digit_key, typed, NoEnter, with_input, getinput_loop-digit, getinput_loop-other, written,
  typed-digit, typed-other,
}

store-past : (xs : List ℕ) (i v : ℕ) → length xs ≤ i → store xs i v ≡ none
store-past xs i v h = ground arith

getinput_loop-past :
    (rest : List ℕ) (i : ℕ) (s : Scroller)
    → length s.numstr_buff ≤ i
    → getinput_loop (28 ∷ rest) i s ≡ fault
unfolding getinput_loop
getinput_loop-past rest i s h = rw (store-past s.numstr_buff i 0 h) refl

-- A digit is written past the buffer, or the keys behind it are.
digit_overrun :
    (keys pre old : List ℕ) (i c : ℕ) (s : Scroller) (t : Terminal)
    → length pre ≡ i
    → IsScreen t
    → ((x : ℕ) (old' : List ℕ) (t' : Terminal)
        → IsScreen t'
        → old ≡ x ∷ old'
        → getinput_loop keys (i + 1) (with_input s ((pre ++ c ∷ []) ++ old') t') ≡ fault)
    → (access (store (pre ++ old) i c) λ buff.
        access (terminal_writechar t c) λ t'. getinput_loop keys (i + 1) (with_input s buff t'))
      ≡ fault
digit_overrun keys pre [] i c s t e v f =
    rw (store-past (pre ++ []) i c (omega (arith, length-append pre []))) refl
digit_overrun keys pre (x ∷ old) i c s t e v f =
    let (t1, w1, v1) = written t c v in
    rw (store-append pre x old c i e, w1)
      (ap (λ xs. getinput_loop keys (i + 1) (with_input s xs t1)) (sym (snoc-append pre c old))
        ∙ f x old t1 v1 refl)

getinput_loop-overrun :
    (keys rest pre old : List ℕ) (i : ℕ) (s : Scroller) (t : Terminal)
    → NoEnter keys
    → length pre ≡ i
    → length old ≤ length (typed keys)
    → IsScreen t
    → getinput_loop (keys ++ 28 ∷ rest) i (with_input s (pre ++ old) t) ≡ fault
getinput_loop-overrun [] rest pre (x ∷ old) i s t n e l v = absurd (omega arith)
getinput_loop-overrun [] rest pre [] i s t n e l v =
    getinput_loop-past rest i (with_input s (pre ++ []) t) (omega (arith, length-append pre []))
getinput_loop-overrun (key ∷ keys) rest pre old i s t n e l v =
    elim (Bool-cases (is_digit_key key)) [
      | inl d ↦
          getinput_loop-digit key (keys ++ 28 ∷ rest) i (with_input s (pre ++ old) t) n.0 d
          ∙ digit_overrun (keys ++ 28 ∷ rest) pre old i c s t e v (λ x old' t' w f.
            getinput_loop-overrun keys rest (pre ++ c ∷ []) old' (i + 1) s t' n.1
              (omega (arith, length-snoc pre c))
              (omega (arith, ap length (typed-digit key keys d), ap length f)) w)
      | inr d ↦
          getinput_loop-other key (keys ++ 28 ∷ rest) i (with_input s (pre ++ old) t) n.0 d
          ∙ getinput_loop-overrun keys rest pre old i s t n.1 e
              (omega (arith, ap length (typed-other key keys d))) v
    ]
  where
    c : ℕ
    c = b'0' + (key - 1) % 10

-- From 32 digits on, in front of Enter and with any other keys between them, the digits or the
-- terminator are written past the 32 bytes of the buffer.
pub getinput_number-overrun :
    (keys rest : List ℕ) (s : Scroller)
    → NoEnter keys
    → 32 ≤ length (typed keys)
    → IsScroller s
    → getinput_number (keys ++ 28 ∷ rest) s ≡ fault
unfolding getinput_number
getinput_number-overrun keys rest s n l v =
    getinput_loop-overrun keys rest [] s.numstr_buff 0 s s.terminal n refl (omega (arith, v.buffer))
      v.screen
