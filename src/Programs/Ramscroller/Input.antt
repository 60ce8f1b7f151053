-- ===== src/Programs/Ramscroller/Input.antt =====
-- A number that is typed in.
use white_os.Base.{
  ℕ, suc, ◌+◌, ◌-◌, ◌%◌, ◌<◌, ◌≡◌, refl, sym, ap, ◌∙◌, subst, ◌≢◌, inl, inr, Bool, true, false,
  ◌&&◌, Option, none, some, List, [], ◌∷◌, ◌++◌, arith, Bool-cases, Option-cases, leb, ◌==◌,
  if◌then◌else◌, length, store, drop, length-append, length-drop, length-snoc, snoc-append,
  store-append,
}
use white_os.Base.Int.{pos}
use white_os.Base.Runs.{ret, access}
use white_os.Strings.{to_int}
use white_os.Strings.Numbers.{value, AreDigits, to_int_loop_lem}
use white_os.Terminal.{Terminal, terminal_print, terminal_writechar}
use white_os.Terminal.Cursor.{IsScreen, Shows, terminal_writechar-Shows, terminal_print-Shows}
use white_os.Programs.Texts.{codes, text, NoZero-no_zero}
use white_os.Programs.Ramscroller.{Scroller, print_text, getinput_loop, getinput_number}
use white_os.Programs.Ramscroller.Draws.{IsScroller, Keeps}

abbrev pub is_digit_key : ℕ → Bool
is_digit_key key = leb 2 key && leb key 11

-- The digits that keys stand for; other keys are passed over.
abbrev pub typed : List ℕ → List ℕ
typed [] = []
typed (key ∷ keys) = if is_digit_key key then (b'0' + (key - 1) % 10) ∷ typed keys else typed keys

abbrev pub NoEnter : List ℕ → Type 0
NoEnter [] = Unit
NoEnter (key ∷ keys) = (key ≢ 28) × NoEnter keys

pub typed-AreDigits : (keys : List ℕ) → AreDigits (typed keys)
typed-AreDigits [] = tt
typed-AreDigits (key ∷ keys) = elim (Bool-cases (is_digit_key key)) [
  | inl e ↦ rw e (omega arith, omega arith, typed-AreDigits keys)
  | inr e ↦ rw e (typed-AreDigits keys)
]

-- A state with another buffer and terminal.
abbrev pub with_input : Scroller → List ℕ → Terminal → Scroller
with_input s buff t = record s { numstr_buff = buff; terminal = t }

pub getinput_loop-digit :
    (key : ℕ) (keys : List ℕ) (i : ℕ) (s : Scroller)
    → key ≢ 28
    → is_digit_key key ≡ true
    → getinput_loop (key ∷ keys) i s
      ≡ access (store s.numstr_buff i (b'0' + (key - 1) % 10)) λ buff.
        access
          (terminal_writechar s.terminal (b'0' + (key - 1) % 10))
          λ t. getinput_loop keys (i + 1) (with_input s buff t)
unfolding getinput_loop
getinput_loop-digit key keys i s n e = rw (other key n, e) refl
  where
    other : (key : ℕ) → key ≢ 28 → (key == 28) ≡ false
    other key n = ground arith

pub getinput_loop-other :
    (key : ℕ) (keys : List ℕ) (i : ℕ) (s : Scroller)
    → key ≢ 28
    → is_digit_key key ≡ false
    → getinput_loop (key ∷ keys) i s ≡ getinput_loop keys i s
unfolding getinput_loop
getinput_loop-other key keys i s n e = rw (other key n, e) refl
  where
    other : (key : ℕ) → key ≢ 28 → (key == 28) ≡ false
    other key n = ground arith

-- The buffer behind the input: the digits and the terminator over what stood there.
abbrev pub filled : (ds old : List ℕ) → List ℕ
filled ds old = ds ++ 0 ∷ drop (suc (length ds)) old

pub written :
    (t : Terminal) (c : ℕ)
    → IsScreen t
    → (t' : Terminal) × (terminal_writechar t c ≡ some t') × IsScreen t'
written t c v = elim (Option-cases (terminal_writechar t c)) [
  | inl e ↦ absurd (subst Shows e (terminal_writechar-Shows t c v))
  | inr (t', e) ↦ (t', e, subst Shows e (terminal_writechar-Shows t c v))
]

-- A call of the terminal that shows a screen.
shown : (r : Option Terminal) → Shows r → (t : Terminal) × (r ≡ some t) × IsScreen t
shown none h = absurd h
shown (some t) h = (t, refl, h)

getinput_loop-enter :
    (rest : List ℕ) (i : ℕ) (s : Scroller) (buff : List ℕ)
    → store s.numstr_buff i 0 ≡ some buff
    → IsScreen s.terminal
    → (t : Terminal) × (getinput_loop (28 ∷ rest) i s ≡ ret (with_input s buff t, rest))
      × IsScreen t
unfolding getinput_loop print_text
getinput_loop-enter rest i s buff e v =
    let (t, f, w) = shown (terminal_print s.terminal (text "\nok\n")) (
      terminal_print-Shows s.terminal (codes "\nok\n") [] (NoZero-no_zero (codes "\nok\n") refl)
        v) in
    (t, rw (e, f) refl, w)

pub typed-digit :
    (key : ℕ) (keys : List ℕ)
    → is_digit_key key ≡ true
    → typed (key ∷ keys) ≡ (b'0' + (key - 1) % 10) ∷ typed keys
typed-digit key keys e = rw e refl

pub typed-other :
    (key : ℕ) (keys : List ℕ) → is_digit_key key ≡ false → typed (key ∷ keys) ≡ typed keys
typed-other key keys e = rw e refl

getinput_loop-typed :
    (keys rest pre old : List ℕ) (i : ℕ) (s : Scroller) (t : Terminal)
    → NoEnter keys
    → length pre ≡ i
    → length (typed keys) < length old
    → IsScreen t
    → (t' : Terminal) × (getinput_loop (keys ++ 28 ∷ rest) i (with_input s (pre ++ old) t)
        ≡ ret (with_input s (pre ++ filled (typed keys) old) t', rest))
      × IsScreen t'
getinput_loop-typed keys rest pre [] i s t n e l v = absurd (omega arith)
getinput_loop-typed [] rest pre (x ∷ old) i s t n e l v =
    getinput_loop-enter rest i (with_input s (pre ++ x ∷ old) t) (pre ++ 0 ∷ old)
      (store-append pre x old 0 i e) v
getinput_loop-typed (key ∷ keys) rest pre (x ∷ old) i s t n e l v =
    elim (Bool-cases (is_digit_key key)) [
      | inl d ↦
          let (t1, w1, v1) = written t c v in
          let (t2, r, v2) =
            getinput_loop-typed keys rest (pre ++ c ∷ []) old (i + 1) s t1 n.1
              (omega (arith, length-snoc pre c)) (omega (arith, ap length (typed-digit key keys d)))
              v1 in
          (
            t2,
            getinput_loop-digit key (keys ++ 28 ∷ rest) i (with_input s (pre ++ x ∷ old) t) n.0 d
                ∙ rw (store-append pre x old c i e, w1)
                    (ap (λ xs. getinput_loop (keys ++ 28 ∷ rest) (i + 1) (with_input s xs t1))
                        (sym (snoc-append pre c old))
                      ∙ r
                      ∙ ap (λ xs. ret (with_input s xs t2, rest))
                          (snoc-append pre c (filled (typed keys) old)
                            ∙ ap (λ ds. pre ++ filled ds (x ∷ old))
                                (sym (typed-digit key keys d)))),
            v2,
          )
      | inr d ↦
          let (t2, r, v2) =
            getinput_loop-typed keys rest pre (x ∷ old) i s t n.1 e
              (omega (arith, ap length (typed-other key keys d))) v in
          (
            t2,
            getinput_loop-other key (keys ++ 28 ∷ rest) i (with_input s (pre ++ x ∷ old) t) n.0 d
                ∙ r
                ∙ ap (λ ds. ret (with_input s (pre ++ filled ds (x ∷ old)) t2, rest))
                    (sym (typed-other key keys d)),
            v2,
          )
    ]
  where
    c : ℕ
    c = b'0' + (key - 1) % 10

-- The buffer holds what is typed, and the rest of the state is in order.
pub getinput_number-filled :
    (keys rest : List ℕ) (s : Scroller)
    → NoEnter keys
    → length (typed keys) < 32
    → IsScroller s
    → (s' : Scroller) × (getinput_number (keys ++ 28 ∷ rest) s ≡ ret (s', rest))
      × (s'.numstr_buff ≡ filled (typed keys) s.numstr_buff)
      × Keeps s s'
unfolding getinput_number
getinput_number-filled keys rest s n l v =
    let (t, r, w) =
      getinput_loop-typed keys rest [] s.numstr_buff 0 s s.terminal n refl (omega (arith, v.buffer))
        v.screen in
    (
      with_input s (filled (typed keys) s.numstr_buff) t,
      r,
      refl,
      record {
        valid = record {
          screen = w;
          buffer = omega (
            arith,
            length-append (typed keys) (0 ∷ drop (suc (length (typed keys))) s.numstr_buff),
            length-drop (suc (length (typed keys))) s.numstr_buff,
            v.buffer,
          );
        };
        mem_addr_same = refl;
        heap_same = refl;
      },
    )

pub to_int-filled :
    (keys old : List ℕ) → to_int (filled (typed keys) old) ≡ some (pos (value (typed keys) 0))
unfolding to_int
to_int-filled keys old =
    to_int_loop_lem (typed keys) (drop (suc (length (typed keys))) old) 0 (typed-AreDigits keys)

-- Up to 31 digits typed in front of Enter, with any other keys between them, stand in the buffer as a
-- terminated text that `toInt` reads as their decimal value; the keys behind Enter are left, and
-- the screen, the address and the heap are in order.
pub getinput_number-to_int :
    (keys rest : List ℕ) (s : Scroller)
    → NoEnter keys
    → length (typed keys) < 32
    → IsScroller s
    → (s' : Scroller) × (getinput_number (keys ++ 28 ∷ rest) s ≡ ret (s', rest))
      × (to_int s'.numstr_buff ≡ some (pos (value (typed keys) 0)))
      × Keeps s s'
getinput_number-to_int keys rest s n l v =
    let (s', r, b, k) = getinput_number-filled keys rest s n l v in
    (
      s',
      r,
      subst (λ xs. to_int xs ≡ some (pos (value (typed keys) 0))) (sym b)
          (to_int-filled keys s.numstr_buff),
      k,
    )
