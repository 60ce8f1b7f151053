-- ===== src/Programs/Ramscroller/Typing.antt =====
-- The keys that ask for a number: Enter and the dot.
use white_os.Base.{
  ℕ, suc, ◌%◌, ◌^◌, ◌<◌, ◌≡◌, refl, sym, ap, ◌∙◌, subst, true, Option, some, List, [], ◌∷◌, ◌++◌,
  arith, length, drop, ◌>>=◌,
}
use white_os.Base.Int.{pos}
use white_os.Base.Runs.{Run, ret, access, and_then}
use white_os.Strings.{to_int}
use white_os.Strings.Hex.{hex_digits}
use white_os.Strings.Length.{NoZero}
use white_os.Strings.Numbers.{value, AreDigits}
use white_os.Terminal.{Terminal, terminal_clear, terminal_print}
use white_os.Terminal.Cursor.{Shows, terminal_print-Shows}
use white_os.Terminal.Clear.{terminal_clear-IsScreen}
use white_os.Heap.{Heap}
use white_os.Kheap.{kmalloc}
use white_os.Programs.Texts.{codes, text, no_zero, NoZero-no_zero}
use white_os.Programs.Ramscroller.{
  Scroller, with_terminal, print_text, print_buff, hex_buff, getinput_number, ask_number,
  report_malloc, test_malloc, go_to,
}
use white_os.Programs.Ramscroller.Draws.{
  IsScroller, Keeps, Draws-terminal, hex_buff_lem, print_line, NoZero-hex_digits,
}
use white_os.Programs.Ramscroller.Input.{
  typed, NoEnter, filled, typed-AreDigits, getinput_number-filled, to_int-filled,
}

AreDigits-NoZero : (ds : List ℕ) → AreDigits ds → NoZero ds
AreDigits-NoZero [] h = tt
AreDigits-NoZero (d ∷ ds) h = (omega (arith, h.0), AreDigits-NoZero ds h.2)

-- What a key leads to.
pub record Behind (s' : Scroller) (a : ℕ) (h : Heap) : Type 0 where
  pub valid : IsScroller s'
  pub at : s'.mem_addr ≡ a
  pub allocated : s'.kernel_heap ≡ h

pub access-some :
    {A : Type 0} {B : Type 0} (o : Option A) (a : A) (k : A → Run B) → o ≡ some a → access o k ≡ k a
access-some o a k e = ap (λ x. access x k) e

pub and_then-ret :
    {A : Type 0} {B : Type 0} (r : Run A) (a : A) (k : A → Run B) → r ≡ ret a → and_then r k ≡ k a
and_then-ret r a k e = ap (λ x. and_then x k) e

-- A number is asked for and typed in.
ask_number-typed :
    (question ks rest : List ℕ) (s : Scroller)
    → no_zero question ≡ true
    → NoEnter ks
    → length (typed ks) < 32
    → IsScroller s
    → (s' : Scroller) × (old : List ℕ) × (ask_number (question ++ 0 ∷ []) (ks ++ 28 ∷ rest) s
        ≡ ret (pos (value (typed ks) 0), s', rest))
      × (s'.numstr_buff ≡ filled (typed ks) old)
      × Keeps s s'
unfolding ask_number
ask_number-typed question ks rest s q n l v =
    let (t, e, w) = terminal_clear-IsScreen s.terminal v.screen in
    let (s1, e1, k1) =
      print_line (with_terminal s t) question q (record { screen = w; buffer = v.buffer }) in
    let (s2, e2, b2, k2) = getinput_number-filled ks rest s1 n l k1.valid in
    (
      s2,
      s1.numstr_buff,
      access-some (terminal_clear s.terminal) t _ e
          ∙ access-some (print_text (with_terminal s t) (question ++ 0 ∷ [])) s1 _ e1
          ∙ and_then-ret (getinput_number (ks ++ 28 ∷ rest) s1) (s2, rest) _ e2
          ∙ access-some (to_int s2.numstr_buff) (pos (value (typed ks) 0)) _ (
              subst (λ xs. to_int xs ≡ some (pos (value (typed ks) 0))) (sym b2)
                (to_int-filled ks s1.numstr_buff)),
      b2,
      record {
        valid = k2.valid;
        mem_addr_same = k2.mem_addr_same ∙ k1.mem_addr_same;
        heap_same = k2.heap_same ∙ k1.heap_same;
      },
    )

pub go_to-typed :
    (ks rest : List ℕ) (s : Scroller)
    → NoEnter ks
    → length (typed ks) < 32
    → IsScroller s
    → (s' : Scroller) × (go_to (ks ++ 28 ∷ rest) s ≡ ret (s', rest))
      × Behind s' (value (typed ks) 0 % 2 ^ 32) s.kernel_heap
unfolding go_to
go_to-typed ks rest s n l v =
    let (s1, old, e, b, k) =
      ask_number-typed (codes "Go to (decimal) memory addr: ") ks rest s refl n l v in
    (
      record s1 { mem_addr = value (typed ks) 0 % 2 ^ 32 },
      and_then-ret (ask_number (text "Go to (decimal) memory addr: ") (ks ++ 28 ∷ rest) s)
          (pos (value (typed ks) 0), s1, rest) _ e,
      record {
        valid = record { screen = k.valid.screen; buffer = k.valid.buffer };
        at = refl;
        allocated = k.heap_same;
      },
    )

abbrev Ends : Option Scroller → (a : ℕ) → Heap → Type 0
Ends r a h = (s' : Scroller) × (r ≡ some s') × Behind s' a h

-- A printed literal, and the printed buffer.
print_text-then :
    (s : Scroller) (cs : List ℕ) (next : Scroller → Option Scroller) (a : ℕ) (h : Heap)
    → no_zero cs ≡ true
    → IsScroller s
    → ((t : Terminal) → IsScroller (with_terminal s t) → Ends (next (with_terminal s t)) a h)
    → Ends (print_text s (cs ++ 0 ∷ []) >>= next) a h
unfolding print_text
print_text-then s cs next a h z v f =
    let (t, e, k) =
      Draws-terminal s (terminal_print s.terminal (cs ++ 0 ∷ [])) v
        (terminal_print-Shows s.terminal cs [] (NoZero-no_zero cs z) v.screen) in
    let (u, e', w) = f t k.valid in
    (u, ap (λ r. (r >>= λ t. some (with_terminal s t)) >>= next) e ∙ e', w)

print_buff-then :
    (s : Scroller) (cs rest : List ℕ) (next : Scroller → Option Scroller) (a : ℕ) (h : Heap)
    → s.numstr_buff ≡ cs ++ 0 ∷ rest
    → NoZero cs
    → IsScroller s
    → ((t : Terminal) → IsScroller (with_terminal s t) → Ends (next (with_terminal s t)) a h)
    → Ends (print_buff s >>= next) a h
unfolding print_buff
print_buff-then s cs rest next a h b z v f =
    let (t, e, k) = Draws-terminal s (terminal_print s.terminal s.numstr_buff) v (
      subst (λ xs. Shows (terminal_print s.terminal xs)) (sym b)
        (terminal_print-Shows s.terminal cs rest z v.screen)) in
    let (u, e', w) = f t k.valid in
    (u, ap (λ r. (r >>= λ t. some (with_terminal s t)) >>= next) e ∙ e', w)

-- The part of `report_malloc` behind the allocation.
abbrev shown_address : ℕ → Scroller → Option Scroller
shown_address ptr s = do
  s4 ← hex_buff s ptr
  s5 ← print_text s4 (text "Allocated memory on address: ")
  s6 ← print_buff s5
  print_text s6 (text "\nPress key to continue\n")

shown_address-Ends :
    (ptr : ℕ) (s : Scroller)
    → ptr < 2 ^ 32
    → IsScroller s
    → Ends (shown_address ptr s) s.mem_addr s.kernel_heap
shown_address-Ends ptr s p v =
    let (s4, e4, k4, b4) = hex_buff_lem s ptr p v in
    let (u, e, w) =
      print_text-then s4 (codes "Allocated memory on address: ") _ s.mem_addr s.kernel_heap refl
        k4.valid
        λ t v5.
          print_buff-then (with_terminal s4 t) (b'0' ∷ b'x' ∷ hex_digits 8 ptr)
            (drop 11 s.numstr_buff) _ s.mem_addr s.kernel_heap b4
            (omega arith, (omega arith, NoZero-hex_digits 8 ptr)) v5
            λ t' v6.
              let (u, e, k) =
                print_line (with_terminal s4 t') (codes "\nPress key to continue\n") refl v6 in
              (
                u,
                e,
                record {
                  valid = k.valid;
                  at = k.mem_addr_same ∙ k4.mem_addr_same;
                  allocated = k.heap_same ∙ k4.heap_same;
                },
              ) in
    (
      u,
      ap
            (λ r. r >>= λ s4. print_text s4 (text "Allocated memory on address: ") >>= λ s5.
              print_buff s5 >>= λ s6. print_text s6 (text "\nPress key to continue\n"))
            e4
          ∙ e,
      w,
    )

-- The answer is printed; only the heap changes.
report_malloc-Ends :
    (ks old : List ℕ) (ptr : ℕ) (h1 : Heap) (s : Scroller)
    → s.numstr_buff ≡ filled (typed ks) old
    → kmalloc s.kernel_heap (value (typed ks) 0 % 2 ^ 32) ≡ some (ptr, h1)
    → ptr < 2 ^ 32
    → IsScroller s
    → Ends (report_malloc (pos (value (typed ks) 0)) s) s.mem_addr h1
unfolding report_malloc
report_malloc-Ends ks old ptr h1 s b m p v =
    print_text-then s (codes "\nAllocating ") _ s.mem_addr h1 refl v λ t1 v1.
      print_buff-then (with_terminal s t1) (typed ks) (drop (suc (length (typed ks))) old) _
        s.mem_addr h1 b (AreDigits-NoZero (typed ks) (typed-AreDigits ks)) v1
        λ t2 v2.
          print_text-then (with_terminal s t2) (codes " bytes\n") _ s.mem_addr h1 refl v2 λ t3 v3.
            let (u, e, w) =
              shown_address-Ends ptr (record s { terminal = t3; kernel_heap = h1 }) p
                (record { screen = v3.screen; buffer = v3.buffer }) in
            (
              u,
              ap
                    (λ r. r >>= λ (ptr', heap).
                      shown_address ptr' (record s { terminal = t3; kernel_heap = heap }))
                    m
                  ∙ e,
              w,
            )

pub test_malloc-typed :
    (ks rest : List ℕ) (down up ptr : ℕ) (h1 : Heap) (s : Scroller)
    → NoEnter ks
    → length (typed ks) < 32
    → kmalloc s.kernel_heap (value (typed ks) 0 % 2 ^ 32) ≡ some (ptr, h1)
    → ptr < 2 ^ 32
    → IsScroller s
    → (s' : Scroller) × (test_malloc (ks ++ 28 ∷ down ∷ up ∷ rest) s ≡ ret (s', rest))
      × Behind s' s.mem_addr h1
unfolding test_malloc
test_malloc-typed ks rest down up ptr h1 s n l m p v =
    let (s1, old, e, b, k) =
      ask_number-typed (codes "How many bytes to allocate: ") ks (down ∷ up ∷ rest) s refl n l v in
    let (s2, e2, w) =
      report_malloc-Ends ks old ptr h1 s1 b
        (ap (λ h. kmalloc h (value (typed ks) 0 % 2 ^ 32)) k.heap_same ∙ m) p k.valid in
    (
      s2,
      and_then-ret
            (ask_number (text "How many bytes to allocate: ") (ks ++ 28 ∷ down ∷ up ∷ rest) s)
            (pos (value (typed ks) 0), s1, down ∷ up ∷ rest) _ e
          ∙ access-some (report_malloc (pos (value (typed ks) 0)) s1) s2 _ e2,
      record { valid = w.valid; at = w.at ∙ k.mem_addr_same; allocated = w.allocated },
    )
